-- ===== src/Sim/Rounds/Live/Loop.antt =====
-- That main of elastico in myBlockChain ends.
use frustum.Prelude.{ℕ, zero, suc, ◌*◌, ◌<◌, ◌≡◌, refl, ap, List, [], ◌∷◌, Bool, arith, length, In}
use native.Mathlib.Nat.{suc-mul}
use frustum.Prelude.Outcome.{Outcome, ok}
use frustum.Sim.{Flags, Transaction}
use frustum.Sim.Setup.{SimEnv}
use frustum.Sim.Setup.Room.{honest_seats}
use frustum.Sim.Pbft.{Sim}
use frustum.Sim.Rounds.{
  Plan, elastico, main_loop, unless_empty, elastico_folder, round_of, run_main,
}
use frustum.Sim.Rounds.Drain.{AllCommittees, Drained, run_main-Drained}
use frustum.Prelude.Ensures.{Ensures-ok}
use frustum.Sim.Rounds.Live.{Fits, Fair, Ready}
use frustum.Sim.Rounds.Live.OneRound.{elastico_returns}

length-none : (xs : List Transaction) → length xs ≡ 0 → xs ≡ []
length-none [] h = refl
length-none (x ∷ xs) h = absurd (omega arith)

unless_ends :
    (pool : List Transaction) (s : Sim) {rest : Outcome Sim}
    → s.tx_list ≡ pool
    → (t : Sim) × (rest ≡ ok t) × (t.tx_list ≡ [])
    → (t : Sim) × (unless_empty pool s rest ≡ ok t) × (t.tx_list ≡ [])
unfolding unless_empty
unless_ends [] s e h = (s, refl, e)
unless_ends (x ∷ pool) s e h = h

module _ (flags : Flags) (fits : Fits flags) (env : SimEnv) (hs : List Bool) where
  elastico_loop :
      (plans : ℕ → Plan)
      → AllCommittees flags plans
      → ((k c : ℕ) → c < flags.commit_num → Fair flags ((plans k).calls c))
      → ((k c : ℕ) → In c (plans k).order → c < flags.commit_num)
      → ((c : ℕ) → c < flags.commit_num → 2 * flags.total_f < honest_seats flags c hs)
      → (k : ℕ) (s : Sim) → Ready flags hs s
      → length s.tx_list ≡ k * (flags.commit_num * flags.tx_per_block)
      → (t : Sim) × (main_loop (λ j. elastico flags env (plans j)) k s ≡ ok t) × (t.tx_list ≡ [])
  unfolding main_loop
  elastico_loop plans all fair below lots zero s ready exact =
      (s, refl, length-none s.tx_list (omega (arith, exact)))
  elastico_loop plans all fair below lots (suc k) s ready exact =
      let whole : length (plans k).order * flags.tx_per_block
          ≡ flags.commit_num * flags.tx_per_block =
        ap (λ n. n * flags.tx_per_block) (all k) in
      let (t, e, next, taken) =
        elastico_returns flags fits env hs (plans k) s (fair k) lots (below k) ready
          (omega (arith, exact, whole, suc-mul k (flags.commit_num * flags.tx_per_block))) in
      let (u, rest, empty) =
        elastico_loop plans all fair below lots k t next
          (omega (arith, exact, whole, taken, suc-mul k (flags.commit_num * flags.tx_per_block))) in
      unless_ends s.tx_list s refl (u, rw e rest, empty)

  -- The arguments of main of elastico fit (there are committees, of n_per_commitee nodes at least and
  -- 1000 at most), in each committee more than 2 * totalF of the members that run receivePre are
  -- honest, and in each round all the committees run, with a fair order of the turns of their
  -- members. Then main ends: from a state with more than n nodes and a chain, and a pool of as many
  -- transactions as k rounds take, k rounds return, the pool is empty after them, and the blocks that
  -- were appended to the chain, linked and numbered, hold the transactions in order.
  pub elastico_main_ends :
      (plans : ℕ → Plan)
      → AllCommittees flags plans
      → ((k c : ℕ) → c < flags.commit_num → Fair flags ((plans k).calls c))
      → ((k c : ℕ) → In c (plans k).order → c < flags.commit_num)
      → ((c : ℕ) → c < flags.commit_num → 2 * flags.total_f < honest_seats flags c hs)
      → (k : ℕ) (s : Sim) → Ready flags hs s
      → length s.tx_list ≡ k * (flags.commit_num * flags.tx_per_block)
      → (t : Sim) × (run_main elastico_folder flags env plans k s ≡ ok t)
        × (t.tx_list ≡ [])
        × Drained flags.tx_per_block flags.commit_num s t
  unfolding run_main round_of
  elastico_main_ends plans all fair below lots k s ready exact =
      let (t, e, empty) = elastico_loop plans all fair below lots k s ready exact in
      (
        t,
        e,
        empty,
        Ensures-ok (run_main-Drained elastico_folder flags env plans (λ x. cc) all k s) e,
      )
