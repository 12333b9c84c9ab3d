-- ===== src/Sim/Rounds/Drain.antt =====
-- The whole of main in the simulations of myBlockChain: when its loop can end.
use frustum.Prelude.{
  ◌≢◌, ℕ, zero, suc, ◌+◌, ◌*◌, ◌%◌, ◌≡◌, ap, subst, ◌∙◌, List, [], ◌∷◌, ◌++◌, arith, length,
  append-nil,
}
use native.Mathlib.Nat.{suc-mul, mul-mod_left, mul_assoc}
use frustum.Prelude.Outcome.{Outcome}
use frustum.Prelude.Ensures.{Ensures, returns, Ensures-bind_with, Ensures-mono}
use frustum.Sim.{Flags, Transaction}
use frustum.Sim.Setup.{SimEnv}
use frustum.Sim.Pbft.{Sim}
use frustum.Sim.Rounds.{
  Plan, elastico, ss_pbft, frustum_round, main_loop, unless_empty, Folder, frustum_folder,
  elastico_folder, ss_pbft_folder, time_folder, round_of, run_main,
}
use frustum.Sim.Rounds.Blocks.{all_txs, Fills, Fills-none, Fills-trans, length-all_txs}
use frustum.Sim.Rounds.Taking.Folders.{
  elastico-Fills, time-Fills, ss_pbft-Fills, frustum_round-Fills,
}

-- Some number of whole rounds.
abbrev pub Drained : ℕ → ℕ → Sim → Sim → Type 0
Drained share per_round s t = (rounds : ℕ) × Fills share (rounds * per_round) s t

main_loop-Drained :
    {share per_round : ℕ} (round : ℕ → Sim → Outcome Sim)
    → ((k : ℕ) (s : Sim) → Ensures (Fills share per_round s) (round k s))
    → (k : ℕ) (s : Sim) → Ensures (Drained share per_round s) (main_loop round k s)
unfolding main_loop unless_empty
main_loop-Drained {share} {per_round} round each zero s =
    returns (0, subst (λ n. Fills share n s s) (none per_round) (Fills-none s))
  where
    none : (n : ℕ) → 0 ≡ 0 * n
    none n = omega arith
main_loop-Drained {share} {per_round} round each (suc k) s = split s.tx_list (
    Ensures-bind_with (round k s) (each k s) λ t first.
      Ensures-mono (main_loop round k t) (main_loop-Drained round each k t) λ u rest. (
        suc rest.0,
        subst (λ n. Fills share n s u) (next rest.0 per_round) (Fills-trans first rest.1),
      ))
  where
    none : (n : ℕ) → 0 ≡ 0 * n
    none n = omega arith

    next : (m n : ℕ) → n + m * n ≡ suc m * n
    next m n = grind (arith, suc-mul m n)

    split :
        (pool : List Transaction) {rest : Outcome Sim}
        → Ensures (Drained share per_round s) rest
        → Ensures (Drained share per_round s) (unless_empty pool s rest)
    split [] h = returns (0, subst (λ n. Fills share n s s) (none per_round) (Fills-none s))
    split (x ∷ pool) h = h

-- A pool that has been emptied was a multiple of what a round takes.
whole_rounds :
    (share per_round : ℕ) {s t : Sim}
    → Drained share per_round s t
    → t.tx_list ≡ []
    → length s.tx_list % (per_round * share) ≡ 0
whole_rounds share per_round {s} {t} (rounds, f) empty =
    ap (λ n. n % (per_round * share)) total ∙ mul-mod_left rounds (per_round * share)
  where
    total : length s.tx_list ≡ rounds * (per_round * share)
    total =
        ap length (f.contents ∙ ap (◌++◌ (all_txs f.blocks)) empty ∙ append-nil (all_txs f.blocks))
        ∙ length-all_txs share f.blocks f.sizes
        ∙ ap (λ n. n * share) f.number
        ∙ mul_assoc rounds per_round share

-- The transactions of a block, and the blocks of a round.
abbrev pub share_of : Folder → Flags → ℕ
share_of ss_pbft_folder flags = 10
share_of _ flags = flags.tx_per_block

abbrev pub blocks_of : Folder → Flags → ℕ
blocks_of time_folder flags = 1
blocks_of _ flags = flags.commit_num

abbrev pub AllCommittees : Flags → (ℕ → Plan) → Type 0
AllCommittees flags plans = (k : ℕ) → length (plans k).order ≡ flags.commit_num

round_of-Fills :
    (folder : Folder) (flags : Flags) (env : SimEnv) (plan : Plan)
    → length plan.order ≡ flags.commit_num
    → (s : Sim)
    → Ensures
        (Fills (share_of folder flags) (blocks_of folder flags) s)
        (round_of folder flags env plan s)
unfolding round_of
round_of-Fills frustum_folder flags env plan e s =
    subst (λ n. Ensures (Fills flags.tx_per_block n s) (frustum_round flags env plan s)) e
      (frustum_round-Fills flags env plan s)
round_of-Fills elastico_folder flags env plan e s =
    subst (λ n. Ensures (Fills flags.tx_per_block n s) (elastico flags env plan s)) e
      (elastico-Fills flags env plan s)
round_of-Fills ss_pbft_folder flags env plan e s =
    subst (λ n. Ensures (Fills 10 n s) (ss_pbft flags env plan s)) e
      (ss_pbft-Fills flags env plan s)
round_of-Fills time_folder flags env plan e s = time-Fills flags env plan s

-- For the orders of the goroutines in which the PBFTs of a round, which elastico and SS-PBFT start with
-- `go`, run one after another, each to its end before the next begins, and no increment of a count in
-- them is interrupted; in other orders two PBFTs may take the same transactions and the same last
-- block. (In time there is one PBFT in a round.) In each round a PBFT runs in each of the commitNum
-- committees (in time, in one). When the loop of main of the folder elastico, SS-PBFT or time returns,
-- after any number of rounds, then what the pool has lost stands, in order, in the blocks that were
-- appended to the chain; these are linked by hash and numbered, are those of a whole number of rounds,
-- commitNum each (in time one), and have txPerBlock transactions each (in SS-PBFT ten).
pub run_main-Drained :
    (folder : Folder) (flags : Flags) (env : SimEnv) (plans : ℕ → Plan)
    → folder ≢ frustum_folder
    → AllCommittees flags plans
    → (k : ℕ) (s : Sim)
    → Ensures
        (Drained (share_of folder flags) (blocks_of folder flags) s)
        (run_main folder flags env plans k s)
unfolding run_main
run_main-Drained folder flags env plans apart all k s =
    main_loop-Drained (λ j. round_of folder flags env (plans j))
      (λ j t. round_of-Fills folder flags env (plans j) (all j) t) k s
