-- ===== src/Sim/Round/Sweeps.antt =====
-- A fair order of the turns, in which a committee ends.
use frustum.Prelude.{
  ℕ, zero, suc, ◌+◌, ◌*◌, ◌≤◌, ◌<◌, ◌≡◌, inl, inr, refl, subst, ◌∙◌, List, [], ◌∷◌, ◌++◌, arith,
  length, In, here, there, true,
}
use native.Mathlib.Decide.{ℕ_discrete}
use frustum.Prelude.Outcome.{Outcome, ok, panic, blocked, ◌>>=◌, >>=-eq-ok, ok-injective}
use frustum.Prelude.Slices.{get_elem, sum-le_mul}
use frustum.Sim.{Flags, Node}
use frustum.Sim.Round.{Stage, Round, final_commit_cap, new_round, turn, turns, Reach, start, later}
use frustum.Sim.Round.Invariant.{Inv, AllFresh, new_round-Inv}
use frustum.Sim.Round.Progress.{IsIdle, left, left_of}
use frustum.Sim.Round.Turns.{turns-cases}
use frustum.Sim.Round.Finish.{ended, honest_num, idle-ended}

-- One turn of each of the first `n` members.
abbrev pub sweep : ℕ → List ℕ
sweep zero = []
sweep (suc n) = n ∷ sweep n

abbrev pub sweeps : ℕ → ℕ → List ℕ
sweeps zero n = []
sweeps (suc k) n = sweep n ++ sweeps k n

pub sweep-lt : (n : ℕ) (id : ℕ) → In id (sweep n) → id < n
sweep-lt zero id h = elim h [ ]
sweep-lt (suc n) _ here = omega arith
sweep-lt (suc n) id (there h) = omega (arith, sweep-lt n id h)

In-sweep : (n id : ℕ) → id < n → In id (sweep n)
In-sweep zero id h = absurd (omega arith)
In-sweep (suc n) id h = elim (ℕ_discrete id n) [
  | yes last ↦ rw last here
  | no before ↦ there (In-sweep n id (omega arith))
]

bind-after :
    {A B C : Type 0} (call : Outcome A) (f : A → Outcome C) (g : A → Outcome B) (h : B → Outcome C)
    → ((a : A) → f a ≡ (g a >>= h))
    → (call >>= f) ≡ ((call >>= g) >>= h)
bind-after (ok a) f g h e = e a
bind-after panic f g h e = refl
bind-after blocked f g h e = refl

left_of-le : (flags : Flags) (p : Stage) → left_of flags p ≤ 2 * flags.n_per_commitee + 6
left_of-le flags p = ground arith

module _ (flags : Flags) (draws : ℕ → ℕ) where
  turns-append :
      (front back : List ℕ) (s : Round)
      → turns flags draws (front ++ back) s ≡ (turns flags draws front s >>= turns flags draws back)
  unfolding turns
  turns-append [] back s = refl
  turns-append (id ∷ front) back s =
      bind-after (turn flags draws id s) (turns flags draws (front ++ back))
        (turns flags draws front) (turns flags draws back) (turns-append front back)

  idle_sweeps :
      (k : ℕ) (s : Round)
      → IsIdle flags draws s
      → turns flags draws (sweeps k flags.n_per_commitee) s ≡ ok s
  unfolding turns
  idle_sweeps zero s idle = refl
  idle_sweeps (suc k) s idle =
      turns-append (sweep flags.n_per_commitee) (sweeps k flags.n_per_commitee) s
      ∙ rw (once flags.n_per_commitee (omega arith)) (idle_sweeps k s idle)
    where
      once : (n : ℕ) → n ≤ flags.n_per_commitee → turns flags draws (sweep n) s ≡ ok s
      once zero le = refl
      once (suc n) le = rw (idle n (omega arith)) (once n (omega arith))

  pub turns-Reach :
      {nodes : List Node} (ids : List ℕ) {s t : Round}
      → Reach flags draws nodes s
      → turns flags draws ids s ≡ ok t
      → Reach flags draws nodes t
  unfolding turns
  turns-Reach {nodes} [] r e = subst (Reach flags draws nodes) (ok-injective e) r
  turns-Reach (id ∷ ids) {s} r e =
      let (u, first, rest) = >>=-eq-ok (turn flags draws id s) _ e in
      turns-Reach ids (later id r first) rest

  module _ {nodes : List Node} (room : flags.n_per_commitee ≤ length nodes) where
    -- Enough sweeps lead to a state in which no turn changes anything.
    sweeps-IsIdle :
        (k : ℕ) {s : Round}
        → Inv flags nodes s
        → left flags s < k
        → (t : Round) × (turns flags draws (sweeps k flags.n_per_commitee) s ≡ ok t)
          × IsIdle flags draws t
    sweeps-IsIdle zero inv lt = absurd (omega arith)
    sweeps-IsIdle (suc k) {s} inv lt =
        let (u, e, kept, why) =
          turns-cases flags draws room (sweep flags.n_per_commitee) (sweep-lt flags.n_per_commitee)
            inv in
        let split = turns-append (sweep flags.n_per_commitee) (sweeps k flags.n_per_commitee) s in
        elim why [
          | inl (same, still) ↦ (
            s,
            split
                ∙ rw (e, same)
                    (idle_sweeps k s (λ i h. still i (In-sweep flags.n_per_commitee i h))),
            λ i h. still i (In-sweep flags.n_per_commitee i h),
          )
          | inr less ↦
              let (t, et, idle) = sweeps-IsIdle k kept (omega arith) in (t, split ∙ rw e et, idle)
        ]

  -- The counts of a committee start at zero, it has at least n_per_commitee nodes (1000 at most), and
  -- among the first n_per_commitee more than 2 * totalF are honest. Then its members end: after
  -- n_per_commitee * (2 * n_per_commitee + 6) + 1 rounds of one turn each, or more, no panic has
  -- occurred, each of them has told PBFT or was faulty and returned early, and finalCommit holds more
  -- than 2 * totalF messages.
  pub sweeps_finish :
      (nodes : List Node) (k : ℕ)
      → AllFresh nodes
      → flags.n_per_commitee ≤ length nodes
      → flags.n_per_commitee ≤ final_commit_cap
      → 2 * flags.total_f < honest_num flags nodes
      → flags.n_per_commitee * (2 * flags.n_per_commitee + 6) < k
      → (t : Round) × (turns flags draws (sweeps k flags.n_per_commitee) (new_round flags nodes)
          ≡ ok t)
        × ((i : ℕ) (p : Stage) → get_elem i t.stages ≡ ok p → ended p ≡ true)
        × (2 * flags.total_f < t.final_commit)
  sweeps_finish nodes k fresh room small enough lots =
      let (t, e, idle) = sweeps-IsIdle room k inv (omega (arith, lots, bound)) in
      let (all, told) =
        idle-ended flags draws nodes fresh room small enough
          (turns-Reach (sweeps k flags.n_per_commitee) start e) idle in
      (t, e, all, omega (arith, told, enough))
    where
      inv : Inv flags nodes (new_round flags nodes)
      inv = new_round-Inv flags nodes fresh

      bound :
          left flags (new_round flags nodes) ≤ flags.n_per_commitee * (2 * flags.n_per_commitee + 6)
      bound =
          subst (λ n. left flags (new_round flags nodes) ≤ n * (2 * flags.n_per_commitee + 6))
            inv.members
            (sum-le_mul (left_of flags) (2 * flags.n_per_commitee + 6)
              (new_round flags nodes).stages (left_of-le flags))
