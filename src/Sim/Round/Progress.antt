-- ===== src/Sim/Round/Progress.antt =====
-- That the turns of a committee come to an end: each turn that changes anything uses up one of the
-- accesses that the members have left.
use frustum.Prelude.{ℕ, suc, ◌+◌, ◌-◌, ◌*◌, ◌≤◌, ◌<◌, ◌≡◌, ◌⊎◌, inl, inr, refl, arith}
use frustum.Prelude.Outcome.{ok}
use frustum.Prelude.Slices.{get_elem, set_elem, sum, sum-set_elem}
use frustum.Sim.{Flags, Node}
use frustum.Sim.Round.{
  Stage, starting, silent, preparing, await_prepare, committing, await_commit, signed, finished,
  Round, final_commit_cap, turn,
}
use frustum.Sim.Round.Step.{
  Step, stays_silent, stays_finished, stays_waiting, stays_voting, stays_full, drops, joins,
  prepares, prepared_all, passes, commits, committed_all, signs, sends, turn-Step,
}

-- The accesses that a member has left.
abbrev pub left_of : Flags → Stage → ℕ
left_of flags starting = 2 * flags.n_per_commitee + 6
left_of flags silent = 0
left_of flags (preparing i) = flags.n_per_commitee - i + flags.n_per_commitee + 5
left_of flags await_prepare = flags.n_per_commitee + 4
left_of flags (committing i) = flags.n_per_commitee - i + 3
left_of flags await_commit = 2
left_of flags signed = 1
left_of flags finished = 0

abbrev pub left : Flags → Round → ℕ
left flags s = sum (left_of flags) s.stages

-- Why a turn changes nothing.
pub data Stays (flags : Flags) (id : ℕ) (s : Round) : Stage → Type 0 where
  is_silent : Stays flags id s silent
  is_finished : Stays flags id s finished
  waiting :
      {m : Node}
      → get_elem id s.nodes ≡ ok m
      → m.prepare_num ≤ 2 * flags.total_f
      → Stays flags id s await_prepare
  voting :
      {m : Node}
      → get_elem id s.nodes ≡ ok m
      → m.commit_num ≤ 2 * flags.total_f
      → Stays flags id s await_commit
  full : final_commit_cap ≤ s.final_commit → Stays flags id s signed

module _ (flags : Flags) (id : ℕ) (s : Round) where
  less :
      {p : Stage} (q : Stage)
      → get_elem id s.stages ≡ ok p
      → left_of flags q < left_of flags p
      → sum (left_of flags) (set_elem id q s.stages) < left flags s
  less {p} q at lt = omega (arith, sum-set_elem (left_of flags) id q p s.stages at)

  Step-cases :
      {p : Stage} {t : Round}
      → get_elem id s.stages ≡ ok p
      → Step flags id s p t
      → ((t ≡ s) × Stays flags id s p) ⊎ (left flags t < left flags s)
  Step-cases at stays_silent = inl (refl, is_silent)
  Step-cases at stays_finished = inl (refl, is_finished)
  Step-cases at (stays_waiting c g) = inl (refl, waiting c g)
  Step-cases at (stays_voting c g) = inl (refl, voting c g)
  Step-cases at (stays_full g) = inl (refl, full g)
  Step-cases at (drops c g) = inr (less silent at (omega arith))
  Step-cases at joins = inr (less (preparing 0) at (omega arith))
  Step-cases at (prepares {i} g c) = inr (less (preparing (suc i)) at (omega arith))
  Step-cases at (prepared_all g) = inr (less await_prepare at (omega arith))
  Step-cases at (passes c g) = inr (less (committing 0) at (omega arith))
  Step-cases at (commits {i} g c) = inr (less (committing (suc i)) at (omega arith))
  Step-cases at (committed_all g) = inr (less await_commit at (omega arith))
  Step-cases at (signs c g) = inr (less signed at (omega arith))
  Step-cases at (sends g) = inr (less finished at (omega arith))

-- No member's turn changes anything.
abbrev pub IsIdle : Flags → (ℕ → ℕ) → Round → Type 0
IsIdle flags draws s = (id : ℕ) → id < flags.n_per_commitee → turn flags draws id s ≡ ok s

module _ (flags : Flags) (draws : ℕ → ℕ) where
  pub turn-cases :
      (id : ℕ) (s : Round) {t : Round}
      → turn flags draws id s ≡ ok t
      → (t ≡ s) ⊎ (left flags t < left flags s)
  turn-cases id s e =
      let (p, at, step) = turn-Step flags draws id s e in
      elim (Step-cases flags id s at step) [ inl (same, _) ↦ inl same | inr lt ↦ inr lt ]

  pub idle-Stays :
      (id : ℕ) (s : Round)
      → turn flags draws id s ≡ ok s
      → (p : Stage) × (get_elem id s.stages ≡ ok p) × Stays flags id s p
  idle-Stays id s e =
      let (p, at, step) = turn-Step flags draws id s e in
      elim (Step-cases flags id s at step) [
        | inl (_, why) ↦ (p, at, why)
        | inr lt ↦ absurd (omega arith)
      ]
