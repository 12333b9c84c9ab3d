-- ===== src/Sim/Round/Race.antt =====
-- receivePre with interrupted increments: what bounds the counts when updates are lost.
pub mod Advance
pub mod Stores
pub mod Quorum
use frustum.Prelude.{
  ℕ, zero, suc, ◌+◌, ◌*◌, ◌≤◌, ◌<◌, ◌≡◌, ◌≢◌, ◌⊎◌, inl, inr, refl, sym, ap, ◌∙◌, subst, List, [],
  ◌∷◌, Bool, true, false, arith, length, Option, none, some, ltb, Bool-cases,
}
use mathlib.Core.Bool.{false≢true}
use frustum.Prelude.Outcome.{Outcome, ok, ◌>>=◌, >>=-eq-ok, ok-injective}
use frustum.Prelude.Ensures.{Ensures, returns, Ensures-ok, Ensures-self, Ensures-bind_with}
use frustum.Prelude.Slices.{
  get_elem, set_elem, sum, get_elem_total, get_elem-lt, length-set_elem, sum-set_elem, sum_mono,
  set_elem-cases,
}
use frustum.Sim.{Flags, Node}
use frustum.Sim.Round.{
  Stage, starting, silent, preparing, await_prepare, committing, await_commit, signed, finished,
  Round, act, change, at_stage, with_nodes, starting_stages,
}
use frustum.Sim.Round.Step.{
  Step, stays_silent, stays_finished, stays_waiting, stays_voting, stays_full, drops, joins,
  prepares, prepared_all, passes, commits, committed_all, signs, sends, act-Ensures, change-Ensures,
}
use frustum.Sim.Round.Effect.{Effect, to_prepare, to_commit, taking_part, voting, is_signed}
use frustum.Sim.Round.Effect.Cases.{Step-Effect}
use frustum.Sim.Round.Invariant.{IsFresh, AllFresh, new_round-Inv, to_prepare-le, to_commit-le}
use frustum.Sim.Round.Safety.{is_signed-voting}
use frustum.Sim.Round.Access.{
  Racing, prepared_to, committed_to, access_at, access, new_racing, prepared_to, committed_to,
  Races, begin, next, no_loads,
}

-- A loaded count is at most the number of members that have sent to the one whose count it is.
pub data Loaded (stages : List Stage) : Stage → ℕ → Type 0 where
  for_prepare : {i v : ℕ} → v ≤ sum (to_prepare i) stages → Loaded stages (preparing i) v
  for_commit : {i v : ℕ} → v ≤ sum (to_commit i) stages → Loaded stages (committing i) v

pub record Bounded (flags : Flags) (r : Racing) : Type 0 where
  pub members : length r.round.stages ≡ flags.n_per_commitee
  pub prepare_counts :
      (k : ℕ) (m : Node)
      → k < flags.n_per_commitee
      → get_elem k r.round.nodes ≡ ok m
      → m.prepare_num ≤ sum (to_prepare k) r.round.stages
  pub commit_counts :
      (k : ℕ) (m : Node)
      → k < flags.n_per_commitee
      → get_elem k r.round.nodes ≡ ok m
      → m.commit_num ≤ sum (to_commit k) r.round.stages
  pub loads :
      (k : ℕ) (p : Stage) (v : ℕ)
      → get_elem k r.round.stages ≡ ok p
      → get_elem k r.loaded ≡ ok (some v)
      → Loaded r.round.stages p v
  pub sigs :
      (k : ℕ) (p : Stage) (m : Node)
      → get_elem k r.round.stages ≡ ok p
      → get_elem k r.round.nodes ≡ ok m
      → m.sig ≡ is_signed p
  pub prepare_quorum :
      (k : ℕ) (p : Stage)
      → get_elem k r.round.stages ≡ ok p
      → voting p ≡ 1
      → 2 * flags.total_f < sum taking_part r.round.stages
  pub commit_quorum :
      (k : ℕ) (p : Stage)
      → get_elem k r.round.stages ≡ ok p
      → is_signed p ≡ true
      → 2 * flags.total_f < sum voting r.round.stages

pub up :
    (stages : List Stage) (id : ℕ) {p : Stage}
    → get_elem id stages ≡ ok p
    → (w : Stage → ℕ) (q : Stage) → w p ≤ w q
    → sum w stages ≤ sum w (set_elem id q stages)
up stages id {p} at w q le = omega (arith, sum-set_elem w id q p stages at, le)

-- The messages sent do not become fewer.
abbrev pub Grow : List Stage → List Stage → Type 0
Grow before after =
    (k : ℕ)
    → (sum (to_prepare k) before ≤ sum (to_prepare k) after)
      × (sum (to_commit k) before ≤ sum (to_commit k) after)

pub Step-Grow :
    {flags : Flags} {id : ℕ} {s t : Round} {p : Stage}
    → get_elem id s.stages ≡ ok p
    → Step flags id s p t
    → Grow s.stages t.stages
Step-Grow {id} {s} at stays_silent k = (omega arith, omega arith)
Step-Grow {id} {s} at stays_finished k = (omega arith, omega arith)
Step-Grow {id} {s} at (stays_waiting _ _) k = (omega arith, omega arith)
Step-Grow {id} {s} at (stays_voting _ _) k = (omega arith, omega arith)
Step-Grow {id} {s} at (stays_full _) k = (omega arith, omega arith)
Step-Grow {id} {s} at (drops _ _) k = (
  up s.stages id at (to_prepare k) silent (ground arith),
  up s.stages id at (to_commit k) silent (ground arith),
)
Step-Grow {id} {s} at joins k = (
  up s.stages id at (to_prepare k) (preparing 0) (ground arith),
  up s.stages id at (to_commit k) (preparing 0) (ground arith),
)
Step-Grow {id} {s} at (prepares {i} _ _) k = (
  up s.stages id at (to_prepare k) (preparing (suc i)) (ground arith),
  up s.stages id at (to_commit k) (preparing (suc i)) (ground arith),
)
Step-Grow {id} {s} at (prepared_all _) k = (
  up s.stages id at (to_prepare k) await_prepare (ground arith),
  up s.stages id at (to_commit k) await_prepare (ground arith),
)
Step-Grow {id} {s} at (passes _ _) k = (
  up s.stages id at (to_prepare k) (committing 0) (ground arith),
  up s.stages id at (to_commit k) (committing 0) (ground arith),
)
Step-Grow {id} {s} at (commits {i} _ _) k = (
  up s.stages id at (to_prepare k) (committing (suc i)) (ground arith),
  up s.stages id at (to_commit k) (committing (suc i)) (ground arith),
)
Step-Grow {id} {s} at (committed_all _) k = (
  up s.stages id at (to_prepare k) await_commit (ground arith),
  up s.stages id at (to_commit k) await_commit (ground arith),
)
Step-Grow {id} {s} at (signs _ _) k = (
  up s.stages id at (to_prepare k) signed (ground arith),
  up s.stages id at (to_commit k) signed (ground arith),
)
Step-Grow {id} {s} at (sends _) k = (
  up s.stages id at (to_prepare k) finished (ground arith),
  up s.stages id at (to_commit k) finished (ground arith),
)

pub Loaded-Grow :
    {before after : List Stage} {p : Stage} {v : ℕ}
    → Grow before after
    → Loaded before p v
    → Loaded after p v
Loaded-Grow grow (for_prepare {i} le) = for_prepare (omega (arith, le, (grow i).0))
Loaded-Grow grow (for_commit {i} le) = for_commit (omega (arith, le, (grow i).1))
