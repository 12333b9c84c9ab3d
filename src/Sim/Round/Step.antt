-- ===== src/Sim/Round/Step.antt =====
-- The turns of receivePre as a relation: one constructor for each way in which a turn goes.
use frustum.Prelude.{
  ℕ, suc, ◌+◌, ◌*◌, ◌≤◌, ◌<◌, ◌≡◌, refl, false, not, ◌&&◌, ltb, leb, arith, Bool-cases, inl, inr,
  List,
}
use frustum.Prelude.Outcome.{ok, >>=-eq-ok}
use frustum.Prelude.Ensures.{Ensures, returns, Ensures-bind_with, Ensures-self, Ensures-ok}
use frustum.Prelude.Slices.{get_elem, set_elem}
use frustum.Sim.{Flags, Node}
use frustum.Sim.Round.{
  Stage, starting, silent, preparing, await_prepare, committing, await_commit, signed, finished,
  Round, final_commit_cap, more_prepared, more_committed, with_sig, at_stage, with_nodes, act,
  change, turn,
}

pub data Step (flags : Flags) (id : ℕ) (s : Round) : Stage → Round → Type 0 where
  stays_silent : Step flags id s silent s
  stays_finished : Step flags id s finished s
  stays_waiting :
      {m : Node}
      → get_elem id s.nodes ≡ ok m
      → m.prepare_num ≤ 2 * flags.total_f
      → Step flags id s await_prepare s
  stays_voting :
      {m : Node}
      → get_elem id s.nodes ≡ ok m
      → m.commit_num ≤ 2 * flags.total_f
      → Step flags id s await_commit s
  stays_full : final_commit_cap ≤ s.final_commit → Step flags id s signed s
  drops :
      {m : Node}
      → get_elem id s.nodes ≡ ok m
      → m.is_honest ≡ false
      → Step flags id s starting (at_stage silent id s)
  joins : Step flags id s starting (at_stage (preparing 0) id s)
  prepares :
      {i : ℕ} {m : Node}
      → i < flags.n_per_commitee
      → get_elem i s.nodes ≡ ok m
      → Step flags id s
          (preparing i)
          (at_stage (preparing (suc i)) id (with_nodes (set_elem i (more_prepared m) s.nodes) s))
  prepared_all :
      {i : ℕ}
      → flags.n_per_commitee ≤ i
      → Step flags id s (preparing i) (at_stage await_prepare id s)
  passes :
      {m : Node}
      → get_elem id s.nodes ≡ ok m
      → 2 * flags.total_f < m.prepare_num
      → Step flags id s await_prepare (at_stage (committing 0) id s)
  commits :
      {i : ℕ} {m : Node}
      → i < flags.n_per_commitee
      → get_elem i s.nodes ≡ ok m
      → Step flags id s
          (committing i)
          (at_stage (committing (suc i)) id (with_nodes (set_elem i (more_committed m) s.nodes) s))
  committed_all :
      {i : ℕ}
      → flags.n_per_commitee ≤ i
      → Step flags id s (committing i) (at_stage await_commit id s)
  signs :
      {m : Node}
      → get_elem id s.nodes ≡ ok m
      → 2 * flags.total_f < m.commit_num
      → Step flags id s await_commit
          (at_stage signed id (with_nodes (set_elem id (with_sig m) s.nodes) s))
  sends :
      s.final_commit < final_commit_cap
      → Step flags id s signed
          (at_stage finished id (record s { final_commit = s.final_commit + 1 }))

pub change-Ensures :
    (i : ℕ) (f : Node → Node) (nodes : List Node)
    → Ensures
        (λ after. (m : Node) × (get_elem i nodes ≡ ok m) × (after ≡ set_elem i (f m) nodes))
        (change i f nodes)
unfolding change
change-Ensures i f nodes =
    Ensures-bind_with (get_elem i nodes) (Ensures-self (get_elem i nodes))
      λ m at. returns (m, at, refl)

module _ (flags : Flags) (drawn id : ℕ) where
  pub act-Ensures : (p : Stage) (s : Round) → Ensures (Step flags id s p) (act flags drawn id p s)
  unfolding act change
  act-Ensures starting s =
      Ensures-bind_with (get_elem id s.nodes) (Ensures-self (get_elem id s.nodes)) λ m at.
        elim (Bool-cases (not m.is_honest && leb drawn 50)) [
          | inl off ↦ rw off (returns (drops at (ground arith)))
          | inr on ↦ rw on (returns joins)
        ]
  act-Ensures silent s = returns stays_silent
  act-Ensures (preparing i) s = elim (Bool-cases (ltb i flags.n_per_commitee)) [
    | inl more ↦ rw more (
        Ensures-bind_with (change i more_prepared s.nodes) (change-Ensures i more_prepared s.nodes)
          λ nodes c. rw c.2 (returns (prepares (ground arith) c.1)))
    | inr end ↦ rw end (returns (prepared_all (ground arith)))
  ]
  act-Ensures await_prepare s =
      Ensures-bind_with (get_elem id s.nodes) (Ensures-self (get_elem id s.nodes)) λ m at.
        elim (Bool-cases (leb m.prepare_num (2 * flags.total_f))) [
          | inl few ↦ rw few (returns (stays_waiting at (ground arith)))
          | inr enough ↦ rw enough (returns (passes at (ground arith)))
        ]
  act-Ensures (committing i) s = elim (Bool-cases (ltb i flags.n_per_commitee)) [
    | inl more ↦ rw more (
        Ensures-bind_with (change i more_committed s.nodes)
          (change-Ensures i more_committed s.nodes)
          λ nodes c. rw c.2 (returns (commits (ground arith) c.1)))
    | inr end ↦ rw end (returns (committed_all (ground arith)))
  ]
  act-Ensures await_commit s =
      Ensures-bind_with (get_elem id s.nodes) (Ensures-self (get_elem id s.nodes)) λ m at.
        elim (Bool-cases (leb m.commit_num (2 * flags.total_f))) [
          | inl few ↦ rw few (returns (stays_voting at (ground arith)))
          | inr enough ↦ rw (enough, at) (returns (signs at (ground arith)))
        ]
  act-Ensures signed s = elim (Bool-cases (ltb s.final_commit final_commit_cap)) [
    | inl room ↦ rw room (returns (sends (ground arith)))
    | inr full ↦ rw full (returns (stays_full (ground arith)))
  ]
  act-Ensures finished s = returns stays_finished

-- A turn is a step of the member's goroutine.
pub turn-Step :
    (flags : Flags) (draws : ℕ → ℕ) (id : ℕ) (s : Round) {t : Round}
    → turn flags draws id s ≡ ok t
    → (stage : Stage) × (get_elem id s.stages ≡ ok stage) × Step flags id s stage t
unfolding turn
turn-Step flags draws id s e =
    let (stage, at, acted) = >>=-eq-ok (get_elem id s.stages) _ e in
    (stage, at, Ensures-ok (act-Ensures flags (draws id) id stage s) acted)
