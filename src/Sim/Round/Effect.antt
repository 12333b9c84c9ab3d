-- ===== src/Sim/Round/Effect.antt =====
-- What a turn of a member does to the committee, in terms of the stages before and after.
pub mod Cases
use frustum.Prelude.{
  ℕ, zero, suc, ◌+◌, ◌*◌, ◌≤◌, ◌<◌, ◌≡◌, ◌≢◌, ◌⊎◌, inl, inr, refl, sym, ap, ◌∙◌, List, Bool, true,
  false, ltb, if◌then◌else◌, arith, length,
}
use mathlib.Core.Bool.{false≢true}
use frustum.Prelude.Outcome.{ok}
use frustum.Prelude.Slices.{get_elem, set_elem, set_elem_same, set_elem-cases, length-set_elem}
use frustum.Sim.{Flags, Node}
use frustum.Sim.Round.{
  Stage, starting, silent, preparing, await_prepare, committing, await_commit, signed, finished,
  Round, more_prepared, more_committed, with_sig, at_stage, with_nodes,
}
use frustum.Sim.Round.Step.{
  Step, stays_silent, stays_finished, stays_waiting, stays_voting, stays_full, drops, joins,
  prepares, prepared_all, passes, commits, committed_all, signs, sends,
}

-- Whether a member has sent its prepare message to member `k`, and its commit message.
abbrev pub to_prepare : ℕ → Stage → ℕ
to_prepare k starting = 0
to_prepare k silent = 0
to_prepare k (preparing i) = if ltb k i then 1 else 0
to_prepare k _ = 1

abbrev pub to_commit : ℕ → Stage → ℕ
to_commit k (committing i) = if ltb k i then 1 else 0
to_commit k await_commit = 1
to_commit k signed = 1
to_commit k finished = 1
to_commit k _ = 0

-- Whether a member takes part, has begun to commit, has signed, has told PBFT.
abbrev pub taking_part : Stage → ℕ
taking_part starting = 0
taking_part silent = 0
taking_part _ = 1

abbrev pub voting : Stage → ℕ
voting (committing i) = 1
voting await_commit = 1
voting signed = 1
voting finished = 1
voting _ = 0

abbrev pub is_signed : Stage → Bool
is_signed signed = true
is_signed finished = true
is_signed _ = false

abbrev pub telling : Stage → ℕ
telling finished = 1
telling _ = 0

-- What happens to member `k` when the goroutine of `id` goes from `p` to `q`.
pub record Changed (flags : Flags) (id : ℕ) (p q : Stage) (k : ℕ) (old new : Node) : Type 0 where
  pub honesty : new.is_honest ≡ old.is_honest
  pub prepared :
      k < flags.n_per_commitee → new.prepare_num + to_prepare k p ≡ old.prepare_num + to_prepare k q
  pub committed :
      k < flags.n_per_commitee → new.commit_num + to_commit k p ≡ old.commit_num + to_commit k q
  pub own_sig : k ≡ id → old.sig ≡ is_signed p → new.sig ≡ is_signed q
  pub other_sig : k ≢ id → new.sig ≡ old.sig

pub record Effect (flags : Flags) (id : ℕ) (s : Round) (p : Stage) (t : Round) : Type 0 where
  pub next : Stage
  pub stages : t.stages ≡ set_elem id next s.stages
  pub node :
      (k : ℕ) (new : Node)
      → get_elem k t.nodes ≡ ok new
      → (old : Node) × (get_elem k s.nodes ≡ ok old) × Changed flags id p next k old new
  pub size : length t.nodes ≡ length s.nodes
  pub told : t.final_commit + telling p ≡ s.final_commit + telling next
  pub joined : taking_part p ≤ taking_part next
  pub voted : voting p ≤ voting next
  pub passed :
      voting next ≡ 1
      → (voting p ≡ 1)
        ⊎ ((m : Node) × (get_elem id s.nodes ≡ ok m) × (2 * flags.total_f < m.prepare_num))
  pub decided :
      is_signed next ≡ true
      → (is_signed p ≡ true)
        ⊎ ((m : Node) × (get_elem id s.nodes ≡ ok m) × (2 * flags.total_f < m.commit_num))
  pub dropped :
      next ≡ silent
      → (p ≡ silent) ⊎ ((m : Node) × (get_elem id s.nodes ≡ ok m) × (m.is_honest ≡ false))
