-- ===== src/Sim/Round.antt =====
-- receivePre of the simulations: what each member of a committee does with a proposed block, as the
-- goroutines of the members take turns. A turn is one access to what the members share.
pub mod Step
pub mod Effect
pub mod Invariant
pub mod Progress
pub mod Turns
pub mod Finish
pub mod Sweeps
pub mod Safety
pub mod Access
pub mod Alone
pub mod Race
use frustum.Prelude.{
  ℕ, zero, suc, ◌+◌, ◌*◌, ◌≡◌, List, [], ◌∷◌, true, not, ◌&&◌, ltb, leb, if◌then◌else◌,
}
use frustum.Prelude.Outcome.{Outcome, ok, ◌>>=◌}
use frustum.Prelude.Slices.{get_elem, set_elem}
use frustum.Sim.{Flags, Node}

-- Where the goroutine of a member stands.
pub data Stage : Type 0 where
  starting : Stage  -- before the test for a faulty node
  silent : Stage  -- after the early return
  preparing : (i : ℕ) → Stage  -- at the head of the first loop
  await_prepare : Stage  -- in the first waiting loop
  committing : (i : ℕ) → Stage  -- at the head of the second loop
  await_commit : Stage  -- in the second waiting loop
  signed : Stage  -- before the send
  finished : Stage

-- The members with their goroutines, and the number of messages that finalCommit holds.
pub record Round : Type 0 where
  pub nodes : List Node
  pub stages : List Stage
  pub final_commit : ℕ

-- The capacity of finalCommit.
abbrev pub final_commit_cap : ℕ
final_commit_cap = 1000

abbrev pub more_prepared : Node → Node
more_prepared m = record m { prepare_num = m.prepare_num + 1 }

abbrev pub more_committed : Node → Node
more_committed m = record m { commit_num = m.commit_num + 1 }

abbrev pub with_sig : Node → Node
with_sig m = record m { sig = true }

-- nodes[i] changed, a panic out of range.
unfoldable pub change : ℕ → (Node → Node) → List Node → Outcome (List Node)
change i f nodes = get_elem i nodes >>= λ m. ok (set_elem i (f m) nodes)

abbrev pub at_stage : Stage → ℕ → Round → Round
at_stage stage id s = record s { stages = set_elem id stage s.stages }

abbrev pub with_nodes : List Node → Round → Round
with_nodes nodes s = record s { nodes = nodes }

-- What the goroutine of member `id` does next; `drawn` is its rand.Intn(100).
unfoldable pub act : Flags → ℕ → ℕ → Stage → Round → Outcome Round
unfolding change
act flags drawn id starting s = do
  m ← get_elem id s.nodes
  ok (if not m.is_honest && leb drawn 50 then at_stage silent id s else at_stage (preparing 0) id s)
act flags drawn id silent s = ok s
act flags drawn id (preparing i) s =
    if ltb i flags.n_per_commitee
    then (do
      nodes ← change i more_prepared s.nodes
      ok (at_stage (preparing (suc i)) id (with_nodes nodes s)))
    else ok (at_stage await_prepare id s)
act flags drawn id await_prepare s = do
  m ← get_elem id s.nodes
  ok (if leb m.prepare_num (2 * flags.total_f) then s else at_stage (committing 0) id s)
act flags drawn id (committing i) s =
    if ltb i flags.n_per_commitee
    then (do
      nodes ← change i more_committed s.nodes
      ok (at_stage (committing (suc i)) id (with_nodes nodes s)))
    else ok (at_stage await_commit id s)
act flags drawn id await_commit s = do
  m ← get_elem id s.nodes
  if leb m.commit_num (2 * flags.total_f)
      then ok s
      else (do nodes ← change id with_sig s.nodes; ok (at_stage signed id (with_nodes nodes s)))
act flags drawn id signed s =
    if ltb s.final_commit final_commit_cap
    then ok (at_stage finished id (record s { final_commit = s.final_commit + 1 }))
    else ok s
act flags drawn id finished s = ok s

-- A turn of member `id`; `draws` has the random number of each member.
unfoldable pub turn : Flags → (ℕ → ℕ) → ℕ → Round → Outcome Round
unfolding act
turn flags draws id s = get_elem id s.stages >>= λ stage. act flags (draws id) id stage s

-- The turns of the members in a given order.
unfoldable pub turns : Flags → (ℕ → ℕ) → List ℕ → Round → Outcome Round
unfolding turn
turns flags draws [] s = ok s
turns flags draws (id ∷ ids) s = turn flags draws id s >>= turns flags draws ids

-- The loop of PBFT that starts a goroutine for each of the first `n` members.
abbrev pub starting_stages : ℕ → List Stage
starting_stages zero = []
starting_stages (suc n) = starting ∷ starting_stages n

abbrev pub new_round : Flags → List Node → Round
new_round flags nodes = record {
  nodes = nodes;
  stages = starting_stages flags.n_per_commitee;
  final_commit = 0;
}

-- The states that a committee reaches, whatever the order of the turns.
pub data Reach (flags : Flags) (draws : ℕ → ℕ) (nodes : List Node) : Round → Type 0 where
  start : Reach flags draws nodes (new_round flags nodes)
  later :
      {s t : Round} (id : ℕ)
      → Reach flags draws nodes s
      → turn flags draws id s ≡ ok t
      → Reach flags draws nodes t
