-- ===== src/Quorum/Count.antt =====
-- What one call of Handle does, on every branch.
use frustum.Prelude.{
  ℕ, suc, ◌+◌, ◌<◌, ◌≡◌, List, [], ◌∷◌, ◌++◌, Bool, true, false, ltb, leb, ◌==◌, ◌&&◌,
  if◌then◌else◌, arith,
}
use Prim.Native.Nat.{min}
use frustum.Float.{Float64}
use frustum.Message.{NodeMsg}
use frustum.Quorum.{Name, Quorum, quorum_nodes, count_buffered, handle}

-- How many messages are of a round.
abbrev pub of_round : ℕ → List NodeMsg → ℕ
of_round r [] = 0
of_round r (m ∷ ms) = if m.block_height == r then suc (of_round r ms) else of_round r ms

pub of_round-append :
    (r : ℕ) (xs ys : List NodeMsg) → of_round r (xs ++ ys) ≡ of_round r xs + of_round r ys
of_round-append r [] ys = omega arith
of_round-append r (x ∷ xs) ys = ground (arith, of_round-append r xs ys)

-- How many buffered messages are of the counter's round.
abbrev pub current : Quorum → ℕ
current q = of_round q.latest_proposal_num q.msg_buffer

count_buffered_lem :
    (latest needed : ℕ) (vs : List NodeMsg) (count : ℕ)
    → count < needed
    → let all = count + of_round latest vs in
      count_buffered latest needed vs count
      ≡ (if leb needed all then (needed, true) else (all, false))
unfolding count_buffered
count_buffered_lem latest needed [] count h = ground arith
count_buffered_lem latest needed (v ∷ vs) count h = ground (
  arith,
  count_buffered_lem latest needed vs count,
  count_buffered_lem latest needed vs (suc count),
)

-- The votes that a call has at hand: those counted, the new one and the buffered ones.
abbrev pub at_hand : Quorum → ℕ
at_hand q = suc q.vote_count + current q

-- The same without a loop: all votes at hand are counted at once, up to the number needed.
abbrev pub handle_reference : Float64 → ℕ → NodeMsg → Quorum → Quorum × Bool × ℕ
handle_reference f total msg q =
    let needed = quorum_nodes q.name f total in
    if msg.block_height == q.latest_proposal_num && ltb q.vote_count needed
    then (record q { vote_count = min needed (at_hand q) }, leb needed (at_hand q), needed)
    else if msg.block_height == q.latest_proposal_num
    then (q, false, 1024)
    else if ltb q.latest_proposal_num msg.block_height
    then (record q { msg_buffer = q.msg_buffer ++ msg ∷ [] }, false, 1025)
    else (q, false, needed)

-- Handle, with its loop over the buffer that stops at the quorum, equals the loop-free reference
-- on every counter and message: a message of the latest round, while votes are missing, adds
-- itself and every buffered message of that round, up to the number needed, and reports the
-- quorum exactly when that many are at hand; once the count is full the answer is 1024; a message
-- of a later round is appended to the buffer with the answer 1025; one of an older round changes
-- nothing.
pub handle-handle_reference :
    (f : Float64) (total : ℕ) (msg : NodeMsg) (q : Quorum)
    → handle f total msg q ≡ handle_reference f total msg q
unfolding handle
handle-handle_reference f total msg q = ground (
  arith,
  count_buffered_lem q.latest_proposal_num (quorum_nodes q.name f total) q.msg_buffer
      (suc q.vote_count),
)

-- At least one vote is needed, whatever the shard.
pub quorum_nodes_pos : (name : Name) (f : Float64) (total : ℕ) → 0 < quorum_nodes name f total
unfolding quorum_nodes
quorum_nodes_pos name f total = ground arith
