-- ===== src/Quorum.antt =====
-- BlockChain/Consensus/PBFT/Quorum.go: the vote counter of one phase, with its buffer of messages
-- of later rounds. The mutex guards the buffer alone and is not modelled.
pub mod Size
pub mod Count
pub mod Buffer
pub mod Trace
mod Tests
use frustum.Prelude.{
  ℕ, suc, ◌+◌, ◌*◌, List, [], ◌∷◌, ◌++◌, Bool, true, false, Bytes, ltb, leb, ◌==◌, if◌then◌else◌,
  keep, length,
}
use frustum.Float.{Float64, floor_mul}
use frustum.Message.{NodeMsg}

-- The names that NewState gives, and the one that Handle compares with besides.
pub data Name : Type 0 where
  intra_prepare global_prepare intra_commit global_commit intra_finality global_finality : Name
  finality : Name
  other : Bytes → Name

pub record Quorum : Type 0 where
  pub name : Name
  pub latest_proposal_num : ℕ  -- uint64
  pub vote_count : ℕ  -- int, at most the number of votes needed
  pub finish : Bool
  pub msg_buffer : List NodeMsg

unfoldable pub new_quorum : Name → Quorum
new_quorum name = record {
  name = name;
  latest_proposal_num = 0;
  vote_count = 0;
  finish = false;
  msg_buffer = [];
}

-- The branch on an empty buffer leaves it empty.
unfoldable pub reset_count : ℕ → Quorum → Quorum
reset_count proposal_num q = record q {
  latest_proposal_num = proposal_num;
  vote_count = 0;
  finish = false;
  msg_buffer =
      if length q.msg_buffer == 0
      then q.msg_buffer
      else keep (λ msg. leb proposal_num msg.block_height) q.msg_buffer;
}

-- QuorumNodes: f + 1 replies for the finality counters, 2f + 1 votes for the others.
unfoldable pub quorum_nodes : Name → Float64 → ℕ → ℕ
quorum_nodes intra_finality f total = floor_mul total f + 1
quorum_nodes global_finality f total = floor_mul total f + 1
quorum_nodes finality f total = floor_mul total f + 1
quorum_nodes _ f total = 2 * floor_mul total f + 1

-- The loop over the buffer: the count where it stops, and whether it met the quorum.
count_buffered : ℕ → ℕ → List NodeMsg → ℕ → ℕ × Bool
count_buffered latest needed [] count = (count, false)
count_buffered latest needed (v ∷ vs) count = elim (v.block_height == latest) [
  | true ↦ elim (suc count == needed) [
    | true ↦ (suc count, true)
    | false ↦ count_buffered latest needed vs (suc count)
  ]
  | false ↦ count_buffered latest needed vs count
]

-- A vote of the latest round, which the counter still wants.
count_vote : ℕ → Quorum → Quorum × Bool × ℕ
count_vote needed q =
    if suc q.vote_count == needed
    then (record q { vote_count = suc q.vote_count }, true, needed)
    else let (count, met) =
        count_buffered q.latest_proposal_num needed q.msg_buffer (suc q.vote_count) in
      (record q { vote_count = count }, met, needed)

-- The counter after a message, whether the quorum was met by it, and the number that Handle
-- returns: 1024 once the quorum was met before, 1025 for a message of a later round.
unfoldable pub handle : Float64 → ℕ → NodeMsg → Quorum → Quorum × Bool × ℕ
unfolding count_vote count_buffered
handle f total msg q =
    let needed = quorum_nodes q.name f total in
    if msg.block_height == q.latest_proposal_num
    then (if ltb q.vote_count needed then count_vote needed q else (q, false, 1024))
    else if ltb q.latest_proposal_num msg.block_height
    then (record q { msg_buffer = q.msg_buffer ++ msg ∷ [] }, false, 1025)
    else (q, false, needed)
