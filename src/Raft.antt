-- ===== src/Raft.antt =====
-- BlockChain/Consensus/SS-Raft: the elections within a shard and the confirmation of blocks. The
-- packages SS-Raft/Message and SS-Raft/NetWork are not in the repository: of a message there are the
-- fields that the code reads. The needed numbers Q1, Q2 and GQ2 are arguments. Sending, timers and logging are left out.
pub mod Votes
pub mod Confirm
pub mod Election
pub mod Blocks
pub mod SeedNode
mod Tests
use frustum.Prelude.{
  ℕ, suc, ◌+◌, ◌%◌, ◌^◌, List, [], ◌∷◌, Bool, true, false, not, ◌&&◌, ltb, leb, ◌==◌, if◌then◌else◌,
  ℤ, pos, int_eq, Option, none, some,
}
use frustum.Id.{NodeId}

abbrev pub testing_max_block_height : ℕ
testing_max_block_height = 128

abbrev pub batch_blocks_num : ℕ
batch_blocks_num = 128

pub record RaftMsg : Type 0 where
  pub from : NodeId
  pub intra_term : ℕ
  pub block_height : ℕ

pub data IntraRole : Type 0 where
  intra_follower intra_candidate intra_leader : IntraRole

pub data GlobalRole : Type 0 where
  no_role global_follower : GlobalRole

pub record CandidateState : Type 0 where
  pub id : NodeId
  pub term : ℕ

pub record Counter : Type 0 where
  pub count : ℕ
  pub term : ℕ

pub record BlockCount : Type 0 where
  pub count : ℕ
  pub global_count : ℕ
  pub latest_response_id : NodeId
  pub block_height : ℕ

abbrev zero_id : NodeId
zero_id = record { shard_id = pos 0; in_shard_id = pos 0 }

-- Terms and counts are uint, heights uint64.
pub record RaftState : Type 0 where
  pub intra_term : ℕ
  pub intra_role : IntraRole
  pub global_role : GlobalRole
  pub block_height : ℕ
  pub intra_candi_stat : CandidateState
  pub intra_leader_id : NodeId
  pub intra_q1_count : Counter
  pub intra_q2_count : BlockCount
  pub batch_block_count : ℕ

unfoldable pub new_raft_state : RaftState
new_raft_state = record {
  intra_term = 0;
  intra_role = intra_follower;
  global_role = no_role;
  block_height = 0;
  intra_candi_stat = record { id = zero_id; term = 0 };
  intra_leader_id = zero_id;
  intra_q1_count = record { count = 0; term = 0 };
  intra_q2_count = record {
    count = 0;
    global_count = 0;
    latest_response_id = zero_id;
    block_height = 0;
  };
  batch_block_count = 0;
}

-- The case of HeartBeatTimeOutDetection, before StartVote is sent with the new term.
unfoldable pub heart_beat_time_out : RaftState → RaftState
heart_beat_time_out s = record s {
  intra_role = intra_candidate;
  intra_term = (s.intra_term + 1) % 2 ^ 64;
}

-- The message ConfirmStartVote: to whom, and with which term and height.
pub record Confirmation : Type 0 where
  pub to : NodeId
  pub term : ℕ
  pub height : ℕ

-- RespondStartVote: the state and the vote, if it is given.
unfoldable pub respond_start_vote : RaftMsg → RaftState → RaftState × Option Confirmation
respond_start_vote msg s =
    if ltb s.intra_term msg.intra_term
      && leb s.block_height msg.block_height
      && ltb s.intra_candi_stat.term msg.intra_term
    then (
      record s {
        intra_term = msg.intra_term;
        intra_candi_stat = record { id = msg.from; term = msg.intra_term };
      },
      some (record { to = msg.from; term = msg.intra_term; height = s.block_height }),
    )
    else (s, none)

back_to_follower : IntraRole → IntraRole
back_to_follower intra_candidate = intra_follower
back_to_follower role = role

-- The case HeartBeat of HandleMsg.
unfoldable pub handle_heart_beat : RaftMsg → RaftState → RaftState
unfolding back_to_follower
handle_heart_beat msg s = record s {
  intra_leader_id = msg.from;
  intra_role = back_to_follower s.intra_role;
}

become_intra_leader : RaftState → RaftState
become_intra_leader s = record s { intra_role = intra_leader; global_role = global_follower }

elected : IntraRole → RaftState → RaftState
elected intra_candidate s = become_intra_leader s
elected _ s = s

-- The counter of Q1 for the node's term.
refreshed : ℕ → Counter → Counter
refreshed term c = if ltb c.term term then record { count = 0; term = term } else c

-- One ConfirmStartVote in the loop of CheckConfirmStartVote: whether the loop ends by it.
unfoldable pub check_confirm : ℕ → RaftMsg → RaftState → RaftState × Bool
unfolding refreshed elected become_intra_leader
check_confirm q1 msg s =
    if ltb msg.intra_term s.intra_term
    then (s, false)
    else (let c = refreshed s.intra_term s.intra_q1_count in
        if ltb c.count q1
        then (let s' = record s { intra_q1_count = record c { count = c.count + 1 } } in
            if c.count + 1 == q1 then (elected s.intra_role s', true) else (s', false))
        else (record s { intra_q1_count = c }, false))

-- The loop: the state, and whether it ended.
unfoldable pub check_confirm_start_vote : ℕ → List RaftMsg → RaftState → RaftState × Bool
check_confirm_start_vote q1 [] s = (s, false)
check_confirm_start_vote q1 (msg ∷ msgs) s =
    let (s', ended) = check_confirm q1 msg s in
    let rest = check_confirm_start_vote q1 msgs s' in if ended then (s', true) else rest

-- The counter of Q2 for the node's height.
renewed : ℕ → BlockCount → BlockCount
renewed height c =
    if ltb c.block_height height
    then record c { count = 0; global_count = 0; block_height = height }
    else c

count_intra : ℤ → ℕ → RaftMsg → BlockCount → BlockCount
count_intra self q2 msg c =
    if int_eq msg.from.shard_id self && ltb c.count q2 then record c { count = c.count + 1 } else c

count_global : ℤ → ℕ → RaftMsg → BlockCount → BlockCount
count_global self gq2 msg c =
    if not (int_eq msg.from.shard_id self) && ltb c.global_count gq2
    then record c { global_count = c.global_count + 1; latest_response_id = msg.from }
    else c

-- One ConfirmBlock in the loop of SSRaftCheckCommit: the counter, and whether both numbers are met.
unfoldable pub check_block : ℤ → ℕ → ℕ → ℕ → RaftMsg → BlockCount → BlockCount × Bool
unfolding renewed count_intra count_global
check_block self height q2 gq2 msg c =
    if msg.block_height == height
    then (let c' = count_global self gq2 msg (count_intra self q2 msg (renewed height c)) in
        (c', c'.count == q2 && c'.global_count == gq2))
    else (c, false)

unfoldable pub check_blocks : ℤ → ℕ → ℕ → ℕ → List RaftMsg → BlockCount → BlockCount × Bool
check_blocks self height q2 gq2 [] c = (c, false)
check_blocks self height q2 gq2 (msg ∷ msgs) c =
    let (c', met) = check_block self height q2 gq2 msg c in
    let rest = check_blocks self height q2 gq2 msgs c' in if met then (c', true) else rest

-- What follows a block that is confirmed: the end of the run, the end of the batch, or the next block.
pub data AfterBlock : Type 0 where
  stop_mining batch_over next_block : AfterBlock

unfoldable pub after_block : RaftState → RaftState × AfterBlock
after_block s =
    if s.block_height == testing_max_block_height
    then (s, stop_mining)
    else if s.batch_block_count == batch_blocks_num
    then (record s { batch_block_count = 0 }, batch_over)
    else (s, next_block)

after_check : Bool → RaftState → RaftState × Option AfterBlock
after_check true s = let (s', follows) = after_block s in (s', some follows)
after_check false s = (s, none)

-- SSRaftCheckCommit over the messages that come: what follows, if the block is confirmed.
unfoldable pub ss_raft_check_commit :
    ℤ → ℕ → ℕ → List RaftMsg → RaftState → RaftState × Option AfterBlock
unfolding after_check
ss_raft_check_commit self q2 gq2 msgs s =
    let (c, met) = check_blocks self s.block_height q2 gq2 msgs s.intra_q2_count in
    after_check met (record s { intra_q2_count = c })
