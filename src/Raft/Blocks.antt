-- ===== src/Raft/Blocks.antt =====
-- BlockChain/Consensus/SS-Raft: the making of a block, the answer to one, and RaftCheckCommit. The
-- package SS-Raft/DB is not in the repository: what is used of it is a parameter (ChainOps), and so are
-- the transactions that CommitTrs returns.
pub mod Answers
use frustum.Prelude.{
  ℕ, ◌+◌, ◌%◌, ◌^◌, List, [], ◌∷◌, Bool, true, false, ltb, ◌==◌, if◌then◌else◌, ℤ, pos, Bytes,
  Option, none, some,
}
use frustum.Message.{Transaction, Block}
use frustum.Id.{NodeId, to_string}
use frustum.Raft.{RaftMsg, RaftState, BlockCount, testing_max_block_height}

-- NodeBC: its field Tip, and AddNewBlock; and SetHash of a block.
pub record ChainOps (C : Type 0) : Type 0 where
  pub tip : C → Bytes
  pub add_new_block : Block → C → C
  pub set_hash : Block → Block

-- The time and the batch of the pool.
pub record MiningEnv : Type 0 where
  pub now : ℕ
  pub batch : List Transaction

abbrev zero_id : NodeId
zero_id = record { shard_id = pos 0; in_shard_id = pos 0 }

module _ {C : Type 0} (ops : ChainOps C) where
  -- The block that both ways of mining make: its height is the next one.
  unfoldable pub mined_block : MiningEnv → NodeId → RaftState → C → Block
  mined_block env self s chain = ops.set_hash (record {
    time_stamp = env.now;
    block_height = (s.block_height + 1) % 2 ^ 64;
    miner = to_string self;
    pre_block_hash = if s.block_height == 0 then [] else ops.tip chain;
    block_hash = [];
    block_body = env.batch;
  })

  -- RaftStartMining: the state, the chain, and the block that all nodes are sent.
  unfoldable pub raft_start_mining :
      MiningEnv → NodeId → RaftState × C → (RaftState × C) × RaftMsg × Block
  unfolding mined_block
  raft_start_mining env self (s, chain) =
      let made = mined_block env self s chain in
      let s' = record s { block_height = (s.block_height + 1) % 2 ^ 64 } in
      let msg : RaftMsg = record { from = zero_id; intra_term = 0; block_height = 0 } in
      ((s', ops.add_new_block made chain), msg, made)

  -- SSRaftStartMining: the same, with the batch counted, and with the term and height in the message.
  unfoldable pub ss_raft_start_mining :
      MiningEnv → NodeId → RaftState × C → (RaftState × C) × RaftMsg × Block
  unfolding mined_block
  ss_raft_start_mining env self (s, chain) =
      let made = mined_block env self s chain in
      let s' = record s {
        batch_block_count = s.batch_block_count + 1;
        block_height = (s.block_height + 1) % 2 ^ 64;
      } in
      let msg : RaftMsg = record {
        from = zero_id;
        intra_term = s'.intra_term;
        block_height = s'.block_height;
      } in
      ((s', ops.add_new_block made chain), msg, made)

  -- The case block of HandleMsg: the state, the chain, to whom ConfirmBlock is sent, and the message.
  unfoldable pub handle_block :
      NodeId → RaftMsg → Block → RaftState × C → (RaftState × C) × NodeId × RaftMsg
  handle_block self msg received (s, chain) =
      let next = (s.block_height + 1) % 2 ^ 64 in
      let s' = record s {
        block_height = if ltb next received.block_height then received.block_height else next;
      } in
      (
        (s', ops.add_new_block received chain),
        msg.from,
        record { from = self; intra_term = 0; block_height = 0 },
      )

-- What RaftCheckCommit does after a message: waits for the next, ends with the word error, or has the
-- block confirmed, which ends the mining or starts the next block.
pub data RaftCheck : Type 0 where
  waiting check_error raft_stop raft_next : RaftCheck

unfoldable pub raft_check_block : ℕ → ℕ → RaftMsg → BlockCount → BlockCount × RaftCheck
raft_check_block height q2 msg c =
    if msg.block_height == height
    then (let c' =
          if ltb c.block_height height then record c { count = 0; block_height = height } else c in
        if ltb c'.count q2
        then (
          record c' { count = c'.count + 1 },
          if c'.count + 1 == q2
              then (if height == testing_max_block_height then raft_stop else raft_next)
              else waiting,
        )
        else (c', check_error))
    else (c, waiting)

go_on_waiting : RaftCheck → BlockCount × RaftCheck → BlockCount → BlockCount × RaftCheck
go_on_waiting waiting rest c = rest
go_on_waiting result rest c = (c, result)

unfoldable pub raft_check_blocks : ℕ → ℕ → List RaftMsg → BlockCount → BlockCount × RaftCheck
unfolding go_on_waiting
raft_check_blocks height q2 [] c = (c, waiting)
raft_check_blocks height q2 (msg ∷ msgs) c =
    let (c', result) = raft_check_block height q2 msg c in
    let rest = raft_check_blocks height q2 msgs c' in go_on_waiting result rest c'

-- RaftCheckCommit over the messages that come.
unfoldable pub raft_check_commit : ℕ → List RaftMsg → RaftState → RaftState × RaftCheck
raft_check_commit q2 msgs s =
    let (c, result) = raft_check_blocks s.block_height q2 msgs s.intra_q2_count in
    (record s { intra_q2_count = c }, result)
