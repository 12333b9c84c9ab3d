-- ===== src/SsPbft.antt =====
-- BlockChain/Consensus/SS-PBFT-V1: the consensus node, with its handlers in MsgHandle.go and
-- ConsensusFunc.go. It is written against versions of the packages Consensus, Message and NetWork that
-- the repository does not hold: what it uses of them is a parameter (Counter and Server), an identity
-- is a NodeID, as the miner of a block its text, and a message is what the code here fills in. CLI and logging are left out.
pub mod Send
pub mod Handle
pub mod Height
pub mod Progress
mod Tests
use frustum.Prelude.{
  ℕ, ◌+◌, ◌%◌, ◌^◌, List, [], ◌∷◌, ◌++◌, Bool, true, false, ◌&&◌, ◌||◌, ltb, ◌==◌, if◌then◌else◌, ℤ,
  pos, int_eq, Bytes, bytes_eq, length, Option, none, some,
}
use frustum.Prelude.Table.{Table, int_key, lookup}
use frustum.Prelude.Outcome.{Outcome, ok, blocked, deref, ◌>>=◌}
use frustum.Message.{
  MsgType, Transaction, Block, start, pre_prepare, prepare, commit, final_commit, block,
  node_member, intra_leader_mem, global_leader_mem, registration, mining_stat, mining_stop,
  shut_down,
}
use frustum.Id.{NodeId, to_string}
use frustum.Block.{Codec, set_hash}
use frustum.Pool.{TxPool, new_tx_pool, commit_trs}

abbrev pub stop_mining_block_height : ℕ
stop_mining_block_height = 64

abbrev pub tr_num_in_block : ℕ
tr_num_in_block = 1024

-- Members of a shard with their addresses, and the shards.
abbrev pub Members : Type 0
Members = List (NodeId × Bytes)

abbrev pub Shards : Type 0
Shards = Table ℤ Members

pub data Body : Type 0 where
  null : Body
  url : Bytes → Body
  members : Members → Body
  block_data : Block → Body

pub record Msg : Type 0 where
  pub from : NodeId
  pub to : NodeId
  pub msg_type : MsgType
  pub msg_body : Body
  pub epoch_num : ℕ
  pub block_height : ℕ

abbrev pub new_msg : NodeId → NodeId → MsgType → Body → Msg
new_msg from to msg_type msg_body = record {
  from = from;
  to = to;
  msg_type = msg_type;
  msg_body = msg_body;
  epoch_num = 0;
  block_height = 0;
}

-- Consensus.Quorum: NewQuorum(1, IntraScope), ResetCount, and Handle with the percentage 0.5, which
-- gets the number of members and the message's height and answers whether the quorum is met, with it.
pub record Counter (Q : Type 0) : Type 0 where
  pub new_quorum : Q
  pub reset_count : ℕ → Q → Q
  pub handle : ℕ → ℕ → Q → Bool × ℕ × Q

-- What the node uses of NetWork.Server and of Message. What is no block and no table of members is a
-- log.Panic of the decoding.
pub record Server : Type 0 where
  pub add_shard : ℤ → Members → Shards → Shards
  pub find_node : NodeId → Shards → Bytes
  pub find_my_intra_leader : NodeId → Shards → NodeId × Bytes
  pub unmarshal_block : Body → Outcome Block
  pub unmarshal_node_mem : Body → Outcome Members

-- The time, SHA-256 with gob, and the transactions that arrive while CommitTrs waits.
pub record Env : Type 0 where
  pub now : ℕ
  pub codec : Codec
  pub arrivals : List (List Transaction)

pub data Role : Type 0 where
  follower intra_leader global_leader : Role

pub record State (Q : Type 0) : Type 0 where
  pub node_role : Role
  pub node_epoch : ℕ
  pub block_height : ℕ  -- uint64
  pub pre_block_hash : Bytes
  pub latest_block : Option Block
  pub prepare_check : Q
  pub commit_check : Q
  pub final_commit_check : Q

-- The node; `exits` is the number of messages in ElegantExitCh, whose capacity is 1.
pub record Node (Q : Type 0) : Type 0 where
  pub self : NodeId
  pub state : State Q
  pub tx_pool : TxPool
  pub shards : Shards
  pub exits : ℕ

-- What a handler hands to others, in the order of the code: a message in SendMsgCh, which the
-- goroutine WaitMsgToSend empties, one that SendNodeMsg posts, and goroutines.
pub data Effect : Type 0 where
  enqueue : Msg → Effect
  post : Bytes → Msg → Effect
  cycle_add_tx : Effect
  send_prepare_later : Effect
  mining_stat_later : Effect
  wait_some_time : Msg → Effect
  calculate_tps : Option Block → Effect
  print_result : Effect

abbrev pub Act : Type 0 → Type 0
Act Q = Outcome (Node Q × List Effect)

-- NewState and NewNode.
unfoldable pub new_node : {Q : Type 0} → Counter Q → NodeId → Node Q
new_node counter id = record {
  self = id;
  state = record {
    node_role = follower;
    node_epoch = 0;
    block_height = 0;
    pre_block_hash = [];
    latest_block = none;
    prepare_check = counter.new_quorum;
    commit_check = counter.new_quorum;
    final_commit_check = counter.new_quorum;
  };
  tx_pool = new_tx_pool false 3;
  shards = [];
  exits = 0;
}
