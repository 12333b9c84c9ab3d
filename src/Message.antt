-- ===== src/Message.antt =====
-- BlockChain/Message/Message.go: the messages between nodes. A tag is a constructor for each
-- literal that the code sends or compares with, and `other` for the rest. A body is the value that
-- json.Marshal was given. The block type is that of BlockChain/DB/BlockChain.go.
use frustum.Prelude.{ℕ, ◌/◌, ◌^◌, List, [], ℤ, Bytes}
use frustum.Prelude.Table.{Table}
use frustum.Prelude.Outcome.{Outcome, ok, panic}

pub data MsgType : Type 0 where
  start pre_prepare prepare commit finality final_commit block : MsgType
  node_member intra_leader_mem global_leader_mem registration : MsgType
  mining_stat intra_mining_stat mining_stop shut_down : MsgType
  other : Bytes → MsgType

-- A transaction of BlockChain/TxPool/Transaction.go.
pub record Transaction : Type 0 where
  pub time_stamp : ℕ
  pub level : ℤ
  pub from : ℤ
  pub to : ℤ
  pub payload : Bytes
  pub hash : Bytes
  pub orig_hash : Bytes

pub record Block : Type 0 where
  pub time_stamp : ℕ
  pub block_height : ℕ
  pub miner : Bytes
  pub pre_block_hash : Bytes
  pub block_hash : Bytes
  pub block_body : List Transaction

pub data Body : Type 0 where
  null : Body
  text : Bytes → Body
  members : Table Bytes Bytes → Body
  block_data : Block → Body

pub record NodeMsg : Type 0 where
  pub time_stamp : ℕ
  pub from : Bytes
  pub to : Bytes
  pub msg_type : MsgType
  pub msg_body : Body
  pub epoch_num : ℕ
  pub block_height : ℕ
  pub consensus_type : Bytes

-- `now` is time.Now() in nanoseconds.
unfoldable pub new_node_msg : ℕ → Bytes → Bytes → MsgType → Body → NodeMsg
new_node_msg now from to msg_type body = record {
  time_stamp = now / 10 ^ 9;
  from = from;
  to = to;
  msg_type = msg_type;
  msg_body = body;
  epoch_num = 0;
  block_height = 0;
  consensus_type = [];
}

-- A JSON null makes the map nil, which reads as an empty one, and nothing writes to it: HandleShardMsg is
-- called by consensus nodes only, and AddNode on the table of one only when its server is made. Any other
-- shape is a log.Panic.
unfoldable pub unmarshal_shard_mem : Body → Outcome (Table Bytes Bytes)
unmarshal_shard_mem null = ok []
unmarshal_shard_mem (members m) = ok m
unmarshal_shard_mem (text t) = panic
unmarshal_shard_mem (block_data b) = panic
