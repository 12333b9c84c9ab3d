-- ===== src/Node/Types.antt =====
-- The state of a consensus node: BlockChain/Consensus/frustum/NodeState.go, NodeCh.go and Node.go.
-- A map of counters with fixed keys is a record of them, and a channel that is only ever closed is
-- the flag that says so.
use frustum.Prelude.{ℕ, [], Bool, false, Bytes, codes, Option, none}
use frustum.Prelude.Outcome.{Outcome, ok, ◌>>=◌}
use frustum.Message.{Block, NodeMsg}
use frustum.Id.{NodeId, string_to_id}
use frustum.Quorum.{
  Quorum, new_quorum, intra_prepare, global_prepare, intra_commit, global_commit, intra_finality,
  global_finality,
}
use frustum.Pool.{TxPool, new_tx_pool}
use frustum.Peers.{NodeTable, new_node_table, add_node}

pub data Role : Type 0 where
  follower intra_leader global_leader : Role

pub data Stage : Type 0 where
  initialize prepare commit finality : Stage

-- The counters of a phase, under the keys "Intra…" and "Global…".
pub record Checks : Type 0 where
  pub intra : Quorum
  pub global : Quorum

pub record State : Type 0 where
  pub node_id : NodeId
  pub role : Role
  pub stage : Stage
  pub block_height : ℕ  -- uint64
  pub pre_block_hash : Bytes
  pub latest_block : Option Block
  pub prepare_check : Checks
  pub commit_check : Checks
  pub finality_check : Checks

unfoldable pub new_state : Bytes → Outcome State
new_state node_id = do
  id ← string_to_id node_id
  ok (record {
    node_id = id;
    role = follower;
    stage = initialize;
    block_height = 0;
    pre_block_hash = [];
    latest_block = none;
    prepare_check = record { intra = new_quorum intra_prepare; global = new_quorum global_prepare };
    commit_check = record { intra = new_quorum intra_commit; global = new_quorum global_commit };
    finality_check = record {
      intra = new_quorum intra_finality;
      global = new_quorum global_finality;
    };
  })

-- The last two say whether TxWorkerStop and ElegantExitCh are closed.
pub record Node : Type 0 where
  pub server_id : Bytes
  pub state : State
  pub tx_pool : TxPool
  pub peers : NodeTable
  pub workers_stopped : Bool
  pub exiting : Bool

abbrev pub seed_node_id : Bytes
seed_node_id = codes "0-0"

abbrev pub seed_node_url : Bytes
seed_node_url = codes "172.16.2.214:10000"

-- NewNode, with what NewServer of BlockChain/NetWork/Server.go does to the table.
unfoldable pub new_node : Bytes → Outcome Node
new_node node_id = do
  peers ← new_node_table node_id
  added ← add_node seed_node_id seed_node_url peers
  state ← new_state node_id
  ok (record {
    server_id = node_id;
    state = state;
    tx_pool = new_tx_pool false 3;
    peers = added.0;
    workers_stopped = false;
    exiting = false;
  })

-- What a handler hands to the network, to a channel or to a new goroutine, in the order of the code.
-- Another goroutine, that of the server, empties SenMsgCh, so that a send to it ends.
pub data Effect : Type 0 where
  -- go n.NetWork.SendNodeMsg(url, msg)
  post : Bytes → NodeMsg → Effect
  -- n.NodeCh.SenMsgCh <- msg, of which the network looks the receiver up
  enqueue : NodeMsg → Effect
  -- the goroutine of StartConsensus, which runs `opening` of Node/Send.antt when it is scheduled
  spawn_opening : Effect
  -- go n.NetWork.LoadStatus.HandleBlock(block)
  count_block : Block → Effect
  -- go n.NodeTxPool.CycleAddTx(n.NodeCh.TxWorkerStop)
  start_workers : Effect
  -- close(n.NodeCh.TxWorkerStop) and close(n.NetWork.ElegantExitCh)
  stop_workers close_exit : Effect
