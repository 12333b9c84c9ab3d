-- ===== src/Node/Send.antt =====
-- What a node sends: BlockChain/Consensus/frustum/Node.go and the senders of ConsensusFunc.go.
pub mod Traffic
use frustum.Prelude.{
  ℕ, List, [], ◌∷◌, ◌++◌, Bool, true, false, if◌then◌else◌, ℤ, pos, Bytes, bytes_eq,
}
use frustum.Prelude.Table.{Table, int_key, lookup}
use frustum.Prelude.Outcome.{Outcome, ok, deref, ◌>>=◌}
use frustum.Message.{NodeMsg, MsgType, Body, null, prepare, commit, mining_stat, new_node_msg}
use frustum.Peers.{intra_leader_shard_id, find_my_global_leader}
use frustum.Node.Types.{Node, Effect, post, enqueue, seed_node_id}

-- The loop over the members: all but the node itself.
post_all : Bytes → NodeMsg → Table Bytes Bytes → List Effect
post_all self msg [] = []
post_all self msg ((node, url) ∷ m) =
    if bytes_eq node self
    then post_all self msg m
    else post url (record msg { to = node }) ∷ post_all self msg m

unfoldable pub broadcast_within_shard : ℤ → NodeMsg → Node → Outcome (List Effect)
unfolding post_all
broadcast_within_shard shard_id msg n = do
  shard ← deref (lookup shard_id n.peers.shards)
  ok (post_all n.server_id msg shard.member)

-- A message of this node with its height, as all its senders make them.
unfoldable pub stamped : ℕ → Bytes → MsgType → Body → Node → NodeMsg
unfolding new_node_msg
stamped now to msg_type body n = record (new_node_msg now n.server_id to msg_type body) {
  block_height = n.state.block_height;
}

unfoldable pub send_prepare : ℕ → ℤ → Node → Outcome (List Effect)
unfolding broadcast_within_shard
send_prepare now shard_id n = broadcast_within_shard shard_id (stamped now [] prepare null n) n

unfoldable pub send_commit : ℕ → ℤ → Node → Outcome (List Effect)
unfolding broadcast_within_shard
send_commit now shard_id n = broadcast_within_shard shard_id (stamped now [] commit null n) n

unfoldable pub dial_seed_node : ℕ → MsgType → Body → Node → List Effect
dial_seed_node now msg_type body n = enqueue (stamped now seed_node_id msg_type body n) ∷ []

dial_found : ℕ → MsgType → Body → Node → Bool × Bytes × Bytes → List Effect
dial_found now msg_type body n (true, leader, url) =
    enqueue (stamped now leader msg_type body n) ∷ []
dial_found now msg_type body n (false, leader, url) = []

unfoldable pub dial_global_leader : ℕ → MsgType → Body → Node → Outcome (List Effect)
unfolding dial_found
dial_global_leader now msg_type body n = do
  found ← find_my_global_leader n.peers
  ok (dial_found now msg_type body n found)

-- The goroutine that StartConsensus starts, on the node as it is when it runs.
unfoldable pub opening : ℕ → Node → Outcome (List Effect)
unfolding send_prepare dial_seed_node
opening now n = do
  intra ← send_prepare now n.state.node_id.shard_id n
  global ← send_prepare now intra_leader_shard_id n
  ok (intra ++ global ++ dial_seed_node now mining_stat null n)
