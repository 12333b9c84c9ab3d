-- ===== src/SsPbft/Send.antt =====
-- BlockChain/Consensus/SS-PBFT-V1: the messages that a node sends, and the making of a block.
use frustum.Prelude.{
  ℕ, ◌+◌, ◌%◌, ◌^◌, List, [], ◌∷◌, ◌++◌, ◌==◌, if◌then◌else◌, ℤ, pos, Bytes, bytes_eq, length, some,
}
use frustum.Prelude.Table.{int_key, lookup}
use frustum.Prelude.Outcome.{Outcome, ok, deref, ◌>>=◌}
use frustum.Message.{
  MsgType, Block, pre_prepare, prepare, commit, final_commit, block, registration, mining_stat,
  mining_stop,
}
use frustum.Id.{NodeId, to_string}
use frustum.Block.{set_hash}
use frustum.Pool.{commit_trs}
use frustum.SsPbft.{
  Env, Node, State, Msg, Body, null, url, block_data, new_msg, Members, Shards, Server, Counter,
  Env, Effect, enqueue, post, send_prepare_later, mining_stat_later, calculate_tps, print_result,
  Act, tr_num_in_block, stop_mining_block_height,
}

-- The loop of BroadCast over the members, without the node itself.
unfoldable pub enqueue_each : NodeId → Msg → Members → List Effect
enqueue_each self msg [] = []
enqueue_each self msg ((k, v) ∷ ms) =
    let rest = enqueue_each self msg ms in
    if bytes_eq (to_string k) (to_string self) then rest else enqueue (record msg { to = k }) ∷ rest

-- The same of BroadCastV2.
unfoldable pub post_each : Server → Shards → NodeId → Msg → Members → List Effect
post_each server shards self msg [] = []
post_each server shards self msg ((k, v) ∷ ms) =
    let rest = post_each server shards self msg ms in
    if bytes_eq (to_string k) (to_string self)
    then rest
    else post (server.find_node k shards) (record msg { to = k }) ∷ rest

abbrev pub seed_node : NodeId
seed_node = record { shard_id = pos 0; in_shard_id = pos 0 }

module _ {Q : Type 0} where
  -- A message to the node itself, with its epoch and height.
  abbrev pub stamped : MsgType → Body → Node Q → Msg
  stamped t body n =
      let msg : Msg = new_msg n.self n.self t body in
      record msg { epoch_num = n.state.node_epoch; block_height = n.state.block_height }

  -- BroadCast and BroadCastV2 within a shard; the shard's pointer is followed.
  unfoldable pub broad_cast_shard : ℤ → Msg → Node Q → Outcome (List Effect)
  unfolding enqueue_each
  broad_cast_shard shard msg n = do
    nodes ← deref (lookup shard n.shards)
    ok (enqueue_each n.self msg nodes)

  unfoldable pub broad_cast_v2_shard : Server → ℤ → Msg → Node Q → Outcome (List Effect)
  unfolding post_each
  broad_cast_v2_shard server shard msg n = do
    nodes ← deref (lookup shard n.shards)
    ok (post_each server n.shards n.self msg nodes)

  -- LengthOfShard
  unfoldable pub length_of_shard : ℤ → Node Q → Outcome ℕ
  length_of_shard shard n = do nodes ← deref (lookup shard n.shards); ok (length nodes)

  -- What the goroutine that StartConsensus starts sends, when it runs.
  unfoldable pub send_prepare : Node Q → Outcome (List Effect)
  unfolding broad_cast_shard
  send_prepare n = broad_cast_shard n.self.shard_id (stamped prepare null n) n

  unfoldable pub send_commit : Node Q → Outcome (List Effect)
  unfolding broad_cast_shard
  send_commit n = broad_cast_shard n.self.shard_id (stamped commit null n) n

  unfoldable pub send_final_to_intra_leader : Server → Node Q → List Effect
  send_final_to_intra_leader server n =
      let leader = server.find_my_intra_leader n.self n.shards in
      let msg : Msg = stamped final_commit null n in
      post leader.1 (record msg { to = leader.0 })
      ∷ (if n.state.block_height == stop_mining_block_height then print_result ∷ [] else [])

  unfoldable pub inform_seed_node_mining_stat : Node Q → List Effect
  inform_seed_node_mining_stat n =
      let msg : Msg = stamped mining_stat null n in enqueue (record msg { to = seed_node }) ∷ []

  unfoldable pub inform_seed_node_mining_stop : Node Q → List Effect
  inform_seed_node_mining_stop n =
      let msg : Msg = stamped mining_stop null n in enqueue (record msg { to = seed_node }) ∷ []

  unfoldable pub send_registration : Bytes → Node Q → List Effect
  send_registration ipaddr n = enqueue (new_msg n.self seed_node registration (url ipaddr)) ∷ []

  abbrev pub with_state : Node Q → State Q → Node Q
  with_state n s = record n { state = s }

  -- GenerateNewBlock: the block, and the node with its height and hash.
  unfoldable pub generate_new_block : Env → Node Q → Outcome (Node Q × Block)
  generate_new_block env n = do
    packed ← commit_trs env.arrivals tr_num_in_block n.tx_pool
    let height = (n.state.block_height + 1) % 2 ^ 64
    let made = set_hash env.codec (record {
      time_stamp = env.now;
      block_height = height;
      miner = to_string n.self;
      pre_block_hash = n.state.pre_block_hash;
      block_hash = [];
      block_body = packed.0;
    })
    let state = record n.state { block_height = height; pre_block_hash = made.block_hash }
    ok (record n { tx_pool = packed.1; state = state }, made)

  -- ResetConsensusCheckCount
  unfoldable pub reset_consensus_check_count : Counter Q → State Q → State Q
  reset_consensus_check_count counter s = record s {
    prepare_check = counter.reset_count s.block_height s.prepare_check;
    commit_check = counter.reset_count s.block_height s.commit_check;
    final_commit_check = counter.reset_count s.block_height s.final_commit_check;
  }

  -- StartConsensus: the header goes to the shard, the block to the leaders of the shards.
  unfoldable pub start_consensus : Counter Q → Server → Env → Node Q → Act Q
  unfolding generate_new_block reset_consensus_check_count broad_cast_v2_shard
  start_consensus counter server env n = do
    made ← generate_new_block env n
    let opened =
        with_state made.0
          (reset_consensus_check_count counter (record made.0.state { latest_block = some made.1 }))
    header ←
        broad_cast_v2_shard server n.self.shard_id
          (stamped pre_prepare (block_data (record made.1 { block_body = [] })) opened) opened
    full ←
        broad_cast_v2_shard server (pos 1024) (new_msg n.self n.self block (block_data made.1))
          opened
    ok (
      opened,
      header ++ full ++ send_prepare_later ∷ mining_stat_later ∷ calculate_tps (some made.1) ∷ [],
    )
