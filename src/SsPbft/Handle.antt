-- ===== src/SsPbft/Handle.antt =====
-- BlockChain/Consensus/SS-PBFT-V1: MsgHandle and CLIHandle.
use frustum.Prelude.{
  List, [], ◌∷◌, Bool, true, false, ltb, ◌==◌, if◌then◌else◌, ℤ, pos, Bytes, codes, bytes_eq, some,
}
use frustum.Prelude.Outcome.{Outcome, ok, blocked, ◌>>=◌}
use frustum.Message.{
  Block, MsgType, start, pre_prepare, prepare, commit, final_commit, block, node_member,
  intra_leader_mem, global_leader_mem, shut_down,
}
use frustum.Id.{NodeId, to_string}
use frustum.SsPbft.{
  Env, Node, Role, follower, intra_leader, global_leader, Msg, null, block_data, new_msg, Members,
  Server, Counter, Effect, cycle_add_tx, wait_some_time, print_result, Act,
  stop_mining_block_height,
}
use frustum.SsPbft.Send.{
  with_state, broad_cast_shard, broad_cast_v2_shard, length_of_shard, send_commit,
  send_final_to_intra_leader, inform_seed_node_mining_stop, reset_consensus_check_count,
  start_consensus,
}

-- The key that `range` visits last, in the default case of NodeMemProcessing.
abbrev last_shard_id : ℤ → Members → ℤ
last_shard_id id [] = id
last_shard_id id ((k, v) ∷ ms) = last_shard_id k.shard_id ms

-- NodeMemProcessing
abbrev pub node_mem_processing : MsgType → Members → ℤ × Members
node_mem_processing intra_leader_mem ms = (pos 1024, ms)
node_mem_processing global_leader_mem ms = (pos 1025, ms)
node_mem_processing _ ms = (last_shard_id (pos 0) ms, ms)

-- Whether the node is among the members.
abbrev pub is_listed : NodeId → Members → Bool
is_listed self [] = false
is_listed self ((k, v) ∷ ms) =
    if bytes_eq (to_string self) (to_string k) then true else is_listed self ms

-- The node, with what a sender hands on.
unfoldable pub handing : {Q : Type 0} → Node Q → Outcome (List Effect) → Act Q
handing n call = call >>= λ sent. ok (n, sent)

module _ {Q : Type 0} (counter : Counter Q) (server : Server) (env : Env) where
  abbrev adopted : Msg → Block → Node Q → Node Q
  adopted msg received n =
      with_state n
        (record n.state { block_height = msg.block_height; latest_block = some received })

  unfoldable pub handle_pre_prepare : Msg → Node Q → Act Q
  unfolding reset_consensus_check_count broad_cast_shard handing
  handle_pre_prepare msg n = do
    received ← server.unmarshal_block msg.msg_body
    if ltb n.state.block_height msg.block_height
        then (let opened =
              with_state n (reset_consensus_check_count counter (adopted msg received n).state) in
            let answer : Msg = new_msg n.self msg.from prepare null in
            handing opened (
              broad_cast_shard n.self.shard_id
                (record answer {
                  epoch_num = opened.state.node_epoch;
                  block_height = opened.state.block_height;
                })
                opened))
        else ok (n, [])

  abbrev with_prepare_check : Q → Node Q → Node Q
  with_prepare_check q n = with_state n (record n.state { prepare_check = q })

  abbrev with_commit_check : Q → Node Q → Node Q
  with_commit_check q n = with_state n (record n.state { commit_check = q })

  abbrev with_final_commit_check : Q → Node Q → Node Q
  with_final_commit_check q n = with_state n (record n.state { final_commit_check = q })

  -- A Prepare of a later height goes back to the node after a pause.
  unfoldable pub handle_prepare : Msg → Node Q → Act Q
  unfolding length_of_shard send_commit handing
  handle_prepare msg n = do
    num ← length_of_shard n.self.shard_id n
    let r = counter.handle num msg.block_height n.state.prepare_check
    let n' = with_prepare_check r.2 n
    if r.0
        then handing n' (send_commit n')
        else ok (n', if r.1 == 1024 then wait_some_time msg ∷ [] else [])

  abbrev is_follower : Role → Bool
  is_follower follower = true
  is_follower _ = false

  unfoldable pub handle_commit : Msg → Node Q → Act Q
  unfolding length_of_shard send_final_to_intra_leader
  handle_commit msg n = do
    num ← length_of_shard n.self.shard_id n
    let r = counter.handle num msg.block_height n.state.commit_check
    let n' = with_commit_check r.2 n
    ok (
      n',
      if r.0
          then (if is_follower n.state.node_role then send_final_to_intra_leader server n' else [])
          else [],
    )

  -- With a quorum the next block is made, or the mining stops.
  unfoldable pub handle_final_commit : Msg → Node Q → Act Q
  unfolding length_of_shard start_consensus inform_seed_node_mining_stop
  handle_final_commit msg n = do
    num ← length_of_shard n.self.shard_id n
    let r = counter.handle num msg.block_height n.state.final_commit_check
    let n' = with_final_commit_check r.2 n
    if r.0
        then (if ltb n'.state.block_height stop_mining_block_height
            then start_consensus counter server env n'
            else ok (n', print_result ∷ inform_seed_node_mining_stop n'))
        else ok (n', [])

  -- The node with the table of a message, and its members.
  unfoldable pub handle_members : Msg → Node Q → Outcome (Node Q × Members)
  handle_members msg n = do
    ms ← server.unmarshal_node_mem msg.msg_body
    let p = node_mem_processing msg.msg_type ms
    ok (record n { shards = server.add_shard p.0 p.1 n.shards }, ms)

  unfoldable pub handle_leaders : Role → Msg → Node Q → Act Q
  unfolding handle_members
  handle_leaders role msg n = do
    r ← handle_members msg n
    ok (
      if is_listed n.self r.1 then with_state r.0 (record r.0.state { node_role = role }) else r.0,
      [],
    )

  abbrev pub is_intra_leader : Role → Bool
  is_intra_leader intra_leader = true
  is_intra_leader _ = false

  unfoldable pub handle_block : Msg → Node Q → Act Q
  unfolding broad_cast_v2_shard handing
  handle_block msg n = do
    received ← server.unmarshal_block msg.msg_body
    let n' = with_state n (record n.state { latest_block = some received })
    if is_intra_leader n.state.node_role
        then handing n' (
            broad_cast_v2_shard server n.self.shard_id
              (new_msg n.self n.self block (block_data received)) n')
        else ok (n', [])

  -- n.NodeCh.ElegantExitCh <- struct{}{}, on the goroutine that alone receives from it.
  unfoldable pub ask_exit : Node Q → Act Q
  ask_exit n = if n.exits == 0 then ok (record n { exits = 1 }, []) else blocked

  unfoldable pub dispatch : MsgType → Msg → Node Q → Act Q
  unfolding start_consensus handle_pre_prepare handle_prepare handle_commit handle_final_commit
      handle_members handle_leaders handle_block ask_exit
  dispatch start msg n = start_consensus counter server env n >>= λ r. ok (r.0, cycle_add_tx ∷ r.1)
  dispatch pre_prepare msg n = handle_pre_prepare msg n
  dispatch prepare msg n = handle_prepare msg n
  dispatch commit msg n = handle_commit msg n
  dispatch final_commit msg n = handle_final_commit msg n
  dispatch node_member msg n = handle_members msg n >>= λ r. ok (r.0, [])
  dispatch intra_leader_mem msg n = handle_leaders intra_leader msg n
  dispatch global_leader_mem msg n = handle_leaders global_leader msg n
  dispatch block msg n = handle_block msg n
  dispatch shut_down msg n = ask_exit n
  dispatch _ msg n = ok (n, [])

  unfoldable pub msg_handle : Msg → Node Q → Act Q
  unfolding dispatch
  msg_handle msg n = dispatch msg.msg_type msg n

  unfoldable pub cli_handle : Bytes → Node Q → Act Q
  unfolding ask_exit
  cli_handle line n = if bytes_eq line (codes "quit") then ask_exit n else ok (n, [])

-- The messages that a node takes, one after another, with what is open in each.
unfoldable pub run :
    {Q : Type 0} → Counter Q → Server → List (Env × Msg) → Node Q → Outcome (Node Q)
unfolding msg_handle
run counter server [] n = ok n
run counter server ((env, msg) ∷ ms) n =
    msg_handle counter server env msg n >>= λ r. run counter server ms r.0
