-- ===== src/Node.antt =====
-- BlockChain/Consensus/frustum/ConsensusFunc.go and the handlers of Node.go: how a consensus node
-- answers a message. A handler returns the node and what it hands out; a run that waits for
-- transactions that do not come is blocked. Logging is left out.
pub mod Types
pub mod Send
pub mod Invariant
pub mod Chain
pub mod Rounds
pub mod Progress
mod Tests
use frustum.Prelude.{
  ℕ, ◌+◌, ◌%◌, ◌^◌, List, [], ◌∷◌, ◌++◌, Bool, true, false, not, ◌&&◌, ◌==◌, if◌then◌else◌, ℤ, pos,
  negsuc, int_eq, Bytes, bytes_eq, codes, some, length,
}
use frustum.Prelude.Table.{Table, int_key, lookup}
use frustum.Prelude.Outcome.{Outcome, ok, panic, deref, ◌>>=◌}
use frustum.Float.{malicious}
use frustum.Message.{
  Transaction, Block, NodeMsg, MsgType, null, unmarshal_shard_mem, start, pre_prepare, prepare,
  commit, finality, node_member, intra_leader_mem, global_leader_mem, shut_down, mining_stop,
}
use frustum.Id.{string_to_id}
use frustum.Quorum.{Quorum, reset_count, handle}
use frustum.Peers.{intra_leader_shard_id, global_leader_shard_id, handle_shard_msg}
use frustum.Pool.{TxPool, commit_trs}
use frustum.Block.{Codec, set_hash}
use Types.{
  Node, State, Role, Stage, Checks, Effect, spawn_opening, count_block, start_workers, stop_workers,
  close_exit, intra_leader, global_leader,
}
use Send.{
  broadcast_within_shard, stamped, send_prepare, send_commit, dial_seed_node, dial_global_leader,
}

abbrev pub tr_num_in_block : ℕ
tr_num_in_block = 1024

abbrev pub end_block_height : ℕ
end_block_height = 64

-- What a run of a handler meets: SHA-256 and gob, the time, and the transactions that other
-- goroutines add while it waits for some.
pub record Env : Type 0 where
  pub codec : Codec
  pub now : ℕ
  pub arrivals : List (List Transaction)

abbrev pub Act : Type 0
Act = Outcome (Node × List Effect)

-- One after the other, the second on the node that the first leaves.
infixl 6 ◌then◌
abbrev pub ◌then◌ : Act → (Node → Act) → Act
m then k = do r ← m; s ← k r.0; ok (s.0, r.1 ++ s.1)

-- The node, with what its last call hands out.
pub handing : Node → Outcome (List Effect) → Act
handing n sending = do sent ← sending; ok (n, sent)

abbrev pub with_state : Node → State → Node
with_state n s = record n { state = s }

-- The block, and the node with the new height and the block's hash.
unfoldable pub generate_new_block : Env → Node → Outcome (Node × Block)
generate_new_block env n = do
  packed ← commit_trs env.arrivals tr_num_in_block n.tx_pool
  let height = (n.state.block_height + 1) % 2 ^ 64
  let block = set_hash env.codec (record {
    time_stamp = env.now;
    block_height = height;
    miner = n.server_id;
    pre_block_hash = n.state.pre_block_hash;
    block_hash = [];
    block_body = packed.0;
  })
  let state = record n.state { block_height = height; pre_block_hash = block.block_hash }
  ok (record n { tx_pool = packed.1; state = state }, block)

abbrev reset_checks : ℕ → Checks → Checks
reset_checks h c = record { intra = reset_count h c.intra; global = reset_count h c.global }

unfoldable pub reset_vote_check : ℕ → State → State
reset_vote_check h s = record s {
  prepare_check = reset_checks h s.prepare_check;
  commit_check = reset_checks h s.commit_check;
  finality_check = reset_checks h s.finality_check;
}

abbrev in_prepare : Node → Node
in_prepare n = with_state n (record n.state { stage = Stage.prepare })

-- The node with its new block and the counters of the block's round.
opened : Node → Block → Node
opened n block =
    with_state n
      (reset_vote_check n.state.block_height (record n.state { latest_block = some block }))

unfoldable pub start_consensus : Env → Node → Act
unfolding generate_new_block opened reset_vote_check
start_consensus env n = do
  made ← generate_new_block env (in_prepare n)
  let n' = opened made.0 made.1
  let msg = stamped env.now [] pre_prepare null n'
  intra ← broadcast_within_shard n'.state.node_id.shard_id msg n'
  global ← broadcast_within_shard intra_leader_shard_id msg n'
  ok (n', intra ++ global ++ spawn_opening ∷ count_block made.1 ∷ [])

-- Whether a message is from this node's shard.
pub from_own_shard : NodeMsg → Node → Outcome Bool
from_own_shard msg n = do
  sender ← string_to_id msg.from
  ok (int_eq sender.shard_id n.state.node_id.shard_id)

-- The shard in which a phase is counted.
abbrev pub shard_of : Bool → Node → ℤ
shard_of own n = if own then n.state.node_id.shard_id else intra_leader_shard_id

abbrev entered : ℕ → Node → Node
entered h n = with_state n (record n.state { stage = Stage.prepare; block_height = h })

unfoldable pub handle_pre_prepare : Env → NodeMsg → Node → Act
unfolding from_own_shard handing
handle_pre_prepare env msg n = do
  let n' = entered msg.block_height n
  own ← from_own_shard msg n'
  handing n' (send_prepare env.now (shard_of own n') n')

-- The members of the shard in which a phase is counted.
pub shard_mem_num : Bool → Node → Outcome ℕ
shard_mem_num own n = do
  shard ← deref (lookup (shard_of own n) n.peers.shards)
  ok (length shard.member)

-- The counter of a phase after a message, with Finish set if the message met the quorum.
cast : NodeMsg → ℕ → Quorum → Quorum × Bool
cast msg total q =
    let (q', finish, quorum) = handle malicious total msg q in
    (if finish then record q' { finish = true } else q', finish)

vote : NodeMsg → Bool → ℕ → Checks → Checks × Bool
unfolding cast
vote msg true total c = let (q, finish) = cast msg total c.intra in (record c { intra = q }, finish)
vote msg false total c =
    let (q, finish) = cast msg total c.global in (record c { global = q }, finish)

unfoldable pub handle_prepare : Env → NodeMsg → Node → Act
unfolding from_own_shard shard_mem_num vote handing
handle_prepare env msg n = do
  own ← from_own_shard msg n
  total ← shard_mem_num own n
  let (check, finish) = vote msg own total n.state.prepare_check
  let n' = with_state n (record n.state { prepare_check = check })
  handing n' (if finish then send_commit env.now (shard_of own n') n' else ok [])

report_finality : Env → Role → Node → Outcome (List Effect)
report_finality env global_leader n = ok []
report_finality env _ n = dial_global_leader env.now finality null n

unfoldable pub handle_commit : Env → NodeMsg → Node → Act
unfolding from_own_shard shard_mem_num vote report_finality handing
handle_commit env msg n = do
  own ← from_own_shard msg n
  total ← shard_mem_num own n
  let (check, finish) = vote msg own total n.state.commit_check
  let n' = with_state n (record n.state { commit_check = check })
  handing n' (if finish then report_finality env n'.state.role n' else ok [])

unfoldable pub next_round : Env → Node → Act
next_round env n =
    if n.state.block_height == end_block_height
    then (if n.workers_stopped
        then panic
        else (let n' = record n { workers_stopped = true } in
            ok (n', stop_workers ∷ dial_seed_node env.now mining_stop null n')))
    else start_consensus env n

unfoldable pub handle_finality : Env → NodeMsg → Node → Act
unfolding from_own_shard shard_mem_num vote
handle_finality env msg n = do
  own ← from_own_shard msg n
  total ← shard_mem_num own n
  let (check, finish) = vote msg own total n.state.finality_check
  let n' = with_state n (record n.state { finality_check = check })
  if finish && not own then next_round env n' else ok (n', [])

leader_role : ℤ → Role → Role
leader_role (pos k) role =
    if k == 1024 then intra_leader else if k == 1025 then global_leader else role
leader_role (negsuc k) role = role

unfoldable pub whether_or_not_leader : ℤ → Bool → Node → Node
unfolding leader_role
whether_or_not_leader shard_id leader n =
    if leader then with_state n (record n.state { role = leader_role shard_id n.state.role }) else n

unfoldable pub handle_members : NodeMsg → Node → Act
unfolding whether_or_not_leader
handle_members msg n = do
  shard ← unmarshal_shard_mem msg.msg_body
  handled ← handle_shard_msg msg.msg_type shard n.peers
  ok (whether_or_not_leader handled.1 handled.2 (record n { peers = handled.0 }), [])

-- A channel that is closed again is a panic.
unfoldable pub close_exit_ch : Node → Act
close_exit_ch n = if n.exiting then panic else ok (record n { exiting = true }, close_exit ∷ [])

-- The switch of MSGHandle.
dispatch : MsgType → Env → NodeMsg → Node → Act
dispatch start env msg n = ok (n, start_workers ∷ []) then start_consensus env
dispatch pre_prepare env msg n =
    handle_pre_prepare env msg (with_state n (reset_vote_check msg.block_height n.state))
dispatch prepare env msg n = handle_prepare env msg n
dispatch commit env msg n = handle_commit env msg n
dispatch finality env msg n = handle_finality env msg n
dispatch node_member env msg n = handle_members msg n
dispatch intra_leader_mem env msg n = handle_members msg n
dispatch global_leader_mem env msg n = handle_members msg n
dispatch shut_down env msg n = close_exit_ch n
dispatch _ env msg n = ok (n, [])

unfoldable pub msg_handle : Env → NodeMsg → Node → Act
unfolding dispatch
msg_handle env msg n = dispatch msg.msg_type env msg n

unfoldable pub cli_handle : Bytes → Node → Act
cli_handle cli n = if bytes_eq cli (codes "quit") then close_exit_ch n else ok (n, [])
