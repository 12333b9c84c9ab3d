-- ===== src/Node/Progress/Rounds.antt =====
-- That Start and Finality of the frustum package are handled to the end.
use frustum.Prelude.{
  ◌≡◌, ◌≢◌, refl, ◌⊎◌, List, [], ◌∷◌, true, false, not, ◌&&◌, ◌==◌, Bool-cases, inl, inr,
}
use frustum.Prelude.Table.{int_key}
use frustum.Prelude.Outcome.{ok}
use frustum.Message.{NodeMsg, MsgType, Block, null, start, pre_prepare, finality}
use frustum.Id.{NodeId, string_to_id}
use frustum.Peers.{intra_leader_shard_id}
use frustum.Pool.{ch_length}
use frustum.Pool.Order.{commit_trs-contents}
use frustum.Node.Types.{Node, Effect, start_workers}
use frustum.Node.Send.{broadcast_within_shard, stamped}
use frustum.Node.{
  Env, with_state, in_prepare, opened, from_own_shard, shard_mem_num, reset_vote_check,
  tr_num_in_block, end_block_height, generate_new_block, start_consensus, vote, handle_finality,
  next_round, dispatch, msg_handle,
}
use frustum.Node.Progress.{
  IsParticipant, IsParticipant-like, shard_mem_num-Returns, broadcast-Returns,
  from_own_shard-Returns, Stays, Stays-bind,
}

generated :
    (env : Env) (n : Node)
    → (ch_length n.tx_pool).1 ≢ 0
    → (made : Node × Block) × (generate_new_block env n ≡ ok made)
      × (made.0.peers ≡ n.peers)
      × (made.0.state.node_id ≡ n.state.node_id)
unfolding generate_new_block
generated env n some_tx =
    let (p', e, _, _, _) = commit_trs-contents env.arrivals tr_num_in_block n.tx_pool some_tx in
    rw e (_, refl, refl, refl)

start_consensus-Stays :
    (own : NodeId) (env : Env) (n : Node)
    → IsParticipant own n
    → (ch_length n.tx_pool).1 ≢ 0
    → Stays n (start_consensus env n)
unfolding start_consensus reset_vote_check
start_consensus-Stays own env n p some_tx =
    let (made, e, same_peers, same_id) = generated env (in_prepare n) some_tx in
    let n' = opened made.0 made.1 in
    let p' = IsParticipant-like own n n' same_peers same_id p in
    let msg = stamped env.now [] pre_prepare null n' in
    rw e (
      Stays-bind n (broadcast_within_shard n'.state.node_id.shard_id msg n')
        (broadcast-Returns own n' p' true msg)
        λ intra.
          Stays-bind n (broadcast_within_shard intra_leader_shard_id msg n')
            (broadcast-Returns own n' p' false msg) λ global. ((n', _), refl, same_peers, same_id))

next_round-Stays :
    (own : NodeId) (env : Env) (n : Node)
    → IsParticipant own n
    → (ch_length n.tx_pool).1 ≢ 0
    → n.workers_stopped ≡ false
    → Stays n (next_round env n)
unfolding next_round
next_round-Stays own env n p some_tx running =
    elim (Bool-cases (n.state.block_height == end_block_height)) [
      | inl last ↦ rw (last, running) (_, refl, refl, refl)
      | inr more ↦ rw more (start_consensus-Stays own env n p some_tx)
    ]

handle_finality-Stays :
    (own sender : NodeId) (env : Env) (msg : NodeMsg) (n : Node)
    → IsParticipant own n
    → string_to_id msg.from ≡ ok sender
    → (ch_length n.tx_pool).1 ≢ 0
    → n.workers_stopped ≡ false
    → Stays n (handle_finality env msg n)
unfolding handle_finality
handle_finality-Stays own sender env msg n p e some_tx running =
    Stays-bind n (from_own_shard msg n) (from_own_shard-Returns sender msg n e) λ local.
      Stays-bind n (shard_mem_num local n) (shard_mem_num-Returns own n p local) λ total.
        let voted = vote msg local total n.state.finality_check in
        let n' = with_state n (record n.state { finality_check = voted.0 }) in
        elim (Bool-cases (voted.1 && not local)) [
          | inl done ↦ rw done (
              next_round-Stays own env n' (IsParticipant-like own n n' refl refl p) some_tx running)
          | inr open_round ↦ rw open_round ((n', []), refl, refl, refl)
        ]

dispatch_rounds-Stays :
    (own sender : NodeId) (env : Env) (t : MsgType) (msg : NodeMsg) (n : Node)
    → IsParticipant own n
    → string_to_id msg.from ≡ ok sender
    → (ch_length n.tx_pool).1 ≢ 0
    → n.workers_stopped ≡ false
    → (t ≡ start) ⊎ (t ≡ finality)
    → Stays n (dispatch t env msg n)
unfolding dispatch
dispatch_rounds-Stays own sender env t msg n p e some_tx running (inl begin) =
    let (r, made, same_peers, same_id) = start_consensus-Stays own env n p some_tx in
    rw (begin, made) ((r.0, start_workers ∷ r.1), refl, same_peers, same_id)
dispatch_rounds-Stays own sender env t msg n p e some_tx running (inr last) =
    rw last (handle_finality-Stays own sender env msg n p e some_tx running)

-- With a transaction in its pool and its workers not yet stopped, a participant also handles Start
-- and Finality from a sender whose identity can be read to the end: it does not wait for
-- transactions, nothing panics, and the table and the identity stay.
pub rounds_return :
    (env : Env) (own sender : NodeId) (msg : NodeMsg) (n : Node)
    → IsParticipant own n
    → string_to_id msg.from ≡ ok sender
    → (ch_length n.tx_pool).1 ≢ 0
    → n.workers_stopped ≡ false
    → (msg.msg_type ≡ start) ⊎ (msg.msg_type ≡ finality)
    → (r : Node × List Effect) × (msg_handle env msg n ≡ ok r)
      × (r.0.peers ≡ n.peers)
      × (r.0.state.node_id ≡ n.state.node_id)
unfolding msg_handle
rounds_return env own sender msg n p e some_tx running t =
    dispatch_rounds-Stays own sender env msg.msg_type msg n p e some_tx running t
