-- ===== src/Node/Progress/Phases.antt =====
-- That PrePrepare, Prepare and Commit of the frustum package are handled to the end.
use frustum.Prelude.{◌≡◌, refl, ◌∙◌, ◌⊎◌, List, [], ◌∷◌, ◌++◌, if◌then◌else◌, inl, inr, All}
use frustum.Prelude.Table.{int_key}
use frustum.Prelude.Outcome.{ok}
use frustum.Message.{NodeMsg, MsgType, null, pre_prepare, prepare, commit}
use frustum.Id.{NodeId, string_to_id}
use frustum.Block.{Codec}
use frustum.Node.Types.{Node, Effect}
use frustum.Node.Send.{stamped, send_prepare, send_commit}
use frustum.Node.Chain.{run}
use frustum.Node.{
  Env, Act, ◌then◌, with_state, entered, shard_of, from_own_shard, shard_mem_num, reset_vote_check,
  vote, report_finality, handle_pre_prepare, handle_prepare, handle_commit, dispatch, msg_handle,
}
use frustum.Node.Progress.{
  Returns, IsParticipant, IsParticipant-like, shard_mem_num-Returns, broadcast-Returns,
  from_own_shard-Returns, sending_if-Returns, report_finality-Returns, Stays, Stays-bind,
  handing-Stays,
}

module _ (own_id sender : NodeId) (env : Env) (msg : NodeMsg) where
  handle_pre_prepare-Stays :
      (n : Node)
      → IsParticipant own_id n
      → string_to_id msg.from ≡ ok sender
      → Stays n (handle_pre_prepare env msg n)
  unfolding handle_pre_prepare send_prepare
  handle_pre_prepare-Stays n p e =
      let n' = entered msg.block_height n in
      let p' = IsParticipant-like own_id n n' refl refl p in
      Stays-bind n (from_own_shard msg n') (from_own_shard-Returns sender msg n' e) λ own.
        handing-Stays n n' (send_prepare env.now (shard_of own n') n')
          (broadcast-Returns own_id n' p' own (stamped env.now [] prepare null n')) refl refl

  handle_prepare-Stays :
      (n : Node)
      → IsParticipant own_id n
      → string_to_id msg.from ≡ ok sender
      → Stays n (handle_prepare env msg n)
  unfolding handle_prepare send_commit
  handle_prepare-Stays n p e =
      Stays-bind n (from_own_shard msg n) (from_own_shard-Returns sender msg n e) λ own.
        Stays-bind n (shard_mem_num own n) (shard_mem_num-Returns own_id n p own) λ total.
          let voted = vote msg own total n.state.prepare_check in
          let n' = with_state n (record n.state { prepare_check = voted.0 }) in
          let p' = IsParticipant-like own_id n n' refl refl p in
          let sending = send_commit env.now (shard_of own n') n' in
          handing-Stays n n' (if voted.1 then sending else ok [])
            (sending_if-Returns voted.1 sending
              (broadcast-Returns own_id n' p' own (stamped env.now [] commit null n')))
            refl refl

  handle_commit-Stays :
      (n : Node)
      → IsParticipant own_id n
      → string_to_id msg.from ≡ ok sender
      → Stays n (handle_commit env msg n)
  unfolding handle_commit
  handle_commit-Stays n p e =
      Stays-bind n (from_own_shard msg n) (from_own_shard-Returns sender msg n e) λ own.
        Stays-bind n (shard_mem_num own n) (shard_mem_num-Returns own_id n p own) λ total.
          let voted = vote msg own total n.state.commit_check in
          let n' = with_state n (record n.state { commit_check = voted.0 }) in
          let p' = IsParticipant-like own_id n n' refl refl p in
          let sending = report_finality env n'.state.role n' in
          handing-Stays n n' (if voted.1 then sending else ok [])
            (sending_if-Returns voted.1 sending
              (report_finality-Returns own_id env n'.state.role n' p'))
            refl refl

-- A message of the three phases, from a sender whose identity can be read.
abbrev pub IsPhaseMessage : NodeMsg → Type 0
IsPhaseMessage msg =
    Returns (string_to_id msg.from)
    × ((msg.msg_type ≡ pre_prepare) ⊎ (msg.msg_type ≡ prepare) ⊎ (msg.msg_type ≡ commit))

dispatch-Stays :
    (own sender : NodeId) (t : MsgType) (env : Env) (msg : NodeMsg) (n : Node)
    → IsParticipant own n
    → string_to_id msg.from ≡ ok sender
    → (t ≡ pre_prepare) ⊎ (t ≡ prepare) ⊎ (t ≡ commit)
    → Stays n (dispatch t env msg n)
unfolding dispatch reset_vote_check
dispatch-Stays own sender t env msg n p e (inl phase) =
    let n' = with_state n (reset_vote_check msg.block_height n.state) in
    rw phase
      (handle_pre_prepare-Stays own sender env msg n' (IsParticipant-like own n n' refl refl p) e)
dispatch-Stays own sender t env msg n p e (inr (inl phase)) =
    rw phase (handle_prepare-Stays own sender env msg n p e)
dispatch-Stays own sender t env msg n p e (inr (inr phase)) =
    rw phase (handle_commit-Stays own sender env msg n p e)

msg_handle-Stays :
    (own : NodeId) (env : Env) (msg : NodeMsg) (n : Node)
    → IsParticipant own n
    → IsPhaseMessage msg
    → Stays n (msg_handle env msg n)
unfolding msg_handle
msg_handle-Stays own env msg n p ((sender, e), phase) =
    dispatch-Stays own sender msg.msg_type env msg n p e phase

then_run :
    (c : Codec) (later : List (Env × NodeMsg)) (n : Node) (m : Act)
    → Stays n m
    → ((n' : Node)
        → n'.peers ≡ n.peers
        → n'.state.node_id ≡ n.state.node_id
        → Stays n (run c later n'))
    → Stays n (m then run c later)
then_run c later n m (r, e, same_peers, same_id) h =
    let (s, e', peers', id') = h r.0 same_peers same_id in
    ((s.0, r.1 ++ s.1), rw (e, e'), peers', id')

-- A participant handles any run of PrePrepare, Prepare and Commit messages from senders whose
-- identities can be read to the end, without a panic, whatever the heights, the votes and its role
-- are; and it keeps its table and its identity.
pub phases_return :
    (c : Codec) (own : NodeId) (ms : List (Env × NodeMsg)) (n : Node)
    → IsParticipant own n
    → All (λ (m : Env × NodeMsg). IsPhaseMessage m.1) ms
    → (r : Node × List Effect) × (run c ms n ≡ ok r)
      × (r.0.peers ≡ n.peers)
      × (r.0.state.node_id ≡ n.state.node_id)
unfolding run
phases_return c own [] n p h = ((n, []), refl, refl, refl)
phases_return c own ((env, msg) ∷ later) n p (phase, h) =
    let env' = record env { codec = c } in
    then_run c later n (msg_handle env' msg n) (msg_handle-Stays own env' msg n p phase)
      λ n' same_peers same_id.
        let (r, e, peers', id') =
          phases_return c own later n' (IsParticipant-like own n n' same_peers same_id p) h in
        (r, e, peers' ∙ same_peers, id' ∙ same_id)
