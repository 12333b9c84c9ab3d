-- ===== src/SsPbft/Progress/Handlers.antt =====
-- BlockChain/Consensus/SS-PBFT-V1: each handler comes to its end.
use frustum.Id.{NodeId}
use frustum.Prelude.{subst, ◌≡◌, refl, inl, inr, some, [], ltb, Bool-cases, pos}
use frustum.Prelude.Table.{int_key}
use frustum.Message.{pre_prepare, prepare, commit, block}
use frustum.SsPbft.{
  Env, Node, Msg, Server, Counter, null, stop_mining_block_height, new_msg, block_data,
}
use frustum.SsPbft.Send.{
  with_state, stamped, send_commit, generate_new_block, reset_consensus_check_count,
  start_consensus,
}
use frustum.SsPbft.Handle.{
  handle_pre_prepare, handle_prepare, handle_commit, handle_final_commit, handle_block,
  is_intra_leader,
}
use frustum.SsPbft.Progress.{
  HasBlock, IsSupplied, HasShard, IsWorking, Works, IsWorking-with_state, length_of_shard_ok,
  broad_cast_v2_ok, Works-broadcast, Works-broadcast_v2, Works-bind, generate_new_block_ok,
}

module _ {Q : Type 0} (counter : Counter Q) (server : Server) (env : Env) where
  pub start_consensus-Works :
      (n : Node Q) → IsSupplied env → IsWorking n → Works (start_consensus counter server env n)
  unfolding start_consensus reset_consensus_check_count
  start_consensus-Works n supplied w =
      Works-bind {P = λ made. IsWorking made.0 × (made.0.self ≡ n.self)} (generate_new_block env n)
        (generate_new_block_ok env n supplied w)
        λ made (w', same).
          let opened = with_state made.0 (
            reset_consensus_check_count counter
              (record made.0.state { latest_block = some made.1 })) in
          let o = IsWorking-with_state made.0 opened.state w' in
          let own = subst (λ (i : NodeId). HasShard i.shard_id made.0.shards) same o.own in
          let (header, e1) =
            broad_cast_v2_ok server n.self.shard_id opened
              (stamped pre_prepare (block_data (record made.1 { block_body = [] })) opened) own in
          let (full, e2) =
            broad_cast_v2_ok server (pos 1024) opened
              (new_msg n.self n.self block (block_data made.1)) o.leaders in
          rw (e1, e2) (_, refl, o)

  pub pre_prepare-Works :
      (msg : Msg) (n : Node Q)
      → HasBlock server msg
      → IsWorking n
      → Works (handle_pre_prepare counter server env msg n)
  unfolding handle_pre_prepare
  pre_prepare-Works msg n (b, e) w =
      rw e (elim (Bool-cases (ltb n.state.block_height msg.block_height)) [
        | inl later ↦ rw later (
            Works-broadcast _
              (record (new_msg n.self msg.from prepare null) { epoch_num = _; block_height = _ })
              (IsWorking-with_state n _ w))
        | inr old ↦ rw old (_, refl, w)
      ])

  pub prepare-Works :
      (msg : Msg) (n : Node Q) → IsWorking n → Works (handle_prepare counter server env msg n)
  unfolding handle_prepare send_commit
  prepare-Works msg n w =
      let (num, e) = length_of_shard_ok n w in
      rw e (elim (Bool-cases (counter.handle num msg.block_height n.state.prepare_check).0) [
        | inl met ↦ rw met (Works-broadcast _ (stamped commit null n) (IsWorking-with_state n _ w))
        | inr few ↦ rw few (_, refl, IsWorking-with_state n _ w)
      ])

  pub commit-Works :
      (msg : Msg) (n : Node Q) → IsWorking n → Works (handle_commit counter server env msg n)
  unfolding handle_commit
  commit-Works msg n w =
      let (num, e) = length_of_shard_ok n w in rw e (_, refl, IsWorking-with_state n _ w)

  pub final_commit-Works :
      (msg : Msg) (n : Node Q)
      → IsSupplied env
      → IsWorking n
      → Works (handle_final_commit counter server env msg n)
  unfolding handle_final_commit
  final_commit-Works msg n supplied w =
      let (num, e) = length_of_shard_ok n w in
      rw e (elim (Bool-cases (counter.handle num msg.block_height n.state.final_commit_check).0) [
        | inl met ↦ rw met (elim (Bool-cases (ltb n.state.block_height stop_mining_block_height)) [
          | inl below ↦ rw below (start_consensus-Works _ supplied (IsWorking-with_state n _ w))
          | inr above ↦ rw above (_, refl, IsWorking-with_state n _ w)
        ])
        | inr few ↦ rw few (_, refl, IsWorking-with_state n _ w)
      ])

  pub block-Works :
      (msg : Msg) (n : Node Q)
      → HasBlock server msg
      → IsWorking n
      → Works (handle_block counter server env msg n)
  unfolding handle_block
  block-Works msg n (b, e) w =
      rw e (elim (Bool-cases (is_intra_leader counter server env n.state.node_role)) [
        | inl leads ↦ rw leads (
            Works-broadcast_v2 server _ (new_msg n.self n.self block (block_data b))
              (IsWorking-with_state n _ w))
        | inr leads_not ↦ rw leads_not (_, refl, IsWorking-with_state n _ w)
      ])
