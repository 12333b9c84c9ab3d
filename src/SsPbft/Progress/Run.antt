-- ===== src/SsPbft/Progress/Run.antt =====
-- BlockChain/Consensus/SS-PBFT-V1: the messages of a run are handled to the end.
use frustum.Prelude.{◌≤◌, ◌≡◌, ◌≢◌, refl, List, [], ◌∷◌, All}
use frustum.Prelude.Outcome.{ok}
use frustum.Prelude.Ensures.{Ensures-ok}
use frustum.Message.{
  MsgType, finality, registration, mining_stat, intra_mining_stat, mining_stop, other, start,
  pre_prepare, prepare, commit, final_commit, block, node_member, intra_leader_mem,
  global_leader_mem, shut_down,
}
use frustum.SsPbft.{Env, Node, Msg, Server, Counter, stop_mining_block_height, cycle_add_tx}
use frustum.SsPbft.Handle.{dispatch, msg_handle, run}
use frustum.SsPbft.Height.Run.{IsCalm, run-le}
use frustum.SsPbft.Progress.{HasBlock, IsSupplied, IsWorking, Works}
use frustum.SsPbft.Progress.Handlers.{
  start_consensus-Works, pre_prepare-Works, prepare-Works, commit-Works, final_commit-Works,
  block-Works,
}

-- A message that is no ShutDown and no table of members, whose body can be read as a block where the
-- handler does that, with transactions that arrive meanwhile.
pub record IsOrderly (server : Server) (m : Env × Msg) : Type 0 where
  pub supplied : IsSupplied m.0
  pub no_exit : m.1.msg_type ≢ shut_down
  pub no_members : m.1.msg_type ≢ node_member
  pub no_intra : m.1.msg_type ≢ intra_leader_mem
  pub no_global : m.1.msg_type ≢ global_leader_mem
  pub proposal : m.1.msg_type ≡ pre_prepare → HasBlock server m.1
  pub full_block : m.1.msg_type ≡ block → HasBlock server m.1

module _ {Q : Type 0} (counter : Counter Q) (server : Server) where
  dispatch-Works :
      (env : Env) (t : MsgType) (msg : Msg) (n : Node Q)
      → msg.msg_type ≡ t
      → IsOrderly server (env, msg)
      → IsWorking n
      → Works (dispatch counter server env t msg n)
  unfolding dispatch
  dispatch-Works env start msg n is o w =
      let (r, e, w') = start_consensus-Works counter server env n o.supplied w in
      rw e ((r.0, cycle_add_tx ∷ r.1), refl, w')
  dispatch-Works env pre_prepare msg n is o w =
      pre_prepare-Works counter server env msg n (o.proposal is) w
  dispatch-Works env prepare msg n is o w = prepare-Works counter server env msg n w
  dispatch-Works env commit msg n is o w = commit-Works counter server env msg n w
  dispatch-Works env final_commit msg n is o w =
      final_commit-Works counter server env msg n o.supplied w
  dispatch-Works env node_member msg n is o w = absurd (o.no_members is)
  dispatch-Works env intra_leader_mem msg n is o w = absurd (o.no_intra is)
  dispatch-Works env global_leader_mem msg n is o w = absurd (o.no_global is)
  dispatch-Works env block msg n is o w = block-Works counter server env msg n (o.full_block is) w
  dispatch-Works env shut_down msg n is o w = absurd (o.no_exit is)
  dispatch-Works env finality msg n is o w = (_, refl, w)
  dispatch-Works env registration msg n is o w = (_, refl, w)
  dispatch-Works env mining_stat msg n is o w = (_, refl, w)
  dispatch-Works env intra_mining_stat msg n is o w = (_, refl, w)
  dispatch-Works env mining_stop msg n is o w = (_, refl, w)
  dispatch-Works env (other b) msg n is o w = (_, refl, w)

  run-Works :
      (ms : List (Env × Msg)) (n : Node Q)
      → All (IsOrderly server) ms
      → IsWorking n
      → (t : Node Q) × (run counter server ms n ≡ ok t) × IsWorking t
  unfolding run msg_handle
  run-Works [] n orderly w = (n, refl, w)
  run-Works ((env, msg) ∷ ms) n (o, orderly) w =
      let (r, e, w') = dispatch-Works env msg.msg_type msg n refl o w in
      rw e (run-Works ms r.0 orderly w')

  -- The node knows its shard and the leaders of the shards, its pool has one channel with room, nothing
  -- waits in ElegantExitCh, and its height is at most 64. Then any messages other than start, ShutDown
  -- and the three with members, of heights up to 64, with a body that can be read as a block in
  -- PrePrepare and block, and with a transaction that arrives by the time that CommitTrs looks again, are
  -- all handled: nothing panics and nothing waits for ever. After them the same holds of the node, and
  -- its height is no lower than it was.
  pub run_returns :
      (ms : List (Env × Msg)) (n : Node Q)
      → All (IsOrderly server) ms
      → All IsCalm ms
      → IsWorking n
      → n.state.block_height ≤ stop_mining_block_height
      → (t : Node Q) × (run counter server ms n ≡ ok t)
        × IsWorking t
        × (n.state.block_height ≤ t.state.block_height)
        × (t.state.block_height ≤ stop_mining_block_height)
  run_returns ms n orderly calm w le =
      let (t, e, w') = run-Works ms n orderly w in
      let (up, top) = Ensures-ok (run-le counter server ms n calm le) e in (t, e, w', up, top)
