-- ===== src/SsPbft/Height/Run.antt =====
-- BlockChain/Consensus/SS-PBFT-V1: the height of a node from message to message.
use frustum.Prelude.{◌≤◌, ◌≡◌, ◌≢◌, inl, inr, refl, List, [], ◌∷◌, All, arith}
use frustum.Prelude.Ensures.{Ensures, returns, Ensures-bind_with, Ensures-mono}
use frustum.Message.{
  MsgType, finality, registration, mining_stat, intra_mining_stat, mining_stop, other, start,
  pre_prepare, prepare, commit, final_commit, block, node_member, intra_leader_mem,
  global_leader_mem, shut_down,
}
use frustum.SsPbft.{
  Env, Node, Msg, Server, Counter, State, intra_leader, global_leader, stop_mining_block_height,
}
use frustum.SsPbft.Send.{start_consensus}
use frustum.SsPbft.Handle.{handle_members, dispatch, msg_handle, run}
use frustum.SsPbft.Height.{
  HeightMove, stays, mined, adopted, Moved, Still, quiet, start_consensus-Opened, pre_prepare-Moved,
  prepare-Moved, commit-Moved, final_commit-Moved, members-Moved, leaders-Moved, block-Moved,
  exit-Moved,
}

-- A message that starts no mining and proposes no block above the last one.
abbrev pub IsCalm : Env × Msg → Type 0
IsCalm (env, msg) = (msg.msg_type ≢ start) × (msg.block_height ≤ stop_mining_block_height)

module _ {Q : Type 0} (counter : Counter Q) where
  module _ (server : Server) (env : Env) where
    -- The types that neither mine nor propose.
    quiet_as :
        (msg : Msg) (n : Node Q) (t : MsgType)
        → msg.msg_type ≡ t
        → t ≢ start
        → t ≢ pre_prepare
        → t ≢ final_commit
        → Still counter msg n
    quiet_as msg n t e a b c = quiet counter e a b c

    dispatch-Moved :
        (t : MsgType) (msg : Msg) (n : Node Q)
        → msg.msg_type ≡ t
        → Ensures (Moved counter msg n) (dispatch counter server env t msg n)
    unfolding dispatch
    dispatch-Moved start msg n e =
        Ensures-bind_with (start_consensus counter server env n)
          (start_consensus-Opened counter server env n)
          λ r (grown, reset). returns (mined (inl e) grown reset)
    dispatch-Moved pre_prepare msg n e = pre_prepare-Moved counter server env msg n e
    dispatch-Moved prepare msg n e =
        prepare-Moved counter server env msg n
          (quiet_as msg n prepare e (λ x. cc) (λ x. cc) (λ x. cc))
    dispatch-Moved commit msg n e =
        commit-Moved counter server env msg n
          (quiet_as msg n commit e (λ x. cc) (λ x. cc) (λ x. cc))
    dispatch-Moved final_commit msg n e = final_commit-Moved counter server env msg n e
    dispatch-Moved node_member msg n e =
        Ensures-bind_with (handle_members counter server env msg n)
          (members-Moved counter server env msg n)
          λ r same. returns (quiet_as msg n node_member e (λ x. cc) (λ x. cc) (λ x. cc) _ same)
    dispatch-Moved intra_leader_mem msg n e =
        leaders-Moved counter server env intra_leader msg n
          (quiet_as msg n intra_leader_mem e (λ x. cc) (λ x. cc) (λ x. cc))
    dispatch-Moved global_leader_mem msg n e =
        leaders-Moved counter server env global_leader msg n
          (quiet_as msg n global_leader_mem e (λ x. cc) (λ x. cc) (λ x. cc))
    dispatch-Moved block msg n e =
        block-Moved counter server env msg n (quiet_as msg n block e (λ x. cc) (λ x. cc) (λ x. cc))
    dispatch-Moved shut_down msg n e =
        exit-Moved counter server env msg n
          (quiet_as msg n shut_down e (λ x. cc) (λ x. cc) (λ x. cc))
    dispatch-Moved finality msg n e =
        returns (quiet_as msg n finality e (λ x. cc) (λ x. cc) (λ x. cc) _ refl)
    dispatch-Moved registration msg n e =
        returns (quiet_as msg n registration e (λ x. cc) (λ x. cc) (λ x. cc) _ refl)
    dispatch-Moved mining_stat msg n e =
        returns (quiet_as msg n mining_stat e (λ x. cc) (λ x. cc) (λ x. cc) _ refl)
    dispatch-Moved intra_mining_stat msg n e =
        returns (quiet_as msg n intra_mining_stat e (λ x. cc) (λ x. cc) (λ x. cc) _ refl)
    dispatch-Moved mining_stop msg n e =
        returns (quiet_as msg n mining_stop e (λ x. cc) (λ x. cc) (λ x. cc) _ refl)
    dispatch-Moved (other b) msg n e =
        returns (quiet_as msg n (other b) e (λ x. cc) (λ x. cc) (λ x. cc) _ refl)

    -- When MsgHandle returns, the height is the next one, modulo 2^64, after start, and after a
    -- FinalCommit by which the counter of the node meets the quorum of its shard, below the height 64.
    -- It is the message's after a PrePrepare of a greater height. In these cases all three counters are
    -- reset to the new height. After any other message the height is what it was.
    pub msg_handle-Moved :
        (msg : Msg) (n : Node Q)
        → Ensures (Moved counter msg n) (msg_handle counter server env msg n)
    unfolding msg_handle
    msg_handle-Moved msg n = dispatch-Moved msg.msg_type msg n refl

  next-le :
      {msg : Msg} {n : Node Q} {s : State Q} (env : Env)
      → IsCalm (env, msg)
      → n.state.block_height ≤ stop_mining_block_height
      → HeightMove counter msg n s
      → (n.state.block_height ≤ s.block_height) × (s.block_height ≤ stop_mining_block_height)
  next-le env calm le (stays _ _ same) = (omega (arith, same), omega (arith, same, le))
  next-le env calm le (mined (inl e) _ _) = absurd (calm.0 e)
  next-le env calm le (mined (inr c) grown _) =
      (omega (arith, grown, c.below), omega (arith, grown, c.below))
  next-le env calm le (adopted (_, lt) same _) =
      (omega (arith, lt, same), omega (arith, calm.1, same))

  -- The height over any messages other than start, of heights up to 64, from at most 64: it never goes
  -- down, and never above 64.
  pub run-le :
      (server : Server) (ms : List (Env × Msg)) (n : Node Q)
      → All IsCalm ms
      → n.state.block_height ≤ stop_mining_block_height
      → Ensures
          (λ t.
            (n.state.block_height ≤ t.state.block_height)
            × (t.state.block_height ≤ stop_mining_block_height))
          (run counter server ms n)
  unfolding run
  run-le server [] n calm le = returns (omega arith, le)
  run-le server ((env, msg) ∷ ms) n (c, calm) le =
      Ensures-bind_with (msg_handle counter server env msg n) (msg_handle-Moved server env msg n)
        λ r move.
          let (up, top) = next-le env c le move in
          Ensures-mono (run counter server ms r.0) (run-le server ms r.0 calm top)
            λ t (rise, max). (omega (arith, up, rise), max)
