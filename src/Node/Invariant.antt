-- ===== src/Node/Invariant.antt =====
-- What holds of a node of the frustum package between two messages.
use frustum.Prelude.{
  ℕ, ◌≡◌, refl, ◌∙◌, List, [], Bool, true, false, not, ◌&&◌, ◌==◌, arith, ℤ, Bool-cases, inl, inr,
}
use frustum.Prelude.Outcome.{Outcome, ok}
use frustum.Prelude.Ensures.{Ensures, returns, panics, Ensures-bind, Ensures-bind_with, Ensures-ok}
use frustum.Float.{malicious}
use frustum.Message.{
  NodeMsg, MsgType, Block, null, unmarshal_shard_mem, start, pre_prepare, prepare, commit, finality,
  node_member, intra_leader_mem, global_leader_mem, shut_down,
}
use frustum.Quorum.{
  Name, Quorum, reset_count, intra_prepare, global_prepare, intra_commit, global_commit,
  intra_finality, global_finality,
}
use frustum.Quorum.Trace.{handle_name, handle_latest}
use frustum.Peers.{intra_leader_shard_id, handle_shard_msg}
use frustum.Pool.{commit_trs}
use frustum.Node.Send.{broadcast_within_shard, stamped}
use frustum.Node.Types.{Node, State, Checks, Effect}
use frustum.Node.{
  Env, in_prepare, opened, entered, handing, from_own_shard, shard_mem_num, reset_checks,
  reset_vote_check, tr_num_in_block, end_block_height, generate_new_block, start_consensus, cast,
  vote, handle_pre_prepare, handle_prepare, handle_commit, handle_finality, next_round,
  whether_or_not_leader, handle_members, close_exit_ch, dispatch, msg_handle,
}

-- Both counters of a phase are of round `h`, and bear their names.
pub record IsPhase (h : ℕ) (a b : Name) (c : Checks) : Type 0 where
  pub intra_round : c.intra.latest_proposal_num ≡ h
  pub global_round : c.global.latest_proposal_num ≡ h
  pub intra_name : c.intra.name ≡ a
  pub global_name : c.global.name ≡ b

-- All six counters are of the round of the node's height.
pub record IsSynced (s : State) : Type 0 where
  pub prepare_phase : IsPhase s.block_height intra_prepare global_prepare s.prepare_check
  pub commit_phase : IsPhase s.block_height intra_commit global_commit s.commit_check
  pub finality_phase : IsPhase s.block_height intra_finality global_finality s.finality_check

reset_checks-IsPhase :
    (h old : ℕ) (a b : Name) (c : Checks) → IsPhase old a b c → IsPhase h a b (reset_checks h c)
unfolding reset_count
reset_checks-IsPhase h old a b c p = record {
  intra_round = refl;
  global_round = refl;
  intra_name = p.intra_name;
  global_name = p.global_name;
}

reset_vote_check-IsSynced :
    (h : ℕ) (s : State) → IsSynced s → IsSynced (record (reset_vote_check h s) { block_height = h })
unfolding reset_vote_check
reset_vote_check-IsSynced h s v = record {
  prepare_phase = reset_checks-IsPhase h _ _ _ s.prepare_check v.prepare_phase;
  commit_phase = reset_checks-IsPhase h _ _ _ s.commit_check v.commit_phase;
  finality_phase = reset_checks-IsPhase h _ _ _ s.finality_check v.finality_phase;
}

cast_keeps :
    (msg : NodeMsg) (total : ℕ) (q : Quorum)
    → ((cast msg total q).0.name ≡ q.name)
      × ((cast msg total q).0.latest_proposal_num ≡ q.latest_proposal_num)
unfolding cast
cast_keeps msg total q =
    ground (arith, handle_name malicious total msg q, handle_latest malicious total msg q)

vote-IsPhase :
    (h : ℕ) (a b : Name) (msg : NodeMsg) (own : Bool) (total : ℕ) (c : Checks)
    → IsPhase h a b c
    → IsPhase h a b (vote msg own total c).0
unfolding vote
vote-IsPhase h a b msg true total c p =
    let (same_name, same_round) = cast_keeps msg total c.intra in
    record {
      intra_round = same_round ∙ p.intra_round;
      global_round = p.global_round;
      intra_name = same_name ∙ p.intra_name;
      global_name = p.global_name;
    }
vote-IsPhase h a b msg false total c p =
    let (same_name, same_round) = cast_keeps msg total c.global in
    record {
      intra_round = p.intra_round;
      global_round = same_round ∙ p.global_round;
      intra_name = p.intra_name;
      global_name = same_name ∙ p.global_name;
    }

-- What a handler leaves is synced.
abbrev pub Synced : Node × List Effect → Type 0
Synced r = IsSynced r.0.state

pub handing-Ensures :
    (P : Node × List Effect → Type 0) (n : Node) (sending : Outcome (List Effect))
    → ((es : List Effect) → P (n, es))
    → Ensures P (handing n sending)
unfolding handing
handing-Ensures P n sending h = Ensures-bind sending λ es. returns (h es)

handle_prepare-Synced :
    (env : Env) (msg : NodeMsg) (n : Node)
    → IsSynced n.state
    → Ensures Synced (handle_prepare env msg n)
unfolding handle_prepare
handle_prepare-Synced env msg n v = Ensures-bind (from_own_shard msg n) λ own.
    Ensures-bind (shard_mem_num own n) λ total. handing-Ensures Synced _ _ λ es. record {
      prepare_phase = vote-IsPhase _ _ _ msg own total n.state.prepare_check v.prepare_phase;
      commit_phase = v.commit_phase;
      finality_phase = v.finality_phase;
    }

handle_commit-Synced :
    (env : Env) (msg : NodeMsg) (n : Node)
    → IsSynced n.state
    → Ensures Synced (handle_commit env msg n)
unfolding handle_commit
handle_commit-Synced env msg n v = Ensures-bind (from_own_shard msg n) λ own.
    Ensures-bind (shard_mem_num own n) λ total. handing-Ensures Synced _ _ λ es. record {
      prepare_phase = v.prepare_phase;
      commit_phase = vote-IsPhase _ _ _ msg own total n.state.commit_check v.commit_phase;
      finality_phase = v.finality_phase;
    }

handle_pre_prepare-Synced :
    (env : Env) (msg : NodeMsg) (n : Node)
    → IsSynced (record n.state { block_height = msg.block_height })
    → Ensures Synced (handle_pre_prepare env msg n)
unfolding handle_pre_prepare
handle_pre_prepare-Synced env msg n v =
    Ensures-bind (from_own_shard msg (entered msg.block_height n)) λ own.
      handing-Ensures Synced _ _ λ es. record {
        prepare_phase = v.prepare_phase;
        commit_phase = v.commit_phase;
        finality_phase = v.finality_phase;
      }

-- A block is made with a new height, and the counters turn to it.
generate_new_block-checks :
    (env : Env) (n : Node)
    → Ensures
        (λ (r : Node × Block).
          (r.0.state.prepare_check ≡ n.state.prepare_check)
          × (r.0.state.commit_check ≡ n.state.commit_check)
          × (r.0.state.finality_check ≡ n.state.finality_check))
        (generate_new_block env n)
unfolding generate_new_block
generate_new_block-checks env n =
    Ensures-bind (commit_trs env.arrivals tr_num_in_block n.tx_pool)
      λ packed. returns (refl, refl, refl)

reset_checks_of :
    (h old : ℕ) (a b : Name) (c d : Checks)
    → d ≡ c
    → IsPhase old a b c
    → IsPhase h a b (reset_checks h d)
reset_checks_of h old a b c d e p = rw e (reset_checks-IsPhase h old a b c p)

start_consensus-Synced :
    (env : Env) (n : Node) → IsSynced n.state → Ensures Synced (start_consensus env n)
unfolding start_consensus
start_consensus-Synced env n v =
    Ensures-bind_with (generate_new_block env (in_prepare n))
      (generate_new_block-checks env (in_prepare n))
      λ made same.
        let n' = opened made.0 made.1 in
        let msg = stamped env.now [] pre_prepare null n' in
        Ensures-bind (broadcast_within_shard n'.state.node_id.shard_id msg n') λ intra.
          Ensures-bind (broadcast_within_shard intra_leader_shard_id msg n') λ global.
            returns (record {
              prepare_phase = reset_checks_of _ _ _ _ _ _ same.0 v.prepare_phase;
              commit_phase = reset_checks_of _ _ _ _ _ _ same.1 v.commit_phase;
              finality_phase = reset_checks_of _ _ _ _ _ _ same.2 v.finality_phase;
            })

next_round-Synced : (env : Env) (n : Node) → IsSynced n.state → Ensures Synced (next_round env n)
unfolding next_round
next_round-Synced env n v = elim (Bool-cases (n.state.block_height == end_block_height)) [
  | inl last ↦ rw last (elim (Bool-cases n.workers_stopped) [
    | inl stopped ↦ rw stopped panics
    | inr running ↦ rw running (returns v)
  ])
  | inr more ↦ rw more (start_consensus-Synced env n v)
]

handle_finality-Synced :
    (env : Env) (msg : NodeMsg) (n : Node)
    → IsSynced n.state
    → Ensures Synced (handle_finality env msg n)
unfolding handle_finality
handle_finality-Synced env msg n v = Ensures-bind (from_own_shard msg n) λ own.
    Ensures-bind (shard_mem_num own n) λ total.
      let check = (vote msg own total n.state.finality_check).0 in
      let finish = (vote msg own total n.state.finality_check).1 in
      let v' : IsSynced (record n.state { finality_check = check }) = record {
        prepare_phase = v.prepare_phase;
        commit_phase = v.commit_phase;
        finality_phase = vote-IsPhase _ _ _ msg own total n.state.finality_check v.finality_phase;
      } in
      elim (Bool-cases (finish && not own)) [
        | inl done ↦ rw done (next_round-Synced env _ v')
        | inr open_round ↦ rw open_round (returns v')
      ]

whether_or_not_leader-IsSynced :
    (k : ℤ) (leader : Bool) (n : Node)
    → IsSynced n.state
    → IsSynced (whether_or_not_leader k leader n).state
unfolding whether_or_not_leader
whether_or_not_leader-IsSynced k true n v = record {
  prepare_phase = v.prepare_phase;
  commit_phase = v.commit_phase;
  finality_phase = v.finality_phase;
}
whether_or_not_leader-IsSynced k false n v = v

handle_members-Synced :
    (msg : NodeMsg) (n : Node) → IsSynced n.state → Ensures Synced (handle_members msg n)
unfolding handle_members
handle_members-Synced msg n v = Ensures-bind (unmarshal_shard_mem msg.msg_body) λ shard.
    Ensures-bind (handle_shard_msg msg.msg_type shard n.peers)
      λ handled. returns (whether_or_not_leader-IsSynced handled.1 handled.2 _ v)

close_exit_ch-Synced : (n : Node) → IsSynced n.state → Ensures Synced (close_exit_ch n)
unfolding close_exit_ch
close_exit_ch-Synced n v = elim (Bool-cases n.exiting) [
  | inl closed ↦ rw closed panics
  | inr running ↦ rw running (returns v)
]

dispatch-Synced :
    (t : MsgType) (env : Env) (msg : NodeMsg) (n : Node)
    → IsSynced n.state
    → Ensures Synced (dispatch t env msg n)
unfolding dispatch
dispatch-Synced start env msg n v =
    Ensures-bind_with (start_consensus env n) (start_consensus-Synced env n v)
      λ r synced. returns synced
dispatch-Synced pre_prepare env msg n v =
    handle_pre_prepare-Synced env msg _ (reset_vote_check-IsSynced msg.block_height n.state v)
dispatch-Synced prepare env msg n v = handle_prepare-Synced env msg n v
dispatch-Synced commit env msg n v = handle_commit-Synced env msg n v
dispatch-Synced finality env msg n v = handle_finality-Synced env msg n v
dispatch-Synced node_member env msg n v = handle_members-Synced msg n v
dispatch-Synced intra_leader_mem env msg n v = handle_members-Synced msg n v
dispatch-Synced global_leader_mem env msg n v = handle_members-Synced msg n v
dispatch-Synced shut_down env msg n v = close_exit_ch-Synced n v
dispatch-Synced _ env msg n v = returns v

-- A node whose counters are synced with its height stays so over any message that it handles to
-- the end: all six counters are of the round of the node's height, under their own names.
pub msg_handle-IsSynced :
    (env : Env) (msg : NodeMsg) (n n' : Node) (es : List Effect)
    → IsSynced n.state
    → msg_handle env msg n ≡ ok (n', es)
    → IsSynced n'.state
unfolding msg_handle
msg_handle-IsSynced env msg n n' es v h = Ensures-ok (dispatch-Synced msg.msg_type env msg n v) h
