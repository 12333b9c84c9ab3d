-- ===== src/Node/Rounds.antt =====
-- How the height of a node of the frustum package moves.
use frustum.Prelude.{
  ℕ, ◌+◌, ◌%◌, ◌^◌, ◌≡◌, ◌≢◌, subst, refl, sym, ◌∙◌, List, [], Bool, true, false, not, ◌&&◌, ◌⊎◌,
  ◌==◌, ==_iff, arith, ℤ, Bool-cases, inl, inr,
}
use mathlib.Core.Bool.{false≢true}
use frustum.Prelude.Outcome.{ok, ok-injective}
use frustum.Prelude.Ensures.{
  Ensures, returns, panics, Ensures-bind, Ensures-bind_with, Ensures-self, Ensures-mono, Ensures-ok,
}
use frustum.Float.{malicious}
use frustum.Message.{
  NodeMsg, MsgType, null, unmarshal_shard_mem, start, pre_prepare, prepare, commit, finality,
  node_member, intra_leader_mem, global_leader_mem, shut_down, registration, mining_stat,
  intra_mining_stat, mining_stop, final_commit, block, other,
}
use frustum.Quorum.{Quorum, handle}
use frustum.Quorum.Count.{handle-handle_reference}
use frustum.Peers.{intra_leader_shard_id, handle_shard_msg}
use frustum.Pool.{commit_trs}
use frustum.Node.Types.{Node, Effect}
use frustum.Node.Send.{broadcast_within_shard, stamped, send_prepare}
use frustum.Node.Invariant.{IsSynced, handing-Ensures}
use frustum.Node.{
  Env, with_state, in_prepare, opened, entered, handing, shard_of, from_own_shard, shard_mem_num,
  reset_vote_check, tr_num_in_block, end_block_height, generate_new_block, start_consensus, cast,
  vote, handle_pre_prepare, handle_prepare, handle_commit, handle_finality, next_round,
  whether_or_not_leader, handle_members, close_exit_ch, dispatch, msg_handle,
}

abbrev next_height : Node → ℕ
next_height n = (n.state.block_height + 1) % 2 ^ 64

-- A message that completes a round: a Finality of the node's own height from another shard, by which
-- the global counter meets the quorum of the leaders' shard, before the last height.
pub record Completes (msg : NodeMsg) (n : Node) : Type 0 where
  pub total : ℕ
  pub is_finality : msg.msg_type ≡ finality
  pub foreign : from_own_shard msg n ≡ ok false
  pub members : shard_mem_num false n ≡ ok total
  pub of_height : msg.block_height ≡ n.state.block_height
  pub met : (handle malicious total msg n.state.finality_check.global).1 ≡ true
  pub before_end : (n.state.block_height == end_block_height) ≡ false

-- A message that leaves the height: no PrePrepare, no Start, and nothing that completes a round.
pub record IsQuiet (msg : NodeMsg) (n : Node) : Type 0 where
  pub no_proposal : msg.msg_type ≢ pre_prepare
  pub no_start : msg.msg_type ≢ start
  pub completes_not : ¬ Completes msg n

-- What a message does to the height.
pub data HeightMove (msg : NodeMsg) (n : Node) (r : Node × List Effect) : Type 0 where
  kept : IsQuiet msg n → r.0.state.block_height ≡ n.state.block_height → HeightMove msg n r
  told : msg.msg_type ≡ pre_prepare → r.0.state.block_height ≡ msg.block_height → HeightMove msg n r
  begun : msg.msg_type ≡ start → r.0.state.block_height ≡ next_height n → HeightMove msg n r
  completed : Completes msg n → r.0.state.block_height ≡ next_height n → HeightMove msg n r

-- A message of a type that moves no height.
IsQuiet-type :
    (msg : NodeMsg) (n : Node) {t : MsgType}
    → msg.msg_type ≡ t
    → t ≢ pre_prepare
    → t ≢ start
    → t ≢ finality
    → IsQuiet msg n
IsQuiet-type msg n e a b c = record {
  no_proposal = λ is. a (sym e ∙ is);
  no_start = λ is. b (sym e ∙ is);
  completes_not = λ done. c (sym e ∙ done.is_finality);
}

generate_new_block_height :
    (env : Env) (n : Node)
    → Ensures (λ r. r.0.state.block_height ≡ next_height n) (generate_new_block env n)
unfolding generate_new_block
generate_new_block_height env n =
    Ensures-bind (commit_trs env.arrivals tr_num_in_block n.tx_pool) λ packed. returns refl

start_consensus_height :
    (env : Env) (n : Node)
    → Ensures (λ r. r.0.state.block_height ≡ next_height n) (start_consensus env n)
unfolding start_consensus reset_vote_check
start_consensus_height env n =
    Ensures-bind_with (generate_new_block env (in_prepare n))
      (generate_new_block_height env (in_prepare n))
      λ made e.
        let n' = opened made.0 made.1 in
        let msg = stamped env.now [] pre_prepare null n' in
        Ensures-bind (broadcast_within_shard n'.state.node_id.shard_id msg n') λ intra.
          Ensures-bind (broadcast_within_shard intra_leader_shard_id msg n') λ global. returns e

handle_of_round :
    (total : ℕ) (msg : NodeMsg) (q : Quorum)
    → (handle malicious total msg q).1 ≡ true
    → msg.block_height ≡ q.latest_proposal_num
handle_of_round total msg q h = ground (
  arith,
  handle-handle_reference malicious total msg q,
  ==_iff msg.block_height q.latest_proposal_num,
)

-- The test of HandleFinality, with the message from another shard.
done_foreign : (finish own : Bool) → (finish && not own) ≡ true → (finish ≡ true) × (own ≡ false)
done_foreign finish own h = ground arith

abbrev Moved : Node → Node × List Effect → Type 0
Moved n r =
    (((n.state.block_height == end_block_height) ≡ true)
      × (r.0.state.block_height ≡ n.state.block_height))
    ⊎ (((n.state.block_height == end_block_height) ≡ false)
        × (r.0.state.block_height ≡ next_height n))

next_round_height : (env : Env) (n : Node) → Ensures (Moved n) (next_round env n)
unfolding next_round
next_round_height env n = elim (Bool-cases (n.state.block_height == end_block_height)) [
  | inl last ↦ rw last (elim (Bool-cases n.workers_stopped) [
    | inl stopped ↦ rw stopped panics
    | inr running ↦ rw running (returns (inl (last, refl)))
  ])
  | inr more ↦
      rw more
        (Ensures-mono (start_consensus env n) (start_consensus_height env n) λ r e. inr (more, e))
]

vote_met :
    (msg : NodeMsg) (total : ℕ) (n : Node)
    → (vote msg false total n.state.finality_check).1
      ≡ (handle malicious total msg n.state.finality_check.global).1
unfolding vote cast
vote_met msg total n = refl

completed_by :
    (msg : NodeMsg) (n : Node) (own : Bool) (total : ℕ)
    → IsSynced n.state
    → msg.msg_type ≡ finality
    → from_own_shard msg n ≡ ok own
    → shard_mem_num own n ≡ ok total
    → ((vote msg own total n.state.finality_check).1 && not own) ≡ true
    → (n.state.block_height == end_block_height) ≡ false
    → Completes msg n
completed_by msg n true total v e sender members done more =
    absurd (false≢true (sym (done_foreign _ true done).1))
completed_by msg n false total v e sender members done more =
    let met = sym (vote_met msg total n) ∙ (done_foreign _ false done).0 in
    record {
      total = total;
      is_finality = e;
      foreign = sender;
      members = members;
      of_height =
          handle_of_round total msg n.state.finality_check.global met
          ∙ v.finality_phase.global_round;
      met = met;
      before_end = more;
    }

IsQuiet-finality :
    (msg : NodeMsg) (n : Node) → msg.msg_type ≡ finality → ¬ Completes msg n → IsQuiet msg n
IsQuiet-finality msg n e h = record {
  no_proposal = λ is. cc (sym e ∙ is);
  no_start = λ is. cc (sym e ∙ is);
  completes_not = h;
}

-- A Finality that does not pass the test of HandleFinality does not complete the round.
unmet :
    (msg : NodeMsg) (n : Node) (own : Bool) (total : ℕ)
    → from_own_shard msg n ≡ ok own
    → shard_mem_num own n ≡ ok total
    → ((vote msg own total n.state.finality_check).1 && not own) ≡ false
    → ¬ Completes msg n
unmet msg n true total sender members open_round c =
    false≢true (ok-injective (sym c.foreign ∙ sender))
unmet msg n false total sender members open_round c =
    let same : c.total ≡ total = ok-injective (sym c.members ∙ members) in
    let met : (vote msg false total n.state.finality_check).1 ≡ true =
      vote_met msg total n
      ∙ subst (λ k. (handle malicious k msg n.state.finality_check.global).1 ≡ true) same c.met in
    absurd (false≢true (sym open_round ∙ rw met refl))

handle_finality_height :
    (env : Env) (msg : NodeMsg) (n : Node)
    → IsSynced n.state
    → msg.msg_type ≡ finality
    → Ensures (HeightMove msg n) (handle_finality env msg n)
unfolding handle_finality
handle_finality_height env msg n v e =
    Ensures-bind_with (from_own_shard msg n) (Ensures-self _) λ own sender.
      Ensures-bind_with (shard_mem_num own n) (Ensures-self _) λ total members.
        let voted = vote msg own total n.state.finality_check in
        let n' = with_state n (record n.state { finality_check = voted.0 }) in
        elim (Bool-cases (voted.1 && not own)) [
          | inl done ↦ rw done (
              Ensures-mono (next_round env n') (next_round_height env n') λ r moved. elim moved [
                | inl (last, same) ↦
                    kept (IsQuiet-finality msg n e λ c. false≢true (sym c.before_end ∙ last)) same
                | inr (more, next) ↦
                    completed (completed_by msg n own total v e sender members done more) next
              ])
          | inr open_round ↦ rw open_round (
              returns (
                kept (IsQuiet-finality msg n e (unmet msg n own total sender members open_round))
                  refl))
        ]

handle_pre_prepare_height :
    (env : Env) (msg : NodeMsg) (n : Node)
    → Ensures (λ r. r.0.state.block_height ≡ msg.block_height) (handle_pre_prepare env msg n)
unfolding handle_pre_prepare handing
handle_pre_prepare_height env msg n =
    Ensures-bind (from_own_shard msg (entered msg.block_height n)) λ own.
      Ensures-bind
        (send_prepare env.now (shard_of own (entered msg.block_height n))
          (entered msg.block_height n))
        λ es. returns refl

module _ (env : Env) (msg : NodeMsg) (n : Node) where
  abbrev SameHeight : Node × List Effect → Type 0
  SameHeight r = r.0.state.block_height ≡ n.state.block_height

  handle_prepare_height : Ensures SameHeight (handle_prepare env msg n)
  unfolding handle_prepare
  handle_prepare_height =
      Ensures-bind (from_own_shard msg n)
        λ own. Ensures-bind (shard_mem_num own n) λ total. handing-Ensures SameHeight _ _ λ es. refl

  handle_commit_height : Ensures SameHeight (handle_commit env msg n)
  unfolding handle_commit
  handle_commit_height =
      Ensures-bind (from_own_shard msg n)
        λ own. Ensures-bind (shard_mem_num own n) λ total. handing-Ensures SameHeight _ _ λ es. refl

whether_or_not_leader_height :
    (k : ℤ) (leader : Bool) (n : Node)
    → (whether_or_not_leader k leader n).state.block_height ≡ n.state.block_height
unfolding whether_or_not_leader
whether_or_not_leader_height k true n = refl
whether_or_not_leader_height k false n = refl

handle_members_height :
    (msg : NodeMsg) (n : Node)
    → Ensures (λ r. r.0.state.block_height ≡ n.state.block_height) (handle_members msg n)
unfolding handle_members
handle_members_height msg n = Ensures-bind (unmarshal_shard_mem msg.msg_body) λ shard.
    Ensures-bind (handle_shard_msg msg.msg_type shard n.peers) λ handled.
      returns (whether_or_not_leader_height handled.1 handled.2 (record n { peers = handled.0 }))

close_exit_ch_height :
    (n : Node) → Ensures (λ r. r.0.state.block_height ≡ n.state.block_height) (close_exit_ch n)
unfolding close_exit_ch
close_exit_ch_height n = elim (Bool-cases n.exiting) [
  | inl closed ↦ rw closed panics
  | inr running ↦ rw running (returns refl)
]

dispatch_height :
    (t : MsgType) (env : Env) (msg : NodeMsg) (n : Node)
    → msg.msg_type ≡ t
    → IsSynced n.state
    → Ensures (HeightMove msg n) (dispatch t env msg n)
unfolding dispatch reset_vote_check
dispatch_height start env msg n e v =
    Ensures-bind_with (start_consensus env n) (start_consensus_height env n)
      λ r next. returns (begun e next)
dispatch_height pre_prepare env msg n e v =
    Ensures-mono
      (handle_pre_prepare env msg (with_state n (reset_vote_check msg.block_height n.state)))
      (handle_pre_prepare_height env msg (with_state n (reset_vote_check msg.block_height n.state)))
      λ r same. told e same
dispatch_height prepare env msg n e v =
    Ensures-mono (handle_prepare env msg n) (handle_prepare_height env msg n)
      λ r same. kept (IsQuiet-type msg n e (λ x. cc) (λ x. cc) (λ x. cc)) same
dispatch_height commit env msg n e v =
    Ensures-mono (handle_commit env msg n) (handle_commit_height env msg n)
      λ r same. kept (IsQuiet-type msg n e (λ x. cc) (λ x. cc) (λ x. cc)) same
dispatch_height finality env msg n e v = handle_finality_height env msg n v e
dispatch_height node_member env msg n e v =
    Ensures-mono (handle_members msg n) (handle_members_height msg n)
      λ r same. kept (IsQuiet-type msg n e (λ x. cc) (λ x. cc) (λ x. cc)) same
dispatch_height intra_leader_mem env msg n e v =
    Ensures-mono (handle_members msg n) (handle_members_height msg n)
      λ r same. kept (IsQuiet-type msg n e (λ x. cc) (λ x. cc) (λ x. cc)) same
dispatch_height global_leader_mem env msg n e v =
    Ensures-mono (handle_members msg n) (handle_members_height msg n)
      λ r same. kept (IsQuiet-type msg n e (λ x. cc) (λ x. cc) (λ x. cc)) same
dispatch_height shut_down env msg n e v =
    Ensures-mono (close_exit_ch n) (close_exit_ch_height n)
      λ r same. kept (IsQuiet-type msg n e (λ x. cc) (λ x. cc) (λ x. cc)) same
dispatch_height registration env msg n e v =
    returns (kept (IsQuiet-type msg n e (λ x. cc) (λ x. cc) (λ x. cc)) refl)
dispatch_height mining_stat env msg n e v =
    returns (kept (IsQuiet-type msg n e (λ x. cc) (λ x. cc) (λ x. cc)) refl)
dispatch_height intra_mining_stat env msg n e v =
    returns (kept (IsQuiet-type msg n e (λ x. cc) (λ x. cc) (λ x. cc)) refl)
dispatch_height mining_stop env msg n e v =
    returns (kept (IsQuiet-type msg n e (λ x. cc) (λ x. cc) (λ x. cc)) refl)
dispatch_height final_commit env msg n e v =
    returns (kept (IsQuiet-type msg n e (λ x. cc) (λ x. cc) (λ x. cc)) refl)
dispatch_height block env msg n e v =
    returns (kept (IsQuiet-type msg n e (λ x. cc) (λ x. cc) (λ x. cc)) refl)
dispatch_height (other b) env msg n e v =
    returns (kept (IsQuiet-type msg n e (λ x. cc) (λ x. cc) (λ x. cc)) refl)

-- When a synced node handles a message to the end, PrePrepare sets its height to the message's. Start,
-- and a Finality of the node's own height, from another shard, by which the global counter meets the
-- quorum of the leaders' shard before the last height, make it the next one, modulo 2^64. Any other
-- message leaves it.
pub msg_handle-HeightMove :
    (env : Env) (msg : NodeMsg) (n n' : Node) (es : List Effect)
    → IsSynced n.state
    → msg_handle env msg n ≡ ok (n', es)
    → HeightMove msg n (n', es)
unfolding msg_handle
msg_handle-HeightMove env msg n n' es v h =
    Ensures-ok (dispatch_height msg.msg_type env msg n refl v) h
