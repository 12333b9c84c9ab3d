-- ===== src/SsPbft/Height.antt =====
-- BlockChain/Consensus/SS-PBFT-V1: what the handlers do to the height of a node and to its counters.
pub mod Run
use frustum.Prelude.{
  ℕ, ◌+◌, ◌%◌, ◌^◌, ◌<◌, ◌≡◌, ◌≢◌, ◌⊎◌, inl, inr, refl, sym, ap, ◌∙◌, some, List, [], Bool, true,
  false, ltb, subst, Bool-cases, arith, pos, ◌==◌,
}
use mathlib.Core.Bool.{false≢true}
use frustum.Prelude.Outcome.{Outcome, ok, ok-injective, ◌>>=◌}
use frustum.Prelude.Ensures.{
  Ensures, returns, waits, Ensures-bind, Ensures-bind_with, Ensures-mono, Ensures-self,
}
use frustum.Message.{MsgType, Block, start, pre_prepare, final_commit, block}
use frustum.Pool.{commit_trs}
use frustum.SsPbft.{
  Env, Node, State, Role, follower, intra_leader, global_leader, Msg, Server, Counter, Effect,
  tr_num_in_block, stop_mining_block_height, block_data, new_msg,
}
use frustum.SsPbft.Send.{
  with_state, stamped, broad_cast_v2_shard, length_of_shard, generate_new_block,
  reset_consensus_check_count, start_consensus,
}
use frustum.SsPbft.Handle.{
  handing, handle_pre_prepare, handle_prepare, handle_commit, handle_final_commit, handle_members,
  handle_leaders, handle_block, ask_exit, is_listed, is_intra_leader,
}

Ensures-handing :
    {Q : Type 0} {P : Node Q × List Effect → Type 0} (n : Node Q) (call : Outcome (List Effect))
    → ((sent : List Effect) → P (n, sent))
    → Ensures P (handing n call)
unfolding handing
Ensures-handing n call h = Ensures-bind call λ sent. returns (h sent)

module _ {Q : Type 0} (counter : Counter Q) where
  -- A FinalCommit by which the counter of the node meets the quorum of its shard, below the height 64.
  pub record Completes (msg : Msg) (n : Node Q) : Type 0 where
    pub num : ℕ
    pub is_final : msg.msg_type ≡ final_commit
    pub members : length_of_shard n.self.shard_id n ≡ ok num
    pub met : (counter.handle num msg.block_height n.state.final_commit_check).0 ≡ true
    pub below : n.state.block_height < stop_mining_block_height

  -- The message makes the node mine.
  abbrev pub Mines : Msg → Node Q → Type 0
  Mines msg n = (msg.msg_type ≡ start) ⊎ Completes msg n

  -- A PrePrepare of a greater height.
  abbrev pub Proposes : Msg → Node Q → Type 0
  Proposes msg n = (msg.msg_type ≡ pre_prepare) × (n.state.block_height < msg.block_height)

  -- The counters of `n` for Prepare and Commit, and one for FinalCommit, reset to the height of `s`.
  abbrev pub Reset : Node Q → State Q → Type 0
  Reset n s =
      (s.prepare_check ≡ counter.reset_count s.block_height n.state.prepare_check)
      × (s.commit_check ≡ counter.reset_count s.block_height n.state.commit_check)
      × (q : Q) × (s.final_commit_check ≡ counter.reset_count s.block_height q)

  -- What a message does to the height and the counters.
  pub data HeightMove (msg : Msg) (n : Node Q) (s : State Q) : Type 0 where
    stays :
        ¬ Mines msg n
        → ¬ Proposes msg n
        → s.block_height ≡ n.state.block_height
        → HeightMove msg n s
    mined :
        Mines msg n
        → s.block_height ≡ (n.state.block_height + 1) % 2 ^ 64
        → Reset n s
        → HeightMove msg n s
    adopted : Proposes msg n → s.block_height ≡ msg.block_height → Reset n s → HeightMove msg n s

  abbrev pub Moved : Msg → Node Q → Node Q × List Effect → Type 0
  Moved msg n r = HeightMove msg n r.0.state

  -- A message that leaves the height.
  abbrev pub Still : Msg → Node Q → Type 0
  Still msg n = (s : State Q) → s.block_height ≡ n.state.block_height → HeightMove msg n s

  -- A message of a type that neither mines nor proposes.
  pub quiet :
      {msg : Msg} {n : Node Q} {t : MsgType}
      → msg.msg_type ≡ t
      → t ≢ start
      → t ≢ pre_prepare
      → t ≢ final_commit
      → Still msg n
  quiet e a b c s same =
      stays (λ mines. elim mines [ inl is ↦ a (sym e ∙ is) | inr done ↦ c (sym e ∙ done.is_final) ])
        (λ proposes. b (sym e ∙ proposes.0)) same

  module _ (server : Server) (env : Env) where
    -- The block that is made, with the counters as they were.
    abbrev Made : Node Q → Node Q × Block → Type 0
    Made n r =
        (r.0.state.block_height ≡ (n.state.block_height + 1) % 2 ^ 64)
        × (r.0.state.prepare_check ≡ n.state.prepare_check)
        × (r.0.state.commit_check ≡ n.state.commit_check)

    generate_new_block-Made : (n : Node Q) → Ensures (Made n) (generate_new_block env n)
    unfolding generate_new_block
    generate_new_block-Made n =
        Ensures-bind (commit_trs env.arrivals tr_num_in_block n.tx_pool)
          λ packed. returns (refl, refl, refl)

    abbrev pub Opened : Node Q → Node Q × List Effect → Type 0
    Opened n r = (r.0.state.block_height ≡ (n.state.block_height + 1) % 2 ^ 64) × Reset n r.0.state

    pub start_consensus-Opened :
        (n : Node Q) → Ensures (Opened n) (start_consensus counter server env n)
    unfolding start_consensus reset_consensus_check_count
    start_consensus-Opened n =
        Ensures-bind_with (generate_new_block env n) (generate_new_block-Made n)
          λ made (grown, prepares, commits).
            Ensures-bind
              (broad_cast_v2_shard server n.self.shard_id (header made.1 (opened made))
                (opened made))
              λ _.
                Ensures-bind
                  (broad_cast_v2_shard server (pos 1024)
                    (new_msg n.self n.self block (block_data made.1)) (opened made))
                  λ _. returns (
                    grown,
                    (
                      ap (counter.reset_count made.0.state.block_height) prepares,
                      ap (counter.reset_count made.0.state.block_height) commits,
                      made.0.state.final_commit_check,
                      refl,
                    ),
                  )
      where
        opened : Node Q × Block → Node Q
        opened made = with_state made.0 (
            reset_consensus_check_count counter
              (record made.0.state { latest_block = some made.1 }))

        header : Block → Node Q → Msg
        header b o = stamped pre_prepare (block_data (record b { block_body = [] })) o

    pub pre_prepare-Moved :
        (msg : Msg) (n : Node Q)
        → msg.msg_type ≡ pre_prepare
        → Ensures (Moved msg n) (handle_pre_prepare counter server env msg n)
    unfolding handle_pre_prepare reset_consensus_check_count
    pre_prepare-Moved msg n e = Ensures-bind (server.unmarshal_block msg.msg_body) λ received.
        elim (Bool-cases (ltb n.state.block_height msg.block_height)) [
          | inl later ↦ rw later (
              Ensures-handing _ _ λ sent.
                adopted (e, ground arith) refl (refl, refl, n.state.final_commit_check, refl))
          | inr old ↦ rw old (
              returns (
                stays
                  (λ mines. elim mines [
                    | inl is ↦ cc (sym e ∙ is)
                    | inr done ↦ cc (sym e ∙ done.is_final)
                  ])
                  (λ proposes. ground (arith, proposes.1)) refl))
        ]

    pub prepare-Moved :
        (msg : Msg) (n : Node Q)
        → Still msg n
        → Ensures (Moved msg n) (handle_prepare counter server env msg n)
    unfolding handle_prepare
    prepare-Moved msg n still = Ensures-bind (length_of_shard n.self.shard_id n) λ num.
        elim (Bool-cases (counter.handle num msg.block_height n.state.prepare_check).0) [
          | inl met ↦ rw met (Ensures-handing _ _ λ sent. still _ refl)
          | inr few ↦ rw few (returns (still _ refl))
        ]

    pub commit-Moved :
        (msg : Msg) (n : Node Q)
        → Still msg n
        → Ensures (Moved msg n) (handle_commit counter server env msg n)
    unfolding handle_commit
    commit-Moved msg n still =
        Ensures-bind (length_of_shard n.self.shard_id n) λ num. returns (still _ refl)

    final_stays :
        (msg : Msg) (n : Node Q) {s : State Q}
        → msg.msg_type ≡ final_commit
        → ¬ Completes msg n
        → s.block_height ≡ n.state.block_height
        → HeightMove msg n s
    final_stays msg n e h same =
        stays (λ mines. elim mines [ inl is ↦ cc (sym e ∙ is) | inr done ↦ h done ])
          (λ proposes. cc (sym e ∙ proposes.0)) same

    pub final_commit-Moved :
        (msg : Msg) (n : Node Q)
        → msg.msg_type ≡ final_commit
        → Ensures (Moved msg n) (handle_final_commit counter server env msg n)
    unfolding handle_final_commit
    final_commit-Moved msg n e =
        Ensures-bind_with (length_of_shard n.self.shard_id n) (Ensures-self _) λ num members.
          elim (Bool-cases (counter.handle num msg.block_height n.state.final_commit_check).0) [
            | inl met ↦
                rw met (elim (Bool-cases (ltb n.state.block_height stop_mining_block_height)) [
                  | inl below ↦ rw below (
                      Ensures-mono _ (start_consensus-Opened _) λ r (grown, reset).
                        mined
                          (inr (record {
                            num = num;
                            is_final = e;
                            members = members;
                            met = met;
                            below = ground arith;
                          }))
                          grown reset)
                  | inr above ↦
                      rw above (returns (final_stays msg n e (λ c. ground (arith, c.below)) refl))
                ])
            | inr few ↦ rw few (
                returns (
                  final_stays msg n e
                    (λ c. false≢true (
                      sym few
                      ∙ subst
                          (λ k.
                            (counter.handle k msg.block_height n.state.final_commit_check).0 ≡ true)
                          (ok-injective (sym c.members ∙ members)) c.met))
                    refl))
          ]

    pub members-Moved :
        (msg : Msg) (n : Node Q)
        → Ensures
            (λ r. r.0.state.block_height ≡ n.state.block_height)
            (handle_members counter server env msg n)
    unfolding handle_members
    members-Moved msg n = Ensures-bind (server.unmarshal_node_mem msg.msg_body) λ ms. returns refl

    pub leaders-Moved :
        (role : Role) (msg : Msg) (n : Node Q)
        → Still msg n
        → Ensures (Moved msg n) (handle_leaders counter server env role msg n)
    unfolding handle_leaders
    leaders-Moved role msg n still =
        Ensures-bind_with (handle_members counter server env msg n) (members-Moved msg n) λ r same.
          elim (Bool-cases (is_listed n.self r.1)) [
            | inl listed ↦ rw listed (returns (still _ same))
            | inr absent ↦ rw absent (returns (still _ same))
          ]

    pub block-Moved :
        (msg : Msg) (n : Node Q)
        → Still msg n
        → Ensures (Moved msg n) (handle_block counter server env msg n)
    unfolding handle_block
    block-Moved msg n still = Ensures-bind (server.unmarshal_block msg.msg_body) λ b.
        elim (Bool-cases (is_intra_leader counter server env n.state.node_role)) [
          | inl leads ↦ rw leads (Ensures-handing _ _ λ sent. still _ refl)
          | inr leads_not ↦ rw leads_not (returns (still _ refl))
        ]

    pub exit-Moved :
        (msg : Msg) (n : Node Q)
        → Still msg n
        → Ensures (Moved msg n) (ask_exit counter server env n)
    unfolding ask_exit
    exit-Moved msg n still = elim (Bool-cases (n.exits == 0)) [
      | inl first ↦ rw first (returns (still _ refl))
      | inr full ↦ rw full waits
    ]
