-- ===== src/Node/Chain.antt =====
-- The blocks that a node of the frustum package makes over a run of MSGHandle.
use frustum.Prelude.{
  ◌≡◌, refl, List, [], ◌∷◌, ◌++◌, Bool, true, false, not, ◌&&◌, ◌==◌, if◌then◌else◌, ℤ, Bytes,
  Bool-cases, inl, inr,
}
use frustum.Prelude.Outcome.{Outcome, ok}
use frustum.Prelude.Ensures.{Ensures, returns, panics, Ensures-bind, Ensures-bind_with, Ensures-ok}
use frustum.Message.{
  NodeMsg, MsgType, Block, null, unmarshal_shard_mem, start, pre_prepare, prepare, commit, finality,
  node_member, intra_leader_mem, global_leader_mem, shut_down,
}
use frustum.Peers.{intra_leader_shard_id, handle_shard_msg}
use frustum.Pool.{commit_trs}
use frustum.Block.{Codec, hash_input, set_hash}
use frustum.Node.Types.{
  Node, Role, Effect, global_leader, follower, intra_leader, spawn_opening, count_block,
}
use frustum.Node.Send.{broadcast_within_shard, stamped, send_prepare, send_commit, dial_seed_node}
use frustum.Node.Send.Traffic.{
  blocks, blocks-append, NoBlocks, broadcast_within_shard-NoBlocks, send_prepare-NoBlocks,
  send_commit-NoBlocks, dial_global_leader-NoBlocks,
}
use frustum.Node.{
  Env, Act, ◌then◌, with_state, in_prepare, opened, entered, handing, shard_of, from_own_shard,
  shard_mem_num, reset_vote_check, tr_num_in_block, end_block_height, generate_new_block,
  start_consensus, vote, report_finality, handle_pre_prepare, handle_prepare, handle_commit,
  handle_finality, next_round, whether_or_not_leader, handle_members, close_exit_ch, dispatch,
  msg_handle,
}

-- Each block points to the hash before it and bears its own hash; they lead from one hash to another.
abbrev pub Chained : Codec → Bytes → List Block → Bytes → Type 0
Chained c h [] h' = h ≡ h'
Chained c h (b ∷ bs) h' =
    (b.pre_block_hash ≡ h)
    × (b.block_hash ≡ c.sha256 (hash_input c b))
    × Chained c b.block_hash bs h'

Chained-append :
    (c : Codec) (h h' h'' : Bytes) (bs cs : List Block)
    → Chained c h bs h'
    → Chained c h' cs h''
    → Chained c h (bs ++ cs) h''
Chained-append c h h' h'' [] cs p q = rw p q
Chained-append c h h' h'' (b ∷ bs) cs (link, hash, p) q =
    (link, hash, Chained-append c b.block_hash h' h'' bs cs p q)

-- What a handler leads to from the hash that the node has.
abbrev pub Grows : Codec → Bytes → Node × List Effect → Type 0
Grows c h r = Chained c h (blocks r.1) r.0.state.pre_block_hash

quiet :
    (c : Codec) (h : Bytes) (n : Node) (es : List Effect)
    → h ≡ n.state.pre_block_hash
    → NoBlocks es
    → Grows c h (n, es)
quiet c h n es same none_made = rw none_made same

handing-Grows :
    (c : Codec) (h : Bytes) (n : Node) (sending : Outcome (List Effect))
    → h ≡ n.state.pre_block_hash
    → Ensures NoBlocks sending
    → Ensures (Grows c h) (handing n sending)
unfolding handing
handing-Grows c h n sending same none_made =
    Ensures-bind_with sending none_made λ es e. returns (quiet c h n es same e)

-- Sending under a test.
sending_if :
    (finish : Bool) (sending : Outcome (List Effect))
    → Ensures NoBlocks sending
    → Ensures NoBlocks (if finish then sending else ok [])
sending_if true sending h = h
sending_if false sending h = returns refl

Made : Codec → Node → Node × Block → Type 0
Made c n r =
    (r.1.pre_block_hash ≡ n.state.pre_block_hash)
    × (r.1.block_hash ≡ c.sha256 (hash_input c r.1))
    × (r.1.block_hash ≡ r.0.state.pre_block_hash)

generate_new_block-Made :
    (env : Env) (n : Node) → Ensures (Made env.codec n) (generate_new_block env n)
unfolding generate_new_block set_hash hash_input Made
generate_new_block-Made env n =
    Ensures-bind (commit_trs env.arrivals tr_num_in_block n.tx_pool)
      λ packed. returns (refl, refl, refl)

with_one :
    (intra global : List Effect) (b : Block)
    → NoBlocks intra
    → NoBlocks global
    → blocks (intra ++ global ++ spawn_opening ∷ count_block b ∷ []) ≡ b ∷ []
with_one intra global b no_intra no_global =
    rw (blocks-append (intra ++ global) _, blocks-append intra global, no_intra, no_global) refl

one_more :
    (c : Codec) (h : Bytes) (n : Node) (intra global : List Effect) (b : Block)
    → NoBlocks intra
    → NoBlocks global
    → Chained c h (b ∷ []) n.state.pre_block_hash
    → Grows c h (n, intra ++ global ++ spawn_opening ∷ count_block b ∷ [])
one_more c h n intra global b no_intra no_global link =
    rw (with_one intra global b no_intra no_global) link

start_consensus-Grows :
    (env : Env) (n : Node)
    → Ensures (Grows env.codec n.state.pre_block_hash) (start_consensus env n)
unfolding start_consensus reset_vote_check Made
start_consensus-Grows env n =
    Ensures-bind_with (generate_new_block env (in_prepare n))
      (generate_new_block-Made env (in_prepare n))
      λ made links.
        let n' = opened made.0 made.1 in
        let msg = stamped env.now [] pre_prepare null n' in
        Ensures-bind_with (broadcast_within_shard n'.state.node_id.shard_id msg n')
          (broadcast_within_shard-NoBlocks n'.state.node_id.shard_id msg n')
          λ intra no_intra.
            Ensures-bind_with (broadcast_within_shard intra_leader_shard_id msg n')
              (broadcast_within_shard-NoBlocks intra_leader_shard_id msg n')
              λ global no_global. returns (
                one_more env.codec n.state.pre_block_hash n' intra global made.1 no_intra no_global
                  links)

next_round-Grows :
    (env : Env) (n : Node) → Ensures (Grows env.codec n.state.pre_block_hash) (next_round env n)
unfolding next_round dial_seed_node
next_round-Grows env n = elim (Bool-cases (n.state.block_height == end_block_height)) [
  | inl last ↦ rw last (elim (Bool-cases n.workers_stopped) [
    | inl stopped ↦ rw stopped panics
    | inr running ↦ rw running (returns refl)
  ])
  | inr more ↦ rw more (start_consensus-Grows env n)
]

handle_pre_prepare-Grows :
    (c : Codec) (env : Env) (msg : NodeMsg) (n : Node)
    → Ensures (Grows c n.state.pre_block_hash) (handle_pre_prepare env msg n)
unfolding handle_pre_prepare
handle_pre_prepare-Grows c env msg n =
    let n' = entered msg.block_height n in
    Ensures-bind (from_own_shard msg n') λ own.
      handing-Grows c n.state.pre_block_hash n' (send_prepare env.now (shard_of own n') n') refl
        (send_prepare-NoBlocks env.now (shard_of own n') n')

handle_prepare-Grows :
    (c : Codec) (env : Env) (msg : NodeMsg) (n : Node)
    → Ensures (Grows c n.state.pre_block_hash) (handle_prepare env msg n)
unfolding handle_prepare
handle_prepare-Grows c env msg n = Ensures-bind (from_own_shard msg n) λ own.
    Ensures-bind (shard_mem_num own n) λ total.
      let voted = vote msg own total n.state.prepare_check in
      let n' = with_state n (record n.state { prepare_check = voted.0 }) in
      let sending = send_commit env.now (shard_of own n') n' in
      handing-Grows c n.state.pre_block_hash n' (if voted.1 then sending else ok []) refl
        (sending_if voted.1 sending (send_commit-NoBlocks env.now (shard_of own n') n'))

report_finality-NoBlocks :
    (env : Env) (role : Role) (n : Node) → Ensures NoBlocks (report_finality env role n)
unfolding report_finality
report_finality-NoBlocks env global_leader n = returns refl
report_finality-NoBlocks env follower n = dial_global_leader-NoBlocks env.now finality null n
report_finality-NoBlocks env intra_leader n = dial_global_leader-NoBlocks env.now finality null n

handle_commit-Grows :
    (c : Codec) (env : Env) (msg : NodeMsg) (n : Node)
    → Ensures (Grows c n.state.pre_block_hash) (handle_commit env msg n)
unfolding handle_commit
handle_commit-Grows c env msg n = Ensures-bind (from_own_shard msg n) λ own.
    Ensures-bind (shard_mem_num own n) λ total.
      let voted = vote msg own total n.state.commit_check in
      let n' = with_state n (record n.state { commit_check = voted.0 }) in
      let sending = report_finality env n'.state.role n' in
      handing-Grows c n.state.pre_block_hash n' (if voted.1 then sending else ok []) refl
        (sending_if voted.1 sending (report_finality-NoBlocks env n'.state.role n'))

handle_finality-Grows :
    (env : Env) (msg : NodeMsg) (n : Node)
    → Ensures (Grows env.codec n.state.pre_block_hash) (handle_finality env msg n)
unfolding handle_finality
handle_finality-Grows env msg n = Ensures-bind (from_own_shard msg n) λ own.
    Ensures-bind (shard_mem_num own n) λ total.
      let voted = vote msg own total n.state.finality_check in
      let n' = with_state n (record n.state { finality_check = voted.0 }) in
      elim (Bool-cases (voted.1 && not own)) [
        | inl done ↦ rw done (next_round-Grows env n')
        | inr open_round ↦ rw open_round (returns refl)
      ]

whether_or_not_leader_hash :
    (k : ℤ) (leader : Bool) (n : Node)
    → n.state.pre_block_hash ≡ (whether_or_not_leader k leader n).state.pre_block_hash
unfolding whether_or_not_leader
whether_or_not_leader_hash k true n = refl
whether_or_not_leader_hash k false n = refl

handle_members-Grows :
    (c : Codec) (msg : NodeMsg) (n : Node)
    → Ensures (Grows c n.state.pre_block_hash) (handle_members msg n)
unfolding handle_members
handle_members-Grows c msg n = Ensures-bind (unmarshal_shard_mem msg.msg_body) λ shard.
    Ensures-bind (handle_shard_msg msg.msg_type shard n.peers) λ handled.
      returns (whether_or_not_leader_hash handled.1 handled.2 (record n { peers = handled.0 }))

close_exit_ch-Grows :
    (c : Codec) (n : Node) → Ensures (Grows c n.state.pre_block_hash) (close_exit_ch n)
unfolding close_exit_ch
close_exit_ch-Grows c n = elim (Bool-cases n.exiting) [
  | inl closed ↦ rw closed panics
  | inr running ↦ rw running (returns refl)
]

dispatch-Grows :
    (t : MsgType) (env : Env) (msg : NodeMsg) (n : Node)
    → Ensures (Grows env.codec n.state.pre_block_hash) (dispatch t env msg n)
unfolding dispatch reset_vote_check
dispatch-Grows start env msg n =
    Ensures-bind_with (start_consensus env n) (start_consensus-Grows env n) λ r made. returns made
dispatch-Grows pre_prepare env msg n =
    handle_pre_prepare-Grows env.codec env msg
      (with_state n (reset_vote_check msg.block_height n.state))
dispatch-Grows prepare env msg n = handle_prepare-Grows env.codec env msg n
dispatch-Grows commit env msg n = handle_commit-Grows env.codec env msg n
dispatch-Grows finality env msg n = handle_finality-Grows env msg n
dispatch-Grows node_member env msg n = handle_members-Grows env.codec msg n
dispatch-Grows intra_leader_mem env msg n = handle_members-Grows env.codec msg n
dispatch-Grows global_leader_mem env msg n = handle_members-Grows env.codec msg n
dispatch-Grows shut_down env msg n = close_exit_ch-Grows env.codec n
dispatch-Grows _ env msg n = returns refl

-- The messages that a node handles one after the other, with what it meets at each.
unfoldable pub run : Codec → List (Env × NodeMsg) → Node → Act
run c [] n = ok (n, [])
run c ((env, msg) ∷ later) n = msg_handle (record env { codec = c }) msg n then run c later

joined :
    (c : Codec) (h : Bytes) (r s : Node × List Effect)
    → Grows c h r
    → Grows c r.0.state.pre_block_hash s
    → Grows c h (s.0, r.1 ++ s.1)
joined c h r s made more = rw (blocks-append r.1 s.1) (
    Chained-append c h r.0.state.pre_block_hash s.0.state.pre_block_hash (blocks r.1) (blocks s.1)
      made more)

run-Grows :
    (c : Codec) (ms : List (Env × NodeMsg)) (n : Node)
    → Ensures (Grows c n.state.pre_block_hash) (run c ms n)
unfolding run msg_handle
run-Grows c [] n = returns refl
run-Grows c ((env, msg) ∷ later) n =
    let env' = record env { codec = c } in
    Ensures-bind_with (dispatch msg.msg_type env' msg n) (dispatch-Grows msg.msg_type env' msg n)
      λ r made.
        Ensures-bind_with (run c later r.0) (run-Grows c later r.0)
          λ s more. returns (joined c n.state.pre_block_hash r s made more)

-- The blocks that a node makes over any messages that it handles to the end are a hash chain: the
-- first points to the hash that the node had before, each later one to the hash of the one before
-- it, each bears the hash of its own contents, and the node keeps the hash of the last.
pub run-Chained :
    (c : Codec) (ms : List (Env × NodeMsg)) (n n' : Node) (es : List Effect)
    → run c ms n ≡ ok (n', es)
    → Chained c n.state.pre_block_hash (blocks es) n'.state.pre_block_hash
run-Chained c ms n n' es h = Ensures-ok (run-Grows c ms n) h
