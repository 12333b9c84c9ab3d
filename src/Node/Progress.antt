-- ===== src/Node/Progress.antt =====
-- What the handlers of the frustum package call, and when it returns.
pub mod Phases
pub mod Rounds
use frustum.Prelude.{
  ◌≡◌, ◌≢◌, refl, ◌∙◌, ◌⊎◌, List, [], ◌∷◌, ◌++◌, Bool, true, false, not, ◌&&◌, ◌==◌, if◌then◌else◌,
  ℤ, int_eq, Bool-cases, inl, inr, some, length, All,
}
use frustum.Prelude.Table.{Table, int_key, lookup}
use frustum.Prelude.Outcome.{Outcome, ok, deref, ◌>>=◌}
use frustum.Message.{NodeMsg, MsgType, Block, null, start, pre_prepare, prepare, commit, finality}
use frustum.Id.{NodeId, string_to_id}
use frustum.Peers.{intra_leader_shard_id, find_my_global_leader}
use frustum.Peers.Shape.{IsReady, HasShard, lookups_return}
use frustum.Pool.{ch_length}
use frustum.Pool.Order.{commit_trs-contents}
use frustum.Block.{Codec}
use frustum.Node.Types.{Node, Role, Effect, follower, intra_leader, global_leader, start_workers}
use frustum.Node.Send.{
  broadcast_within_shard, stamped, send_prepare, send_commit, dial_global_leader,
}
use frustum.Node.Chain.{run}
use frustum.Node.{
  Env, Act, ◌then◌, with_state, in_prepare, opened, entered, handing, shard_of, from_own_shard,
  shard_mem_num, reset_vote_check, tr_num_in_block, end_block_height, generate_new_block,
  start_consensus, vote, report_finality, handle_pre_prepare, handle_prepare, handle_commit,
  handle_finality, next_round, dispatch, msg_handle,
}

abbrev pub Returns : {A : Type 0} → Outcome A → Type 0
Returns {A} m = (a : A) × (m ≡ ok a)

Returns-bind :
    {A B : Type 0} (m : Outcome A) {f : A → Outcome B}
    → Returns m
    → ((a : A) → Returns (f a))
    → Returns (m >>= f)
Returns-bind m (a, e) h = rw e (h a)

-- A node whose table is ready, for the identity that its state has.
pub record IsParticipant (own : NodeId) (n : Node) : Type 0 where
  pub ready : IsReady own n.peers
  pub identity : n.state.node_id ≡ own

-- A node with the same table and identity.
IsParticipant-like :
    (own : NodeId) (n n' : Node)
    → n'.peers ≡ n.peers
    → n'.state.node_id ≡ n.state.node_id
    → IsParticipant own n
    → IsParticipant own n'
IsParticipant-like own n n' same_peers same_id p = record {
  ready = rw same_peers p.ready;
  identity = same_id ∙ p.identity;
}

module _ (own_id : NodeId) (n : Node) (p : IsParticipant own_id n) where
  counted_shard : (own : Bool) → HasShard (shard_of own n) n.peers.shards
  counted_shard true = rw p.identity p.ready.local
  counted_shard false = p.ready.intra

  shard_mem_num-Returns : (own : Bool) → Returns (shard_mem_num own n)
  unfolding shard_mem_num
  shard_mem_num-Returns own = let (s, e) = counted_shard own in (length s.member, rw e)

  broadcast-Returns :
      (own : Bool) (msg : NodeMsg) → Returns (broadcast_within_shard (shard_of own n) msg n)
  unfolding broadcast_within_shard
  broadcast-Returns own msg =
      let (s, e) = counted_shard own in
      Returns-bind (deref (lookup (shard_of own n) n.peers.shards)) (s, rw e) λ shard. (_, refl)

from_own_shard-Returns :
    (sender : NodeId) (msg : NodeMsg) (n : Node)
    → string_to_id msg.from ≡ ok sender
    → Returns (from_own_shard msg n)
unfolding from_own_shard
from_own_shard-Returns sender msg n e = (int_eq sender.shard_id n.state.node_id.shard_id, rw e)

handing-Returns :
    (n : Node) (sending : Outcome (List Effect)) → Returns sending → Returns (handing n sending)
unfolding handing
handing-Returns n sending h = Returns-bind sending h λ es. (_, refl)

sending_if-Returns :
    (finish : Bool) (sending : Outcome (List Effect))
    → Returns sending
    → Returns (if finish then sending else ok [])
sending_if-Returns true sending h = h
sending_if-Returns false sending h = ([], refl)

dial_global_leader-Returns :
    (own : NodeId) (env : Env) (n : Node)
    → IsParticipant own n
    → Returns (dial_global_leader env.now finality null n)
unfolding dial_global_leader
dial_global_leader-Returns own env n p =
    Returns-bind (find_my_global_leader n.peers)
      (lookups_return own own n.peers.self_node_id n.peers p.ready p.ready.parsed).1
      λ found. (_, refl)

report_finality-Returns :
    (own : NodeId) (env : Env) (role : Role) (n : Node)
    → IsParticipant own n
    → Returns (report_finality env role n)
unfolding report_finality
report_finality-Returns own env global_leader n p = ([], refl)
report_finality-Returns own env follower n p = dial_global_leader-Returns own env n p
report_finality-Returns own env intra_leader n p = dial_global_leader-Returns own env n p

-- What a handler of votes returns, with the table and the identity as they were.
abbrev Stays : Node → Outcome (Node × List Effect) → Type 0
Stays n m =
    (r : Node × List Effect) × (m ≡ ok r)
    × (r.0.peers ≡ n.peers)
    × (r.0.state.node_id ≡ n.state.node_id)

Stays-bind :
    {A : Type 0} (n : Node) (m : Outcome A) {f : A → Outcome (Node × List Effect)}
    → Returns m
    → ((a : A) → Stays n (f a))
    → Stays n (m >>= f)
Stays-bind n m (a, e) h = rw e (h a)

handing-Stays :
    (n n' : Node) (sending : Outcome (List Effect))
    → Returns sending
    → n'.peers ≡ n.peers
    → n'.state.node_id ≡ n.state.node_id
    → Stays n (handing n' sending)
unfolding handing
handing-Stays n n' sending h same_peers same_id =
    Stays-bind n sending h λ es. ((n', es), refl, same_peers, same_id)
