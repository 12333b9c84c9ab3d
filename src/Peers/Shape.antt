-- ===== src/Peers/Shape.antt =====
-- The shards that every node of the network has in its table, so that the code's reads of the
-- leaders' shards and of its own never follow a nil pointer.
use frustum.Prelude.{
  ◌≡◌, refl, ap, subst, ◌∙◌, inl, inr, [], Bool, ℤ, int_eq, int_eq_iff, Bytes, some, Bool-cases,
  Option-cases,
}
use frustum.Prelude.Table.{Table, int_key, lookup, insert, lookup-insert}
use frustum.Prelude.Outcome.{ok, >>=-eq-ok, ok-injective}
use frustum.Message.{MsgType}
use frustum.Id.{NodeId, string_to_id}
use frustum.Peers.Members.{Shard, new_shard}
use frustum.Peers.Members
use frustum.Peers.{
  NodeTable, intra_leader_shard_id, global_leader_shard_id, new_node_table, shard_or_new, add_node,
  find_node, find_my_global_leader, only_member, message_shard, handle_shard_msg,
}

abbrev pub HasShard : ℤ → Table ℤ Shard → Type 0
HasShard k shards = (s : Shard) × (lookup k shards ≡ some s)

pub record IsReady (own : NodeId) (nt : NodeTable) : Type 0 where
  pub parsed : string_to_id nt.self_node_id ≡ ok own
  pub intra : HasShard intra_leader_shard_id nt.shards
  pub global : HasShard global_leader_shard_id nt.shards
  pub local : HasShard own.shard_id nt.shards

HasShard-insert :
    (k j : ℤ) (s : Shard) (shards : Table ℤ Shard)
    → HasShard k shards
    → HasShard k (insert j s shards)
HasShard-insert k j s shards (t, e) = elim (Bool-cases (int_eq j k)) [
  | inl hit ↦ (s, lookup-insert j k s shards ∙ rw hit)
  | inr miss ↦ (t, lookup-insert j k s shards ∙ rw miss e)
]

HasShard-insert_self : (k : ℤ) (s : Shard) (shards : Table ℤ Shard) → HasShard k (insert k s shards)
HasShard-insert_self k s shards = (s, lookup-insert k k s shards ∙ rw ((int_eq_iff k k).1 refl))

insert-IsReady :
    (own : NodeId) (k : ℤ) (s : Shard) (nt : NodeTable)
    → IsReady own nt
    → IsReady own (record nt { shards = insert k s nt.shards })
insert-IsReady own k s nt r = record {
  parsed = r.parsed;
  intra = HasShard-insert intra_leader_shard_id k s nt.shards r.intra;
  global = HasShard-insert global_leader_shard_id k s nt.shards r.global;
  local = HasShard-insert own.shard_id k s nt.shards r.local;
}

-- The table of a node whose identity can be read has the leaders' shards and its own.
pub new_node_table-IsReady :
    (id : Bytes) (own : NodeId)
    → string_to_id id ≡ ok own
    → (nt : NodeTable) × (new_node_table id ≡ ok nt) × IsReady own nt
unfolding new_node_table
new_node_table-IsReady id own e =
    let leaders =
      insert global_leader_shard_id new_shard (insert intra_leader_shard_id new_shard []) in
    let nt : NodeTable = record {
      self_node_id = id;
      shards = insert own.shard_id new_shard leaders;
    } in
    (
      nt,
      rw e,
      record {
        parsed = e;
        intra =
            HasShard-insert intra_leader_shard_id own.shard_id new_shard leaders (new_shard, refl);
        global =
            HasShard-insert global_leader_shard_id own.shard_id new_shard leaders (new_shard, refl);
        local = HasShard-insert_self own.shard_id new_shard leaders;
      },
    )

add_node-IsReady :
    (own : NodeId) (id ip_addr : Bytes) (nt nt' : NodeTable) (fresh : Bool) (url : Bytes)
    → IsReady own nt
    → add_node id ip_addr nt ≡ ok (nt', fresh, url)
    → IsReady own nt'
unfolding add_node
add_node-IsReady own id ip_addr nt nt' fresh url r h =
    let (a, e, rest) = >>=-eq-ok (string_to_id id) _ h in
    let s = Members.add_node id ip_addr (shard_or_new (lookup a.shard_id nt.shards)) in
    subst (IsReady own) (ap (λ (x : NodeTable × Bool × Bytes). x.0) (ok-injective rest))
      (insert-IsReady own a.shard_id s.0 nt r)

handle_shard_msg-IsReady :
    (own : NodeId) (t : MsgType) (m : Table Bytes Bytes) (nt nt' : NodeTable) (k : ℤ)
    (leader : Bool)
    → IsReady own nt
    → handle_shard_msg t m nt ≡ ok (nt', k, leader)
    → IsReady own nt'
unfolding handle_shard_msg
handle_shard_msg-IsReady own t m nt nt' k leader r h =
    let (target, e, rest) = >>=-eq-ok (message_shard t nt.self_node_id m) _ h in
    subst (IsReady own) (ap (λ (x : NodeTable × ℤ × Bool). x.0) (ok-injective rest))
      (insert-IsReady own target.0 (record { member = m }) nt r)

-- With a ready table, looking for a node returns for every text that is an identity, of a shard
-- known or not, and looking for the global leader always returns.
pub lookups_return :
    (own a : NodeId) (id : Bytes) (nt : NodeTable)
    → IsReady own nt
    → string_to_id id ≡ ok a
    → ((r : Bool × Bytes) × (find_node id nt ≡ ok r))
      × ((r : Bool × Bytes × Bytes) × (find_my_global_leader nt ≡ ok r))
unfolding find_node find_my_global_leader
lookups_return own a id nt r e =
    let (s, es) = r.intra in
    let (g, eg) = r.global in
    (
      elim (Option-cases (lookup a.shard_id nt.shards)) [
        | inl missing ↦ (Members.find_node id s, rw (e, missing, es))
        | inr (t, et) ↦ (Members.find_node id t, rw (e, et))
      ],
      (only_member g.member, rw eg),
    )
