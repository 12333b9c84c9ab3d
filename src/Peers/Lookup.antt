-- ===== src/Peers/Lookup.antt =====
-- Finding what was added to the table of NodeTable.go.
use frustum.Prelude.{
  ◌≡◌, ◌≢◌, sym, ap, ◌∙◌, inl, inr, Bool, true, if◌then◌else◌, arith, ℤ, int_eq, int_eq_iff, Bytes,
  bytes_eq_iff, some, Bool-cases,
}
use frustum.Prelude.Table.{int_key, bytes_key, lookup, insert, lookup-insert}
use frustum.Prelude.Outcome.{ok, >>=-eq-ok}
use frustum.Id.{NodeId, string_to_id}
use frustum.Peers.Members.{Shard}
use frustum.Peers.Members
use frustum.Peers.{NodeTable, shard_or_new, add_node, find_node}

-- The shard's own methods: what was added, or was there, is found.
found-added :
    (id ip_addr : Bytes) (s : Shard)
    → Members.find_node id (Members.add_node id ip_addr s).0
      ≡ (true, (Members.add_node id ip_addr s).2)
unfolding Members.find_node Members.add_node
found-added id ip_addr s = ground (arith, lookup-insert id id ip_addr s.member, bytes_eq_iff id id)

found-added_other :
    (id j ip_addr : Bytes) (s : Shard)
    → j ≢ id
    → Members.find_node j (Members.add_node id ip_addr s).0 ≡ Members.find_node j s
unfolding Members.find_node Members.add_node
found-added_other id j ip_addr s h =
    ground (arith, lookup-insert id j ip_addr s.member, bytes_eq_iff id j, bytes_eq_iff j id)

-- The table with the shard of an identity set.
stored : NodeId → Shard → NodeTable → NodeTable
stored a s nt = record nt { shards = insert a.shard_id s nt.shards }

lookup-stored :
    (a b : NodeId) (s : Shard) (nt : NodeTable)
    → lookup b.shard_id (stored a s nt).shards
      ≡ (if int_eq a.shard_id b.shard_id then some s else lookup b.shard_id nt.shards)
unfolding stored
lookup-stored a b s nt = lookup-insert a.shard_id b.shard_id s nt.shards

add_node_lem :
    (id ip_addr : Bytes) (nt : NodeTable) (a : NodeId)
    → string_to_id id ≡ ok a
    → let made = Members.add_node id ip_addr (shard_or_new (lookup a.shard_id nt.shards)) in
      add_node id ip_addr nt ≡ ok (stored a made.0 nt, made.1, made.2)
unfolding add_node stored
add_node_lem id ip_addr nt a e = rw e

find_node_lem :
    (id : Bytes) (nt : NodeTable) (a : NodeId) (s : Shard)
    → string_to_id id ≡ ok a
    → lookup a.shard_id nt.shards ≡ some s
    → find_node id nt ≡ ok (Members.find_node id s)
unfolding find_node
find_node_lem id nt a s e h = rw (e, h)

find_node-stored :
    (id ip_addr : Bytes) (nt : NodeTable) (a : NodeId)
    → string_to_id id ≡ ok a
    → let made = Members.add_node id ip_addr (shard_or_new (lookup a.shard_id nt.shards)) in
      find_node id (stored a made.0 nt) ≡ ok (true, made.2)
find_node-stored id ip_addr nt a e =
    let s = shard_or_new (lookup a.shard_id nt.shards) in
    let made = Members.add_node id ip_addr s in
    find_node_lem id (stored a made.0 nt) a made.0 e
      (ground (arith, lookup-stored a a made.0 nt, int_eq_iff a.shard_id a.shard_id))
    ∙ ap ok (found-added id ip_addr s)

known_shard :
    (nt : NodeTable) (k l : ℤ) (s : Shard)
    → k ≡ l
    → lookup l nt.shards ≡ some s
    → shard_or_new (lookup k nt.shards) ≡ s
unfolding shard_or_new
known_shard nt k l s e h = rw (e, h)

find_node-stored_other :
    (id j ip_addr : Bytes) (nt : NodeTable) (a b : NodeId) (s : Shard)
    → j ≢ id
    → string_to_id id ≡ ok a
    → string_to_id j ≡ ok b
    → lookup b.shard_id nt.shards ≡ some s
    → let made = Members.add_node id ip_addr (shard_or_new (lookup a.shard_id nt.shards)) in
      find_node j (stored a made.0 nt) ≡ find_node j nt
find_node-stored_other id j ip_addr nt a b s ne ea eb es =
    let made = Members.add_node id ip_addr (shard_or_new (lookup a.shard_id nt.shards)) in
    let known = λ (t : int_eq a.shard_id b.shard_id ≡ true).
      known_shard nt a.shard_id b.shard_id s ((int_eq_iff a.shard_id b.shard_id).0 t) es in
    elim (Bool-cases (int_eq a.shard_id b.shard_id)) [
      | inl same ↦
          find_node_lem j (stored a made.0 nt) b made.0 eb (lookup-stored a b made.0 nt ∙ rw same)
          ∙ ap ok (found-added_other id j ip_addr _ ne ∙ ap (Members.find_node j) (known same))
          ∙ sym (find_node_lem j nt b s eb es)
      | inr other ↦
          find_node_lem j (stored a made.0 nt) b s eb (lookup-stored a b made.0 nt ∙ rw other es)
          ∙ sym (find_node_lem j nt b s eb es)
    ]

fresh-added :
    (id ip_addr : Bytes) (s : Shard)
    → let made = Members.add_node id ip_addr s in made.1 ≡ true → made.2 ≡ ip_addr
unfolding Members.add_node
fresh-added id ip_addr s h = ground arith

added_id :
    (id ip_addr : Bytes) (nt : NodeTable) {r : NodeTable × Bool × Bytes}
    → add_node id ip_addr nt ≡ ok r
    → (a : NodeId) × (string_to_id id ≡ ok a)
unfolding add_node
added_id id ip_addr nt h = let (a, e, rest) = >>=-eq-ok (string_to_id id) _ h in (a, e)

-- A node that was added is found under the address that the call returned, which is the new one if
-- the call says that the node is new; and every other node of a shard that the table knew is found,
-- or not, as before.
pub find_node-add_node :
    (id ip_addr : Bytes) (nt nt' : NodeTable) (fresh : Bool) (url : Bytes)
    → add_node id ip_addr nt ≡ ok (nt', fresh, url)
    → (find_node id nt' ≡ ok (true, url))
      × (fresh ≡ true → url ≡ ip_addr)
      × ((j : Bytes) (b : NodeId) (s : Shard)
          → j ≢ id
          → string_to_id j ≡ ok b
          → lookup b.shard_id nt.shards ≡ some s
          → find_node j nt' ≡ find_node j nt)
find_node-add_node id ip_addr nt nt' fresh url h =
    let (a, e) = added_id id ip_addr nt h in
    let same = sym (add_node_lem id ip_addr nt a e) ∙ h in
    let old = shard_or_new (lookup a.shard_id nt.shards) in
    (
      ground (arith, same, find_node-stored id ip_addr nt a e),
      (λ new. ground (arith, same, fresh-added id ip_addr old)),
      (λ j b s ne ej es.
          ground (arith, same, find_node-stored_other id j ip_addr nt a b s ne e ej es)),
    )
