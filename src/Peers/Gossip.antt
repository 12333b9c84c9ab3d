-- ===== src/Peers/Gossip.antt =====
-- The exchange of shard sizes in NodeTable.go: a node asks with the sizes that it knows, and is sent
-- the shards of which the other knows another number of members.
use frustum.Prelude.{
  ℕ, ◌≡◌, refl, sym, ap, ◌∙◌, inl, inr, [], ◌∷◌, false, ◌==◌, if◌then◌else◌, arith, ℤ, int_eq,
  int_eq_iff, Bytes, Option, none, some, Bool-cases, length,
}
use frustum.Prelude.Table.{Table, int_key, lookup, insert, contains, lookup-insert, contains-lookup}
use frustum.Prelude.Outcome.{ok, deref, >>=-eq-ok, ok-injective}
use frustum.Peers.Shape.{HasShard}
use frustum.Peers.Members.{Shard}
use frustum.Peers.{NodeTable, count_members, find_node_msg, differing, handle_find_node_msg}

-- A Go map has every key once.
abbrev pub Distinct {ℓ} : {V : Type ℓ} → Table ℤ V → Type 0
Distinct [] = Unit
Distinct ((k, v) ∷ m) = (contains k m ≡ false) × Distinct m

contains-count_members : (k : ℤ) (m : Table ℤ Shard) → contains k (count_members m) ≡ contains k m
unfolding count_members
contains-count_members k [] = refl
contains-count_members k ((j, v) ∷ m) = ground (arith, contains-count_members k m)

abbrev sizes : Option Shard → Option ℕ
sizes none = none
sizes (some s) = some (length s.member)

lookup-count_members : (k : ℤ) (m : Table ℤ Shard) → lookup k (count_members m) ≡ sizes (lookup k m)
unfolding count_members
lookup-count_members k [] = refl
lookup-count_members k ((j, v) ∷ m) = ground (arith, lookup-count_members k m)

-- What is sent for a shard: its members if its size is known and is not the size asked with.
abbrev pub answer :
    Option ℕ → Option Shard → Option (Table Bytes Bytes) → Option (Table Bytes Bytes)
answer (some n) (some s) before = if n == length s.member then before else some s.member
answer (some n) none before = before
answer none s before = before

lookup_next :
    (k j : ℤ) (n : ℕ) (s : Shard) (out : Table ℤ (Table Bytes Bytes))
    → lookup k (if n == length s.member then out else insert j s.member out)
      ≡ (if int_eq j k then answer (some n) (some s) (lookup k out) else lookup k out)
lookup_next k j n s out = ground (arith, lookup-insert j k s.member out)

-- One round of the loop, at the key `j`.
differing_step :
    (k j : ℤ) (n : ℕ) (q : Table ℤ ℕ) (shards : Table ℤ Shard) (s : Shard)
    (out : Table ℤ (Table Bytes Bytes)) (res : Option (Table Bytes Bytes))
    → contains j q ≡ false
    → deref (lookup j shards) ≡ ok s
    → res
      ≡ answer
          (lookup k q)
          (lookup k shards)
          (lookup k (if n == length s.member then out else insert j s.member out))
    → res ≡ answer (if int_eq j k then some n else lookup k q) (lookup k shards) (lookup k out)
differing_step k j n q shards s out res fresh e h =
    ground (arith, contains-lookup j q, lookup_next k j n s out, int_eq_iff j k)

lookup-differing :
    (k : ℤ) (q : Table ℤ ℕ) (shards : Table ℤ Shard) (out r : Table ℤ (Table Bytes Bytes))
    → Distinct q
    → differing q shards out ≡ ok r
    → lookup k r ≡ answer (lookup k q) (lookup k shards) (lookup k out)
unfolding differing
lookup-differing k [] shards out r d h = ap (lookup k) (sym (ok-injective h))
lookup-differing k ((j, n) ∷ q) shards out r d h =
    let (s, e, rest) = >>=-eq-ok (deref (lookup j shards)) _ h in
    differing_step k j n q shards s out (lookup k r) d.0 e
      (lookup-differing k q shards _ r d.1 rest)

-- The answer to a request with distinct shards, when it returns: for each shard that was asked for
-- it holds the members exactly if their number is not the one asked with, and it holds no other
-- shard.
pub lookup-handle_find_node_msg :
    (k : ℤ) (q : Table ℤ ℕ) (nt : NodeTable) (r : Table ℤ (Table Bytes Bytes))
    → Distinct q
    → handle_find_node_msg q nt ≡ ok r
    → lookup k r ≡ answer (lookup k q) (lookup k nt.shards) none
unfolding handle_find_node_msg
lookup-handle_find_node_msg k q nt r d h = lookup-differing k q nt.shards [] r d h

Distinct-count_members : (m : Table ℤ Shard) → Distinct m → Distinct (count_members m)
unfolding count_members
Distinct-count_members [] d = tt
Distinct-count_members ((k, v) ∷ m) d =
    (contains-count_members k m ∙ d.0, Distinct-count_members m d.1)

-- The shards asked for, one after another, are all known.
abbrev pub Knows : Table ℤ Shard → Table ℤ ℕ → Type 0
Knows shards [] = Unit
Knows shards ((k, n) ∷ q) = HasShard k shards × Knows shards q

differing_returns :
    (q : Table ℤ ℕ) (shards : Table ℤ Shard) (out : Table ℤ (Table Bytes Bytes))
    → Knows shards q
    → (r : Table ℤ (Table Bytes Bytes)) × (differing q shards out ≡ ok r)
unfolding differing
differing_returns [] shards out h = (out, refl)
differing_returns ((k, n) ∷ q) shards out ((s, e), h) =
    let next = if n == length s.member then out else insert k s.member out in
    let (r, er) = differing_returns q shards next h in (r, rw e er)

Knows-insert_front :
    (q : Table ℤ ℕ) (k : ℤ) (v : Shard) (shards : Table ℤ Shard)
    → Knows shards q
    → Knows ((k, v) ∷ shards) q
Knows-insert_front [] k v shards h = tt
Knows-insert_front ((j, n) ∷ q) k v shards ((s, e), h) = (
  elim (Bool-cases (int_eq k j)) [ inl hit ↦ (v, rw hit) | inr miss ↦ (s, rw miss e) ],
  Knows-insert_front q k v shards h,
)

Knows-count_members : (m : Table ℤ Shard) → Knows m (count_members m)
unfolding count_members
Knows-count_members [] = tt
Knows-count_members ((k, v) ∷ m) = (
  (v, rw (int_eq_iff k k).1 refl),
  Knows-insert_front (count_members m) k v m (Knows-count_members m),
)

-- Two nodes that know the same shards, each once, have nothing to send one another: the request
-- with the sizes of a table is answered by that table, and with no shard at all.
pub same_tables_quiet :
    (nt : NodeTable)
    → Distinct nt.shards
    → (r : Table ℤ (Table Bytes Bytes)) × (handle_find_node_msg (find_node_msg nt) nt ≡ ok r)
      × ((k : ℤ) → lookup k r ≡ none)
unfolding find_node_msg handle_find_node_msg
same_tables_quiet nt d =
    let (r, e) =
      differing_returns (count_members nt.shards) nt.shards [] (Knows-count_members nt.shards) in
    (
      r,
      e,
      λ k.
          lookup-differing k (count_members nt.shards) nt.shards [] r
            (Distinct-count_members nt.shards d) e
          ∙ ground (arith, lookup-count_members k nt.shards),
    )
