-- ===== src/Seed/Election.antt =====
-- Whom the seed node of BlockChain/SeedNode makes leaders.
use frustum.Prelude.{
  In, here, there, ℕ, ◌+◌, ◌-◌, ◌≤◌, ◌<◌, ◌≡◌, ◌⊎◌, refl, sym, subst, ◌∙◌, [], ◌∷◌, true, false,
  ltb, ◌==◌, ==_iff, if◌then◌else◌, arith, ℤ, pos, int_eq, int_eq_iff, Bytes, bytes_eq_iff, length,
  some, Bool-cases, Option-cases, inl, inr, All,
}
use frustum.Prelude.Table.{Table, int_key, bytes_key, lookup, insert, lookup-insert}
use frustum.Prelude.Outcome.{ok}
use frustum.Prelude.Ensures.{Ensures, returns, panics, Ensures-bind_with, Ensures-self, Ensures-ok}
use frustum.Id.{NodeId, string_to_id}
use frustum.Peers.{intra_leader_shard_id}
use frustum.Peers.Members.{Shard, new_shard}
use frustum.Peers.Members
use frustum.Seed.Chosen.{AllChosen, elect_shards-AllChosen}
use frustum.Seed.{
  SeedNode, SeedEnv, is_special, random, elect, elect_shards, with_shard, select_intra_leader,
}

-- What the documentation of rand.Intn promises.
abbrev pub IsIntn : (ℕ → ℕ) → Type 0
IsIntn intn = (n : ℕ) → 0 < n → intn n < n

random_bounds :
    (intn : ℕ → ℕ) (max : ℕ)
    → IsIntn intn
    → Ensures (λ drawn. (1 ≤ drawn) × ((drawn < max) ⊎ (max ≡ 1))) (random intn 1 max)
unfolding random
random_bounds intn max h = elim (Bool-cases (1 == max)) [
  | inl one ↦ rw one (returns (ground (arith, ==_iff 1 max), inr (ground (arith, ==_iff 1 max))))
  | inr other ↦ rw other (elim (Bool-cases (ltb 1 max)) [
    | inl more ↦ rw more (returns (ground (arith, h (max - 1)), inl (ground (arith, h (max - 1)))))
    | inr empty ↦ rw empty panics
  ])
]

All-insert :
    (P : Bytes × Bytes → Type 0) (k v : Bytes) (m : Table Bytes Bytes)
    → P (k, v)
    → All P m
    → All P (insert k v m)
All-insert P k v [] p h = (p, h)
All-insert P k v ((j, w) ∷ m) p (q, h) = elim (Bool-cases (bytes_key.beq j k)) [
  | inl hit ↦ rw hit (subst (λ i. P (i, v)) (sym ((bytes_eq_iff j k).0 hit)) p, h)
  | inr miss ↦ rw miss (q, All-insert P k v m p h)
]

All-add_node :
    (P : Bytes × Bytes → Type 0) (k v : Bytes) (s : Shard)
    → P (k, v)
    → All P s.member
    → All P (Members.add_node k v s).0.member
unfolding Members.add_node
All-add_node P k v s p h = elim (Option-cases (lookup k s.member)) [
  | inl missing ↦ rw missing (All-insert P k v s.member p h)
  | inr (url, known) ↦ rw known h
]

All-elect :
    (P : Bytes × Bytes → Type 0) (number : NodeId → ℤ) (drawn : ℕ) (m : Table Bytes Bytes)
    (leaders : Shard)
    → ((k v : Bytes) (a : NodeId)
        → In (k, v) m
        → string_to_id k ≡ ok a
        → number a ≡ pos drawn
        → P (k, v))
    → All P leaders.member
    → Ensures (λ s. All P s.member) (elect number drawn m leaders)
unfolding elect
All-elect P number drawn [] leaders fit h = returns h
All-elect P number drawn ((k, v) ∷ m) leaders fit h =
    Ensures-bind_with (string_to_id k) (Ensures-self (string_to_id k)) λ a parsed.
      let rest = λ (j w : Bytes) (b : NodeId) (at : In (j, w) m). fit j w b (there at) in
      elim (Bool-cases (int_eq (number a) (pos drawn))) [
        | inl hit ↦ rw hit (
            All-elect P number drawn m (Members.add_node k v leaders).0 rest (
              All-add_node P k v leaders
                (fit k v a here parsed ((int_eq_iff (number a) (pos drawn)).0 hit)) h))
        | inr miss ↦ rw miss (All-elect P number drawn m leaders rest h)
      ]

-- A member of a consensus shard with the number that was drawn there, which is at least 1 and below
-- the number of members, unless there is one member only.
pub record Elected (env : SeedEnv) (shards : Table ℤ Shard) (leader : Bytes × Bytes) : Type 0 where
  pub shard_id : ℤ
  pub shard : Shard
  pub node_id : NodeId
  pub drawn : ℕ
  pub of_shard : In (shard_id, shard) shards
  pub ordinary : is_special shard_id ≡ false
  pub is_member : In leader shard.member
  pub parsed : string_to_id leader.0 ≡ ok node_id
  pub drawn_there : random (env.intn shard_id) 1 (length shard.member) ≡ ok drawn
  pub numbered : node_id.in_shard_id ≡ pos drawn
  pub at_least : 1 ≤ drawn
  pub below : (drawn < length shard.member) ⊎ (length shard.member ≡ 1)

All-elect_shards :
    (env : SeedEnv) (all shards : Table ℤ Shard) (leaders : Shard)
    → ((k : ℤ) → IsIntn (env.intn k))
    → ((k : ℤ) (s : Shard) → In (k, s) shards → In (k, s) all)
    → All (Elected env all) leaders.member
    → Ensures (λ s. All (Elected env all) s.member) (elect_shards env shards leaders)
unfolding elect_shards
All-elect_shards env all [] leaders fair incl h = returns h
All-elect_shards env all ((k, s) ∷ shards) leaders fair incl h = elim (Bool-cases (is_special k)) [
  | inl special ↦
      rw special (All-elect_shards env all shards leaders fair (λ j t at. incl j t (there at)) h)
  | inr ordinary ↦ rw ordinary (
      Ensures-bind_with (random (env.intn k) 1 (length s.member)) (Ensures-self _) λ drawn is_drawn.
        let (least, below) =
          Ensures-ok (random_bounds (env.intn k) (length s.member) (fair k)) is_drawn in
        Ensures-bind_with (elect (λ (a : NodeId). a.in_shard_id) drawn s.member leaders)
          (All-elect (Elected env all) (λ (a : NodeId). a.in_shard_id) drawn s.member leaders
            (λ j w a at parsed numbered. record {
              shard_id = k;
              shard = s;
              node_id = a;
              drawn = drawn;
              of_shard = incl k s here;
              ordinary = ordinary;
              is_member = at;
              parsed = parsed;
              drawn_there = is_drawn;
              numbered = numbered;
              at_least = least;
              below = below;
            })
            h)
          λ chosen h'.
            All-elect_shards env all shards chosen fair (λ j t at. incl j t (there at)) h')
]

-- Every member has an identity that can be read.
abbrev pub Readable : Table Bytes Bytes → Type 0
Readable m = All (λ (e : Bytes × Bytes). (a : NodeId) × (string_to_id e.0 ≡ ok a)) m

-- Every consensus shard has a member, and its members can be read.
abbrev pub Electable : Table ℤ Shard → Type 0
Electable shards =
    All (λ (e : ℤ × Shard). is_special e.0 ≡ false → (0 < length e.1.member) × Readable e.1.member)
      shards

elect-returns :
    (number : NodeId → ℤ) (drawn : ℕ) (m : Table Bytes Bytes) (leaders : Shard)
    → Readable m
    → (s : Shard) × (elect number drawn m leaders ≡ ok s)
unfolding elect
elect-returns number drawn [] leaders h = (leaders, refl)
elect-returns number drawn ((k, v) ∷ m) leaders ((a, e), h) =
    let leaders' =
      if int_eq (number a) (pos drawn) then (Members.add_node k v leaders).0 else leaders in
    let (s, e') = elect-returns number drawn m leaders' h in (s, rw e e')

random-returns : (intn : ℕ → ℕ) (max : ℕ) → 0 < max → (r : ℕ) × (random intn 1 max ≡ ok r)
unfolding random
random-returns intn max h = elim (Bool-cases (1 == max)) [
  | inl one ↦ (max, rw one refl)
  | inr other ↦
      let more : ltb 1 max ≡ true = ground (arith, ==_iff 1 max) in
      (intn (max - 1) + 1, rw (other, more) refl)
]

elect_shards-returns :
    (env : SeedEnv) (shards : Table ℤ Shard) (leaders : Shard)
    → Electable shards
    → (s : Shard) × (elect_shards env shards leaders ≡ ok s)
unfolding elect_shards
elect_shards-returns env [] leaders h = (leaders, refl)
elect_shards-returns env ((k, s) ∷ shards) leaders (here_fits, h) =
    elim (Bool-cases (is_special k)) [
      | inl special ↦ rw special (elect_shards-returns env shards leaders h)
      | inr ordinary ↦
          let (some_member, readable) = here_fits ordinary in
          let (r, e) = random-returns (env.intn k) (length s.member) some_member in
          let (t, e') = elect-returns (λ (a : NodeId). a.in_shard_id) r s.member leaders readable in
          rw (ordinary, e, e') (elect_shards-returns env shards t h)
    ]

-- SelectIntraLeader, with random numbers as rand.Intn promises them: it returns if every consensus
-- shard has a member and the identities of all members can be read. Each leader that it leaves is a
-- member of a consensus shard whose number Random gave for this shard; and each such member is among
-- the leaders. The number is never that of the last of several members. No other shard changes.
pub select_intra_leader-Elected :
    (env : SeedEnv) (n : SeedNode)
    → ((k : ℤ) → IsIntn (env.intn k))
    → Electable (insert intra_leader_shard_id new_shard n.peers.shards)
    → (n' : SeedNode) × (leaders : Shard) × (select_intra_leader env n ≡ ok n')
      × (lookup intra_leader_shard_id n'.peers.shards ≡ some leaders)
      × All (Elected env (insert intra_leader_shard_id new_shard n.peers.shards)) leaders.member
      × AllChosen env (insert intra_leader_shard_id new_shard n.peers.shards) leaders
      × ((k : ℤ)
          → int_eq intra_leader_shard_id k ≡ false
          → lookup k n'.peers.shards ≡ lookup k n.peers.shards)
unfolding select_intra_leader
select_intra_leader-Elected env n fair h =
    let cleared = insert intra_leader_shard_id new_shard n.peers.shards in
    let (leaders, e) = elect_shards-returns env cleared new_shard h in
    (
      with_shard intra_leader_shard_id leaders (with_shard intra_leader_shard_id new_shard n),
      leaders,
      rw e refl,
      lookup-insert intra_leader_shard_id intra_leader_shard_id leaders cleared,
      Ensures-ok (All-elect_shards env cleared cleared new_shard fair (λ k s at. at) tt) e,
      Ensures-ok (elect_shards-AllChosen env cleared new_shard) e,
      (λ k other.
          lookup-insert intra_leader_shard_id k leaders cleared
          ∙ rw other
              (lookup-insert intra_leader_shard_id k new_shard n.peers.shards ∙ rw other refl)),
    )
