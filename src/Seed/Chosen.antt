-- ===== src/Seed/Chosen.antt =====
-- That the members with the drawn numbers do join the leaders: SelectIntraLeader of BlockChain/SeedNode.
use frustum.Prelude.{
  In, here, there, ℕ, ◌≡◌, refl, sym, ap, ◌∙◌, [], ◌∷◌, false, ℤ, pos, int_eq, int_eq_iff, Bytes,
  bytes_eq, length, some, Bool-cases, Option-cases, inl, inr,
}
use frustum.Prelude.Table.{Table, int_key, bytes_key, lookup, lookup-insert, beq_self}
use frustum.Prelude.Outcome.{ok, ok-injective}
use frustum.Prelude.Ensures.{
  Ensures, returns, Ensures-bind, Ensures-bind_with, Ensures-self, Ensures-mono, Ensures-both,
}
use frustum.Id.{NodeId, string_to_id}
use frustum.Peers.Members.{Shard}
use frustum.Peers.Members
use frustum.Seed.{SeedEnv, is_special, random, elect, elect_shards}

-- A member under this key.
abbrev pub HasKey : Bytes → Shard → Type 0
HasKey k s = (v : Bytes) × (lookup k s.member ≡ some v)

add_node-HasKey : (j k v : Bytes) (s : Shard) → HasKey j s → HasKey j (Members.add_node k v s).0
unfolding Members.add_node
add_node-HasKey j k v s (w, e) = elim (Option-cases (lookup k s.member)) [
  | inl missing ↦ rw missing (elim (Bool-cases (bytes_eq k j)) [
    | inl same ↦ (v, lookup-insert k j v s.member ∙ rw same refl)
    | inr another ↦ (w, lookup-insert k j v s.member ∙ rw another e)
  ])
  | inr (url, known) ↦ rw known (w, e)
]

add_node-HasKey_self : (k v : Bytes) (s : Shard) → HasKey k (Members.add_node k v s).0
unfolding Members.add_node
add_node-HasKey_self k v s = elim (Option-cases (lookup k s.member)) [
  | inl missing ↦ rw missing (v, lookup-insert k k v s.member ∙ rw (beq_self k) refl)
  | inr (url, known) ↦ rw known (url, known)
]

-- No leader is lost.
abbrev Grows : Shard → Shard → Type 0
Grows s t = (j : Bytes) → HasKey j s → HasKey j t

elect-Grows :
    (number : NodeId → ℤ) (drawn : ℕ) (m : Table Bytes Bytes) (leaders : Shard)
    → Ensures (Grows leaders) (elect number drawn m leaders)
unfolding elect
elect-Grows number drawn [] leaders = returns (λ j h. h)
elect-Grows number drawn ((k, v) ∷ m) leaders = Ensures-bind (string_to_id k) λ a.
    elim (Bool-cases (int_eq (number a) (pos drawn))) [
      | inl hit ↦ rw hit (
          Ensures-mono _ (elect-Grows number drawn m (Members.add_node k v leaders).0)
            λ t grows j h. grows j (add_node-HasKey j k v leaders h))
      | inr miss ↦ rw miss (elect-Grows number drawn m leaders)
    ]

-- The members with this number are in the shard.
abbrev Picked : (NodeId → ℤ) → ℕ → Table Bytes Bytes → Shard → Type 0
Picked number drawn m t =
    (k v : Bytes) (a : NodeId)
    → In (k, v) m
    → string_to_id k ≡ ok a
    → number a ≡ pos drawn
    → HasKey k t

Picked-more :
    (number : NodeId → ℤ) (drawn : ℕ) (k v : Bytes) (m : Table Bytes Bytes) (t : Shard) (a : NodeId)
    → string_to_id k ≡ ok a
    → (number a ≡ pos drawn → HasKey k t)
    → Picked number drawn m t
    → Picked number drawn ((k, v) ∷ m) t
Picked-more number drawn k v m t a parsed first rest _ _ b here e numbered =
    first (rw (ok-injective (sym parsed ∙ e)) numbered)
Picked-more number drawn k v m t a parsed first rest j w b (there at) e numbered =
    rest j w b at e numbered

elect-Picked :
    (number : NodeId → ℤ) (drawn : ℕ) (m : Table Bytes Bytes) (leaders : Shard)
    → Ensures (Picked number drawn m) (elect number drawn m leaders)
unfolding elect
elect-Picked number drawn [] leaders = returns (λ k v a at. elim at [ ])
elect-Picked number drawn ((k, v) ∷ m) leaders =
    Ensures-bind_with (string_to_id k) (Ensures-self _) λ a parsed.
      elim (Bool-cases (int_eq (number a) (pos drawn))) [
        | inl hit ↦ rw hit (
            Ensures-both _ (elect-Grows number drawn m (Members.add_node k v leaders).0)
              (elect-Picked number drawn m (Members.add_node k v leaders).0)
              λ t grows rest.
                Picked-more number drawn k v m t a parsed
                  (λ e. grows k (add_node-HasKey_self k v leaders)) rest)
        | inr miss ↦ rw miss (
            Ensures-mono _ (elect-Picked number drawn m leaders) λ t rest.
              Picked-more number drawn k v m t a parsed
                (λ e. cc (sym miss ∙ (int_eq_iff (number a) (pos drawn)).1 e)) rest)
      ]

elect_shards-Grows :
    (env : SeedEnv) (shards : Table ℤ Shard) (leaders : Shard)
    → Ensures (Grows leaders) (elect_shards env shards leaders)
unfolding elect_shards
elect_shards-Grows env [] leaders = returns (λ j h. h)
elect_shards-Grows env ((k, s) ∷ shards) leaders = elim (Bool-cases (is_special k)) [
  | inl special ↦ rw special (elect_shards-Grows env shards leaders)
  | inr ordinary ↦ rw ordinary (
      Ensures-bind (random (env.intn k) 1 (length s.member)) λ drawn.
        Ensures-bind_with (elect (λ (a : NodeId). a.in_shard_id) drawn s.member leaders)
          (elect-Grows (λ (a : NodeId). a.in_shard_id) drawn s.member leaders)
          λ chosen grows.
            Ensures-mono _ (elect_shards-Grows env shards chosen) λ t more j h. more j (grows j h))
]

-- In each consensus shard the members whose number was drawn for it are in the table.
abbrev pub AllChosen : SeedEnv → Table ℤ Shard → Shard → Type 0
AllChosen env shards t =
    (shard_id : ℤ) (s : Shard) (drawn : ℕ)
    → In (shard_id, s) shards
    → is_special shard_id ≡ false
    → random (env.intn shard_id) 1 (length s.member) ≡ ok drawn
    → Picked (λ (a : NodeId). a.in_shard_id) drawn s.member t

chosen_more :
    (env : SeedEnv) (k : ℤ) (s : Shard) (shards : Table ℤ Shard) (t : Shard)
    → ((drawn : ℕ)
        → is_special k ≡ false
        → random (env.intn k) 1 (length s.member) ≡ ok drawn
        → Picked (λ (a : NodeId). a.in_shard_id) drawn s.member t)
    → AllChosen env shards t
    → AllChosen env ((k, s) ∷ shards) t
chosen_more env k s shards t first rest _ _ drawn here ordinary e = first drawn ordinary e
chosen_more env k s shards t first rest j u drawn (there at) ordinary e =
    rest j u drawn at ordinary e

pub elect_shards-AllChosen :
    (env : SeedEnv) (shards : Table ℤ Shard) (leaders : Shard)
    → Ensures (AllChosen env shards) (elect_shards env shards leaders)
unfolding elect_shards
elect_shards-AllChosen env [] leaders = returns (λ k s drawn at. elim at [ ])
elect_shards-AllChosen env ((k, s) ∷ shards) leaders = elim (Bool-cases (is_special k)) [
  | inl special ↦ rw special (
      Ensures-mono _ (elect_shards-AllChosen env shards leaders) λ t rest.
        chosen_more env k s shards t (λ drawn ordinary e. cc (sym special ∙ ordinary)) rest)
  | inr ordinary ↦ rw ordinary (
      Ensures-bind_with (random (env.intn k) 1 (length s.member)) (Ensures-self _) λ drawn is_drawn.
        Ensures-bind_with (elect (λ (a : NodeId). a.in_shard_id) drawn s.member leaders)
          (elect-Picked (λ (a : NodeId). a.in_shard_id) drawn s.member leaders)
          λ chosen picked.
            Ensures-both _ (elect_shards-Grows env shards chosen)
              (elect_shards-AllChosen env shards chosen)
              λ t grows rest.
                chosen_more env k s shards t
                  (λ other _ e j v a at parsed numbered. grows j (
                    picked j v a at parsed
                      (numbered ∙ ap (λ (i : ℕ). pos i) (ok-injective (sym e ∙ is_drawn)))))
                  rest)
]
