-- ===== src/Sim/Cross/Weight.antt =====
-- myBlockChain/Rapidchain: how often a transaction can still come back to the pool.
use frustum.Prelude.{
  ℕ, ◌+◌, ◌-◌, ◌≤◌, ◌≡◌, inl, inr, refl, sym, ap, subst, ◌∙◌, List, [], ◌∷◌, ◌++◌, Bool, true,
  false, not, ltb, if◌then◌else◌, Bool-cases, ℤ, int_eq, int_eq_iff, arith, length, map,
}
use frustum.Prelude.Outcome.{Outcome, ok, panic, blocked}
use frustum.Prelude.Ensures.{Ensures, returns, waits, Ensures-bind_with, Ensures-mono, Ensures-self}
use frustum.Prelude.Slices.{get_elem, sum, get_elem-map}
use frustum.Sim.{Node, Transaction}
use frustum.Sim.Setup.{SimEnv, zero_hash}
use frustum.Sim.Cross.{
  RapidSim, count_cross_cap, add_tx_2pool, count_one, first_half, is_zero, put_back, verify_one,
  verify_cross_tx,
}

-- The committees of the nodes.
abbrev pub ids_of : List Node → List ℤ
ids_of nodes = map (λ (m : Node). m.committee_id) nodes

abbrev differ : Outcome ℤ → Outcome ℤ → Bool
differ (ok a) (ok b) = not (int_eq a b)
differ (ok a) panic = false
differ (ok a) blocked = false
differ panic b = false
differ blocked b = false

-- Whether payer and payee are in different committees.
abbrev pub crosses : List ℤ → Transaction → Bool
crosses ids t = differ (get_elem t.inputs ids) (get_elem t.outputs ids)

-- The number of blocks that a transaction and what comes of it can still be put in.
abbrev pub weight : List ℤ → Transaction → ℕ
weight ids t =
    if crosses ids t
    then 4
    else if is_zero t.original_hash
    then 1
    else if is_zero t.hash
    then 3
    else 2

abbrev pub pool_weight : List ℤ → List Transaction → ℕ
pool_weight ids pool = sum (weight ids) pool

pub sum-append : {A : Type 0} (w : A → ℕ) (xs ys : List A) → sum w (xs ++ ys) ≡ sum w xs + sum w ys
sum-append w [] ys = omega arith
sum-append w (x ∷ xs) ys = omega (arith, sum-append w xs ys)

differ_self : (o : Outcome ℤ) → differ o o ≡ false
differ_self (ok a) = ap not ((int_eq_iff a a).1 refl)
differ_self panic = refl
differ_self blocked = refl

-- What SHA-256 gives in practice.
abbrev pub NeverZero : SimEnv → Type 0
NeverZero env = (t : Transaction) → is_zero (env.calculate_hash t) ≡ false

-- What a call that may fill up the pool leaves: at most `room` more weight, and the rest as it was.
pub record Grown (ids : List ℤ) (room : ℕ) (s t : RapidSim) : Type 0 where
  pub nodes : t.sim.nodes ≡ s.sim.nodes
  pub locked : t.locked ≡ s.locked
  pub pool : pool_weight ids t.sim.tx_list ≤ pool_weight ids s.sim.tx_list + room

module _ (env : SimEnv) (real : NeverZero env) (ids : List ℤ) where
  add_tx_2pool-Grown :
      (t : Transaction) (s : RapidSim) (room : ℕ)
      → weight ids t ≤ room
      → Ensures (Grown ids room s) (add_tx_2pool t s)
  unfolding add_tx_2pool
  add_tx_2pool-Grown t s room le = elim (Bool-cases s.locked) [
    | inl held ↦ rw held waits
    | inr free ↦ rw free (
        returns (record {
          nodes = refl;
          locked = refl;
          pool = omega (arith, sum-append (weight ids) s.sim.tx_list (t ∷ []));
        }))
  ]

  first_half-weight : (t : Transaction) → weight ids (first_half t) ≤ 3
  first_half-weight t = rw (differ_self (get_elem t.inputs ids)) (split (is_zero t.hash))
    where
      split : (b : Bool) → (if b then 1 else 3) ≤ 3
      split b = ground arith

  count_one-Grown : (s : RapidSim) → Ensures (Grown ids 0 s) (count_one s)
  unfolding count_one
  count_one-Grown s = elim (Bool-cases (ltb s.count_cross count_cross_cap)) [
    | inl room ↦ rw room (returns (record { nodes = refl; locked = refl; pool = omega arith }))
    | inr full ↦ rw full waits
  ]

  -- What verifyCrossTx puts back weighs less than the transaction did.
  put_back-Grown :
      (t : Transaction) (s : RapidSim) (room : ℕ)
      → room + 1 ≡ weight ids t
      → Ensures (Grown ids room s) (put_back env (crosses ids t) t s)
  unfolding put_back
  put_back-Grown t s room e =
      go (crosses ids t) (is_zero t.original_hash) (is_zero t.hash) refl refl refl
    where
      four : crosses ids t ≡ true → weight ids t ≡ 4
      four ec = rw ec refl

      three :
          crosses ids t ≡ false
          → is_zero t.original_hash ≡ false
          → is_zero t.hash ≡ true
          → weight ids t ≡ 3
      three ec eo eh = rw (ec, eo, eh) refl

      two :
          crosses ids t ≡ false
          → is_zero t.original_hash ≡ false
          → is_zero t.hash ≡ false
          → weight ids t ≡ 2
      two ec eo eh = rw (ec, eo, eh) refl

      go :
          (c o h : Bool)
          → crosses ids t ≡ c
          → is_zero t.original_hash ≡ o
          → is_zero t.hash ≡ h
          → Ensures (Grown ids room s) (put_back env (crosses ids t) t s)
      go true o h ec eo eh = rw ec (
          Ensures-bind_with (count_one s) (count_one-Grown s) λ u g.
            Ensures-mono (add_tx_2pool (first_half t) u)
              (add_tx_2pool-Grown (first_half t) u room
                (omega (arith, e, four ec, first_half-weight t)))
              λ v g'. record {
                nodes = g'.nodes ∙ g.nodes;
                locked = g'.locked ∙ g.locked;
                pool = omega (arith, g.pool, g'.pool);
              })
      go false true h ec eo eh =
          rw (ec, eo) (returns (record { nodes = refl; locked = refl; pool = omega arith }))
      go false false true ec eo eh =
          rw (ec, eo, eh)
            (add_tx_2pool-Grown (record t { hash = env.calculate_hash t }) s room
              (rw (ec, eo, real t) (omega (arith, e, three ec eo eh))))
      go false false false ec eo eh =
          rw (ec, eo, eh)
            (add_tx_2pool-Grown (record t { original_hash = zero_hash }) s room
              (rw ec (omega (arith, e, two ec eo eh))))

  crosses-nodes :
      (t : Transaction) (nodes : List Node) {payer payee : Node}
      → ids_of nodes ≡ ids
      → get_elem t.inputs nodes ≡ ok payer
      → get_elem t.outputs nodes ≡ ok payee
      → not (int_eq payer.committee_id payee.committee_id) ≡ crosses ids t
  crosses-nodes t nodes {payer} {payee} same a b =
      subst (λ is. not (int_eq payer.committee_id payee.committee_id) ≡ crosses is t) same
        (rw (get_elem-map id_of t.inputs nodes a, get_elem-map id_of t.outputs nodes b) refl)
    where
      id_of : Node → ℤ
      id_of m = m.committee_id

  weight-pos : (t : Transaction) → 1 ≤ weight ids t
  weight-pos t = split (crosses ids t) (is_zero t.original_hash) (is_zero t.hash)
    where
      split : (c o h : Bool) → 1 ≤ (if c then 4 else if o then 1 else if h then 3 else 2)
      split c o h = ground arith

  verify_one-Grown :
      (t : Transaction) (s : RapidSim) (room : ℕ)
      → ids_of s.sim.nodes ≡ ids
      → room + 1 ≡ weight ids t
      → Ensures (Grown ids room s) (verify_one env t s)
  unfolding verify_one
  verify_one-Grown t s room same e =
      Ensures-bind_with (get_elem t.inputs s.sim.nodes)
        (Ensures-self (get_elem t.inputs s.sim.nodes))
        λ payer a.
          Ensures-bind_with (get_elem t.outputs s.sim.nodes)
            (Ensures-self (get_elem t.outputs s.sim.nodes))
            λ payee b.
              subst (λ c. Ensures (Grown ids room s) (put_back env c t s))
                (sym (crosses-nodes t s.sim.nodes same a b)) (put_back-Grown t s room e)

  -- The payers, the payees and the hashes being as they may, when verifyCrossTx has gone through a
  -- block, the weight of the pool has grown by less than that of the block: by at least one less for
  -- each transaction. Here no hash is zero, and the nodes keep their committees.
  pub verify_cross_tx-weight :
      (ts : List Transaction) (s : RapidSim)
      → ids_of s.sim.nodes ≡ ids
      → Ensures
          (λ t.
            (t.sim.nodes ≡ s.sim.nodes)
            × (t.locked ≡ s.locked)
            × (pool_weight ids t.sim.tx_list + length ts
                ≤ pool_weight ids s.sim.tx_list + pool_weight ids ts))
          (verify_cross_tx env ts s)
  unfolding verify_cross_tx
  verify_cross_tx-weight [] s same = returns (refl, refl, omega arith)
  verify_cross_tx-weight (t ∷ ts) s same =
      Ensures-bind_with (verify_one env t s)
        (verify_one-Grown t s (weight ids t - 1) same (omega (arith, weight-pos t)))
        λ u g.
          Ensures-mono (verify_cross_tx env ts u)
            (verify_cross_tx-weight ts u (ap ids_of g.nodes ∙ same))
            λ v (n, l, le). (n ∙ g.nodes, l ∙ g.locked, omega (arith, le, g.pool, weight-pos t))
