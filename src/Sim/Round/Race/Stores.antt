-- ===== src/Sim/Round/Race/Stores.antt =====
-- receivePre with interrupted increments: the loads and the stores.
use frustum.Prelude.{
  ℕ, suc, ◌+◌, ◌≤◌, ◌≡◌, ◌≢◌, ◌⊎◌, inl, inr, refl, sym, ap, ◌∙◌, subst, List, arith, none, some,
}
use frustum.Prelude.Outcome.{ok, ok-injective}
use frustum.Prelude.Slices.{get_elem, set_elem, sum, sum-set_elem, set_elem-cases}
use frustum.Sim.{Flags, Node}
use frustum.Sim.Round.{Stage, preparing, committing, at_stage, with_nodes}
use frustum.Sim.Round.Effect.{to_prepare, to_commit}
use frustum.Sim.Round.Access.{Racing, prepared_to, committed_to, prepared_to, committed_to}
use frustum.Sim.Round.Race.{Loaded, for_prepare, for_commit, Bounded, up, Grow}
use frustum.Sim.Round.Race.Advance.{Advance-Bounded}

prepare_load :
    {stages : List Stage} {i v : ℕ} → Loaded stages (preparing i) v → v ≤ sum (to_prepare i) stages
prepare_load (for_prepare le) = le

commit_load :
    {stages : List Stage} {i v : ℕ} → Loaded stages (committing i) v → v ≤ sum (to_commit i) stages
commit_load (for_commit le) = le

module _ {flags : Flags} {r : Racing} (b : Bounded flags r) (id i : ℕ) where
  rest_of :
      (k v : ℕ)
      → get_elem k (set_elem id none r.loaded) ≡ ok (some v)
      → (k ≢ id) × (get_elem k r.loaded ≡ ok (some v))
  rest_of k v h = elim (set_elem-cases id k none r.loaded h) [
    | inl (_, e) ↦ absurd (cc)
    | inr stays ↦ stays
  ]

  -- The store of a prepare message: the count is at most one more than what was loaded, whatever the
  -- others have stored since.
  pub prepare_store :
      (v : ℕ) {nodes : List Node}
      → get_elem id r.round.stages ≡ ok (preparing i)
      → get_elem id r.loaded ≡ ok (some v)
      → (first : Node) × (get_elem i r.round.nodes ≡ ok first)
        × (nodes ≡ set_elem i (prepared_to (v + 1) first) r.round.nodes)
      → Bounded flags (record {
        round = at_stage (preparing (suc i)) id (with_nodes nodes r.round);
        loaded = set_elem id none r.loaded;
      })
  prepare_store v {nodes} at held (first, c, e) = Advance-Bounded b at (record {
    next = preparing (suc i);
    stages = refl;
    prepared = λ k m lt h. elim (node k h) [
      | inl (same, f) ↦
          rw (same, f) (omega (arith, prepare_load (b.loads id (preparing i) v at held), one))
      | inr (_, before) ↦ omega (arith, b.prepare_counts k m lt before, (grow k).0)
    ];
    committed = λ k m lt h. elim (node k h) [
      | inl (same, f) ↦ rw f (omega (arith, b.commit_counts k first lt (rw same c), (grow k).1))
      | inr (_, before) ↦ omega (arith, b.commit_counts k m lt before, (grow k).1)
    ];
    sig = λ k m h. elim (node k h) [
      | inl (same, f) ↦ (first, rw same c, (λ _ s. rw f s), (λ _. ap (λ (n : Node). n.sig) f))
      | inr (_, before) ↦ (m, before, (λ _ s. s), (λ _. refl))
    ];
    rest = rest_of;
    grow = grow;
    joined = omega arith;
    voted = omega arith;
    passed = λ v. inl v;
    decided = λ v. inl v;
  })
    where
      node :
          (k : ℕ) {m : Node}
          → get_elem k nodes ≡ ok m
          → ((k ≡ i) × (m ≡ prepared_to (v + 1) first))
            ⊎ ((k ≢ i) × (get_elem k r.round.nodes ≡ ok m))
      node k h =
          set_elem-cases i k (prepared_to (v + 1) first) r.round.nodes (ap (get_elem k) (sym e) ∙ h)

      grow : Grow r.round.stages (set_elem id (preparing (suc i)) r.round.stages)
      grow k = (
        up r.round.stages id at (to_prepare k) (preparing (suc i)) (ground arith),
        up r.round.stages id at (to_commit k) (preparing (suc i)) (ground arith),
      )

      one :
          sum (to_prepare i) r.round.stages + 1
          ≤ sum (to_prepare i) (set_elem id (preparing (suc i)) r.round.stages)
      one = ground (
        arith,
        sum-set_elem (to_prepare i) id (preparing (suc i)) (preparing i) r.round.stages at,
      )

  -- The same of a commit message.
  pub commit_store :
      (v : ℕ) {nodes : List Node}
      → get_elem id r.round.stages ≡ ok (committing i)
      → get_elem id r.loaded ≡ ok (some v)
      → (first : Node) × (get_elem i r.round.nodes ≡ ok first)
        × (nodes ≡ set_elem i (committed_to (v + 1) first) r.round.nodes)
      → Bounded flags (record {
        round = at_stage (committing (suc i)) id (with_nodes nodes r.round);
        loaded = set_elem id none r.loaded;
      })
  commit_store v {nodes} at held (first, c, e) = Advance-Bounded b at (record {
    next = committing (suc i);
    stages = refl;
    prepared = λ k m lt h. elim (node k h) [
      | inl (same, f) ↦ rw f (omega (arith, b.prepare_counts k first lt (rw same c), (grow k).0))
      | inr (_, before) ↦ omega (arith, b.prepare_counts k m lt before, (grow k).0)
    ];
    committed = λ k m lt h. elim (node k h) [
      | inl (same, f) ↦
          rw (same, f) (omega (arith, commit_load (b.loads id (committing i) v at held), one))
      | inr (_, before) ↦ omega (arith, b.commit_counts k m lt before, (grow k).1)
    ];
    sig = λ k m h. elim (node k h) [
      | inl (same, f) ↦ (first, rw same c, (λ _ s. rw f s), (λ _. ap (λ (n : Node). n.sig) f))
      | inr (_, before) ↦ (m, before, (λ _ s. s), (λ _. refl))
    ];
    rest = rest_of;
    grow = grow;
    joined = omega arith;
    voted = omega arith;
    passed = λ v. inl v;
    decided = λ v. inl v;
  })
    where
      node :
          (k : ℕ) {m : Node}
          → get_elem k nodes ≡ ok m
          → ((k ≡ i) × (m ≡ committed_to (v + 1) first))
            ⊎ ((k ≢ i) × (get_elem k r.round.nodes ≡ ok m))
      node k h =
          set_elem-cases i k (committed_to (v + 1) first) r.round.nodes
            (ap (get_elem k) (sym e) ∙ h)

      grow : Grow r.round.stages (set_elem id (committing (suc i)) r.round.stages)
      grow k = (
        up r.round.stages id at (to_prepare k) (committing (suc i)) (ground arith),
        up r.round.stages id at (to_commit k) (committing (suc i)) (ground arith),
      )

      one :
          sum (to_commit i) r.round.stages + 1
          ≤ sum (to_commit i) (set_elem id (committing (suc i)) r.round.stages)
      one = ground (
        arith,
        sum-set_elem (to_commit i) id (committing (suc i)) (committing i) r.round.stages at,
      )

  -- A load.
  pub load-Bounded :
      (p : Stage) (v : ℕ)
      → get_elem id r.round.stages ≡ ok p
      → Loaded r.round.stages p v
      → Bounded flags (record r { loaded = set_elem id (some v) r.loaded })
  load-Bounded p v at l = record {
    members = b.members;
    prepare_counts = b.prepare_counts;
    commit_counts = b.commit_counts;
    loads = λ k q u h held. elim (set_elem-cases id k (some v) r.loaded held) [
      | inl (same, e) ↦
          subst (λ x. Loaded r.round.stages x u)
            (ok-injective (sym at ∙ ap (λ c. get_elem c r.round.stages) (sym same) ∙ h))
            (subst (Loaded r.round.stages p) (cc) l)
      | inr (_, before) ↦ b.loads k q u h before
    ];
    sigs = b.sigs;
    prepare_quorum = b.prepare_quorum;
    commit_quorum = b.commit_quorum;
  }
