-- ===== src/Sim/Round/Race/Advance.antt =====
-- receivePre with interrupted increments: the accesses that take a member further.
use frustum.Prelude.{
  ℕ, ◌+◌, ◌*◌, ◌≤◌, ◌<◌, ◌≡◌, ◌≢◌, ◌⊎◌, inl, inr, sym, ap, ◌∙◌, true, arith, some,
}
use frustum.Prelude.Outcome.{ok}
use frustum.Prelude.Slices.{
  get_elem, set_elem, sum, get_elem-lt, length-set_elem, sum-set_elem, sum_mono, set_elem-cases,
}
use frustum.Sim.{Flags, Node}
use frustum.Sim.Round.{Stage, Round, change}
use frustum.Sim.Round.Step.{Step}
use frustum.Sim.Round.Effect.{Effect, to_prepare, to_commit, taking_part, voting, is_signed}
use frustum.Sim.Round.Effect.Cases.{Step-Effect}
use frustum.Sim.Round.Invariant.{to_prepare-le, to_commit-le}
use frustum.Sim.Round.Access.{Racing}
use frustum.Sim.Round.Race.{Bounded, Grow, Step-Grow, Loaded-Grow}

-- What an access by `id` that is no load does.
pub record Advance (flags : Flags) (id : ℕ) (r : Racing) (p : Stage) (t : Racing) : Type 0 where
  pub next : Stage
  pub stages : t.round.stages ≡ set_elem id next r.round.stages
  pub prepared :
      (k : ℕ) (m : Node)
      → k < flags.n_per_commitee
      → get_elem k t.round.nodes ≡ ok m
      → m.prepare_num ≤ sum (to_prepare k) t.round.stages
  pub committed :
      (k : ℕ) (m : Node)
      → k < flags.n_per_commitee
      → get_elem k t.round.nodes ≡ ok m
      → m.commit_num ≤ sum (to_commit k) t.round.stages
  pub sig :
      (k : ℕ) (m : Node)
      → get_elem k t.round.nodes ≡ ok m
      → (old : Node) × (get_elem k r.round.nodes ≡ ok old)
        × (k ≡ id → old.sig ≡ is_signed p → m.sig ≡ is_signed next)
        × (k ≢ id → m.sig ≡ old.sig)
  pub rest :
      (k v : ℕ) → get_elem k t.loaded ≡ ok (some v) → (k ≢ id) × (get_elem k r.loaded ≡ ok (some v))
  pub grow : Grow r.round.stages t.round.stages
  pub joined : taking_part p ≤ taking_part next
  pub voted : voting p ≤ voting next
  pub passed :
      voting next ≡ 1
      → (voting p ≡ 1)
        ⊎ ((m : Node) × (get_elem id r.round.nodes ≡ ok m) × (2 * flags.total_f < m.prepare_num))
  pub decided :
      is_signed next ≡ true
      → (is_signed p ≡ true)
        ⊎ ((m : Node) × (get_elem id r.round.nodes ≡ ok m) × (2 * flags.total_f < m.commit_num))

module _ {flags : Flags} {id : ℕ} {r t : Racing} {p : Stage} (b : Bounded flags r)
    (at : get_elem id r.round.stages ≡ ok p) (a : Advance flags id r p t) where
  open a use {next, stages}

  moved : (w : Stage → ℕ) → sum w t.round.stages + w p ≡ sum w r.round.stages + w next
  moved w = rw stages (sum-set_elem w id next p r.round.stages at)

  stage_of :
      (k : ℕ) (stage : Stage)
      → get_elem k t.round.stages ≡ ok stage
      → ((k ≡ id) × (stage ≡ next)) ⊎ ((k ≢ id) × (get_elem k r.round.stages ≡ ok stage))
  stage_of k stage h = set_elem-cases id k next r.round.stages (ap (get_elem k) (sym stages) ∙ h)

  below : id < flags.n_per_commitee
  below = omega (arith, get_elem-lt id r.round.stages at, b.members)

  pub Advance-Bounded : Bounded flags t
  Advance-Bounded = record {
    members = rw stages (length-set_elem id next r.round.stages ∙ b.members);
    prepare_counts = a.prepared;
    commit_counts = a.committed;
    loads = λ k q v h l.
        let (other, before) = a.rest k v l in
        elim (stage_of k q h) [
          | inl (same, _) ↦ absurd (other same)
          | inr (_, stays) ↦ Loaded-Grow a.grow (b.loads k q v stays before)
        ];
    sigs = λ k q m h c.
        let (old, d, own, others) = a.sig k m c in
        elim (stage_of k q h) [
          | inl (same, e) ↦
              rw e (own same (b.sigs k p old (ap (λ i. get_elem i r.round.stages) same ∙ at) d))
          | inr (other, before) ↦ others other ∙ b.sigs k q old before d
        ];
    prepare_quorum = λ k q h v. elim (stage_of k q h) [
      | inl (same, e) ↦ elim (a.passed (rw (← e) v)) [
        | inl before ↦ omega (arith, b.prepare_quorum id p at before, moved taking_part, a.joined)
        | inr (m, c, g) ↦ omega (
          arith,
          g,
          b.prepare_counts id m below c,
          moved taking_part,
          a.joined,
          sum_mono (to_prepare id) taking_part r.round.stages (λ i s _. to_prepare-le id s),
        )
      ]
      | inr (other, before) ↦
          omega (arith, b.prepare_quorum k q before v, moved taking_part, a.joined)
    ];
    commit_quorum = λ k q h v. elim (stage_of k q h) [
      | inl (same, e) ↦ elim (a.decided (rw (← e) v)) [
        | inl before ↦ omega (arith, b.commit_quorum id p at before, moved voting, a.voted)
        | inr (m, c, g) ↦ omega (
          arith,
          g,
          b.commit_counts id m below c,
          moved voting,
          a.voted,
          sum_mono (to_commit id) voting r.round.stages (λ i s _. to_commit-le id s),
        )
      ]
      | inr (other, before) ↦ omega (arith, b.commit_quorum k q before v, moved voting, a.voted)
    ];
  }

module _ {flags : Flags} {id : ℕ} {r : Racing} {p : Stage} (b : Bounded flags r)
    (at : get_elem id r.round.stages ≡ ok p) where
  -- A turn in one piece.
  pub turn-Bounded :
      {s : Round}
      → ((v : ℕ) → get_elem id r.loaded ≢ ok (some v))
      → Step flags id r.round p s
      → Bounded flags (record r { round = s })
  turn-Bounded {s} idle step = Advance-Bounded b at (record {
    next = e.next;
    stages = e.stages;
    prepared = λ k m lt h.
        let (old, c, change) = e.node k m h in
        omega (arith, change.prepared lt, b.prepare_counts k old lt c, gone (to_prepare k));
    committed = λ k m lt h.
        let (old, c, change) = e.node k m h in
        omega (arith, change.committed lt, b.commit_counts k old lt c, gone (to_commit k));
    sig =
        λ k m h. let (old, c, change) = e.node k m h in (old, c, change.own_sig, change.other_sig);
    rest = λ k v h. ((λ same. idle v (ap (λ i. get_elem i r.loaded) (sym same) ∙ h)), h);
    grow = Step-Grow at step;
    joined = e.joined;
    voted = e.voted;
    passed = e.passed;
    decided = e.decided;
  })
    where
      e : Effect flags id r.round p s
      e = Step-Effect flags id r.round at step

      gone : (w : Stage → ℕ) → sum w s.stages + w p ≡ sum w r.round.stages + w e.next
      gone w = omega (arith, ap (sum w) e.stages, sum-set_elem w id e.next p r.round.stages at)
