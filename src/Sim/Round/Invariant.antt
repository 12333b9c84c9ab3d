-- ===== src/Sim/Round/Invariant.antt =====
-- What holds of a committee in every state that it reaches when its counts start at zero.
use frustum.Prelude.{
  ℕ, zero, suc, ◌+◌, ◌*◌, ◌≤◌, ◌<◌, ◌≡◌, ◌≢◌, ◌⊎◌, inl, inr, refl, sym, ap, ◌∙◌, List, true, false,
  arith, length,
}
use mathlib.Core.Bool.{false≢true}
use frustum.Prelude.Outcome.{ok, ok-injective}
use frustum.Prelude.Slices.{
  get_elem, sum, get_elem-lt, length-set_elem, sum-set_elem, sum_mono, set_elem-cases,
}
use frustum.Sim.{Flags, Node}
use frustum.Sim.Round.{
  Stage, starting, silent, Round, new_round, starting_stages, turn, Reach, start, later,
}
use frustum.Sim.Round.Step.{turn-Step}
use frustum.Sim.Round.Effect.{
  Effect, to_prepare, to_commit, taking_part, voting, is_signed, telling,
}
use frustum.Sim.Round.Effect.Cases.{Step-Effect}

-- A node whose counts are those of the start.
abbrev pub IsFresh : Node → Type 0
IsFresh m = (m.prepare_num ≡ 0) × (m.commit_num ≡ 0) × (m.sig ≡ false)

abbrev pub AllFresh : List Node → Type 0
AllFresh nodes = (k : ℕ) (m : Node) → get_elem k nodes ≡ ok m → IsFresh m

pub record Inv (flags : Flags) (nodes : List Node) (s : Round) : Type 0 where
  pub members : length s.stages ≡ flags.n_per_commitee
  pub size : length s.nodes ≡ length nodes
  pub faults :
      (k : ℕ) (m : Node)
      → get_elem k s.nodes ≡ ok m
      → (first : Node) × (get_elem k nodes ≡ ok first) × (m.is_honest ≡ first.is_honest)
  pub prepare_counts :
      (k : ℕ) (m : Node)
      → k < flags.n_per_commitee
      → get_elem k s.nodes ≡ ok m
      → m.prepare_num ≡ sum (to_prepare k) s.stages
  pub commit_counts :
      (k : ℕ) (m : Node)
      → k < flags.n_per_commitee
      → get_elem k s.nodes ≡ ok m
      → m.commit_num ≡ sum (to_commit k) s.stages
  pub sigs :
      (k : ℕ) (stage : Stage) (m : Node)
      → get_elem k s.stages ≡ ok stage
      → get_elem k s.nodes ≡ ok m
      → m.sig ≡ is_signed stage
  pub told : s.final_commit ≡ sum telling s.stages
  pub prepare_quorum :
      (k : ℕ) (stage : Stage)
      → get_elem k s.stages ≡ ok stage
      → voting stage ≡ 1
      → 2 * flags.total_f < sum taking_part s.stages
  pub commit_quorum :
      (k : ℕ) (stage : Stage)
      → get_elem k s.stages ≡ ok stage
      → is_signed stage ≡ true
      → 2 * flags.total_f < sum voting s.stages
  pub honesty :
      (k : ℕ) (m : Node)
      → get_elem k s.stages ≡ ok silent
      → get_elem k s.nodes ≡ ok m
      → m.is_honest ≡ false

pub to_prepare-le : (k : ℕ) (stage : Stage) → to_prepare k stage ≤ taking_part stage
to_prepare-le k stage = ground arith

pub to_commit-le : (k : ℕ) (stage : Stage) → to_commit k stage ≤ voting stage
to_commit-le k stage = ground arith

module _ {flags : Flags} {nodes : List Node} (id : ℕ) {s t : Round} {p : Stage}
    (inv : Inv flags nodes s) (at : get_elem id s.stages ≡ ok p)
    (effect : Effect flags id s p t) where
  open effect use {next, stages, node}

  -- The weight of the committee after the turn.
  moved : (w : Stage → ℕ) → sum w t.stages + w p ≡ sum w s.stages + w next
  moved w = rw stages (sum-set_elem w id next p s.stages at)

  stage_of :
      (k : ℕ) (stage : Stage)
      → get_elem k t.stages ≡ ok stage
      → ((k ≡ id) × (stage ≡ next)) ⊎ ((k ≢ id) × (get_elem k s.stages ≡ ok stage))
  stage_of k stage h = set_elem-cases id k next s.stages (ap (get_elem k) (sym stages) ∙ h)

  below : id < flags.n_per_commitee
  below = omega (arith, get_elem-lt id s.stages at, inv.members)

  same_member :
      {k : ℕ} {a b : Node} → k ≡ id → get_elem k s.nodes ≡ ok a → get_elem id s.nodes ≡ ok b → a ≡ b
  same_member e x y = ok-injective (sym x ∙ ap (λ i. get_elem i s.nodes) e ∙ y)

  Effect-Inv : Inv flags nodes t
  Effect-Inv = record {
    members = rw stages (length-set_elem id next s.stages ∙ inv.members);
    size = effect.size ∙ inv.size;
    faults = λ k m h.
        let (old, c, change) = node k m h in
        let (first, f, e) = inv.faults k old c in (first, f, change.honesty ∙ e);
    prepare_counts = λ k m lt h.
        let (old, c, change) = node k m h in
        omega (arith, change.prepared lt, inv.prepare_counts k old lt c, moved (to_prepare k));
    commit_counts = λ k m lt h.
        let (old, c, change) = node k m h in
        omega (arith, change.committed lt, inv.commit_counts k old lt c, moved (to_commit k));
    sigs = λ k stage m a h.
        let (old, c, change) = node k m h in
        elim (stage_of k stage a) [
          | inl (same, e) ↦
              rw e
                (change.own_sig same (inv.sigs k p old (ap (λ i. get_elem i s.stages) same ∙ at) c))
          | inr (other, before) ↦ change.other_sig other ∙ inv.sigs k stage old before c
        ];
    told = omega (arith, effect.told, inv.told, moved telling);
    prepare_quorum = λ k stage a v. elim (stage_of k stage a) [
      | inl (same, e) ↦ elim (effect.passed (rw (← e) v)) [
        | inl before ↦
            omega (arith, inv.prepare_quorum id p at before, moved taking_part, effect.joined)
        | inr (m, c, g) ↦ omega (
          arith,
          g,
          inv.prepare_counts id m below c,
          moved taking_part,
          effect.joined,
          sum_mono (to_prepare id) taking_part s.stages (λ i b _. to_prepare-le id b),
        )
      ]
      | inr (other, before) ↦
          omega (arith, inv.prepare_quorum k stage before v, moved taking_part, effect.joined)
    ];
    commit_quorum = λ k stage a v. elim (stage_of k stage a) [
      | inl (same, e) ↦ elim (effect.decided (rw (← e) v)) [
        | inl before ↦ omega (arith, inv.commit_quorum id p at before, moved voting, effect.voted)
        | inr (m, c, g) ↦ omega (
          arith,
          g,
          inv.commit_counts id m below c,
          moved voting,
          effect.voted,
          sum_mono (to_commit id) voting s.stages (λ i b _. to_commit-le id b),
        )
      ]
      | inr (other, before) ↦
          omega (arith, inv.commit_quorum k stage before v, moved voting, effect.voted)
    ];
    honesty = λ k m a h.
        let (old, c, change) = node k m h in
        elim (stage_of k silent a) [
          | inl (same, e) ↦ elim (effect.dropped (sym e)) [
            | inl before ↦
                change.honesty
                ∙ inv.honesty k old (ap (λ i. get_elem i s.stages) same ∙ at ∙ ap ok before) c
            | inr (m0, c0, g) ↦
                change.honesty ∙ ap (λ (n : Node). n.is_honest) (same_member same c c0) ∙ g
          ]
          | inr (other, before) ↦ change.honesty ∙ inv.honesty k old before c
        ];
  }

get_elem-starting_stages :
    (n k : ℕ) {stage : Stage} → get_elem k (starting_stages n) ≡ ok stage → stage ≡ starting
get_elem-starting_stages zero k h = cc
get_elem-starting_stages (suc n) zero h = sym (ok-injective h)
get_elem-starting_stages (suc n) (suc k) h = get_elem-starting_stages n k h

length-starting_stages : (n : ℕ) → length (starting_stages n) ≡ n
length-starting_stages zero = refl
length-starting_stages (suc n) = ap suc (length-starting_stages n)

sum-starting_stages : (w : Stage → ℕ) (n : ℕ) → w starting ≡ 0 → sum w (starting_stages n) ≡ 0
sum-starting_stages w zero h = refl
sum-starting_stages w (suc n) h = omega (arith, sum-starting_stages w n h)

pub new_round-Inv :
    (flags : Flags) (nodes : List Node) → AllFresh nodes → Inv flags nodes (new_round flags nodes)
new_round-Inv flags nodes fresh = record {
  members = length-starting_stages flags.n_per_commitee;
  size = refl;
  faults = λ k m h. (m, h, refl);
  prepare_counts = λ k m lt h. (fresh k m h).0 ∙ sym (none (to_prepare k) refl);
  commit_counts = λ k m lt h. (fresh k m h).1 ∙ sym (none (to_commit k) refl);
  sigs = λ k stage m a h. (fresh k m h).2 ∙ sym (ap is_signed (all k a));
  told = sym (none telling refl);
  prepare_quorum = λ k stage a v. absurd (omega (arith, ap voting (all k a)));
  commit_quorum = λ k stage a v. absurd (false≢true (sym (ap is_signed (all k a)) ∙ v));
  honesty = λ k m a h. absurd (omega (arith, ap is_silent (all k a)));
}
  where
    none : (w : Stage → ℕ) → w starting ≡ 0 → sum w (starting_stages flags.n_per_commitee) ≡ 0
    none w h = sum-starting_stages w flags.n_per_commitee h

    all :
        (k : ℕ) {stage : Stage}
        → get_elem k (starting_stages flags.n_per_commitee) ≡ ok stage
        → stage ≡ starting
    all k h = get_elem-starting_stages flags.n_per_commitee k h

    is_silent : Stage → ℕ
    is_silent silent = 1
    is_silent _ = 0

pub turn-Inv :
    {flags : Flags} {nodes : List Node} {s : Round} (draws : ℕ → ℕ) (id : ℕ) {t : Round}
    → Inv flags nodes s
    → turn flags draws id s ≡ ok t
    → Inv flags nodes t
turn-Inv {flags} {s} draws id inv e =
    let (stage, at, step) = turn-Step flags draws id s e in
    Effect-Inv id inv at (Step-Effect flags id s at step)

pub Reach-Inv :
    {flags : Flags} {draws : ℕ → ℕ} {nodes : List Node} {s : Round}
    → AllFresh nodes
    → Reach flags draws nodes s
    → Inv flags nodes s
Reach-Inv {flags} {nodes} fresh start = new_round-Inv flags nodes fresh
Reach-Inv {draws} fresh (later id r e) = turn-Inv draws id (Reach-Inv fresh r) e
