-- ===== src/Sim/Round/Turns.antt =====
-- That a committee's turns return, one and many.
use frustum.Prelude.{
  ℕ, ◌*◌, ◌≤◌, ◌<◌, ◌≡◌, ◌⊎◌, inl, inr, refl, ap, subst, ◌∙◌, List, [], ◌∷◌, arith, length, In,
  here, there, ltb, leb, Bool-cases,
}
use frustum.Prelude.Outcome.{Outcome, ok, ◌>>=◌}
use frustum.Prelude.Slices.{get_elem, get_elem_total}
use frustum.Sim.{Flags, Node}
use frustum.Sim.Round.{
  Stage, starting, silent, preparing, await_prepare, committing, await_commit, signed, finished,
  Round, final_commit_cap, more_prepared, more_committed, with_sig, change, act, turn, turns,
}
use frustum.Sim.Round.Invariant.{Inv, turn-Inv}
use frustum.Sim.Round.Progress.{left, turn-cases}

abbrev Returns : {A : Type 0} → Outcome A → Type 0
Returns {A} call = (a : A) × (call ≡ ok a)

Returns-bind :
    {A B : Type 0} (call : Outcome A) (f : A → Outcome B)
    → Returns call
    → ((a : A) → Returns (f a))
    → Returns (call >>= f)
Returns-bind call f (a, e) h = rw e (h a)

change-Returns :
    (i : ℕ) (f : Node → Node) (nodes : List Node) → i < length nodes → Returns (change i f nodes)
unfolding change
change-Returns i f nodes lt =
    Returns-bind (get_elem i nodes) _ (get_elem_total i nodes lt) (λ m. (_, refl))

In-cases : {A : Type 0} {x y : A} {xs : List A} → In x (y ∷ xs) → (x ≡ y) ⊎ In x xs
In-cases here = inl refl
In-cases (there h) = inr h

module _ (flags : Flags) (draws : ℕ → ℕ) where
  act-Returns :
      (drawn id : ℕ) (p : Stage) (s : Round)
      → id < flags.n_per_commitee
      → flags.n_per_commitee ≤ length s.nodes
      → Returns (act flags drawn id p s)
  unfolding act
  act-Returns drawn id starting s lt room =
      Returns-bind (get_elem id s.nodes) _ (get_elem_total id s.nodes (omega arith))
        (λ m. (_, refl))
  act-Returns drawn id silent s lt room = (_, refl)
  act-Returns drawn id (preparing i) s lt room = elim (Bool-cases (ltb i flags.n_per_commitee)) [
    | inl more ↦ rw more (
        Returns-bind (change i more_prepared s.nodes) _
          (change-Returns i more_prepared s.nodes (ground arith)) (λ nodes. (_, refl)))
    | inr end ↦ rw end (_, refl)
  ]
  act-Returns drawn id await_prepare s lt room =
      Returns-bind (get_elem id s.nodes) _ (get_elem_total id s.nodes (omega arith))
        (λ m. (_, refl))
  act-Returns drawn id (committing i) s lt room = elim (Bool-cases (ltb i flags.n_per_commitee)) [
    | inl more ↦ rw more (
        Returns-bind (change i more_committed s.nodes) _
          (change-Returns i more_committed s.nodes (ground arith)) (λ nodes. (_, refl)))
    | inr end ↦ rw end (_, refl)
  ]
  act-Returns drawn id await_commit s lt room =
      Returns-bind (get_elem id s.nodes) _ (get_elem_total id s.nodes (omega arith)) λ m.
        elim (Bool-cases (leb m.commit_num (2 * flags.total_f))) [
          | inl few ↦ rw few (_, refl)
          | inr enough ↦ rw enough (
              Returns-bind (change id with_sig s.nodes) _
                (change-Returns id with_sig s.nodes (omega arith)) (λ nodes. (_, refl)))
        ]
  act-Returns drawn id signed s lt room = elim (Bool-cases (ltb s.final_commit final_commit_cap)) [
    | inl more ↦ rw more (_, refl)
    | inr end ↦ rw end (_, refl)
  ]
  act-Returns drawn id finished s lt room = (_, refl)

  module _ {nodes : List Node} (room : flags.n_per_commitee ≤ length nodes) where
    -- No turn of a member panics: the committee is as large as the loops take it to be.
    pub turn_returns :
        (id : ℕ) {s : Round}
        → Inv flags nodes s
        → id < flags.n_per_commitee
        → (t : Round) × (turn flags draws id s ≡ ok t)
    unfolding turn
    turn_returns id {s} inv lt =
        Returns-bind (get_elem id s.stages) _
          (get_elem_total id s.stages (omega (arith, inv.members)))
          (λ p. act-Returns (draws id) id p s lt (omega (arith, inv.size)))

    -- A run of turns changes nothing, and then none of them does, or it uses up accesses.
    pub turns-cases :
        (ids : List ℕ) {s : Round}
        → ((id : ℕ) → In id ids → id < flags.n_per_commitee)
        → Inv flags nodes s
        → (t : Round) × (turns flags draws ids s ≡ ok t)
          × Inv flags nodes t
          × (((t ≡ s) × ((id : ℕ) → In id ids → turn flags draws id s ≡ ok s))
              ⊎ (left flags t < left flags s))
    unfolding turns
    turns-cases [] {s} lt inv = (s, refl, inv, inl (refl, λ id h. elim h [ ]))
    turns-cases (id ∷ ids) {s} lt inv =
        let (u, e) = turn_returns id inv (lt id here) in
        let (t, es, kept, why) =
          turns-cases ids (λ i h. lt i (there h)) (turn-Inv draws id inv e) in
        (t, rw e es, kept, both u t e (turn-cases flags draws id s e) why)
      where
        both :
            (u t : Round)
            → turn flags draws id s ≡ ok u
            → (u ≡ s) ⊎ (left flags u < left flags s)
            → ((t ≡ u) × ((i : ℕ) → In i ids → turn flags draws i u ≡ ok u))
              ⊎ (left flags t < left flags u)
            → ((t ≡ s) × ((i : ℕ) → In i (id ∷ ids) → turn flags draws i s ≡ ok s))
              ⊎ (left flags t < left flags s)
        both u t e (inl same) (inl (still, idle)) = inl (
          still ∙ same,
          λ i h. elim (In-cases h) [
            | inl first ↦ rw first (e ∙ ap ok same)
            | inr later ↦ subst (λ v. turn flags draws i v ≡ ok v) same (idle i later)
          ],
        )
        both u t e (inl same) (inr lt') = inr (rw (← ap (left flags) same) lt')
        both u t e (inr lt') (inl (still, idle)) = inr (rw still lt')
        both u t e (inr lt1) (inr lt2) = inr (omega arith)
