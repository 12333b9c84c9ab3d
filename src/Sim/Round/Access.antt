-- ===== src/Sim/Round/Access.antt =====
-- receivePre of the simulations by single accesses: an increment of a count is a load and a store, with no
-- lock, and between them the other goroutines may run. An update of theirs is then lost.
use frustum.Prelude.{
  ℕ, zero, suc, ◌+◌, ◌≡◌, refl, sym, ap, List, [], ◌∷◌, subst, Bool-cases, inl, inr, ltb,
  if◌then◌else◌, Option, none, some,
}
use frustum.Prelude.Outcome.{Outcome, ok, panic, blocked, ok-injective, ◌>>=◌, >>=-eq-ok}
use frustum.Prelude.Slices.{get_elem, set_elem, get_elem-lt, get_elem-set_elem}
use frustum.Sim.{Flags, Node}
use frustum.Sim.Round.{
  Stage, starting, silent, preparing, await_prepare, committing, await_commit, signed, finished,
  Round, more_prepared, more_committed, change, at_stage, with_nodes, act, turn, new_round,
  starting_stages,
}

-- The committee, and what each goroutine has loaded and not yet stored.
pub record Racing : Type 0 where
  pub round : Round
  pub loaded : List (Option ℕ)

abbrev pub prepared_to : ℕ → Node → Node
prepared_to v m = record m { prepare_num = v }

abbrev pub committed_to : ℕ → Node → Node
committed_to v m = record m { commit_num = v }

-- The next access of member `id`, at its stage and with what it has loaded.
unfoldable pub access_at : Flags → ℕ → ℕ → Stage → Option ℕ → Racing → Outcome Racing
unfolding change act
access_at flags drawn id (preparing i) (some v) r = do
  nodes ← change i (prepared_to (v + 1)) r.round.nodes
  ok (record {
    round = at_stage (preparing (suc i)) id (with_nodes nodes r.round);
    loaded = set_elem id none r.loaded;
  })
access_at flags drawn id (committing i) (some v) r = do
  nodes ← change i (committed_to (v + 1)) r.round.nodes
  ok (record {
    round = at_stage (committing (suc i)) id (with_nodes nodes r.round);
    loaded = set_elem id none r.loaded;
  })
access_at flags drawn id (preparing i) none r =
    if ltb i flags.n_per_commitee
    then (do
      m ← get_elem i r.round.nodes
      ok (record r { loaded = set_elem id (some m.prepare_num) r.loaded }))
    else (act flags drawn id (preparing i) r.round >>= λ s. ok (record r { round = s }))
access_at flags drawn id (committing i) none r =
    if ltb i flags.n_per_commitee
    then (do
      m ← get_elem i r.round.nodes
      ok (record r { loaded = set_elem id (some m.commit_num) r.loaded }))
    else (act flags drawn id (committing i) r.round >>= λ s. ok (record r { round = s }))
access_at flags drawn id p _ r = act flags drawn id p r.round >>= λ s. ok (record r { round = s })

unfoldable pub access : Flags → (ℕ → ℕ) → ℕ → Racing → Outcome Racing
unfolding access_at
access flags draws id r = do
  stage ← get_elem id r.round.stages
  v ← get_elem id r.loaded
  access_at flags (draws id) id stage v r

-- The accesses in a given order.
unfoldable pub accesses : Flags → (ℕ → ℕ) → List ℕ → Racing → Outcome Racing
unfolding access
accesses flags draws [] r = ok r
accesses flags draws (id ∷ ids) r = access flags draws id r >>= accesses flags draws ids

stores_at_once : Flags → (ℕ → ℕ) → ℕ → Option ℕ → Racing → Outcome Racing
unfolding access
stores_at_once flags draws id none r = ok r
stores_at_once flags draws id (some v) r = access flags draws id r

-- An access, and the store if it was a load: an increment that is not interrupted.
unfoldable pub uninterrupted : Flags → (ℕ → ℕ) → ℕ → Racing → Outcome Racing
unfolding access stores_at_once
uninterrupted flags draws id r = do
  r' ← access flags draws id r
  v ← get_elem id r'.loaded
  stores_at_once flags draws id v r'

-- What a change and the change back leave.
set_elem_back :
    {A : Type 0} (i : ℕ) (a b : A) (xs : List A)
    → get_elem i xs ≡ ok b
    → set_elem i b (set_elem i a xs) ≡ xs
set_elem_back i a b [] at = refl
set_elem_back zero a b (x ∷ xs) at = ap (λ c. c ∷ xs) (sym (ok-injective at))
set_elem_back (suc i) a b (x ∷ xs) at = ap (◌∷◌ x) (set_elem_back i a b xs at)

module _ (flags : Flags) (draws : ℕ → ℕ) (id : ℕ) (r : Racing)
    (idle : get_elem id r.loaded ≡ ok none) where
  abbrev Whole : Outcome Racing → Outcome Round → Type 0
  Whole m s =
      (m >>= λ r'. get_elem id r'.loaded >>= λ v. stores_at_once flags draws id v r')
      ≡ (s >>= λ t. ok (record r { round = t }))

  -- An access that is no load.
  no_load : (s : Outcome Round) → Whole (s >>= λ t. ok (record r { round = t })) s
  unfolding stores_at_once
  no_load (ok t) = rw idle refl
  no_load panic = refl
  no_load blocked = refl

  prepares-Whole :
      (i : ℕ) (m : Outcome Node)
      → get_elem id r.round.stages ≡ ok (preparing i)
      → get_elem i r.round.nodes ≡ m
      → Whole (m >>= λ m. ok (record r { loaded = set_elem id (some m.prepare_num) r.loaded })) (
          m >>= λ m. ok (
            at_stage
              (preparing (suc i))
              id
              (with_nodes (set_elem i (more_prepared m) r.round.nodes) r.round)))
  unfolding stores_at_once access access_at change
  prepares-Whole i (ok m) at c =
      rw (get_elem-set_elem id (some m.prepare_num) r.loaded (get_elem-lt id r.loaded idle)) (
        rw (at, get_elem-set_elem id (some m.prepare_num) r.loaded (get_elem-lt id r.loaded idle))
          (rw c (rw (set_elem_back id (some m.prepare_num) none r.loaded idle) refl)))
  prepares-Whole i panic at c = refl
  prepares-Whole i blocked at c = refl

  commits-Whole :
      (i : ℕ) (m : Outcome Node)
      → get_elem id r.round.stages ≡ ok (committing i)
      → get_elem i r.round.nodes ≡ m
      → Whole (m >>= λ m. ok (record r { loaded = set_elem id (some m.commit_num) r.loaded })) (
          m >>= λ m. ok (
            at_stage
              (committing (suc i))
              id
              (with_nodes (set_elem i (more_committed m) r.round.nodes) r.round)))
  unfolding stores_at_once access access_at change
  commits-Whole i (ok m) at c =
      rw (get_elem-set_elem id (some m.commit_num) r.loaded (get_elem-lt id r.loaded idle)) (
        rw (at, get_elem-set_elem id (some m.commit_num) r.loaded (get_elem-lt id r.loaded idle))
          (rw c (rw (set_elem_back id (some m.commit_num) none r.loaded idle) refl)))
  commits-Whole i panic at c = refl
  commits-Whole i blocked at c = refl

  -- With the change of a member written out.
  changing :
      (f : Node → Node) (i : ℕ) (p : Stage) (m : Outcome Node)
      → (m >>= λ m. ok (at_stage p id (with_nodes (set_elem i (f m) r.round.nodes) r.round))) ≡ (
          (m >>= λ m. ok (set_elem i (f m) r.round.nodes)) >>= λ nodes.
          ok (at_stage p id (with_nodes nodes r.round)))
  changing f i p (ok m) = refl
  changing f i p panic = refl
  changing f i p blocked = refl

  by_stage :
      (p : Stage)
      → get_elem id r.round.stages ≡ ok p
      → Whole (access_at flags (draws id) id p none r) (act flags (draws id) id p r.round)
  unfolding access_at act change
  by_stage starting at = no_load (act flags (draws id) id starting r.round)
  by_stage silent at = no_load (act flags (draws id) id silent r.round)
  by_stage (preparing i) at = elim (Bool-cases (ltb i flags.n_per_commitee)) [
    | inl more ↦ rw more (
        subst (Whole _) (changing more_prepared i (preparing (suc i)) (get_elem i r.round.nodes))
          (prepares-Whole i (get_elem i r.round.nodes) at refl))
    | inr end ↦ rw end (no_load (ok (at_stage await_prepare id r.round)))
  ]
  by_stage await_prepare at = no_load (act flags (draws id) id await_prepare r.round)
  by_stage (committing i) at = elim (Bool-cases (ltb i flags.n_per_commitee)) [
    | inl more ↦ rw more (
        subst (Whole _) (changing more_committed i (committing (suc i)) (get_elem i r.round.nodes))
          (commits-Whole i (get_elem i r.round.nodes) at refl))
    | inr end ↦ rw end (no_load (ok (at_stage await_commit id r.round)))
  ]
  by_stage await_commit at = no_load (act flags (draws id) id await_commit r.round)
  by_stage signed at = no_load (act flags (draws id) id signed r.round)
  by_stage finished at = no_load (act flags (draws id) id finished r.round)

  by_member :
      (o : Outcome Stage)
      → get_elem id r.round.stages ≡ o
      → uninterrupted flags draws id r
        ≡ (turn flags draws id r.round >>= λ s. ok (record r { round = s }))
  unfolding uninterrupted access turn
  by_member (ok p) at = rw (at, idle) (by_stage p at)
  by_member panic at = rw at refl
  by_member blocked at = rw at refl

  -- A member that has loaded nothing and whose store, after a load, follows at once does what a turn
  -- does: a turn is an access with the increment in one piece, and no other value is loaded or stored.
  pub uninterrupted-turn :
      uninterrupted flags draws id r
      ≡ (turn flags draws id r.round >>= λ s. ok (record r { round = s }))
  uninterrupted-turn = by_member (get_elem id r.round.stages) refl

abbrev pub no_loads : List Stage → List (Option ℕ)
no_loads [] = []
no_loads (p ∷ ps) = none ∷ no_loads ps

abbrev pub new_racing : Flags → List Node → Racing
new_racing flags nodes = record {
  round = new_round flags nodes;
  loaded = no_loads (starting_stages flags.n_per_commitee);
}

-- The states that a committee reaches, whatever the order of the accesses.
pub data Races (flags : Flags) (draws : ℕ → ℕ) (nodes : List Node) : Racing → Type 0 where
  begin : Races flags draws nodes (new_racing flags nodes)
  next :
      {r t : Racing} (id : ℕ)
      → Races flags draws nodes r
      → access flags draws id r ≡ ok t
      → Races flags draws nodes t

pub accesses-Races :
    {flags : Flags} {draws : ℕ → ℕ} {nodes : List Node} (ids : List ℕ) {r t : Racing}
    → Races flags draws nodes r
    → accesses flags draws ids r ≡ ok t
    → Races flags draws nodes t
unfolding accesses
accesses-Races [] reach e = subst (Races _ _ _) (ok-injective e) reach
accesses-Races {flags} {draws} (id ∷ ids) {r} reach e =
    let (r', first, rest) = >>=-eq-ok (access flags draws id r) _ e in
    accesses-Races ids (next id reach first) rest
