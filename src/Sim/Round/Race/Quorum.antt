-- ===== src/Sim/Round/Race/Quorum.antt =====
-- receivePre with interrupted increments: the states that a committee reaches.
use frustum.Prelude.{
  ℕ, zero, suc, ◌+◌, ◌*◌, ◌<◌, ◌≡◌, ◌≢◌, inl, inr, refl, sym, ◌∙◌, List, [], ◌∷◌, Bool, true, false,
  arith, Option, none, some, ltb, Bool-cases,
}
use mathlib.Core.Bool.{false≢true}
use frustum.Prelude.Outcome.{ok, ◌>>=◌, >>=-eq-ok}
use frustum.Prelude.Ensures.{Ensures, returns, Ensures-ok, Ensures-self, Ensures-bind_with}
use frustum.Prelude.Slices.{get_elem, sum, get_elem_total}
use frustum.Sim.{Flags, Node}
use frustum.Sim.Round.{
  Stage, starting, silent, preparing, await_prepare, committing, await_commit, signed, finished,
  act, change, starting_stages,
}
use frustum.Sim.Round.Step.{prepared_all, committed_all, act-Ensures, change-Ensures}
use frustum.Sim.Round.Effect.{taking_part, voting}
use frustum.Sim.Round.Invariant.{AllFresh, new_round-Inv}
use frustum.Sim.Round.Safety.{is_signed-voting}
use frustum.Sim.Round.Access.{
  Racing, prepared_to, committed_to, access_at, access, prepared_to, committed_to, Races, begin,
  next, no_loads,
}
use frustum.Sim.Round.Race.{Loaded, for_prepare, for_commit, Bounded}
use frustum.Sim.Round.Race.Advance.{turn-Bounded}
use frustum.Sim.Round.Race.Stores.{prepare_store, commit_store, load-Bounded}

-- Only at the loops with increments something is loaded.
abbrev loops : Stage → Bool
loops (preparing i) = true
loops (committing i) = true
loops _ = false

Loaded-loops : {stages : List Stage} {p : Stage} {v : ℕ} → Loaded stages p v → loops p ≡ true
Loaded-loops (for_prepare le) = refl
Loaded-loops (for_commit le) = refl

module _ {flags : Flags} {r : Racing} (b : Bounded flags r) (drawn id : ℕ) where
  whole :
      (p : Stage)
      → get_elem id r.round.stages ≡ ok p
      → ((v : ℕ) → get_elem id r.loaded ≢ ok (some v))
      → Ensures (Bounded flags) (act flags drawn id p r.round >>= λ s. ok (record r { round = s }))
  whole p at idle =
      Ensures-bind_with (act flags drawn id p r.round) (act-Ensures flags drawn id p r.round)
        λ s step. returns (turn-Bounded b at idle step)

  idle_at :
      (p : Stage)
      → get_elem id r.round.stages ≡ ok p
      → loops p ≡ false
      → (v : ℕ) → get_elem id r.loaded ≢ ok (some v)
  idle_at p at out v held = false≢true (sym out ∙ Loaded-loops (b.loads id p v at held))

  by_stage :
      (p : Stage) (o : Option ℕ)
      → get_elem id r.round.stages ≡ ok p
      → get_elem id r.loaded ≡ ok o
      → Ensures (Bounded flags) (access_at flags drawn id p o r)
  unfolding access_at
  by_stage (preparing i) (some v) at held =
      Ensures-bind_with (change i (prepared_to (v + 1)) r.round.nodes)
        (change-Ensures i (prepared_to (v + 1)) r.round.nodes)
        λ nodes c. returns (prepare_store b id i v at held c)
  by_stage (committing i) (some v) at held =
      Ensures-bind_with (change i (committed_to (v + 1)) r.round.nodes)
        (change-Ensures i (committed_to (v + 1)) r.round.nodes)
        λ nodes c. returns (commit_store b id i v at held c)
  by_stage (preparing i) none at held = elim (Bool-cases (ltb i flags.n_per_commitee)) [
    | inl more ↦ rw more (
        Ensures-bind_with (get_elem i r.round.nodes) (Ensures-self (get_elem i r.round.nodes))
          λ m c. returns (
            load-Bounded b id i (preparing i) m.prepare_num at
              (for_prepare (b.prepare_counts i m (ground arith) c))))
    | inr end ↦ rw end (returns (turn-Bounded b at (λ v h. cc) (prepared_all (ground arith))))
  ]
  by_stage (committing i) none at held = elim (Bool-cases (ltb i flags.n_per_commitee)) [
    | inl more ↦ rw more (
        Ensures-bind_with (get_elem i r.round.nodes) (Ensures-self (get_elem i r.round.nodes))
          λ m c. returns (
            load-Bounded b id i (committing i) m.commit_num at
              (for_commit (b.commit_counts i m (ground arith) c))))
    | inr end ↦ rw end (returns (turn-Bounded b at (λ v h. cc) (committed_all (ground arith))))
  ]
  by_stage starting o at held = whole starting at (idle_at starting at refl)
  by_stage silent o at held = whole silent at (idle_at silent at refl)
  by_stage await_prepare o at held = whole await_prepare at (idle_at await_prepare at refl)
  by_stage await_commit o at held = whole await_commit at (idle_at await_commit at refl)
  by_stage signed o at held = whole signed at (idle_at signed at refl)
  by_stage finished o at held = whole finished at (idle_at finished at refl)

access-Bounded :
    {flags : Flags} {r t : Racing} (draws : ℕ → ℕ) (id : ℕ)
    → Bounded flags r
    → access flags draws id r ≡ ok t
    → Bounded flags t
unfolding access
access-Bounded {flags} {r} draws id b e =
    let (p, at, rest) = >>=-eq-ok (get_elem id r.round.stages) _ e in
    let (o, held, e') = >>=-eq-ok (get_elem id r.loaded) _ rest in
    Ensures-ok (by_stage b (draws id) id p o at held) e'

no_loads-none : (ps : List Stage) (k v : ℕ) → get_elem k (no_loads ps) ≢ ok (some v)
no_loads-none [] k v h = cc
no_loads-none (p ∷ ps) zero v h = cc
no_loads-none (p ∷ ps) (suc k) v h = no_loads-none ps k v h

Races-Bounded :
    {flags : Flags} {draws : ℕ → ℕ} {nodes : List Node} {r : Racing}
    → AllFresh nodes
    → Races flags draws nodes r
    → Bounded flags r
Races-Bounded {flags} {nodes} fresh begin =
    let inv = new_round-Inv flags nodes fresh in
    record {
      members = inv.members;
      prepare_counts = λ k m lt h. omega (arith, inv.prepare_counts k m lt h);
      commit_counts = λ k m lt h. omega (arith, inv.commit_counts k m lt h);
      loads = λ k p v h l. absurd (no_loads-none (starting_stages flags.n_per_commitee) k v l);
      sigs = inv.sigs;
      prepare_quorum = inv.prepare_quorum;
      commit_quorum = inv.commit_quorum;
    }
Races-Bounded {draws} fresh (next id r e) = access-Bounded draws id (Races-Bounded fresh r) e

-- In every state that a committee reaches from counts at zero, whatever the order of the loads, of the
-- stores and of the other steps, and whatever updates are lost: if one of the first n_per_commitee
-- members has signed, then more than 2 * totalF members have joined the prepare phase, and more than
-- 2 * totalF have begun to send their commit messages.
pub racing_quorum :
    (flags : Flags) (draws : ℕ → ℕ) (nodes : List Node) {r : Racing}
    → AllFresh nodes
    → Races flags draws nodes r
    → (k : ℕ) (m : Node) → k < flags.n_per_commitee
    → get_elem k r.round.nodes ≡ ok m
    → m.sig ≡ true
    → (2 * flags.total_f < sum taking_part r.round.stages)
      × (2 * flags.total_f < sum voting r.round.stages)
racing_quorum flags draws nodes {r} fresh reach k m lt c sig =
    let (p, at) = get_elem_total k r.round.stages (omega (arith, b.members)) in
    let is = sym (b.sigs k p m at c) ∙ sig in
    (b.prepare_quorum k p at (is_signed-voting p is), b.commit_quorum k p at is)
  where
    b : Bounded flags r
    b = Races-Bounded fresh reach
