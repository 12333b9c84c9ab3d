-- ===== src/Sim/Round/Alone.antt =====
-- receivePre without interrupted increments: the members end.
use frustum.Prelude.{
  ℕ, zero, suc, ◌*◌, ◌≤◌, ◌<◌, ◌≡◌, refl, sym, ap, ◌∙◌, subst, List, [], ◌∷◌, ◌++◌, true, arith,
  length, In, here, there, none,
}
use frustum.Prelude.Outcome.{Outcome, ok, ◌>>=◌, >>=-eq-ok, ok-injective}
use frustum.Prelude.Slices.{get_elem}
use frustum.Sim.{Flags, Node}
use frustum.Sim.Round.{Stage, Round, final_commit_cap, starting_stages, turn, Reach, start, later}
use frustum.Sim.Round.Invariant.{AllFresh}
use frustum.Sim.Round.Finish.{ended, honest_num, idle-ended}
use frustum.Sim.Round.Sweeps.{sweep, sweeps, sweep-lt}
use frustum.Sim.Round.Access.{Racing, uninterrupted, uninterrupted-turn, no_loads, new_racing}

-- The members in a given order, none of whose increments is interrupted.
unfoldable pub alone_each : Flags → (ℕ → ℕ) → List ℕ → Racing → Outcome Racing
unfolding uninterrupted
alone_each flags draws [] r = ok r
alone_each flags draws (id ∷ ids) r = uninterrupted flags draws id r >>= alone_each flags draws ids

-- The states that a committee reaches in this way, whatever the order.
pub data Alone (flags : Flags) (draws : ℕ → ℕ) (nodes : List Node) : Racing → Type 0 where
  begin : Alone flags draws nodes (new_racing flags nodes)
  next :
      {r t : Racing} (id : ℕ)
      → id < flags.n_per_commitee
      → Alone flags draws nodes r
      → uninterrupted flags draws id r ≡ ok t
      → Alone flags draws nodes t

-- Nothing is loaded and not stored.
abbrev AllStored : Flags → Racing → Type 0
AllStored flags r = (id : ℕ) → id < flags.n_per_commitee → get_elem id r.loaded ≡ ok none

no_loads_stored : (n id : ℕ) → id < n → get_elem id (no_loads (starting_stages n)) ≡ ok none
no_loads_stored zero id lt = absurd (omega arith)
no_loads_stored (suc n) zero lt = refl
no_loads_stored (suc n) (suc id) lt = no_loads_stored n id (omega arith)

lift-eq :
    (r : Racing) (m : Outcome Round) {t : Racing}
    → (m >>= λ s. ok (record r { round = s })) ≡ ok t
    → (s : Round) × (m ≡ ok s) × (record r { round = s } ≡ t)
lift-eq r m e = let (s, is, same) = >>=-eq-ok m _ e in (s, is, ok-injective same)

module _ (flags : Flags) (draws : ℕ → ℕ) where
  Alone-Reach :
      {nodes : List Node} {r : Racing}
      → Alone flags draws nodes r
      → Reach flags draws nodes r.round × AllStored flags r
  Alone-Reach begin = (start, no_loads_stored flags.n_per_commitee)
  Alone-Reach {nodes} (next {r} {t} id lt before e) =
      let (reached, stored) = Alone-Reach before in
      let (s, turned, same) =
        lift-eq r (turn flags draws id r.round)
          (sym (uninterrupted-turn flags draws id r (stored id lt)) ∙ e) in
      (
        subst (λ (x : Racing). Reach flags draws nodes x.round) same (later id reached turned),
        subst (λ (x : Racing). AllStored flags x) same stored,
      )

pub alone_each-Alone :
    {flags : Flags} {draws : ℕ → ℕ} {nodes : List Node} (ids : List ℕ) {r t : Racing}
    → ((id : ℕ) → In id ids → id < flags.n_per_commitee)
    → Alone flags draws nodes r
    → alone_each flags draws ids r ≡ ok t
    → Alone flags draws nodes t
unfolding alone_each
alone_each-Alone {flags} {draws} {nodes} [] lt before e =
    subst (Alone flags draws nodes) (ok-injective e) before
alone_each-Alone {flags} {draws} (id ∷ ids) {r} lt before e =
    let (u, first, rest) = >>=-eq-ok (uninterrupted flags draws id r) _ e in
    alone_each-Alone ids (λ i h. lt i (there h)) (next id (lt id here) before first) rest

in_both :
    {P : ℕ → Type 0} (xs ys : List ℕ)
    → ((i : ℕ) → In i xs → P i)
    → ((i : ℕ) → In i ys → P i)
    → (i : ℕ) → In i (xs ++ ys)
    → P i
in_both [] ys f g i h = g i h
in_both (x ∷ xs) ys f g _ here = f x here
in_both (x ∷ xs) ys f g i (there h) = in_both xs ys (λ j k. f j (there k)) g i h

pub sweeps-lt : (k n : ℕ) (id : ℕ) → In id (sweeps k n) → id < n
sweeps-lt zero n id h = elim h [ ]
sweeps-lt (suc k) n id h = in_both (sweep n) (sweeps k n) (sweep-lt n) (sweeps-lt k n) id h

module _ (flags : Flags) (draws : ℕ → ℕ) (nodes : List Node) where
  -- The counts of a committee start at zero, it has at least n_per_commitee nodes (1000 at most), and
  -- among the first n_per_commitee more than 2 * totalF are honest. No increment is interrupted: when a
  -- member has loaded a count, no other one runs before it has stored it. Then in every state that the
  -- committee reaches, whatever the order, and in which no member changes anything any more, each of
  -- these members has told PBFT or was faulty and returned early, and finalCommit holds at least as many
  -- messages as there are honest ones.
  pub alone_idle :
      {r : Racing}
      → AllFresh nodes
      → flags.n_per_commitee ≤ length nodes
      → flags.n_per_commitee ≤ final_commit_cap
      → 2 * flags.total_f < honest_num flags nodes
      → Alone flags draws nodes r
      → ((id : ℕ) → id < flags.n_per_commitee → uninterrupted flags draws id r ≡ ok r)
      → ((i : ℕ) (p : Stage) → get_elem i r.round.stages ≡ ok p → ended p ≡ true)
        × (honest_num flags nodes ≤ r.round.final_commit)
  alone_idle {r} fresh room small enough reached idle =
      let (by_turns, stored) = Alone-Reach flags draws reached in
      idle-ended flags draws nodes fresh room small enough by_turns λ id lt.
        let (s, turned, same) =
          lift-eq r (turn flags draws id r.round)
            (sym (uninterrupted-turn flags draws id r (stored id lt)) ∙ idle id lt) in
        turned ∙ ap (λ (x : Racing). ok x.round) same
