-- ===== src/Sim/Round/Finish.antt =====
-- When the members that take part are more than twice the tolerated faults, all of them finish.
use frustum.Prelude.{
  ℕ, ◌*◌, ◌≤◌, ◌<◌, ◌≡◌, refl, sym, ap, subst, ◌∙◌, List, arith, length, take, Bool, true, false,
  if◌then◌else◌,
}
use frustum.Prelude.Outcome.{ok, ok-injective}
use frustum.Prelude.Slices.{
  get_elem, set_elem, sum, sum_mono, sum_mono_two, sum-set_elem, sum-le-length, length-set_elem,
  get_elem_total, get_elem-lt, get_elem-take,
}
use frustum.Sim.{Flags, Node}
use frustum.Sim.Round.{Stage, silent, signed, finished, Round, final_commit_cap, Reach}
use frustum.Sim.Round.Effect.{to_prepare, to_commit, taking_part, telling}
use frustum.Sim.Round.Invariant.{Inv, AllFresh, Reach-Inv}
use frustum.Sim.Round.Progress.{
  IsIdle, Stays, is_silent, is_finished, waiting, voting, full, idle-Stays,
}

-- A member that has ended: it has told PBFT, or has returned early.
abbrev pub ended : Stage → Bool
ended silent = true
ended finished = true
ended _ = false

abbrev honest : Node → ℕ
honest m = if m.is_honest then 1 else 0

-- The honest ones among the first members, who run receivePre.
abbrev pub honest_num : Flags → List Node → ℕ
honest_num flags nodes = sum honest (take flags.n_per_commitee nodes)

abbrev AllStay : Flags → Round → Type 0
AllStay flags s = (k : ℕ) (p : Stage) → get_elem k s.stages ≡ ok p → Stays flags k s p

-- The members of an idle committee wait or have ended.
idle-member :
    (flags : Flags) (draws : ℕ → ℕ) {nodes : List Node} {s : Round}
    → Inv flags nodes s
    → IsIdle flags draws s
    → AllStay flags s
idle-member flags draws {s} inv idle k p at =
    let (q, same, why) =
      idle-Stays flags draws k s (idle k (omega (arith, get_elem-lt k s.stages at, inv.members))) in
    subst (Stays flags k s) (ok-injective (sym same ∙ at)) why

module _ {flags : Flags} {nodes : List Node} {s : Round} (inv : Inv flags nodes s)
    (member : AllStay flags s) (enough : 2 * flags.total_f < sum taking_part s.stages) where
  below : (i : ℕ) {q : Stage} → get_elem i s.stages ≡ ok q → i < flags.n_per_commitee
  below i a = omega (arith, get_elem-lt i s.stages a, inv.members)

  all_prepared : (k : ℕ) → sum taking_part s.stages ≤ sum (to_prepare k) s.stages
  all_prepared k = sum_mono taking_part (to_prepare k) s.stages λ i p at. sent p (member i p at)
    where
      sent : {i : ℕ} (p : Stage) → Stays flags i s p → taking_part p ≤ to_prepare k p
      sent _ is_silent = omega arith
      sent _ is_finished = omega arith
      sent _ (waiting _ _) = omega arith
      sent _ (voting _ _) = omega arith
      sent _ (full _) = omega arith

  all_committed : (k : ℕ) → sum taking_part s.stages ≤ sum (to_commit k) s.stages
  all_committed k =
      sum_mono taking_part (to_commit k) s.stages λ i p at. sent i p at (member i p at)
    where
      sent :
          (i : ℕ) (p : Stage)
          → get_elem i s.stages ≡ ok p
          → Stays flags i s p
          → taking_part p ≤ to_commit k p
      sent i _ at is_silent = omega arith
      sent i _ at is_finished = omega arith
      sent i _ at (waiting {m} c few) =
          absurd (omega (arith, enough, all_prepared i, inv.prepare_counts i m (below i at) c))
      sent i _ at (voting _ _) = omega arith
      sent i _ at (full _) = omega arith

  -- finalCommit has room for the message of a member that has not sent it.
  not_full :
      (i : ℕ)
      → get_elem i s.stages ≡ ok signed
      → flags.n_per_commitee ≤ final_commit_cap
      → s.final_commit < final_commit_cap
  not_full i at small = omega (
    arith,
    inv.told,
    inv.members,
    sum-set_elem telling i finished signed s.stages at,
    sum-le-length telling (set_elem i finished s.stages) (λ p. ground arith),
    length-set_elem i finished s.stages,
  )

  all_ended :
      flags.n_per_commitee ≤ final_commit_cap
      → (i : ℕ) (p : Stage) → get_elem i s.stages ≡ ok p
      → ended p ≡ true
  all_ended small i p at = end p at (member i p at)
    where
      end : (p : Stage) → get_elem i s.stages ≡ ok p → Stays flags i s p → ended p ≡ true
      end _ at is_silent = refl
      end _ at is_finished = refl
      end _ at (waiting {m} c few) =
          absurd (omega (arith, enough, all_prepared i, inv.prepare_counts i m (below i at) c))
      end _ at (voting {m} c few) =
          absurd (omega (arith, enough, all_committed i, inv.commit_counts i m (below i at) c))
      end _ at (full over) = absurd (omega (arith, not_full i at small))

  all_told : flags.n_per_commitee ≤ final_commit_cap → sum taking_part s.stages ≤ s.final_commit
  all_told small = omega (
    arith,
    inv.told,
    sum_mono taking_part telling s.stages (λ i p at. ends p (all_ended small i p at)),
  )
    where
      ends : (p : Stage) → ended p ≡ true → taking_part p ≤ telling p
      ends p e = ground arith

-- The members that take part in an idle committee are at least the honest ones.
honest-taking_part :
    {flags : Flags} {nodes : List Node} {s : Round}
    → Inv flags nodes s
    → flags.n_per_commitee ≤ length nodes
    → AllStay flags s
    → honest_num flags nodes ≤ sum taking_part s.stages
honest-taking_part {flags} {nodes} {s} inv room member =
    sum_mono_two honest taking_part (take flags.n_per_commitee nodes) s.stages λ i first a.
      let (lt, f) = get_elem-take flags.n_per_commitee i nodes a in
      let (p, at) = get_elem_total i s.stages (omega (arith, inv.members)) in
      let (m, c) = get_elem_total i s.nodes (omega (arith, inv.size)) in
      let (g, gf, e) = inv.faults i m c in
      (
        p,
        at,
        weight i p m first at c (e ∙ ap (λ (n : Node). n.is_honest) (ok-injective (sym gf ∙ f)))
            (member i p at),
      )
  where
    weight :
        (i : ℕ) (p : Stage) (m first : Node)
        → get_elem i s.stages ≡ ok p
        → get_elem i s.nodes ≡ ok m
        → m.is_honest ≡ first.is_honest
        → Stays flags i s p
        → honest first ≤ taking_part p
    weight i _ m first at c e is_silent = rw (← e, inv.honesty i m at c) (omega arith)
    weight i _ m first at c e is_finished = ground arith
    weight i _ m first at c e (waiting _ _) = ground arith
    weight i _ m first at c e (voting _ _) = ground arith
    weight i _ m first at c e (full _) = ground arith

module _ (flags : Flags) (draws : ℕ → ℕ) (nodes : List Node) (fresh : AllFresh nodes)
    (room : flags.n_per_commitee ≤ length nodes) (small : flags.n_per_commitee ≤ final_commit_cap)
    (enough : 2 * flags.total_f < honest_num flags nodes) where
  -- The counts of a committee start at zero, it has at least n_per_commitee nodes (1000 at most), and
  -- among the first n_per_commitee more than 2 * totalF are honest. Then in every state that it
  -- reaches, whatever the order of the turns, and in which no turn changes anything, each of these
  -- members has told PBFT or was faulty and returned early, and finalCommit holds at least as many
  -- messages as there are honest ones.
  pub idle-ended :
      {s : Round}
      → Reach flags draws nodes s
      → IsIdle flags draws s
      → ((i : ℕ) (p : Stage) → get_elem i s.stages ≡ ok p → ended p ≡ true)
        × (honest_num flags nodes ≤ s.final_commit)
  idle-ended {s} r idle =
      (all_ended inv member taking small, omega (arith, part, all_told inv member taking small))
    where
      inv : Inv flags nodes s
      inv = Reach-Inv fresh r

      member : AllStay flags s
      member = idle-member flags draws inv idle

      part : honest_num flags nodes ≤ sum taking_part s.stages
      part = honest-taking_part inv room member

      taking : 2 * flags.total_f < sum taking_part s.stages
      taking = omega (arith, part)
