-- ===== src/Sim/Round/Safety.antt =====
-- What a signature in a committee stands for, and what the final committee of elastico and time finds.
use frustum.Prelude.{ℕ, ◌≤◌, ◌<◌, ◌≡◌, List, Bool, true, ltb, lt→ltb, if◌then◌else◌, arith, length}
use frustum.Prelude.Slices.{sum, sum_mono_two, get_elem_total, get_elem-lt}
use frustum.Sim.{Flags, Node}
use frustum.Sim.Round.{Stage, Round, Reach}
use frustum.Sim.Round.Effect.{voting, telling, is_signed}
use frustum.Sim.Round.Invariant.{Inv, AllFresh, Reach-Inv}

pub is_signed-voting : (p : Stage) → is_signed p ≡ true → voting p ≡ 1
is_signed-voting p h = ground arith

abbrev has_sig : Node → ℕ
has_sig m = if m.sig then 1 else 0

-- verifySig: whether a node of the final committee sends to flagChan.
unfoldable pub verify_sig : Flags → List Node → Bool
verify_sig flags nodes = ltb flags.total_f (sum has_sig nodes)

-- In every state that a committee of at least n_per_commitee nodes reaches from counts at zero, once
-- finalCommit has got more than totalF messages, verifySig finds enough signatures to send.
pub told-verify_sig :
    (flags : Flags) (draws : ℕ → ℕ) (nodes : List Node) {s : Round}
    → AllFresh nodes
    → Reach flags draws nodes s
    → flags.n_per_commitee ≤ length nodes
    → flags.total_f < s.final_commit
    → verify_sig flags s.nodes ≡ true
unfolding verify_sig
told-verify_sig flags draws nodes {s} fresh r room told =
    lt→ltb flags.total_f (sum has_sig s.nodes) (omega (arith, inv.told, sums))
  where
    inv : Inv flags nodes s
    inv = Reach-Inv fresh r

    weight : (p : Stage) (m : Node) → m.sig ≡ is_signed p → telling p ≤ has_sig m
    weight p m e = ground arith

    sums : sum telling s.stages ≤ sum has_sig s.nodes
    sums = sum_mono_two telling has_sig s.stages s.nodes λ i p at.
        let (m, c) =
          get_elem_total i s.nodes
            (omega (arith, inv.size, inv.members, get_elem-lt i s.stages at)) in
        (m, c, weight p m (inv.sigs i p m at c))
