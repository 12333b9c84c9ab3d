-- ===== src/Sim/Setup/EachNode.antt =====
-- What a loop over the nodes of a simulation of myBlockChain does.
use frustum.Prelude.{ℕ, zero, suc, ◌+◌, ◌≤◌, ◌<◌, ◌≡◌, refl, sym, ap, ◌∙◌, List, map, arith, length}
use native.Mathlib.Decide.{ℕ_discrete}
use frustum.Prelude.Outcome.{Outcome, ok}
use frustum.Prelude.Slices.{
  get_elem, set_elem, get_elem_total, get_elem-lt, length-set_elem, get_elem-set_elem,
  get_elem-set_elem_other, map-set_elem,
}
use frustum.Sim.{Node}
use frustum.Sim.Round.{change}
use frustum.Sim.Setup.{each_node}

-- `proj` is a field, or more, that the change leaves as it is.
module _ {B : Type 0} (proj : Node → B) (f : Node → Node) where
  -- The nodes from `i` to `i + count - 1` have been changed, and no others.
  pub record Each (count i : ℕ) (nodes : List Node) (result : Outcome (List Node)) : Type 0 where
    pub after : List Node
    pub returned : result ≡ ok after
    pub size : length after ≡ length nodes
    pub kept : map proj after ≡ map proj nodes
    pub before : (k : ℕ) → k < i → get_elem k after ≡ get_elem k nodes
    pub changed :
        (k : ℕ)
        → i ≤ k
        → k < i + count
        → (m : Node) × (get_elem k nodes ≡ ok m) × (get_elem k after ≡ ok (f m))

  module _ (kind : (m : Node) → proj (f m) ≡ proj m) where
    each_node-next :
        (count i : ℕ) (nodes : List Node) (m : Node)
        → get_elem i nodes ≡ ok m
        → Each count
            (suc i)
            (set_elem i (f m) nodes)
            (each_node count (suc i) f (set_elem i (f m) nodes))
        → Each (suc count) i nodes (each_node (suc count) i f nodes)
    unfolding each_node change
    each_node-next count i nodes m at rest = record {
      after = rest.after;
      returned = rw at rest.returned;
      size = rest.size ∙ length-set_elem i (f m) nodes;
      kept = rest.kept ∙ map-set_elem proj i m (f m) nodes at (kind m);
      before = λ k lt.
          rest.before k (omega arith) ∙ get_elem-set_elem_other i k (f m) nodes (λ e. omega arith);
      changed = λ k le lt. elim (ℕ_discrete i k) [
        | yes own ↦ (
          m,
          ap (λ j. get_elem j nodes) (sym own) ∙ at,
          ap (λ j. get_elem j rest.after) (sym own)
              ∙ rest.before i (omega arith)
              ∙ get_elem-set_elem i (f m) nodes (get_elem-lt i nodes at),
        )
        | no other ↦
            let (n, old, new) = rest.changed k (omega arith) (omega arith) in
            (n, sym (get_elem-set_elem_other i k (f m) nodes other) ∙ old, new)
      ];
    }

    pub each_node-Each :
        (count i : ℕ) (nodes : List Node)
        → i + count ≤ length nodes
        → Each count i nodes (each_node count i f nodes)
    unfolding each_node
    each_node-Each zero i nodes room = record {
      after = nodes;
      returned = refl;
      size = refl;
      kept = refl;
      before = λ k lt. refl;
      changed = λ k le lt. absurd (omega arith);
    }
    each_node-Each (suc count) i nodes room =
        let (m, at) = get_elem_total i nodes (omega arith) in
        each_node-next count i nodes m at (
          each_node-Each count (suc i) (set_elem i (f m) nodes)
            (omega (arith, length-set_elem i (f m) nodes)))
