-- ===== src/Sim/Cross/Bound.antt =====
-- myBlockChain/Rapidchain: main cannot go round for ever.
use frustum.Prelude.{
  ℕ, zero, suc, ◌+◌, ◌*◌, ◌≤◌, ◌<◌, ◌≡◌, ◌⊎◌, inl, inr, refl, sym, ap, ◌∙◌, List, [], ◌∷◌, ◌++◌,
  false, Bool-cases, ℤ, Bytes, arith, length,
}
use native.Mathlib.Nat.{suc-mul}
use frustum.Prelude.Outcome.{Outcome, ok}
use frustum.Prelude.Ensures.{
  Ensures, returns, waits, Ensures-bind, Ensures-bind_with, Ensures-mono, Ensures-self, Ensures-ok,
}
use frustum.Prelude.Slices.{get_elem, set_elem, map-set_elem}
use frustum.Sim.{Flags, Node, Transaction, FinalBlock}
use frustum.Sim.Round.{change}
use frustum.Sim.Setup.{SimEnv, each_node, with_block, reset}
use frustum.Sim.Pbft.{Sim, Call, propose, final_block, add_block, vote, add_node_blocks}
use frustum.Sim.Rounds.{Plan, global_leader, reset_nodes}
use frustum.Sim.Rounds.Taking.{get_tx_list-TakenOk, add_block-Added}
use frustum.Sim.Rounds.Drain.{AllCommittees}
use frustum.Sim.Cross.{
  RapidSim, with_sim, verify_cross_tx, rapid_get_tx_list, rapid_pbft, rapid_committees, rapid,
  unless_done, rapid_main,
}
use frustum.Sim.Cross.Weight.{
  ids_of, NeverZero, pool_weight, sum-append, verify_cross_tx-weight, weight,
}

-- A loop over the nodes leaves them in their committees.
each_node-ids_of :
    (f : Node → Node)
    → ((m : Node) → (f m).committee_id ≡ m.committee_id)
    → (count i : ℕ) (nodes : List Node)
    → Ensures (λ after. ids_of after ≡ ids_of nodes) (each_node count i f nodes)
unfolding each_node change
each_node-ids_of f same zero i nodes = returns refl
each_node-ids_of f same (suc count) i nodes =
    Ensures-bind_with (change i f nodes) (first) λ after e.
      Ensures-mono (each_node count (suc i) f after) (each_node-ids_of f same count (suc i) after)
        λ last e'. e' ∙ e
  where
    first : Ensures (λ after. ids_of after ≡ ids_of nodes) (change i f nodes)
    first =
        Ensures-bind_with (get_elem i nodes) (Ensures-self (get_elem i nodes))
          λ m at. returns (map-set_elem (λ (n : Node). n.committee_id) i m (f m) nodes at (same m))

-- The nodes stay in their committees `ids`, and the pool has become lighter by `spent`.
pub record Spent (ids : List ℤ) (spent : ℕ) (s t : RapidSim) : Type 0 where
  pub ids_kept : ids_of t.sim.nodes ≡ ids
  pub lighter : pool_weight ids t.sim.tx_list + spent ≤ pool_weight ids s.sim.tx_list

-- What getTxList takes and what it leaves.
TakenFrom : ℕ → RapidSim → List Transaction × RapidSim → Type 0
TakenFrom share s r =
    (r.1.sim.nodes ≡ s.sim.nodes)
    × (r.1.locked ≡ false → (length r.0 ≡ share) × (s.sim.tx_list ≡ r.0 ++ r.1.sim.tx_list))

module _ (flags : Flags) (env : SimEnv) (real : NeverZero env) (ids : List ℤ) where
  rapid_get_tx_list-TakenFrom :
      (s : RapidSim) → Ensures (TakenFrom flags.tx_per_block s) (rapid_get_tx_list flags s)
  unfolding rapid_get_tx_list TakenFrom
  rapid_get_tx_list-TakenFrom s = elim (Bool-cases s.locked) [
    | inl held ↦ rw held waits
    | inr free ↦ rw free (returns (refl, get_tx_list-TakenOk flags s.sim.tx_list))
  ]

  add_node_blocks-Kept :
      (block : FinalBlock) (s : Sim)
      → Ensures
          (λ t. (t.tx_list ≡ s.tx_list) × (ids_of t.nodes ≡ ids_of s.nodes))
          (add_node_blocks flags block s)
  unfolding add_node_blocks
  add_node_blocks-Kept block s =
      Ensures-bind_with (each_node flags.n 1 (with_block block) s.nodes)
        (each_node-ids_of (with_block block) (λ m. refl) flags.n 1 s.nodes)
        λ nodes e. returns (refl, e)

  rapid_pbft-Spent :
      (call : Call) (ip : Bytes) (committee : ℕ) (s : RapidSim)
      → ids_of s.sim.nodes ≡ ids
      → Ensures (Spent ids flags.tx_per_block s) (rapid_pbft flags env call ip committee s)
  unfolding rapid_pbft TakenFrom add_node_blocks
  rapid_pbft-Spent call ip committee s same =
      Ensures-bind (get_elem committee s.sim.committees) λ members.
        Ensures-bind_with (rapid_get_tx_list flags s) (rapid_get_tx_list-TakenFrom s) λ taken took.
          Ensures-bind (propose s.sim.chain ip taken.0) λ block.
            Ensures-bind_with (verify_cross_tx env taken.0 taken.1)
              (verify_cross_tx-weight env real ids taken.0 taken.1 (ap ids_of took.0 ∙ same))
              λ checked grown. Ensures-bind (vote flags call members) λ voted.
                Ensures-bind_with
                  (add_block checked.locked (final_block env block) (handed checked voted))
                  (add_block-Added checked.locked (final_block env block) (handed checked voted))
                  λ added a.
                    Ensures-bind_with (add_node_blocks flags (final_block env block) added)
                      (add_node_blocks-Kept (final_block env block) added)
                      λ told k. returns (record {
                        ids_kept = k.1 ∙ ap ids_of (a.3 ∙ grown.0 ∙ took.0) ∙ same;
                        lighter = omega (
                          arith,
                          ap (pool_weight ids) (k.0 ∙ a.2),
                          grown.2,
                          (took.1 (sym grown.1 ∙ a.0)).0,
                          ap (pool_weight ids) (took.1 (sym grown.1 ∙ a.0)).1,
                          sum-append (weight ids) taken.0 taken.1.sim.tx_list,
                        );
                      })
    where
      handed : RapidSim → List Node → Sim
      handed checked voted = record checked.sim {
        committees = set_elem committee voted checked.sim.committees;
      }

  Spent-trans :
      {a b : ℕ} {s t u : RapidSim} → Spent ids a s t → Spent ids b t u → Spent ids (a + b) s u
  Spent-trans f g = record { ids_kept = g.ids_kept; lighter = omega (arith, f.lighter, g.lighter) }

  Spent-le : {a b : ℕ} {s t : RapidSim} → b ≡ a → Spent ids a s t → Spent ids b s t
  Spent-le e f = record { ids_kept = f.ids_kept; lighter = omega (arith, f.lighter) }

  rapid_committees-Spent :
      (pbft : ℕ → RapidSim → Outcome RapidSim)
      → ((i : ℕ) (s : RapidSim)
          → ids_of s.sim.nodes ≡ ids
          → Ensures (Spent ids flags.tx_per_block s) (pbft i s))
      → (order : List ℕ) (s : RapidSim) → ids_of s.sim.nodes ≡ ids
      → Ensures (Spent ids (length order * flags.tx_per_block) s) (rapid_committees pbft order s)
  unfolding rapid_committees
  rapid_committees-Spent pbft each [] s same =
      returns (record { ids_kept = same; lighter = omega arith })
  rapid_committees-Spent pbft each (i ∷ order) s same =
      Ensures-bind_with (pbft i s) (each i s same) λ t first.
        Ensures-mono (rapid_committees pbft order t)
          (rapid_committees-Spent pbft each order t first.ids_kept)
          λ u rest.
            Spent-le (grind (arith, suc-mul (length order) flags.tx_per_block))
              (Spent-trans first rest)

  rapid-Spent :
      (plan : Plan) (s : RapidSim)
      → ids_of s.sim.nodes ≡ ids
      → Ensures (Spent ids (length plan.order * flags.tx_per_block) s) (rapid flags env plan s)
  unfolding rapid
  rapid-Spent plan s same =
      Ensures-bind_with (reset_nodes flags s.sim)
        (each_node-ids_of reset (λ m. refl) flags.n 1 s.sim.nodes)
        λ fresh e. Ensures-bind (global_leader flags plan s.sim) λ leader.
          Ensures-mono (rapid_committees (pbft leader) plan.order (with_fresh fresh))
            (rapid_committees-Spent (pbft leader)
              (λ i t. rapid_pbft-Spent (plan.calls i) leader.ip i t) plan.order (with_fresh fresh)
              (e ∙ same))
            λ t f. record { ids_kept = f.ids_kept; lighter = f.lighter }
    where
      with_fresh : List Node → RapidSim
      with_fresh fresh = with_sim (record s.sim { nodes = fresh }) s

      pbft : Node → ℕ → RapidSim → Outcome RapidSim
      pbft leader i = rapid_pbft flags env (plan.calls i) leader.ip i

  -- The loop of main empties the pool or makes it lighter.
  rapid_main-Spent :
      (plans : ℕ → Plan)
      → AllCommittees flags plans
      → (k : ℕ) (s : RapidSim) → ids_of s.sim.nodes ≡ ids
      → Ensures
          (λ t.
            (t.sim.tx_list ≡ [])
            ⊎ (pool_weight ids t.sim.tx_list + k * (flags.commit_num * flags.tx_per_block)
                ≤ pool_weight ids s.sim.tx_list))
          (rapid_main flags env plans k s)
  unfolding rapid_main
  rapid_main-Spent plans all zero s same = returns (inr (omega arith))
  rapid_main-Spent plans all (suc k) s same = split s.sim.tx_list refl (
      Ensures-bind_with (rapid flags env (plans k) s) (rapid-Spent (plans k) s same) λ t first.
        Ensures-mono (rapid_main flags env plans k t)
          (rapid_main-Spent plans all k t first.ids_kept) λ u rest. next t u first rest)
    where
      Left : ℕ → RapidSim → RapidSim → Type 0
      Left n v u =
          (u.sim.tx_list ≡ [])
          ⊎ (pool_weight ids u.sim.tx_list + n * (flags.commit_num * flags.tx_per_block)
              ≤ pool_weight ids v.sim.tx_list)

      next :
          (t u : RapidSim)
          → Spent ids (length (plans k).order * flags.tx_per_block) s t
          → Left k t u
          → Left (suc k) s u
      next t u first (inl empty) = inl empty
      next t u first (inr le) = inr (
          omega (
            arith,
            first.lighter,
            ap (λ n. n * flags.tx_per_block) (all k),
            suc-mul k (flags.commit_num * flags.tx_per_block),
          ))

      split :
          (pool : List Transaction) {rest : Outcome RapidSim}
          → s.sim.tx_list ≡ pool
          → Ensures (Left (suc k) s) rest
          → Ensures (Left (suc k) s) (unless_done pool s rest)
      split [] e h = returns (inl e)
      split (x ∷ pool) e h = h

  -- In each round all commitNum committees run PBFT, and no hash is zero; a transaction between
  -- committees weighs 4, one that was put back without a hash 3, with a hash 2, any other 1. Once the
  -- rounds could have taken more transactions than the pool weighs at the start, commitNum * txPerBlock
  -- in each, the loop of main of Rapidchain has come to an empty pool, if no PBFT waits for ever or
  -- panics.
  pub rapid_main_ends :
      (plans : ℕ → Plan)
      → AllCommittees flags plans
      → (k : ℕ) (s : RapidSim) {t : RapidSim} → ids_of s.sim.nodes ≡ ids
      → pool_weight ids s.sim.tx_list < k * (flags.commit_num * flags.tx_per_block)
      → rapid_main flags env plans k s ≡ ok t
      → t.sim.tx_list ≡ []
  rapid_main_ends plans all k s same lt e =
      elim (Ensures-ok (rapid_main-Spent plans all k s same) e) [
        | inl empty ↦ empty
        | inr more ↦ absurd (omega arith)
      ]
