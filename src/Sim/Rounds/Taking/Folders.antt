-- ===== src/Sim/Rounds/Taking/Folders.antt =====
-- That each PBFT of the simulations of myBlockChain takes one block's share from the pool, and what
-- each round takes.
use frustum.Prelude.{ℕ, suc, ◌+◌, ◌≡◌, refl, subst, List, [], ◌∷◌, Bytes, arith, length}
use frustum.Prelude.Outcome.{Outcome, ◌>>=◌}
use frustum.Prelude.Ensures.{Ensures, returns, Ensures-bind, Ensures-bind_with, Ensures-mono}
use frustum.Prelude.Slices.{get_elem, set_elem}
use frustum.Sim.{Flags, Node}
use frustum.Sim.Setup.{SimEnv, form_committees}
use frustum.Sim.Pbft.{
  Sim, Call, Taken, get_tx_list, ss_pbft_get_tx_list, propose, final_block, add_block, vote,
  add_node_blocks, final_commitee, elastico_pbft, ss_pbft_pbft, frustum_pbft,
}
use frustum.Sim.Rounds.{
  Plan, each_committee, reset_nodes, elastico, time, time_pbft, global_leader, ss_pbft,
  frustum_round,
}
use frustum.Sim.Rounds.Blocks.{Fills, Fills-none, Fills-trans}
use frustum.Sim.Rounds.Taking.{
  get_tx_list-TakenOk, ss_pbft_get_tx_list-TakenOk, propose-Proposed, add_block-Added,
  add_node_blocks-SamePool, pbft_block,
}

elastico_pbft-Fills :
    (flags : Flags) (env : SimEnv) (call : Call) (members : List Node) (s : Sim)
    → Ensures (Fills flags.tx_per_block 1 s) (elastico_pbft flags env call members s)
unfolding elastico_pbft
elastico_pbft-Fills flags env call members s = Ensures-bind (get_elem call.leader members) λ leader.
    Ensures-bind_with (propose s.chain leader.ip taken.txs)
      (propose-Proposed s.chain leader.ip taken.txs)
      λ block p. Ensures-bind (vote flags call members) λ voted.
        Ensures-bind (final_commitee flags voted) λ checked.
          Ensures-bind_with
            (add_block taken.locked (final_block env block) (record s { tx_list = taken.pool }))
            (add_block-Added taken.locked (final_block env block)
              (record s { tx_list = taken.pool }))
            λ v added.
              Ensures-mono (add_node_blocks flags (final_block env block) v)
                (add_node_blocks-SamePool flags (final_block env block) v)
                λ t same.
                  pbft_block env s (record s { tx_list = taken.pool }) v t taken block
                    (get_tx_list-TakenOk flags s.tx_list) p refl refl added same
  where
    taken : Taken
    taken = get_tx_list flags s.tx_list

ss_pbft_pbft-Fills :
    (flags : Flags) (env : SimEnv) (call : Call) (ip : Bytes) (committee : ℕ) (s : Sim)
    → Ensures (Fills 10 1 s) (ss_pbft_pbft flags env call ip committee s)
unfolding ss_pbft_pbft
ss_pbft_pbft-Fills flags env call ip committee s =
    Ensures-bind (get_elem committee s.committees) λ members.
      Ensures-bind_with (ss_pbft_get_tx_list flags s.tx_list)
        (ss_pbft_get_tx_list-TakenOk flags s.tx_list)
        λ taken took.
          Ensures-bind_with (propose s.chain ip taken.txs) (propose-Proposed s.chain ip taken.txs)
            λ block p. Ensures-bind (vote flags call members) λ voted.
              Ensures-bind_with
                (add_block taken.locked (final_block env block) (handed taken voted))
                (add_block-Added taken.locked (final_block env block) (handed taken voted))
                λ v added.
                  Ensures-mono (add_node_blocks flags (final_block env block) v)
                    (add_node_blocks-SamePool flags (final_block env block) v)
                    λ t same.
                      pbft_block env s (handed taken voted) v t taken block took p refl refl added
                        same
  where
    handed : Taken → List Node → Sim
    handed taken voted = record s {
      tx_list = taken.pool;
      committees = set_elem committee voted s.committees;
    }

frustum_pbft-Fills :
    (flags : Flags) (env : SimEnv) (call : Call) (ip : Bytes) (committee : ℕ) (s : Sim)
    → Ensures (Fills flags.tx_per_block 1 s) (frustum_pbft flags env call ip committee s)
unfolding frustum_pbft
frustum_pbft-Fills flags env call ip committee s =
    Ensures-bind (get_elem committee s.committees) λ members.
      Ensures-bind_with (propose s.chain ip taken.txs) (propose-Proposed s.chain ip taken.txs)
        λ block p.
          Ensures-bind_with
            (add_block taken.locked (final_block env block) (record s { tx_list = taken.pool }))
            (add_block-Added taken.locked (final_block env block)
              (record s { tx_list = taken.pool }))
            λ v added. Ensures-bind (vote flags call members) λ voted. returns (
              pbft_block env s (record s { tx_list = taken.pool }) v
                (record v { committees = set_elem committee voted v.committees }) taken block
                (get_tx_list-TakenOk flags s.tx_list) p refl refl added (refl, refl))
  where
    taken : Taken
    taken = get_tx_list flags s.tx_list

-- The committees together.
each_committee-Fills :
    {share : ℕ} (pbft : ℕ → Sim → Outcome Sim)
    → ((i : ℕ) (s : Sim) → Ensures (Fills share 1 s) (pbft i s))
    → (order : List ℕ) (s : Sim)
    → Ensures (Fills share (length order) s) (each_committee pbft order s)
unfolding each_committee
each_committee-Fills pbft each [] s = returns (Fills-none s)
each_committee-Fills {share} pbft each (i ∷ order) s =
    Ensures-bind_with (pbft i s) (each i s) λ t first.
      Ensures-mono (each_committee pbft order t) (each_committee-Fills pbft each order t)
        λ u rest. subst (λ n. Fills share n s u) (next (length order)) (Fills-trans first rest)
  where
    next : (n : ℕ) → 1 + n ≡ suc n
    next n = omega arith

-- The nodes and the committees do not matter.
Fills-nodes :
    {share count : ℕ} (s : Sim) (nodes : List Node) (t : Sim)
    → Fills share count (record s { nodes = nodes }) t
    → Fills share count s t
Fills-nodes s nodes t f = record {
  blocks = f.blocks;
  chain = f.chain;
  contents = f.contents;
  number = f.number;
  sizes = f.sizes;
  links = f.links;
}

pub elastico-Fills :
    (flags : Flags) (env : SimEnv) (plan : Plan) (s : Sim)
    → Ensures (Fills flags.tx_per_block (length plan.order) s) (elastico flags env plan s)
unfolding elastico
elastico-Fills flags env plan s = Ensures-bind (reset_nodes flags s) λ fresh.
    Ensures-bind (form_committees flags fresh) λ p.
      Ensures-mono (each_committee (pbft p.1) plan.order (record s { nodes = p.0 }))
        (each_committee-Fills (pbft p.1)
          (λ i t.
            Ensures-bind (get_elem i p.1)
              λ members. elastico_pbft-Fills flags env (plan.calls i) members t)
          plan.order (record s { nodes = p.0 }))
        λ t f. Fills-nodes s p.0 t f
  where
    pbft : List (List Node) → ℕ → Sim → Outcome Sim
    pbft committees i t =
        get_elem i committees >>= λ members. elastico_pbft flags env (plan.calls i) members t

pub time-Fills :
    (flags : Flags) (env : SimEnv) (plan : Plan) (s : Sim)
    → Ensures (Fills flags.tx_per_block 1 s) (time flags env plan s)
unfolding time time_pbft
time-Fills flags env plan s = Ensures-bind (reset_nodes flags s) λ fresh.
    Ensures-bind (form_committees flags fresh) λ p. Ensures-bind (get_elem 0 p.1) λ members.
      Ensures-mono (elastico_pbft flags env (plan.calls 0) members (record s { nodes = p.0 }))
        (elastico_pbft-Fills flags env (plan.calls 0) members (record s { nodes = p.0 }))
        λ t f. Fills-nodes s p.0 t f

pub ss_pbft-Fills :
    (flags : Flags) (env : SimEnv) (plan : Plan) (s : Sim)
    → Ensures (Fills 10 (length plan.order) s) (ss_pbft flags env plan s)
unfolding ss_pbft
ss_pbft-Fills flags env plan s = Ensures-bind (reset_nodes flags s) λ fresh.
    Ensures-bind (global_leader flags plan s) λ leader.
      Ensures-mono (each_committee (pbft leader) plan.order (record s { nodes = fresh }))
        (each_committee-Fills (pbft leader)
          (λ i t. ss_pbft_pbft-Fills flags env (plan.calls i) leader.ip i t) plan.order
          (record s { nodes = fresh }))
        λ t f. Fills-nodes s fresh t f
  where
    pbft : Node → ℕ → Sim → Outcome Sim
    pbft leader i = ss_pbft_pbft flags env (plan.calls i) leader.ip i

pub frustum_round-Fills :
    (flags : Flags) (env : SimEnv) (plan : Plan) (s : Sim)
    → Ensures (Fills flags.tx_per_block (length plan.order) s) (frustum_round flags env plan s)
unfolding frustum_round
frustum_round-Fills flags env plan s = Ensures-bind (reset_nodes flags s) λ fresh.
    Ensures-bind (global_leader flags plan s) λ leader.
      Ensures-mono (each_committee (pbft leader) plan.order (record s { nodes = fresh }))
        (each_committee-Fills (pbft leader)
          (λ i t. frustum_pbft-Fills flags env (plan.calls i) leader.ip i t) plan.order
          (record s { nodes = fresh }))
        λ t f. Fills-nodes s fresh t f
  where
    pbft : Node → ℕ → Sim → Outcome Sim
    pbft leader i = frustum_pbft flags env (plan.calls i) leader.ip i
