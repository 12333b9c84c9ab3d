-- ===== src/Sim/Cross.antt =====
-- myBlockChain/Rapidchain: transactions between committees. The mutex is a global here, so that an
-- early return of getTxList locks it for all. Nothing is ever received from countCrossTx.
pub mod Weight
pub mod Bound
use frustum.Prelude.{
  ℕ, zero, suc, ◌+◌, List, [], ◌∷◌, ◌++◌, Bool, true, false, not, ◌&&◌, ltb, if◌then◌else◌, ℤ,
  int_eq, Bytes, bytes_eq, length,
}
use frustum.Prelude.Outcome.{Outcome, ok, blocked, ◌>>=◌}
use frustum.Prelude.Slices.{get_elem, set_elem}
use frustum.Sim.{Flags, Node, Transaction, ProposedBlock}
use frustum.Sim.Setup.{SimEnv, zero_hash, each_node, reset}
use frustum.Sim.Pbft.{
  Sim, Call, Taken, get_tx_list, propose, final_block, add_block, vote, add_node_blocks,
}
use frustum.Sim.Rounds.{Plan, global_leader, reset_nodes, unless_empty}

-- The globals, with the number of messages in countCrossTx and the state of the mutex.
pub record RapidSim : Type 0 where
  pub sim : Sim
  pub locked : Bool
  pub count_cross : ℕ

abbrev pub count_cross_cap : ℕ
count_cross_cap = 10000

abbrev pub with_sim : Sim → RapidSim → RapidSim
with_sim sim s = record s { sim = sim }

-- addTx2pool
unfoldable pub add_tx_2pool : Transaction → RapidSim → Outcome RapidSim
add_tx_2pool tx s =
    if s.locked
    then blocked
    else ok (with_sim (record s.sim { tx_list = s.sim.tx_list ++ tx ∷ [] }) s)

-- countCrossTx <- true
unfoldable pub count_one : RapidSim → Outcome RapidSim
count_one s =
    if ltb s.count_cross count_cross_cap
    then ok (record s { count_cross = s.count_cross + 1 })
    else blocked

-- The half of a transaction that goes back to the pool.
abbrev pub first_half : Transaction → Transaction
first_half t = record {
  hash = zero_hash;
  original_hash = t.hash;
  inputs = t.inputs;
  outputs = t.inputs;
  value = 0;
}

abbrev pub is_zero : Bytes → Bool
is_zero h = bytes_eq h zero_hash

-- One turn of the loop of verifyCrossTx, once the committees have been compared. The block keeps its
-- transaction as it is: `t` is a copy.
unfoldable pub put_back : SimEnv → Bool → Transaction → RapidSim → Outcome RapidSim
unfolding count_one add_tx_2pool
put_back env crossing t s =
    if crossing
    then count_one s >>= add_tx_2pool (first_half t)
    else if not (is_zero t.original_hash) && is_zero t.hash
    then add_tx_2pool (record t { hash = env.calculate_hash t }) s
    else if not (is_zero t.original_hash) && not (is_zero t.hash)
    then add_tx_2pool (record t { original_hash = zero_hash }) s
    else ok s

unfoldable pub verify_one : SimEnv → Transaction → RapidSim → Outcome RapidSim
unfolding put_back
verify_one env t s = do
  payer ← get_elem t.inputs s.sim.nodes
  payee ← get_elem t.outputs s.sim.nodes
  put_back env (not (int_eq payer.committee_id payee.committee_id)) t s

unfoldable pub verify_cross_tx : SimEnv → List Transaction → RapidSim → Outcome RapidSim
unfolding verify_one
verify_cross_tx env [] s = ok s
verify_cross_tx env (t ∷ ts) s = verify_one env t s >>= verify_cross_tx env ts

-- getTxList, which waits for the global mutex.
unfoldable pub rapid_get_tx_list : Flags → RapidSim → Outcome (List Transaction × RapidSim)
unfolding get_tx_list
rapid_get_tx_list flags s =
    let taken = get_tx_list flags s.sim.tx_list in
    if s.locked
    then blocked
    else ok
        (taken.txs, record s { sim = record s.sim { tx_list = taken.pool }; locked = taken.locked })

-- PBFT of Rapidchain.
unfoldable pub rapid_pbft : Flags → SimEnv → Call → Bytes → ℕ → RapidSim → Outcome RapidSim
unfolding rapid_get_tx_list propose verify_cross_tx vote add_block add_node_blocks
rapid_pbft flags env call leader_ip committee s = do
  members ← get_elem committee s.sim.committees
  taken ← rapid_get_tx_list flags s
  block ← propose s.sim.chain leader_ip taken.0
  checked ← verify_cross_tx env taken.0 taken.1
  voted ← vote flags call members
  added ←
      add_block checked.locked (final_block env block)
        (record checked.sim { committees = set_elem committee voted checked.sim.committees })
  told ← add_node_blocks flags (final_block env block) added
  ok (with_sim told checked)

unfoldable pub rapid_committees :
    (ℕ → RapidSim → Outcome RapidSim) → List ℕ → RapidSim → Outcome RapidSim
rapid_committees pbft [] s = ok s
rapid_committees pbft (i ∷ order) s = pbft i s >>= rapid_committees pbft order

-- Rapid: one round.
unfoldable pub rapid : Flags → SimEnv → Plan → RapidSim → Outcome RapidSim
unfolding each_node global_leader rapid_committees rapid_pbft
rapid flags env plan s = do
  fresh ← reset_nodes flags s.sim
  leader ← global_leader flags plan s.sim
  rapid_committees (λ i. rapid_pbft flags env (plan.calls i) leader.ip i) plan.order
      (with_sim (record s.sim { nodes = fresh }) s)

abbrev pub unless_done : List Transaction → RapidSim → Outcome RapidSim → Outcome RapidSim
unless_done [] s rest = ok s
unless_done (t ∷ ts) s rest = rest

-- The loop of main, up to `k` rounds of it.
unfoldable pub rapid_main : Flags → SimEnv → (ℕ → Plan) → ℕ → RapidSim → Outcome RapidSim
unfolding rapid
rapid_main flags env plans zero s = ok s
rapid_main flags env plans (suc k) s =
    let rest = rapid flags env (plans k) s >>= rapid_main flags env plans k in
    unless_done s.sim.tx_list s rest
