-- ===== src/Sim/Main.antt =====
-- main in the simulations of myBlockChain, before its loop. The global chain has the genesis block
-- when the nodes are made, so that it stands in their chains; all but frustum append it once more.
pub mod Start
use frustum.Prelude.{
  ℕ, zero, suc, ◌+◌, ◌-◌, ◌*◌, ◌/◌, ◌≤◌, ◌<◌, ◌≡◌, refl, ap, ◌∙◌, List, [], ◌∷◌, arith, length,
  false,
}
use frustum.Prelude.Outcome.{Outcome, ok, ◌>>=◌, ok-injective}
use frustum.Prelude.Ensures.{Ensures, returns, Ensures-bind_with, Ensures-self, Ensures-ok}
use frustum.Prelude.Slices.{get_elem, set_elem, get_elem_total, length-set_elem}
use frustum.Sim.{Flags, Node, Transaction, FinalBlock}
use frustum.Sim.Round.{change}
use frustum.Sim.Setup.{
  SimEnv, zero_node, new_nodes, dishonest, mark_faulty, init_nodes, tx_gen, genesis, each_node,
  with_block, form_committees,
}
use frustum.Sim.Setup.Seats.{honesty}
use frustum.Sim.Setup.EachNode.{Each, each_node-Each}
use frustum.Sim.Pbft.{Sim, last_block}
use frustum.Sim.Cross.{RapidSim}

-- The random numbers of main: those of initNodes, and those of txGen.
pub record Draws : Type 0 where
  pub faulty : ℕ → ℕ
  pub txs : ℕ → ℕ

unfoldable pub frustum_start : Flags → SimEnv → Draws → Outcome Sim
unfolding init_nodes tx_gen form_committees
frustum_start flags env draws = do
  nodes ← init_nodes flags draws.faulty (genesis env ∷ [])
  p ← form_committees flags nodes
  ok (record {
    tx_list = tx_gen env flags.tx_num 0 draws.txs;
    chain = genesis env ∷ [];
    nodes = p.0;
    committees = p.1;
  })

unfoldable pub ss_pbft_start : Flags → SimEnv → Draws → Outcome Sim
unfolding init_nodes tx_gen form_committees each_node
ss_pbft_start flags env draws = do
  made ← init_nodes flags draws.faulty (genesis env ∷ [])
  nodes ← each_node flags.n 1 (with_block (genesis env)) made
  p ← form_committees flags nodes
  ok (record {
    tx_list = tx_gen env flags.tx_num 0 draws.txs;
    chain = genesis env ∷ [];
    nodes = p.0;
    committees = p.1;
  })

unfoldable pub rapid_start : Flags → SimEnv → Draws → Outcome RapidSim
unfolding ss_pbft_start
rapid_start flags env draws =
    ss_pbft_start flags env draws >>= λ s. ok (record { sim = s; locked = false; count_cross = 0 })

unfoldable pub elastico_start : Flags → SimEnv → Draws → Outcome Sim
unfolding init_nodes tx_gen each_node
elastico_start flags env draws = do
  made ← init_nodes flags draws.faulty (genesis env ∷ [])
  nodes ← each_node flags.n 1 (with_block (genesis env)) made
  ok (record {
    tx_list = tx_gen env flags.tx_num 0 draws.txs;
    chain = genesis env ∷ [];
    nodes = nodes;
    committees = [];
  })

unfoldable pub time_start : Flags → SimEnv → Draws → Outcome Sim
unfolding elastico_start
time_start = elastico_start
