-- ===== src/Sim/Rounds.antt =====
-- The loops of main in the simulations of myBlockChain, and one round of each folder. The goroutines
-- of PBFT run one after another, in a given order of the committees. The calls of SSPBFT that
-- frustum's SSPBFT itself starts with `go` are not modelled.
pub mod Blocks
pub mod Taking
pub mod Drain
pub mod Live
use frustum.Prelude.{ℕ, zero, suc, ◌+◌, List, [], ◌∷◌, ◌++◌, leb, if◌then◌else◌, Bytes, length}
use frustum.Prelude.Outcome.{Outcome, ok, panic, blocked, ◌>>=◌}
use frustum.Prelude.Slices.{get_elem, set_elem}
use frustum.Sim.{Flags, Node, Transaction, FinalBlock, Blockchain}
use frustum.Sim.Setup.{SimEnv, each_node, with_block, reset, form_committees}
use frustum.Sim.Pbft.{Sim, Call, elastico_pbft, ss_pbft_pbft, frustum_pbft}

-- What is left open of one round: the order in which the committees run, what happens in each, and
-- the committee and the member that lead.
pub record Plan : Type 0 where
  pub order : List ℕ
  pub calls : ℕ → Call
  pub leaders : ℕ → ℕ
  pub global_leader : ℕ

-- PBFT in each of the committees. The code starts them with `go`; this is the order in which each runs to
-- its end before the next begins.
unfoldable pub each_committee : (ℕ → Sim → Outcome Sim) → List ℕ → Sim → Outcome Sim
each_committee pbft [] s = ok s
each_committee pbft (i ∷ is) s = pbft i s >>= each_committee pbft is

-- The loop at the head of each round.
abbrev pub reset_nodes : Flags → Sim → Outcome (List Node)
unfolding each_node
reset_nodes flags s = each_node flags.n 1 reset s.nodes

-- Elastico of elastico.
unfoldable pub elastico : Flags → SimEnv → Plan → Sim → Outcome Sim
unfolding each_node form_committees each_committee elastico_pbft
elastico flags env plan s = do
  fresh ← reset_nodes flags s
  p ← form_committees flags fresh
  each_committee
      (λ i t. get_elem i p.1 >>= λ members. elastico_pbft flags env (plan.calls i) members t)
      plan.order (record s { nodes = p.0 })

-- PBFT of time does what that of elastico does, but tells no channel of its end.
unfoldable pub time_pbft : Flags → SimEnv → Call → List Node → Sim → Outcome Sim
unfolding elastico_pbft
time_pbft = elastico_pbft

-- Elastico of time, where the first committee alone runs PBFT.
unfoldable pub time : Flags → SimEnv → Plan → Sim → Outcome Sim
unfolding each_node form_committees time_pbft
time flags env plan s = do
  fresh ← reset_nodes flags s
  p ← form_committees flags fresh
  members ← get_elem 0 p.1
  time_pbft flags env (plan.calls 0) members (record s { nodes = p.0 })

-- The leader of all: leaderList has 100 entries.
unfoldable pub global_leader : Flags → Plan → Sim → Outcome Node
global_leader flags plan s =
    if leb flags.commit_num 100
    then (do
      members ← get_elem plan.global_leader s.committees
      get_elem (plan.leaders plan.global_leader) members)
    else panic

-- SSPBFT of SS-PBFT and of frustum. Only the nodes themselves are reset, not their copies in the
-- committees.
unfoldable pub ss_pbft : Flags → SimEnv → Plan → Sim → Outcome Sim
unfolding each_node global_leader each_committee ss_pbft_pbft
ss_pbft flags env plan s = do
  fresh ← reset_nodes flags s
  leader ← global_leader flags plan s
  each_committee (λ i. ss_pbft_pbft flags env (plan.calls i) leader.ip i) plan.order
      (record s { nodes = fresh })

-- SSPBFT of frustum, in the order in which the further SSPBFT that it starts with `go` has not yet run.
unfoldable pub frustum_round : Flags → SimEnv → Plan → Sim → Outcome Sim
unfolding each_node global_leader each_committee frustum_pbft
frustum_round flags env plan s = do
  fresh ← reset_nodes flags s
  leader ← global_leader flags plan s
  each_committee (λ i. frustum_pbft flags env (plan.calls i) leader.ip i) plan.order
      (record s { nodes = fresh })

-- The test of main's loop: a round while there are transactions.
unfoldable pub unless_empty : List Transaction → Sim → Outcome Sim → Outcome Sim
unless_empty [] s rest = ok s
unless_empty (t ∷ ts) s rest = rest

-- The loop of main, up to `k` rounds of it.
unfoldable pub main_loop : (ℕ → Sim → Outcome Sim) → ℕ → Sim → Outcome Sim
unfolding unless_empty
main_loop round zero s = ok s
main_loop round (suc k) s =
    let rest = round k s >>= main_loop round k in unless_empty s.tx_list s rest

-- The folders whose loops are modelled here.
pub data Folder : Type 0 where
  frustum_folder elastico_folder ss_pbft_folder time_folder : Folder

unfoldable pub round_of : Folder → Flags → SimEnv → Plan → Sim → Outcome Sim
unfolding frustum_round elastico ss_pbft time
round_of frustum_folder = frustum_round
round_of elastico_folder = elastico
round_of ss_pbft_folder = ss_pbft
round_of time_folder = time

-- main, from its loop on; `plans` has what is left open of each round, by the rounds still to come.
unfoldable pub run_main : Folder → Flags → SimEnv → (ℕ → Plan) → ℕ → Sim → Outcome Sim
unfolding main_loop round_of
run_main folder flags env plans k s = main_loop (λ j. round_of folder flags env (plans j)) k s
