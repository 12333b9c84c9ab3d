-- ===== src/Sim/Tests.antt =====
-- The simulations of myBlockChain at concrete inputs.
use frustum.Prelude.{
  ℕ, zero, suc, ◌≤◌, ◌<◌, ◌≡◌, refl, subst, List, [], ◌∷◌, true, false, arith, length, pos, take,
  drop,
}
use frustum.Prelude.Outcome.{Outcome, ok, panic, blocked, ok-injective}
use frustum.Prelude.Ensures.{Ensures}
use frustum.Prelude.Slices.{get_elem, sum}
use frustum.Sim.{Flags, new_flags, Node, Transaction}
use frustum.Sim.Round.{Stage, finished, starting, Round, new_round, turn, turns, act, change}
use frustum.Sim.Round.Invariant.{IsFresh, AllFresh}
use frustum.Sim.Round.Effect.{taking_part, voting}
use frustum.Sim.Round.Finish.{ended, honest_num}
use frustum.Sim.Round.Sweeps.{sweeps}
use frustum.Sim.Round.Access.{
  begin, accesses-Races, Racing, new_racing, access, accesses, uninterrupted,
}
use frustum.Sim.Round.Alone.{begin, alone_each, alone_each-Alone, sweeps-lt, alone_idle}
use frustum.Prelude.Outcome.{◌>>=◌}
use frustum.Sim.Round.Safety.{verify_sig}
use frustum.Sim.Round.Race.Quorum.{racing_quorum}
use frustum.Sim.Setup.{
  SimEnv, zero_node, new_node, new_nodes, zero_hash, new_tx, genesis, each_node, assign,
  form_committees,
}
use frustum.Sim.Setup.Seats.{seats, honesty, form_committees-seats}
use frustum.Sim.Pbft.{
  Sim, Call, get_tx_list, propose, add_block, vote, final_commitee, add_node_blocks, elastico_pbft,
}
use frustum.Sim.Rounds.{
  Plan, each_committee, elastico, unless_empty, main_loop, elastico_folder, round_of, run_main,
}
use frustum.Sim.Rounds.Drain.{Drained, run_main-Drained}
use frustum.Sim.Rounds.Live.{Fits}
use frustum.Sim.Rounds.{global_leader}
use frustum.Sim.Cross.{
  RapidSim, add_tx_2pool, count_one, put_back, verify_one, verify_cross_tx, rapid_get_tx_list,
  rapid_pbft, rapid_committees, rapid, rapid_main,
}
use frustum.Sim.Cross.Weight.{NeverZero, ids_of}
use frustum.Sim.Cross.Bound.{rapid_main_ends}
use frustum.Sim.Main.{Draws, elastico_start}

-- One committee of four, which tolerates one fault.
abbrev four : Flags
four = new_flags 4 1 4 1

abbrev nodes : List Node
nodes = new_nodes 4 []

abbrev never : ℕ → ℕ
never id = 99

new_nodes-AllFresh : (n : ℕ) → AllFresh (new_nodes n [])
new_nodes-AllFresh zero k m h = cc
new_nodes-AllFresh (suc n) zero m h = subst IsFresh (ok-injective h) (refl, refl, refl)
new_nodes-AllFresh (suc n) (suc k) m h = new_nodes-AllFresh n k m h

abbrev voted : Node
voted = record (new_node []) { prepare_num = 4; commit_num = 4; sig = true }

abbrev done : Round
done = record {
  nodes = voted ∷ voted ∷ voted ∷ voted ∷ [];
  stages = finished ∷ finished ∷ finished ∷ finished ∷ [];
  final_commit = 4;
}

-- The counts of the round before are still there in the second block of a committee: one member alone
-- signs.
stale_counts :
    turns four never
      (0 ∷ 0 ∷ 0 ∷ 0 ∷ 0 ∷ 0 ∷ 0 ∷ 0 ∷ 0 ∷ 0 ∷ 0 ∷ 0 ∷ 0 ∷ 0 ∷ [])
      (new_round four done.nodes)
    ≡ ok (record {
      nodes =
          record voted { prepare_num = 5; commit_num = 5 }
          ∷ record voted { prepare_num = 5; commit_num = 5 }
          ∷ record voted { prepare_num = 5; commit_num = 5 }
          ∷ record voted { prepare_num = 5; commit_num = 5 }
          ∷ [];
      stages = finished ∷ starting ∷ starting ∷ starting ∷ [];
      final_commit = 1;
    })
unfolding turns turn act change
stale_counts = refl

-- A committee in which the first two increments met and one was lost: all sign.
abbrev raced : Racing
raced = record (new_racing four nodes) {
  round = record done { nodes = record voted { prepare_num = 3 } ∷ voted ∷ voted ∷ voted ∷ [] };
}

abbrev again : ℕ → ℕ → List ℕ → List ℕ
again id zero ids = ids
again id (suc n) ids = id ∷ again id n ids

abbrev meeting : List ℕ
meeting =
    0
    ∷ 1
    ∷ 2
    ∷ 3
    ∷ 0
    ∷ 1
    ∷ 0
    ∷ 1
    ∷ again 0 7 (
        again 1 7
          (again 2 9 (again 3 9 (again 0 10 (again 1 10 (again 2 10 (again 3 10 (sweeps 3 4))))))))

raced_runs : accesses four never meeting (new_racing four nodes) ≡ ok raced
unfolding accesses access change
raced_runs = refl

racing_quorum_example :
    (2 < sum taking_part raced.round.stages) × (2 < sum voting raced.round.stages)
racing_quorum_example =
    racing_quorum four never nodes (new_nodes-AllFresh 4) (accesses-Races meeting begin raced_runs)
      0 (record voted { prepare_num = 3 }) (omega arith) refl refl

abbrev all_done : Racing
all_done = record (new_racing four nodes) { round = done }

all_done_runs : alone_each four never (sweeps 14 4) (new_racing four nodes) ≡ ok all_done
unfolding alone_each access change
all_done_runs = refl

all_done_idle : (id : ℕ) → id < 4 → uninterrupted four never id all_done ≡ ok all_done
unfolding uninterrupted access change
all_done_idle zero lt = refl
all_done_idle (suc zero) lt = refl
all_done_idle (suc (suc zero)) lt = refl
all_done_idle (suc (suc (suc zero))) lt = refl
all_done_idle (suc (suc (suc (suc id)))) lt = absurd (omega arith)

alone_idle_example :
    ((i : ℕ) (p : Stage) → get_elem i done.stages ≡ ok p → ended p ≡ true)
    × (honest_num four nodes ≤ 4)
alone_idle_example =
    alone_idle four never nodes (new_nodes-AllFresh 4) (omega arith) (omega arith) (omega arith)
      (alone_each-Alone (sweeps 14 4) (sweeps-lt 14 4) begin all_done_runs) all_done_idle

-- Two members load the count of the first before either stores it: one of the updates is lost.
lost_update :
    (accesses four never (0 ∷ 0 ∷ 1 ∷ 1 ∷ 0 ∷ 1 ∷ []) (new_racing four nodes) >>= λ r.
    get_elem 0 r.round.nodes >>= λ m. ok m.prepare_num)
    ≡ ok 1
unfolding accesses act
lost_update = refl

-- Two such committees.
abbrev eight : Flags
eight = new_flags 8 2 4 1

abbrev users : List Node
users = zero_node ∷ new_nodes 8 []

form_committees-seats_example :
    (after : List Node) × (formed : List (List Node)) × (form_committees eight users
      ≡ ok (after, formed))
    × (length after ≡ 9)
    × (honesty after ≡ honesty users)
    × ((c : ℕ) → c < 2 → get_elem c formed ≡ ok (seats 2 c 1 (take 8 (drop 1 users))))
form_committees-seats_example = form_committees-seats eight (omega arith) users (omega arith)

abbrev env : SimEnv
env = record { calculate_hash = λ t. 7 ∷ t.inputs ∷ []; block_hash = λ b. 8 ∷ b.iteration ∷ [] }

abbrev fair : Call
fair = record { ids = sweeps 57 4; draws = never; leader = 1 }

abbrev plan : Plan
plan = record { order = 1 ∷ 0 ∷ []; calls = λ c. fair; leaders = λ c. 2; global_leader = 1 }

abbrev pool : ℕ → List Transaction
pool zero = []
pool (suc n) = new_tx env (suc n) 3 5 ∷ pool n

abbrev sim : ℕ → Sim
sim n = record { tx_list = pool n; chain = genesis env ∷ []; nodes = users; committees = [] }

run_main-Drained_example :
    Ensures (Drained 1 2 (sim 3)) (run_main elastico_folder eight env (λ k. plan) 1 (sim 3))
run_main-Drained_example =
    run_main-Drained elastico_folder eight env (λ k. plan) (λ x. cc) (λ k. refl) 1 (sim 3)

-- What a run leaves.
abbrev left_by : Outcome Sim → Sim
left_by (ok s) = s
left_by panic = sim 0
left_by blocked = sim 0

abbrev one_round : Sim
one_round = left_by (run_main elastico_folder eight env (λ k. plan) 1 (sim 3))

one_round_runs : run_main elastico_folder eight env (λ k. plan) 1 (sim 3) ≡ ok one_round
unfolding run_main main_loop unless_empty round_of elastico each_committee elastico_pbft each_node
    form_committees assign get_tx_list propose add_block vote final_commitee verify_sig
    add_node_blocks turns turn act change
one_round_runs = refl

abbrev eight_fits : Fits eight
eight_fits = record { some_committee = omega arith; share = omega arith; small = omega arith }

-- Node 1 is faulty.
abbrev draws : Draws
draws = record { faulty = λ i. 0; txs = λ i. 2 }

abbrev started : Sim
started = left_by (elastico_start eight env draws)

-- Two users in different committees.
abbrev apart : List Node
apart =
    record (new_node []) { committee_id = pos 0 }
    ∷ record (new_node []) { committee_id = pos 1 }
    ∷ []

abbrev across : Transaction
across = new_tx env 0 1 9

abbrev rapid_state : List Node → ℕ → RapidSim
rapid_state ns n = record {
  sim = record (sim n) { nodes = ns; committees = new_nodes 4 [] ∷ new_nodes 4 [] ∷ [] };
  locked = false;
  count_cross = 0;
}

hashes-NeverZero : NeverZero env
hashes-NeverZero t = refl

-- What comes of a transaction between committees: its first half, without value and hash.
across_stays :
    verify_cross_tx env (across ∷ []) (rapid_state apart 0)
    ≡ ok (record (rapid_state apart 0) {
      sim = record (rapid_state apart 0).sim {
        tx_list =
            record {
              hash = zero_hash;
              original_hash = 7 ∷ 0 ∷ [];
              inputs = 0;
              outputs = 0;
              value = 0;
            }
            ∷ [];
      };
      count_cross = 1;
    })
unfolding verify_cross_tx verify_one put_back count_one add_tx_2pool
across_stays = refl

abbrev rapid_left : Outcome RapidSim → RapidSim
rapid_left (ok s) = s
rapid_left panic = rapid_state users 0
rapid_left blocked = rapid_state users 0

abbrev rapid_done : RapidSim
rapid_done = rapid_left (rapid_main eight env (λ k. plan) 2 (rapid_state users 2))

rapid_runs : rapid_main eight env (λ k. plan) 2 (rapid_state users 2) ≡ ok rapid_done
unfolding rapid_main rapid rapid_committees rapid_pbft rapid_get_tx_list get_tx_list verify_cross_tx
    verify_one put_back count_one add_tx_2pool each_node global_leader propose add_block vote
    add_node_blocks turns turn act change
rapid_runs = refl

rapid_main_ends_example : rapid_done.sim.tx_list ≡ []
unfolding rapid_main
rapid_main_ends_example =
    rapid_main_ends eight env hashes-NeverZero (ids_of users) (λ k. plan) (λ k. refl) 2
      (rapid_state users 2) refl (omega arith) rapid_runs
