-- ===== src/Sim/Setup.antt =====
-- What main does before its loop in the simulations of myBlockChain: the nodes, the transactions and
-- the committees. In elastico and time, the committees are formed anew in each round.
pub mod Seats
pub mod Room
pub mod EachNode
use frustum.Prelude.{
  ℕ, zero, suc, ◌+◌, ◌*◌, ◌/◌, ◌%◌, List, [], ◌∷◌, ◌++◌, Bool, true, false, ℤ, pos, negsuc, Bytes,
  codes,
}
use frustum.Prelude.Outcome.{Outcome, ok, ◌>>=◌}
use frustum.Prelude.Slices.{get_elem, set_elem}
use frustum.Sim.{Flags, Node, Transaction, ProposedBlock, FinalBlock, Blockchain}
use frustum.Sim.Round.{change}

-- [32]byte{}
abbrev pub zeros : ℕ → Bytes
zeros zero = []
zeros (suc n) = 0 ∷ zeros n

abbrev pub zero_hash : Bytes
zero_hash = zeros 32

-- json.Marshal followed by sha256.Sum256.
pub record SimEnv : Type 0 where
  pub calculate_hash : Transaction → Bytes
  pub block_hash : ProposedBlock → Bytes

-- Node{}
abbrev pub zero_node : Node
zero_node = record {
  ip = [];
  committee_id = pos 0;
  is_honest = false;
  prepare_num = 0;
  commit_num = 0;
  sig = false;
  block_chain = [];
}

abbrev pub new_node : Blockchain → Node
new_node chain = record {
  ip = codes "0,0,0,0";
  committee_id = negsuc 0;
  is_honest = true;
  prepare_num = 0;
  commit_num = 0;
  sig = false;
  block_chain = chain;
}

abbrev pub new_nodes : ℕ → Blockchain → List Node
new_nodes zero chain = []
new_nodes (suc n) chain = new_node chain ∷ new_nodes n chain

abbrev pub dishonest : Node → Node
dishonest m = record m { is_honest = false }

-- `count` draws of rand.Intn(n - 1), from the draw `i` on; each makes a node faulty.
unfoldable pub mark_faulty : ℕ → ℕ → (ℕ → ℕ) → List Node → Outcome (List Node)
unfolding change
mark_faulty zero i intn nodes = ok nodes
mark_faulty (suc count) i intn nodes =
    change (intn i + 1) dishonest nodes >>= mark_faulty count (suc i) intn

-- initNodes. With n = 1 and no faulty nodes, rand.Intn is not called.
unfoldable pub init_nodes : Flags → (ℕ → ℕ) → Blockchain → Outcome (List Node)
unfolding mark_faulty
init_nodes flags intn chain = mark_faulty (flags.n / 3) 1 intn (zero_node ∷ new_nodes flags.n chain)

-- A transaction between users that are drawn, with the hash of its JSON before the hash is set.
abbrev pub new_tx : SimEnv → ℕ → ℕ → ℕ → Transaction
new_tx env inputs outputs value =
    let t : Transaction = record {
      hash = zero_hash;
      original_hash = zero_hash;
      inputs = inputs;
      outputs = outputs;
      value = value;
    } in
    record t { hash = env.calculate_hash t }

-- txGen, with three draws of rand.Intn(n) for each transaction.
unfoldable pub tx_gen : SimEnv → ℕ → ℕ → (ℕ → ℕ) → List Transaction
tx_gen env zero i intn = []
tx_gen env (suc count) i intn =
    new_tx env (intn (3 * i)) (intn (3 * i + 1)) (intn (3 * i + 2)) ∷ tx_gen env count (suc i) intn

-- The block that main puts at the start of the chain.
abbrev pub genesis : SimEnv → FinalBlock
genesis env =
    let block : ProposedBlock = record {
      previous_block_hash = zero_hash;
      iteration = 0;
      leader_ip = codes "0,0,0,0";
      transactions = [];
    } in
    record { hash = env.block_hash block; proposed_block = block }

-- A change of each of `count` nodes, from the node `i` on.
unfoldable pub each_node : ℕ → ℕ → (Node → Node) → List Node → Outcome (List Node)
unfolding change
each_node zero i f nodes = ok nodes
each_node (suc count) i f nodes = change i f nodes >>= each_node count (suc i) f

abbrev pub in_committee : ℕ → Node → Node
in_committee c m = record m { committee_id = pos c }

abbrev pub no_committees : ℕ → List (List Node)
no_committees zero = []
no_committees (suc n) = [] ∷ no_committees n

-- The nodes `i`, `i + 1`, ... are appended to committee i % commitNum, and then learn its number. The
-- map of committees has the keys from 0 to commitNum - 1, so it is a list.
unfoldable pub assign :
    Flags → ℕ → ℕ → List Node → List (List Node) → Outcome (List Node × List (List Node))
unfolding change
assign flags zero i nodes committees = ok (nodes, committees)
assign flags (suc count) i nodes committees = do
  m ← get_elem i nodes
  members ← get_elem (i % flags.commit_num) committees
  nodes' ← change i (in_committee (i % flags.commit_num)) nodes
  assign flags count (suc i) nodes' (set_elem (i % flags.commit_num) (members ++ m ∷ []) committees)

unfoldable pub form_committees : Flags → List Node → Outcome (List Node × List (List Node))
unfolding assign
form_committees flags nodes = assign flags flags.n 1 nodes (no_committees flags.commit_num)

abbrev pub with_block : FinalBlock → Node → Node
with_block block m = record m { block_chain = m.block_chain ++ block ∷ [] }

abbrev pub reset : Node → Node
reset m = record m { prepare_num = 0; commit_num = 0; sig = false }
