-- ===== src/Sim/Pbft.antt =====
-- The simulations of myBlockChain: the pool of transactions, the chain, and PBFT in a committee, in
-- the variant of each folder. PBFT makes its own mutex; getTxList leaves it locked on its early
-- return, and a second Lock then waits for ever. The goroutines that PBFT starts take their turns
-- before PBFT goes on, in any order.
use frustum.Prelude.{
  ℕ, List, [], ◌∷◌, ◌++◌, Bool, true, false, ltb, if◌then◌else◌, Bytes, length, not, ◌&&◌, take,
  drop,
}
use frustum.Prelude.Outcome.{Outcome, ok, panic, blocked, ◌>>=◌}
use frustum.Prelude.Slices.{get_elem, set_elem}
use frustum.Sim.{Flags, Node, Transaction, ProposedBlock, FinalBlock, Blockchain}
use frustum.Sim.Round.{new_round, turns}
use frustum.Sim.Round.Safety.{verify_sig}
use frustum.Sim.Setup.{SimEnv, each_node, with_block}

-- The globals: txList, globalblockChain, nodes, committeeList.
pub record Sim : Type 0 where
  pub tx_list : List Transaction
  pub chain : Blockchain
  pub nodes : List Node
  pub committees : List (List Node)

-- What is left open of one PBFT: the order of the members' turns, their random numbers, and the
-- leader that rand.Intn picks.
pub record Call : Type 0 where
  pub ids : List ℕ
  pub draws : ℕ → ℕ
  pub leader : ℕ

-- What getTxList returns, with the pool that it leaves and whether the mutex is still locked.
pub record Taken : Type 0 where
  pub txs : List Transaction
  pub pool : List Transaction
  pub locked : Bool

unfoldable pub get_tx_list : Flags → List Transaction → Taken
get_tx_list flags pool =
    if ltb (length pool) flags.tx_per_block
    then record { txs = pool; pool = pool; locked = true }
    else record {
      txs = take flags.tx_per_block pool;
      pool = drop flags.tx_per_block pool;
      locked = false;
    }

-- getTxList of SS-PBFT, which takes ten: txList[10:] panics for a shorter list.
unfoldable pub ss_pbft_get_tx_list : Flags → List Transaction → Outcome Taken
ss_pbft_get_tx_list flags pool =
    if ltb (length pool) flags.tx_per_block
    then ok (record { txs = pool; pool = pool; locked = true })
    else if ltb (length pool) 10
    then panic
    else ok (record { txs = take 10 pool; pool = drop 10 pool; locked = false })

abbrev pub last_block : Blockchain → Outcome FinalBlock
last_block [] = panic
last_block (b ∷ []) = ok b
last_block (b ∷ c ∷ chain) = last_block (c ∷ chain)

-- The block of a leader with this address.
unfoldable pub propose : Blockchain → Bytes → List Transaction → Outcome ProposedBlock
propose chain leader_ip txs = do
  last ← last_block chain
  ok (record {
    previous_block_hash = last.hash;
    iteration = length chain;
    leader_ip = leader_ip;
    transactions = txs;
  })

abbrev pub final_block : SimEnv → ProposedBlock → FinalBlock
final_block env block = record { hash = env.block_hash block; proposed_block = block }

-- addBlock, which locks the mutex first.
unfoldable pub add_block : Bool → FinalBlock → Sim → Outcome Sim
add_block locked block s =
    if locked then blocked else ok (record s { chain = s.chain ++ block ∷ [] })

-- The members run receivePre, and PBFT waits for totalF + 1 messages. The result is the members.
unfoldable pub vote : Flags → Call → List Node → Outcome (List Node)
vote flags call members = do
  r ← turns flags call.draws call.ids (new_round flags members)
  if ltb flags.total_f r.final_commit then ok r.nodes else blocked

-- addNodeBlock for each of the nodes, and the n messages that PBFT receives for it.
unfoldable pub add_node_blocks : Flags → FinalBlock → Sim → Outcome Sim
add_node_blocks flags block s = do
  nodes ← each_node flags.n 1 (with_block block) s.nodes
  ok (record s { nodes = nodes })

-- verifySig in each of the c nodes of the final committee, for whose messages PBFT waits.
unfoldable pub final_commitee : Flags → List Node → Outcome (List Node)
final_commitee flags members =
    if ltb 0 flags.c && not (verify_sig flags members) then blocked else ok members

-- PBFT of elastico and of time: the leader is a member, and the block is added at the end.
unfoldable pub elastico_pbft : Flags → SimEnv → Call → List Node → Sim → Outcome Sim
unfolding get_tx_list propose vote final_commitee add_block add_node_blocks
elastico_pbft flags env call members s =
    let taken = get_tx_list flags s.tx_list in
    (do
      leader ← get_elem call.leader members
      block ← propose s.chain leader.ip taken.txs
      voted ← vote flags call members
      checked ← final_commitee flags voted
      s' ← add_block taken.locked (final_block env block) (record s { tx_list = taken.pool })
      add_node_blocks flags (final_block env block) s')

-- PBFT of SS-PBFT, with the block of the global leader.
unfoldable pub ss_pbft_pbft : Flags → SimEnv → Call → Bytes → ℕ → Sim → Outcome Sim
unfolding ss_pbft_get_tx_list propose vote add_block add_node_blocks
ss_pbft_pbft flags env call leader_ip committee s = do
  members ← get_elem committee s.committees
  taken ← ss_pbft_get_tx_list flags s.tx_list
  block ← propose s.chain leader_ip taken.txs
  voted ← vote flags call members
  s' ←
      add_block taken.locked (final_block env block)
        (record s { tx_list = taken.pool; committees = set_elem committee voted s.committees })
  add_node_blocks flags (final_block env block) s'

-- PBFT of frustum, which adds the block before the members see it.
unfoldable pub frustum_pbft : Flags → SimEnv → Call → Bytes → ℕ → Sim → Outcome Sim
unfolding get_tx_list propose vote add_block
frustum_pbft flags env call leader_ip committee s =
    let taken = get_tx_list flags s.tx_list in
    (do
      members ← get_elem committee s.committees
      block ← propose s.chain leader_ip taken.txs
      s' ← add_block taken.locked (final_block env block) (record s { tx_list = taken.pool })
      voted ← vote flags call members
      ok (record s' { committees = set_elem committee voted s'.committees }))
