-- ===== src/Sim/Rounds/Taking.antt =====
-- What the parts of PBFT do to the pool and to the chain in the simulations of myBlockChain.
pub mod Folders
use frustum.Prelude.{
  ℕ, zero, suc, ◌+◌, ◌*◌, ◌≤◌, ◌<◌, ◌≡◌, ◌⊎◌, inl, inr, refl, sym, ap, subst, ◌∙◌, List, [], ◌∷◌,
  ◌++◌, Bool, true, false, ltb, Bool-cases, Bytes, arith, length, take, drop, length-append,
  append-nil, append_assoc, All, All-append,
}
use frustum.Prelude.Outcome.{Outcome, ok, ok-injective, panic, blocked, ◌>>=◌}
use frustum.Prelude.Ensures.{
  Ensures, returns, panics, waits, Ensures-bind, Ensures-bind_with, Ensures-mono, Ensures-self,
}
use frustum.Prelude.Slices.{get_elem, set_elem}
use frustum.Sim.{Flags, Node, Transaction, ProposedBlock, FinalBlock, Blockchain}
use frustum.Sim.Round.{turns, new_round}
use frustum.Sim.Setup.{SimEnv, each_node, with_block, reset, form_committees}
use frustum.Sim.Pbft.{
  Sim, Call, Taken, get_tx_list, ss_pbft_get_tx_list, last_block, propose, final_block, add_block,
  vote, add_node_blocks, final_commitee, elastico_pbft, ss_pbft_pbft, frustum_pbft,
}
use frustum.Sim.Rounds.{
  Plan, each_committee, reset_nodes, elastico, time, global_leader, ss_pbft, frustum_round,
  main_loop,
}
use frustum.Sim.Rounds.Blocks.{txs_of, all_txs, Fills, Fills-none, Fills-trans, length-all_txs}

-- A block of `share` transactions from the front of the pool, on top of the chain.
one_block :
    {share : ℕ} (env : SimEnv) (s t : Sim) (block : ProposedBlock) (last : FinalBlock)
    → last_block s.chain ≡ ok last
    → block.previous_block_hash ≡ last.hash
    → block.iteration ≡ length s.chain
    → length block.transactions ≡ share
    → s.tx_list ≡ block.transactions ++ t.tx_list
    → t.chain ≡ s.chain ++ final_block env block ∷ []
    → Fills share 1 s t
one_block env s t block last h prev index size contents chain = record {
  blocks = final_block env block ∷ [];
  chain = chain;
  contents = contents ∙ ap (λ txs. txs ++ t.tx_list) (sym (append-nil block.transactions));
  number = refl;
  sizes = (size, tt);
  links = λ l e. (prev ∙ ap (λ (b : FinalBlock). b.hash) (ok-injective (sym h ∙ e)), index, tt);
}

-- What getTxList takes when it does not leave the mutex locked.
abbrev pub TakenOk : ℕ → List Transaction → Taken → Type 0
TakenOk share pool taken =
    taken.locked ≡ false → (length taken.txs ≡ share) × (pool ≡ taken.txs ++ taken.pool)

take-drop : (n : ℕ) (xs : List Transaction) → xs ≡ take n xs ++ drop n xs
take-drop zero xs = refl
take-drop (suc n) [] = refl
take-drop (suc n) (x ∷ xs) = ap (◌∷◌ x) (take-drop n xs)

length-take : (n : ℕ) (xs : List Transaction) → n ≤ length xs → length (take n xs) ≡ n
length-take zero xs h = refl
length-take (suc n) [] h = absurd (omega arith)
length-take (suc n) (x ∷ xs) h = ap suc (length-take n xs (omega arith))

pub get_tx_list-TakenOk :
    (flags : Flags) (pool : List Transaction)
    → TakenOk flags.tx_per_block pool (get_tx_list flags pool)
unfolding get_tx_list
get_tx_list-TakenOk flags pool = elim (Bool-cases (ltb (length pool) flags.tx_per_block)) [
  | inl short ↦ rw short (λ e. cc)
  | inr long ↦
      rw long (λ _.
        (length-take flags.tx_per_block pool (ground arith), take-drop flags.tx_per_block pool))
]

pub ss_pbft_get_tx_list-TakenOk :
    (flags : Flags) (pool : List Transaction)
    → Ensures (TakenOk 10 pool) (ss_pbft_get_tx_list flags pool)
unfolding ss_pbft_get_tx_list
ss_pbft_get_tx_list-TakenOk flags pool = elim (Bool-cases (ltb (length pool) flags.tx_per_block)) [
  | inl short ↦ rw short (returns (λ e. cc))
  | inr long ↦ rw long (elim (Bool-cases (ltb (length pool) 10)) [
    | inl few ↦ rw few panics
    | inr enough ↦
        rw enough (returns (λ _. (length-take 10 pool (ground arith), take-drop 10 pool)))
  ])
]

abbrev pub Proposed : Blockchain → List Transaction → ProposedBlock → Type 0
Proposed chain txs block =
    (last : FinalBlock) × (last_block chain ≡ ok last)
    × (block.previous_block_hash ≡ last.hash)
    × (block.iteration ≡ length chain)
    × (block.transactions ≡ txs)

pub propose-Proposed :
    (chain : Blockchain) (ip : Bytes) (txs : List Transaction)
    → Ensures (Proposed chain txs) (propose chain ip txs)
unfolding propose
propose-Proposed chain ip txs =
    Ensures-bind_with (last_block chain) (Ensures-self (last_block chain))
      λ last at. returns (last, at, refl, refl, refl)

-- addBlock with the mutex free, and what addNodeBlock does to the nodes.
abbrev pub Added : FinalBlock → Bool → Sim → Sim → Type 0
Added block locked s t =
    (locked ≡ false)
    × (t.chain ≡ s.chain ++ block ∷ [])
    × (t.tx_list ≡ s.tx_list)
    × (t.nodes ≡ s.nodes)

pub add_block-Added :
    (locked : Bool) (block : FinalBlock) (s : Sim)
    → Ensures (Added block locked s) (add_block locked block s)
unfolding add_block
add_block-Added true block s = waits
add_block-Added false block s = returns (refl, refl, refl, refl)

abbrev pub SamePool : Sim → Sim → Type 0
SamePool s t = (t.chain ≡ s.chain) × (t.tx_list ≡ s.tx_list)

pub add_node_blocks-SamePool :
    (flags : Flags) (block : FinalBlock) (s : Sim)
    → Ensures (SamePool s) (add_node_blocks flags block s)
unfolding add_node_blocks
add_node_blocks-SamePool flags block s =
    Ensures-bind (each_node flags.n 1 (with_block block) s.nodes) λ nodes. returns (refl, refl)

-- The parts of a PBFT together.
pub pbft_block :
    {share : ℕ} (env : SimEnv) (s u v t : Sim) (taken : Taken) (block : ProposedBlock)
    → TakenOk share s.tx_list taken
    → Proposed s.chain taken.txs block
    → u.chain ≡ s.chain
    → u.tx_list ≡ taken.pool
    → Added (final_block env block) taken.locked u v
    → SamePool v t
    → Fills share 1 s t
pbft_block env s u v t taken block took (last, at, prev, index, txs) same pool
      (free, chain, kept, _) (chain', kept') =
    one_block env s t block last at prev index (ap length txs ∙ (took free).0)
      ((took free).1 ∙ rw (txs, kept', kept, pool) refl)
      (chain' ∙ chain ∙ ap (λ c. c ++ final_block env block ∷ []) same)
