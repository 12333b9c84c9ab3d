-- ===== src/Raft/Blocks/Answers.antt =====
-- BlockChain/Consensus/SS-Raft: whether the answers to a block confirm it.
use frustum.Prelude.{ℕ, ◌+◌, ◌%◌, ◌^◌, ◌<◌, ◌≡◌, refl, List, [], ◌∷◌, false, ◌==◌, arith, ℤ, none}
use frustum.Message.{Block}
use frustum.Id.{NodeId}
use frustum.Raft.{RaftMsg, RaftState, BlockCount, check_block, check_blocks, ss_raft_check_commit}
use frustum.Raft.Blocks.{
  ChainOps, MiningEnv, raft_start_mining, ss_raft_start_mining, handle_block, waiting,
  raft_check_block, raft_check_blocks, raft_check_commit,
}

check_block_later :
    (self : ℤ) (height q2 gq2 : ℕ) (msg : RaftMsg) (c : BlockCount)
    → msg.block_height < height
    → check_block self height q2 gq2 msg c ≡ (c, false)
unfolding check_block
check_block_later self height q2 gq2 msg c low =
    let past : (msg.block_height == height) ≡ false = ground arith in rw past refl

raft_check_block_later :
    (height q2 : ℕ) (msg : RaftMsg) (c : BlockCount)
    → msg.block_height < height
    → raft_check_block height q2 msg c ≡ (c, waiting)
unfolding raft_check_block
raft_check_block_later height q2 msg c low =
    let past : (msg.block_height == height) ≡ false = ground arith in rw past refl

module _ {C : Type 0} (ops : ChainOps C) where
  -- A node that gets the block: its identity, state and chain.
  abbrev pub Receiver : Type 0
  Receiver = NodeId × RaftState × C

  -- What the nodes that get a block answer.
  unfoldable pub answers : RaftMsg → Block → List Receiver → List RaftMsg
  unfolding handle_block
  answers msg made [] = []
  answers msg made ((id, s, chain) ∷ rs) =
      (handle_block ops id msg made (s, chain)).2 ∷ answers msg made rs

  ss_raft_unanswered :
      (msg : RaftMsg) (made : Block) (rs : List Receiver) (self : ℤ) (height q2 gq2 : ℕ)
      (c : BlockCount)
      → 0 < height
      → check_blocks self height q2 gq2 (answers msg made rs) c ≡ (c, false)
  unfolding answers check_blocks handle_block
  ss_raft_unanswered msg made [] self height q2 gq2 c up = refl
  ss_raft_unanswered msg made (r ∷ rs) self height q2 gq2 c up =
      rw
        (check_block_later self height q2 gq2
          (record { from = r.0; intra_term = 0; block_height = 0 }) c up)
        (ss_raft_unanswered msg made rs self height q2 gq2 c up)

  raft_unanswered :
      (msg : RaftMsg) (made : Block) (rs : List Receiver) (height q2 : ℕ) (c : BlockCount)
      → 0 < height
      → raft_check_blocks height q2 (answers msg made rs) c ≡ (c, waiting)
  unfolding answers raft_check_blocks handle_block
  raft_unanswered msg made [] height q2 c up = refl
  raft_unanswered msg made (r ∷ rs) height q2 c up =
      rw
        (raft_check_block_later height q2 (record { from = r.0; intra_term = 0; block_height = 0 })
          c up)
        (raft_unanswered msg made rs height q2 c up)

  -- Whatever nodes get the block that a leader makes below the greatest height, in whatever states they
  -- are and however many: over the answers that they send, with the numbers needed being any,
  -- SSRaftCheckCommit and RaftCheckCommit leave the leader's state as it is, and go on waiting. No
  -- block is ever confirmed by the answers as HandleMsg fills them in.
  pub answers_unheard :
      (env : MiningEnv) (self : NodeId) (s : RaftState) (chain : C) (rs : List Receiver)
      (q2 gq2 : ℕ)
      → s.block_height + 1 < 2 ^ 64
      → (ss_raft_check_commit self.shard_id q2 gq2
            (answers
              (ss_raft_start_mining ops env self (s, chain)).1
              (ss_raft_start_mining ops env self (s, chain)).2
              rs)
            (ss_raft_start_mining ops env self (s, chain)).0.0
          ≡ ((ss_raft_start_mining ops env self (s, chain)).0.0, none))
        × (raft_check_commit q2
              (answers
                (raft_start_mining ops env self (s, chain)).1
                (raft_start_mining ops env self (s, chain)).2
                rs)
              (raft_start_mining ops env self (s, chain)).0.0
            ≡ ((raft_start_mining ops env self (s, chain)).0.0, waiting))
  unfolding ss_raft_start_mining raft_start_mining ss_raft_check_commit raft_check_commit
  answers_unheard env self s chain rs q2 gq2 low = (
    rw
        (ss_raft_unanswered _ _ rs self.shard_id ((s.block_height + 1) % 2 ^ 64) q2 gq2
          s.intra_q2_count (ground arith))
        refl,
    rw (raft_unanswered _ _ rs ((s.block_height + 1) % 2 ^ 64) q2 s.intra_q2_count (ground arith))
        refl,
  )
