-- ===== src/Raft/Confirm.antt =====
-- When SSRaftCheckCommit of BlockChain/Consensus/SS-Raft confirms a block.
use frustum.Prelude.{
  Option, ℕ, ◌+◌, ◌≤◌, ◌≡◌, List, [], ◌∷◌, Bool, false, not, ◌&&◌, leb, ◌==◌, if◌then◌else◌, ℤ,
  int_eq, none, some,
}
use frustum.Raft.{
  testing_max_block_height, batch_blocks_num, stop_mining, batch_over, next_block, RaftMsg,
  RaftState, BlockCount, AfterBlock, check_blocks,
}

-- The confirmations of a height from the own shard, and from the others.
abbrev pub from_own : ℤ → ℕ → List RaftMsg → ℕ
from_own self height [] = 0
from_own self height (msg ∷ msgs) =
    (if msg.block_height == height && int_eq msg.from.shard_id self then 1 else 0)
    + from_own self height msgs

abbrev pub from_others : ℤ → ℕ → List RaftMsg → ℕ
from_others self height [] = 0
from_others self height (msg ∷ msgs) =
    (if msg.block_height == height && not (int_eq msg.from.shard_id self) then 1 else 0)
    + from_others self height msgs

-- A counter of the height that is not met.
record IsOpen (height q2 gq2 : ℕ) (c : BlockCount) : Type 0 where
  pub of_height : c.block_height ≡ height
  pub intra : c.count ≤ q2
  pub global : c.global_count ≤ gq2
  pub missing : (c.count == q2 && c.global_count == gq2) ≡ false

met_test : ℕ → ℕ → ℕ → ℕ → Bool
met_test q2 gq2 a b = leb q2 a && leb gq2 b

module _ (self : ℤ) (height q2 gq2 : ℕ) where
  Met : List RaftMsg → BlockCount → Type 0
  Met msgs c = (check_blocks self height q2 gq2 msgs c).1 ≡ (
      leb q2 (c.count + from_own self height msgs)
      && leb gq2 (c.global_count + from_others self height msgs))

-- What follows a confirmed block, said without the code: the run ends at the height 128, else the
-- batch is over after 128 blocks, else there is a next block; and what the batch then counts.
abbrev pub follows : ℕ → ℕ → AfterBlock
follows height batch =
    if height == testing_max_block_height
    then stop_mining
    else if batch == batch_blocks_num
    then batch_over
    else next_block

abbrev pub batch_after : AfterBlock → ℕ → ℕ
batch_after batch_over batch = 0
batch_after _ batch = batch

-- What SSRaftCheckCommit ends in.
abbrev pub Checked : Bool → RaftState → RaftState × Option AfterBlock → Type 0
Checked confirmed s r =
    (r.1 ≡ (if confirmed then some (follows s.block_height s.batch_block_count) else none))
    × (r.0.batch_block_count ≡ (
        if confirmed
        then batch_after (follows s.block_height s.batch_block_count) s.batch_block_count
        else s.batch_block_count))
    × (r.0.block_height ≡ s.block_height)
    × (r.0.intra_term ≡ s.intra_term)
