-- ===== src/Store.antt =====
-- BlockChain/DB/BlockChain.go: the blocks of a node in a bolt database. A bucket of bolt and the gob
-- encoding of a block are parameters. A transaction is one call, and an error of it is a log.Panic.
pub mod Walk
pub mod Reopen
mod Tests
use frustum.Prelude.{
  ℕ, zero, suc, List, [], ◌∷◌, Bool, true, false, if◌then◌else◌, Bytes, bytes_eq, codes, Option,
  none, some, ◌≡◌, ◌≢◌,
}
use frustum.Prelude.Outcome.{Outcome, ok, deref, ◌>>=◌}
use frustum.Message.{Block}

-- What the code uses of bolt: a new bucket, Get, and Put, which may report an error. A slice of Get is
-- valid within the transaction only: `kept` is what it shows after it, which bolt leaves open.
pub record Bolt : Type 1 where
  pub Bucket : Type 0
  pub new_bucket : Bucket
  pub get : Bytes → Bucket → Option Bytes
  pub put : Bytes → Bytes → Bucket → Option Bucket
  pub kept : Bytes → Bytes

-- The gob encoding of a block; decoding what is no encoding is a log.Panic.
pub record Gob : Type 0 where
  pub serialize : Block → Bytes
  pub deserialize_block : Bytes → Outcome Block

abbrev pub latest : Bytes
latest = codes "latest"

abbrev pub pre_commit : Bytes
pre_commit = codes "preCommitBlockHash"

-- What `new(Block)` is.
abbrev pub zero_block : Block
zero_block = record {
  time_stamp = 0;
  block_height = 0;
  miner = [];
  pre_block_hash = [];
  block_hash = [];
  block_body = [];
}

abbrev pub data_or_nil : Option Bytes → Bytes
data_or_nil none = []
data_or_nil (some v) = v

module _ (d : Bolt) where
  pub record BlockChain : Type 0 where
    pub tip : Bytes
    pub bucket : d.Bucket
    pub latest_block_index : ℕ

module _ (d : Bolt) (g : Gob) where
  -- What NewBlockChain reads of the latest block under a hash.
  opened_at : Bytes → Bytes → d.Bucket → Outcome (BlockChain d)
  opened_at hash block bucket =
      if bytes_eq block pre_commit
      then ok (record { tip = d.kept hash; bucket = bucket; latest_block_index = 0 })
      else (do
        b ← g.deserialize_block block
        ok (record { tip = d.kept hash; bucket = bucket; latest_block_index = b.block_height }))

  opened_with : Option Bytes → d.Bucket → Outcome (BlockChain d)
  opened_with none bucket = ok (record { tip = []; bucket = bucket; latest_block_index = 0 })
  opened_with (some hash) bucket = opened_at hash (data_or_nil (d.get hash bucket)) bucket

  -- NewBlockChain, with the bucket that an old file has, if there is one.
  unfoldable pub new_block_chain : Option d.Bucket → Outcome (BlockChain d)
  unfolding opened_with opened_at
  new_block_chain none = ok (record { tip = []; bucket = d.new_bucket; latest_block_index = 0 })
  new_block_chain (some bucket) = opened_with (d.get latest bucket) bucket

  -- A new key that becomes the tip and the latest.
  unfoldable pub put_tip : Bytes → Bytes → BlockChain d → Outcome (BlockChain d)
  put_tip hash block bc = do
    stored ← deref (d.put hash block bc.bucket)
    updated ← deref (d.put latest hash stored)
    ok (record bc { tip = hash; bucket = updated })

  add_checked : Option Bytes → Block → BlockChain d → Outcome (BlockChain d)
  unfolding put_tip
  add_checked none b bc = put_tip b.block_hash (g.serialize b) bc
  add_checked (some old) b bc =
      if bytes_eq old pre_commit
      then (do
        stored ← deref (d.put b.block_hash (g.serialize b) bc.bucket)
        ok (record bc { bucket = stored }))
      else ok bc

  unfoldable pub add_new_block : Block → BlockChain d → Outcome (BlockChain d)
  unfolding add_checked
  add_new_block b bc = add_checked (d.get b.block_hash bc.bucket) b bc

  add_hash_checked : Option Bytes → Bytes → BlockChain d → Outcome (BlockChain d)
  unfolding put_tip
  add_hash_checked none hash bc = put_tip hash pre_commit bc
  add_hash_checked (some old) hash bc = ok bc

  unfoldable pub add_new_block_hash : Bytes → BlockChain d → Outcome (BlockChain d)
  unfolding add_hash_checked
  add_new_block_hash hash bc = add_hash_checked (d.get hash bc.bucket) hash bc

  -- The block that Next returns; a hash that is not there gives a new block.
  block_at : Option Bytes → Outcome Block
  block_at none = ok zero_block
  block_at (some stored) = g.deserialize_block stored

  -- Next: the block, and the hash where the iterator is then.
  unfoldable pub next : Bytes → d.Bucket → Outcome (Block × Bytes)
  unfolding block_at
  next current bucket = do b ← block_at (d.get current bucket); ok (b, b.pre_block_hash)
