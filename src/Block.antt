-- ===== src/Block.antt =====
-- The type Block of BlockChain/DB/BlockChain.go: its hash and its making in GenerateNewBlock of
-- BlockChain/Consensus/frustum/ConsensusFunc.go. SHA-256 and the gob encoding of a transaction are
-- parameters.
use frustum.Prelude.{List, [], ◌∷◌, ◌++◌, pos, Bytes}
use frustum.Message.{Transaction, Block}
use frustum.Id.{itoa}

pub record Codec : Type 0 where
  pub sha256 : Bytes → Bytes
  pub serialize : Transaction → Bytes

serialize_all : Codec → List Transaction → Bytes
serialize_all codec [] = []
serialize_all codec (tx ∷ txs) = codec.serialize tx ++ serialize_all codec txs

-- What SetHash hashes: the fields one after another, with no separator.
unfoldable pub hash_input : Codec → Block → Bytes
unfolding serialize_all
hash_input codec b =
    itoa (pos b.time_stamp)
    ++ itoa (pos b.block_height)
    ++ b.miner
    ++ b.pre_block_hash
    ++ serialize_all codec b.block_body

unfoldable pub set_hash : Codec → Block → Block
set_hash codec b = record b { block_hash = codec.sha256 (hash_input codec b) }
