-- ===== src/Store/Tests.antt =====
-- The store of BlockChain/DB/BlockChain.go with an association list for bolt.
use frustum.Prelude.{
  ℕ, zero, suc, ◌-◌, leb, ◌≡◌, ◌≢◌, refl, sym, ap, ◌∙◌, [], ◌∷◌, if◌then◌else◌, arith, Bytes,
  bytes_eq_iff, codes, Option, none, some, length,
}
use frustum.Prelude.Table.{Table, bytes_key, lookup, insert, lookup-insert, beq_self}
use frustum.Prelude.Outcome.{Outcome, ok, panic}
use frustum.Message.{Block}
use frustum.Store.{Bolt, Gob, BlockChain, add_new_block, zero_block}
use frustum.Store.Walk.{IsBolt, Stores, walk, add_new_block-walk}

abbrev bolt : Bolt
bolt = record {
  Bucket = Table Bytes Bytes;
  new_bucket = [];
  get = λ k b. lookup k b;
  put = λ k v b. some (insert k v b);
  kept = λ hash. hash;
}

some-injective : {a b : Table Bytes Bytes} → some a ≡ some b → a ≡ b
some-injective {a} h = ap (λ (o : Option (Table Bytes Bytes)). elim o [ none ↦ a | some x ↦ x ]) h

bolt-IsBolt : IsBolt bolt
bolt-IsBolt = record {
  put_ok = λ k v b h small short. (insert k v b, refl);
  get_same = λ k v b b' h.
      ap (lookup k) (sym (some-injective h)) ∙ lookup-insert k k v b ∙ rw (beq_self k) refl;
  get_other = λ k j v b b' h other.
      ap (lookup j) (sym (some-injective h))
      ∙ lookup-insert k j v b
      ∙ ground (arith, bytes_eq_iff k j, other);
}

abbrev repeated : ℕ → ℕ → Bytes
repeated zero x = []
repeated (suc n) x = x ∷ repeated n x

abbrev block_of : ℕ → Block
block_of h = record zero_block {
  block_height = h;
  pre_block_hash = if leb h 1 then [] else repeated 32 (h - 1);
  block_hash = repeated 32 h;
}

abbrev decoded : Bytes → Outcome Block
decoded (h ∷ []) = ok (block_of h)
decoded _ = panic

abbrev gob : Gob
gob = record { serialize = λ b. b.block_height ∷ []; deserialize_block = decoded }

abbrev one_block : BlockChain bolt
one_block = record {
  tip = repeated 32 1;
  bucket = (repeated 32 1, 1 ∷ []) ∷ (codes "latest", repeated 32 1) ∷ [];
  latest_block_index = 0;
}

other_length : {a b : Bytes} → length a ≢ length b → a ≢ b
other_length h e = h (ap length e)

one_block-Stores : Stores bolt gob one_block.bucket one_block.tip (block_of 1 ∷ [])
one_block-Stores = (refl, other_length (λ e. absurd (omega arith)), refl, tt)

add_new_block-walk_example :
    (bc : BlockChain bolt) × (add_new_block bolt gob (block_of 2) one_block ≡ ok bc)
    × (bc.tip ≡ repeated 32 2)
    × (walk bolt gob 2 bc.tip bc.bucket ≡ ok (block_of 2 ∷ block_of 1 ∷ []))
    × Stores bolt gob bc.bucket bc.tip (block_of 2 ∷ block_of 1 ∷ [])
add_new_block-walk_example =
    add_new_block-walk bolt gob one_block (block_of 2) (block_of 1 ∷ []) bolt-IsBolt refl refl
      (omega arith) refl refl one_block-Stores
