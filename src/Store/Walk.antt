-- ===== src/Store/Walk.antt =====
-- Walking over the blocks that were stored by BlockChain/DB/BlockChain.go.
use frustum.Prelude.{
  ℕ, zero, suc, ◌≤◌, ◌≡◌, ◌≢◌, refl, sym, ap, ◌∙◌, ◌⊎◌, inl, inr, List, [], ◌∷◌, arith, Bytes, none,
  some, length,
}
use frustum.Prelude.Outcome.{Outcome, ok, ◌>>=◌}
use frustum.Message.{Block}
use frustum.Store.{Bolt, Gob, BlockChain, latest, put_tip, add_new_block, next}

-- MaxValueSize of bolt.
abbrev pub max_value_size : ℕ
max_value_size = 2147483646

-- What bolt's documentation promises of Get and Put within a transaction: Put succeeds for a key that
-- is not empty and of at most MaxKeySize, 32768, bytes, and a value of at most MaxValueSize bytes.
pub record IsBolt (d : Bolt) : Type 0 where
  pub put_ok :
      (k v : Bytes) (b : d.Bucket)
      → k ≢ []
      → length k ≤ 32768
      → length v ≤ max_value_size
      → (b' : d.Bucket) × (d.put k v b ≡ some b')
  pub get_same : (k v : Bytes) (b b' : d.Bucket) → d.put k v b ≡ some b' → d.get k b' ≡ some v
  pub get_other :
      (k j v : Bytes) (b b' : d.Bucket) → d.put k v b ≡ some b' → k ≢ j → d.get j b' ≡ d.get j b

-- gob decodes the encoding of a block to the block.
abbrev pub IsGob : Gob → Block → Type 0
IsGob g b = g.deserialize_block (g.serialize b) ≡ ok b

-- A SHA-256 hash.
abbrev pub IsHash : Bytes → Type 0
IsHash h = length h ≡ 32

pub hash-nonempty : {h : Bytes} → IsHash h → h ≢ []
hash-nonempty h e = absurd (ground (arith, h, ap length e))

pub latest_no_hash : {h : Bytes} → IsHash h → latest ≢ h
latest_no_hash h e = absurd (ground (arith, h, ap length e))

module _ (d : Bolt) (g : Gob) where
  -- From a hash on, the bucket holds the blocks, the newest first, and gob decodes them.
  abbrev pub Stores : d.Bucket → Bytes → List Block → Type 0
  Stores bucket hash [] = Unit
  Stores bucket hash (b ∷ bs) =
      (d.get hash bucket ≡ some (g.serialize b))
      × (latest ≢ hash)
      × IsGob g b
      × Stores bucket b.pre_block_hash bs

  -- As many calls of Next as a number says.
  unfoldable pub walk : ℕ → Bytes → d.Bucket → Outcome (List Block)
  unfolding next
  walk zero hash bucket = ok []
  walk (suc n) hash bucket = do r ← next d g hash bucket; bs ← walk n r.1 bucket; ok (r.0 ∷ bs)

  none≢some : {v : Bytes} → none ≢ some v
  none≢some e = cc

  walk-Stores :
      (bucket : d.Bucket) (hash : Bytes) (bs : List Block)
      → Stores bucket hash bs
      → walk (length bs) hash bucket ≡ ok bs
  unfolding walk
  walk-Stores bucket hash [] s = refl
  walk-Stores bucket hash (b ∷ bs) (stored, other, gob, s) =
      rw (stored, gob, walk-Stores bucket b.pre_block_hash bs s) refl

  -- A key that the bucket did not have changes nothing that is stored.
  Stores-put :
      (bucket bucket' : d.Bucket) (key value hash : Bytes) (bs : List Block)
      → IsBolt d
      → (d.get key bucket ≡ none) ⊎ (key ≡ latest)
      → d.put key value bucket ≡ some bucket'
      → Stores bucket hash bs
      → Stores bucket' hash bs
  Stores-put bucket bucket' key value hash [] bolt fresh put s = tt
  Stores-put bucket bucket' key value hash (b ∷ bs) bolt fresh put (stored, other, gob, s) =
      let apart : key ≢ hash = λ same. elim fresh [
        | inl missing ↦ none≢some (sym missing ∙ ap (λ k. d.get k bucket) same ∙ stored)
        | inr is_latest ↦ other (sym is_latest ∙ same)
      ] in
      (
        bolt.get_other key hash value bucket bucket' put apart ∙ stored,
        other,
        gob,
        Stores-put bucket bucket' key value b.pre_block_hash bs bolt fresh put s,
      )

  pub put_tip-Stores :
      (bc : BlockChain d) (key value : Bytes) (bs : List Block)
      → IsBolt d
      → IsHash key
      → length value ≤ max_value_size
      → d.get key bc.bucket ≡ none
      → Stores bc.bucket bc.tip bs
      → (bc' : BlockChain d) × (put_tip d g key value bc ≡ ok bc')
        × (bc'.tip ≡ key)
        × (d.get key bc'.bucket ≡ some value)
        × (d.get latest bc'.bucket ≡ some key)
        × Stores bc'.bucket bc.tip bs
  unfolding put_tip
  put_tip-Stores bc key value bs bolt hash small fresh s =
      let (b1, e1) =
        bolt.put_ok key value bc.bucket (hash-nonempty hash) (ground (arith, hash)) small in
      let (b2, e2) = bolt.put_ok latest key b1 (λ e. cc) (omega arith) (ground (arith, hash)) in
      (
        record bc { tip = key; bucket = b2 },
        rw (e1, e2) refl,
        refl,
        bolt.get_other latest key key b1 b2 e2 (latest_no_hash hash)
            ∙ bolt.get_same key value bc.bucket b1 e1,
        bolt.get_same latest key b1 b2 e2,
        Stores-put b1 b2 latest key bc.tip bs bolt (inr refl) e2
            (Stores-put bc.bucket b1 key value bc.tip bs bolt (inl fresh) e1 s),
      )

  -- AddNewBlock of a block that is not stored yet, that points to the tip and whose encoding bolt takes
  -- as a value (2^31 - 2 bytes at most) returns, and makes it the tip; from there Next gives the new block and then all blocks that could be walked before, in
  -- their order. It is assumed that Get, Put and gob do what they promise.
  pub add_new_block-walk :
      (bc : BlockChain d) (b : Block) (bs : List Block)
      → IsBolt d
      → IsGob g b
      → IsHash b.block_hash
      → length (g.serialize b) ≤ max_value_size
      → d.get b.block_hash bc.bucket ≡ none
      → b.pre_block_hash ≡ bc.tip
      → Stores bc.bucket bc.tip bs
      → (bc' : BlockChain d) × (add_new_block d g b bc ≡ ok bc')
        × (bc'.tip ≡ b.block_hash)
        × (walk (suc (length bs)) bc'.tip bc'.bucket ≡ ok (b ∷ bs))
        × Stores bc'.bucket bc'.tip (b ∷ bs)
  unfolding add_new_block
  add_new_block-walk bc b bs bolt gob hash small fresh link s =
      let (bc', e, at_tip, stored, newest, s') =
        put_tip-Stores bc b.block_hash (g.serialize b) bs bolt hash small fresh s in
      let kept : Stores bc'.bucket bc'.tip (b ∷ bs) =
        rw at_tip (stored, latest_no_hash hash, gob, rw link s') in
      (bc', rw fresh e, at_tip, walk-Stores bc'.bucket bc'.tip (b ∷ bs) kept, kept)
