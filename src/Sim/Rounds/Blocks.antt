-- ===== src/Sim/Rounds/Blocks.antt =====
-- Where the transactions go: what a PBFT, a round and the whole loop take from the pool stands in the
-- blocks that they add.
use frustum.Prelude.{
  ℕ, suc, ◌+◌, ◌*◌, ◌≡◌, refl, sym, ap, subst, ◌∙◌, List, [], ◌∷◌, ◌++◌, arith, length,
  length-append, append-nil, append_assoc, All, All-append,
}
use frustum.Prelude.Outcome.{ok}
use frustum.Sim.{Transaction, FinalBlock, Blockchain}
use frustum.Sim.Pbft.{Sim, last_block}

abbrev pub txs_of : FinalBlock → List Transaction
txs_of b = b.proposed_block.transactions

-- The transactions of some blocks, in order.
abbrev pub all_txs : Blockchain → List Transaction
all_txs [] = []
all_txs (b ∷ bs) = txs_of b ++ all_txs bs

-- Each block has the hash of the one before it, which is `last` for the first, and its index.
abbrev pub Links : FinalBlock → ℕ → Blockchain → Type 0
Links last i [] = Unit
Links last i (b ∷ bs) =
    (b.proposed_block.previous_block_hash ≡ last.hash)
    × (b.proposed_block.iteration ≡ i)
    × Links b (suc i) bs

-- From `s` to `t`, `count` linked blocks of `share` transactions each, which are those that the pool
-- has lost, in order.
pub record Fills (share count : ℕ) (s t : Sim) : Type 0 where
  pub blocks : Blockchain
  pub chain : t.chain ≡ s.chain ++ blocks
  pub contents : s.tx_list ≡ all_txs blocks ++ t.tx_list
  pub number : length blocks ≡ count
  pub sizes : All (λ b. length (txs_of b) ≡ share) blocks
  pub links :
      (last : FinalBlock) → last_block s.chain ≡ ok last → Links last (length s.chain) blocks

all_txs-append : (xs ys : Blockchain) → all_txs (xs ++ ys) ≡ all_txs xs ++ all_txs ys
all_txs-append [] ys = refl
all_txs-append (b ∷ xs) ys =
    ap (◌++◌ (txs_of b)) (all_txs-append xs ys)
    ∙ sym (append_assoc (txs_of b) (all_txs xs) (all_txs ys))

pub length-all_txs :
    (share : ℕ) (bs : Blockchain)
    → All (λ b. length (txs_of b) ≡ share) bs
    → length (all_txs bs) ≡ length bs * share
length-all_txs share [] h = omega arith
length-all_txs share (b ∷ bs) (e, h) =
    grind (arith, length-append (txs_of b) (all_txs bs), length-all_txs share bs h)

-- The last block of a chain that some blocks were appended to.
end_of : FinalBlock → Blockchain → FinalBlock
end_of last [] = last
end_of last (b ∷ bs) = end_of b bs

last_block-append :
    (chain : Blockchain) (last : FinalBlock) (bs : Blockchain)
    → last_block chain ≡ ok last
    → last_block (chain ++ bs) ≡ ok (end_of last bs)
unfolding end_of
last_block-append [] last bs h = cc
last_block-append (b ∷ c ∷ chain) last bs h = last_block-append (c ∷ chain) last bs h
last_block-append (b ∷ []) last [] h = h
last_block-append (b ∷ []) last (c ∷ bs) h = last_block-append (c ∷ []) c bs refl

Links-append :
    (last : FinalBlock) (i : ℕ) (xs ys : Blockchain)
    → Links last i xs
    → Links (end_of last xs) (i + length xs) ys
    → Links last i (xs ++ ys)
unfolding end_of
Links-append last i [] ys f g = subst (λ k. Links last k ys) (same i) g
  where
    same : (a : ℕ) → a + 0 ≡ a
    same a = omega arith
Links-append last i (b ∷ xs) ys (e, n, f) g = (
  e,
  n,
  Links-append b (suc i) xs ys f (subst (λ k. Links (end_of b xs) k ys) (shift i (length xs)) g),
)
  where
    shift : (a b : ℕ) → a + suc b ≡ suc a + b
    shift a b = omega arith

pub Fills-none : {share : ℕ} (s : Sim) → Fills share 0 s s
Fills-none s = record {
  blocks = [];
  chain = sym (append-nil s.chain);
  contents = refl;
  number = refl;
  sizes = tt;
  links = λ last h. tt;
}

pub Fills-trans :
    {share j k : ℕ} {s t u : Sim} → Fills share j s t → Fills share k t u → Fills share (j + k) s u
Fills-trans {share} {s} {u} f g = record {
  blocks = f.blocks ++ g.blocks;
  chain = g.chain ∙ ap (λ c. c ++ g.blocks) f.chain ∙ append_assoc s.chain f.blocks g.blocks;
  contents =
      f.contents
      ∙ ap (◌++◌ (all_txs f.blocks)) g.contents
      ∙ sym (append_assoc (all_txs f.blocks) (all_txs g.blocks) u.tx_list)
      ∙ ap (λ txs. txs ++ u.tx_list) (sym (all_txs-append f.blocks g.blocks));
  number = omega (arith, length-append f.blocks g.blocks, f.number, g.number);
  sizes = All-append (λ b. length (txs_of b) ≡ share) f.blocks g.blocks f.sizes g.sizes;
  links = λ last h. Links-append last (length s.chain) f.blocks g.blocks (f.links last h) (
      subst (λ k. Links (end_of last f.blocks) k g.blocks)
        (ap length f.chain ∙ length-append s.chain f.blocks)
        (g.links (end_of last f.blocks)
          (ap last_block f.chain ∙ last_block-append s.chain last f.blocks h)));
}
