-- ===== src/Pool/Order.antt =====
-- CommitTrs of TxPool.go takes the transactions strictly by level, and in each level by age.
use native.Mathlib.Nat.{sub-zero, zero-add, zero-sub, sub-eq-zero_of_le}
use frustum.Prelude.{
  ℕ, zero, suc, ◌+◌, ◌-◌, ◌≤◌, ◌<◌, ◌≡◌, ◌≢◌, refl, sym, ap, ◌∙◌, inl, inr, List, [], ◌∷◌, ◌++◌,
  false, leb, ◌==◌, if◌then◌else◌, arith, length, take, drop, take-append, drop-append, take_all,
  drop_all, Bool-cases,
}
use frustum.Prelude.Outcome.{ok}
use frustum.Message.{Transaction}
use frustum.Pool.{
  Channel, TxPool, level_length, total_length, ch_length, compare_from, length_compare, receive,
  receive_each, shares, batch_shares, with_channels, pack, commit_trs,
}

-- All that the channels hold, level 0 first.
abbrev pub contents : List Channel → List Transaction
contents [] = []
contents (c ∷ cs) = c.queue ++ contents cs

-- The channels after a batch was taken from the front.
abbrev pub after_batch : ℕ → List Channel → List Channel
after_batch n [] = []
after_batch n (c ∷ cs) = record c { queue = drop n c.queue } ∷ after_batch (n - length c.queue) cs

-- The level where the sum of the lengths reaches `n`.
abbrev level_of : ℕ → List ℕ → ℕ
level_of n [] = 0
level_of n (v ∷ vs) = if leb n v then 0 else suc (level_of (n - v) vs)

==_ne : (a b : ℕ) → a ≢ b → (a == b) ≡ false
==_ne a b h = ground arith

difference : (n count v : ℕ) → n - (count + v) ≡ n - count - v
difference n count v = omega arith

compare_from_lem :
    (count k n : ℕ) (lengths : List ℕ)
    → compare_from count k n lengths ≡ k + level_of (n - count) lengths
unfolding compare_from
compare_from_lem count k n [] = omega arith
compare_from_lem count k n (v ∷ vs) = ground (
  arith,
  compare_from_lem (count + v) (k + 1) n vs,
  ap (λ (t : ℕ). level_of t vs) (difference n count v),
)

receive_lem :
    (n : ℕ) (c : Channel)
    → n ≤ length c.queue
    → receive n c ≡ ok (take n c.queue, record c { queue = drop n c.queue })
unfolding receive
receive_lem n c h = ground arith

contents-after_batch :
    (n : ℕ) (cs : List Channel) → contents (after_batch n cs) ≡ drop n (contents cs)
contents-after_batch n [] = sym (drop_all n [] (omega arith))
contents-after_batch n (c ∷ cs) =
    rw (drop-append n c.queue (contents cs), contents-after_batch (n - length c.queue) cs)

after_batch_zero : (cs : List Channel) → after_batch 0 cs ≡ cs
after_batch_zero [] = refl
after_batch_zero (c ∷ cs) = rw zero-sub (ap (◌∷◌ c) (after_batch_zero cs))

shares_last :
    (n : ℕ) (c : Channel) (cs : List Channel)
    → n ≤ length c.queue
    → receive_each (n ∷ []) (c ∷ cs) ≡ ok (take n (contents (c ∷ cs)), after_batch n (c ∷ cs))
unfolding receive_each
shares_last n c cs h =
    rw (receive_lem n c h, take-append n c.queue (contents cs), sub-eq-zero_of_le h)
      (rw (after_batch_zero cs))

shares_more :
    (n : ℕ) (c : Channel) (cs : List Channel) (later : List ℕ)
    → length c.queue ≤ n
    → receive_each later cs
      ≡ ok (take (n - length c.queue) (contents cs), after_batch (n - length c.queue) cs)
    → receive_each (length c.queue ∷ later) (c ∷ cs)
      ≡ ok (take n (contents (c ∷ cs)), after_batch n (c ∷ cs))
unfolding receive_each
shares_more n c cs later h e =
    rw (receive_lem (length c.queue) c (omega arith), e)
      (rw (take-append n c.queue (contents cs), take_all n c.queue h, drop_all n c.queue h)
        (rw (take_all (length c.queue) c.queue (omega arith))
          (rw (drop_all (length c.queue) c.queue (omega arith)))))

-- The shares up to the level where the sum reaches `n` make the batch.
receive-shares :
    (n : ℕ) (cs : List Channel)
    → level_of n (level_length cs) < length (level_length cs)
    → receive_each (shares (level_of n (level_length cs)) n (level_length cs)) cs
      ≡ ok (take n (contents cs), after_batch n cs)
unfolding receive_each shares
receive-shares n [] h = absurd (omega arith)
receive-shares n (c ∷ cs) h = elim (Bool-cases (leb n (length c.queue))) [
  | inl all ↦ rw all (shares_last n c cs (ground arith))
  | inr more ↦
      rw more (
        shares_more n c cs _ (ground arith) (receive-shares (n - length c.queue) cs (ground arith)))
]

-- When the sum does not reach `n`, all is taken.
receive_all :
    (n : ℕ) (cs : List Channel)
    → level_of n (level_length cs) ≡ length (level_length cs)
    → receive_each (level_length cs) cs ≡ ok (take n (contents cs), after_batch n cs)
unfolding receive_each
receive_all n [] h = rw (take_all {A = Transaction} n [] (omega arith))
receive_all n (c ∷ cs) h = elim (Bool-cases (leb n (length c.queue))) [
  | inl reached ↦ absurd (ground arith)
  | inr more ↦
      shares_more n c cs (level_length cs) (ground arith)
        (receive_all (n - length c.queue) cs (ground arith))
]

level_of-le : (n : ℕ) (vs : List ℕ) → level_of n vs ≤ length vs
level_of-le n [] = omega arith
level_of-le n (v ∷ vs) = ground (arith, level_of-le (n - v) vs)

-- The switch takes the shares up to the level, or all.
batch_shares_lem :
    (k n : ℕ) (vs : List ℕ)
    → 0 < length vs
    → batch_shares k n vs ≡ (if k == length vs then vs else shares k n vs)
unfolding batch_shares shares
batch_shares_lem zero n vs h = ground arith
batch_shares_lem (suc k) n vs h = refl

length_compare_lem : (vs : List ℕ) (n : ℕ) → length_compare vs n ≡ level_of n vs
unfolding length_compare
length_compare_lem vs n =
    compare_from_lem 0 0 n vs
    ∙ zero-add (level_of (n - 0) vs)
    ∙ ap (λ (t : ℕ). level_of t vs) (sub-zero n)

receive-batch_shares :
    (n : ℕ) (cs : List Channel)
    → 0 < length (level_length cs)
    → receive_each (batch_shares (level_of n (level_length cs)) n (level_length cs)) cs
      ≡ ok (take n (contents cs), after_batch n cs)
receive-batch_shares n cs h =
    let vs = level_length cs in
    rw (batch_shares_lem (level_of n vs) n vs h) (elim (Bool-cases (level_of n vs == length vs)) [
      | inl all ↦ rw all (receive_all n cs (ground arith))
      | inr part ↦ rw part (receive-shares n cs (ground (arith, level_of-le n vs)))
    ])

pack_lem :
    (n : ℕ) (p : TxPool)
    → 0 < length (level_length p.channels)
    → pack n p ≡ ok (take n (contents p.channels), record p { channels = after_batch n p.channels })
unfolding pack with_channels ch_length
pack_lem n p h =
    rw (length_compare_lem (level_length p.channels) n) (rw (receive-batch_shares n p.channels h))

abbrev pub caps : List Channel → List ℕ
caps [] = []
caps (c ∷ cs) = c.cap ∷ caps cs

caps-after_batch : (n : ℕ) (cs : List Channel) → caps (after_batch n cs) ≡ caps cs
caps-after_batch n [] = refl
caps-after_batch n (c ∷ cs) = ap (◌∷◌ c.cap) (caps-after_batch (n - length c.queue) cs)

levels_of_total :
    (cs : List Channel) → total_length (level_length cs) ≢ 0 → 0 < length (level_length cs)
levels_of_total [] h = absurd (h refl)
levels_of_total (c ∷ cs) h = omega arith

commit_trs_ready :
    (arrivals : List (List Transaction)) (tx_num : ℕ) (p : TxPool)
    → (ch_length p).1 ≢ 0
    → commit_trs arrivals tx_num p ≡ pack tx_num p
unfolding commit_trs
commit_trs_ready [] tx_num p h = rw (==_ne _ _ h)
commit_trs_ready (arrived ∷ later) tx_num p h = rw (==_ne _ _ h)

pub commit_trs_lem :
    (arrivals : List (List Transaction)) (tx_num : ℕ) (p : TxPool)
    → (ch_length p).1 ≢ 0
    → commit_trs arrivals tx_num p
      ≡ ok
          (take tx_num (contents p.channels), record p { channels = after_batch tx_num p.channels })
commit_trs_lem arrivals tx_num p h =
    commit_trs_ready arrivals tx_num p h
    ∙ pack_lem tx_num p (levels_of_total p.channels (unfold ch_length in h))

-- From a pool that holds something CommitTrs returns at once, whatever arrives and whatever its
-- levels: the batch is the first `tx_num` transactions, or all if there are fewer, of the contents
-- in the order of level and, within a level, of age; the pool keeps the rest in that order; and the
-- capacities and the kind of the pool stay.
pub commit_trs-contents :
    (arrivals : List (List Transaction)) (tx_num : ℕ) (p : TxPool)
    → (ch_length p).1 ≢ 0
    → (p' : TxPool) × (commit_trs arrivals tx_num p ≡ ok (take tx_num (contents p.channels), p'))
      × (contents p'.channels ≡ drop tx_num (contents p.channels))
      × (caps p'.channels ≡ caps p.channels)
      × (p'.priority ≡ p.priority)
commit_trs-contents arrivals tx_num p h = (
  record p { channels = after_batch tx_num p.channels },
  commit_trs_lem arrivals tx_num p h,
  contents-after_batch tx_num p.channels,
  caps-after_batch tx_num p.channels,
  refl,
)
