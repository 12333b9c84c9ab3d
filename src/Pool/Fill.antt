-- ===== src/Pool/Fill.antt =====
-- AddTx of TxPool.go: the channels stay within their capacity, and a pool of one channel is a queue.
use frustum.Prelude.{
  ℕ, zero, suc, ◌+◌, ◌-◌, ◌≤◌, ◌<◌, ◌≡◌, ◌≢◌, refl, sym, ap, ◌∙◌, subst, inl, inr, List, [], ◌∷◌,
  ◌++◌, Bool, true, false, ◌==◌, arith, ℤ, pos, negsuc, length, take, drop, length-append,
  append_assoc, append-nil, All, Bool-cases,
}
use frustum.Prelude.Outcome.{ok, blocked, ok-injective}
use frustum.Message.{Transaction}
use frustum.Pool.{
  Channel, TxPool, make_channels, new_tx_pool, offer, offer_at, offer_level, add_tx, add_all,
  ch_length, commit_trs,
}
use frustum.Pool.Order.{contents, after_batch, commit_trs_lem}

-- No channel holds more than its capacity.
abbrev pub IsBounded : List Channel → Type 0
IsBounded = All (λ c. length c.queue ≤ c.cap)

offer-IsBounded :
    (tx : Transaction) (c : Channel)
    → length c.queue ≤ c.cap
    → length (offer tx c).queue ≤ (offer tx c).cap
unfolding offer
offer-IsBounded tx c h = ground (arith, length-append c.queue (tx ∷ []))

offer_at-IsBounded :
    (i : ℕ) (tx : Transaction) (cs : List Channel) → IsBounded cs → IsBounded (offer_at i tx cs)
unfolding offer_at
offer_at-IsBounded i tx [] h = tt
offer_at-IsBounded zero tx (c ∷ cs) h = (offer-IsBounded tx c h.0, h.1)
offer_at-IsBounded (suc i) tx (c ∷ cs) h = (h.0, offer_at-IsBounded i tx cs h.1)

offer_level-IsBounded :
    (level : ℤ) (tx : Transaction) (cs : List Channel)
    → IsBounded cs
    → IsBounded (offer_level level tx cs)
unfolding offer_level
offer_level-IsBounded (pos i) tx cs h = offer_at-IsBounded i tx cs h
offer_level-IsBounded (negsuc i) tx cs h = h

add_tx-IsBounded :
    (tx : Transaction) (p : TxPool) → IsBounded p.channels → IsBounded (add_tx tx p).channels
unfolding add_tx
add_tx-IsBounded tx p h = elim (Bool-cases p.priority) [
  | inl leveled ↦ rw leveled (offer_level-IsBounded tx.level tx p.channels h)
  | inr plain ↦ rw plain (offer_at-IsBounded 0 tx p.channels h)
]

add_all-IsBounded :
    (txs : List Transaction) (p : TxPool)
    → IsBounded p.channels
    → IsBounded (add_all txs p).channels
unfolding add_all
add_all-IsBounded [] p h = h
add_all-IsBounded (tx ∷ txs) p h = add_all-IsBounded txs (add_tx tx p) (add_tx-IsBounded tx p h)

length-drop-le : (n : ℕ) (xs : List Transaction) → length (drop n xs) ≤ length xs
length-drop-le zero xs = omega arith
length-drop-le (suc n) [] = omega arith
length-drop-le (suc n) (x ∷ xs) = omega (arith, length-drop-le n xs)

length-take-le : (n : ℕ) (xs : List Transaction) → length (take n xs) ≤ n
length-take-le zero xs = omega arith
length-take-le (suc n) [] = omega arith
length-take-le (suc n) (x ∷ xs) = omega (arith, length-take-le n xs)

after_batch-IsBounded : (n : ℕ) (cs : List Channel) → IsBounded cs → IsBounded (after_batch n cs)
after_batch-IsBounded n [] h = tt
after_batch-IsBounded n (c ∷ cs) h = (
  omega (arith, length-drop-le n c.queue, h.0),
  after_batch-IsBounded (n - length c.queue) cs h.1,
)

packed-IsBounded :
    (arrivals : List (List Transaction)) (n : ℕ) (p : TxPool) (batch : List Transaction)
    (p' : TxPool)
    → (ch_length p).1 ≢ 0
    → IsBounded p.channels
    → commit_trs arrivals n p ≡ ok (batch, p')
    → IsBounded p'.channels × (length batch ≤ n)
packed-IsBounded arrivals n p batch p' ne h e =
    let same = ok-injective (sym (commit_trs_lem arrivals n p ne) ∙ e) in
    (
      subst (λ (q : TxPool). IsBounded q.channels)
          (ap (λ (r : List Transaction × TxPool). r.1) same) (after_batch-IsBounded n p.channels h),
      subst (λ (b : List Transaction). length b ≤ n)
          (ap (λ (r : List Transaction × TxPool). r.0) same)
          (length-take-le n (contents p.channels)),
    )

pub commit_trs_empty :
    (arrived : List Transaction) (later : List (List Transaction)) (n : ℕ) (p : TxPool)
    → ((ch_length p).1 == 0) ≡ true
    → commit_trs (arrived ∷ later) n p ≡ commit_trs later n (add_all arrived p)
unfolding commit_trs
commit_trs_empty arrived later n p h = rw h

commit_trs_waiting :
    (n : ℕ) (p : TxPool) → ((ch_length p).1 == 0) ≡ true → commit_trs [] n p ≡ blocked
unfolding commit_trs
commit_trs_waiting n p h = rw h

commit_trs-IsBounded :
    (arrivals : List (List Transaction)) (n : ℕ) (p : TxPool) (batch : List Transaction)
    (p' : TxPool)
    → IsBounded p.channels
    → commit_trs arrivals n p ≡ ok (batch, p')
    → IsBounded p'.channels × (length batch ≤ n)
commit_trs-IsBounded [] n p batch p' h e = elim (Bool-cases ((ch_length p).1 == 0)) [
  | inl empty ↦ cc (commit_trs_waiting n p empty)
  | inr some_tx ↦ packed-IsBounded [] n p batch p' (ground arith) h e
]
commit_trs-IsBounded (arrived ∷ later) n p batch p' h e = elim (Bool-cases ((ch_length p).1 == 0)) [
  | inl empty ↦
      commit_trs-IsBounded later n (add_all arrived p) batch p' (add_all-IsBounded arrived p h)
        (sym (commit_trs_empty arrived later n p empty) ∙ e)
  | inr some_tx ↦ packed-IsBounded (arrived ∷ later) n p batch p' (ground arith) h e
]

make_channels-IsBounded : (n : ℕ) → IsBounded (make_channels n)
unfolding make_channels
make_channels-IsBounded zero = tt
make_channels-IsBounded (suc n) = (omega arith, make_channels-IsBounded n)

new_tx_pool-IsBounded : (priority : Bool) (n : ℕ) → IsBounded (new_tx_pool priority n).channels
unfolding new_tx_pool
new_tx_pool-IsBounded true n = make_channels-IsBounded n
new_tx_pool-IsBounded false n = (omega arith, tt)

-- No channel ever holds more than its capacity: not in a new pool, not after AddTx of any
-- transaction, of a known level or not, and not after CommitTrs, however long it waits and whatever
-- arrives meanwhile; and no batch is larger than it was asked for.
pub bounds_kept :
    ((priority : Bool) (n : ℕ) → IsBounded (new_tx_pool priority n).channels)
    × ((tx : Transaction) (p : TxPool) → IsBounded p.channels → IsBounded (add_tx tx p).channels)
    × ((arrivals : List (List Transaction)) (n : ℕ) (p : TxPool) (batch : List Transaction)
          (p' : TxPool)
        → IsBounded p.channels
        → commit_trs arrivals n p ≡ ok (batch, p')
        → IsBounded p'.channels × (length batch ≤ n))
bounds_kept = (new_tx_pool-IsBounded, add_tx-IsBounded, commit_trs-IsBounded)

offered :
    (tx : Transaction) (c : Channel)
    → length c.queue < c.cap
    → offer tx c ≡ record c { queue = c.queue ++ tx ∷ [] }
unfolding offer
offered tx c h = ground arith

-- A pool with one channel for all.
abbrev pub plain_pool : Channel → TxPool
plain_pool c = record { channels = c ∷ []; priority = false }

pub add_tx_plain :
    (tx : Transaction) (c : Channel) → add_tx tx (plain_pool c) ≡ plain_pool (offer tx c)
unfolding add_tx offer_at
add_tx_plain tx c = refl

add_all_plain :
    (txs : List Transaction) (c : Channel)
    → length c.queue + length txs ≤ c.cap
    → add_all txs (plain_pool c) ≡ plain_pool (record c { queue = c.queue ++ txs })
unfolding add_all
add_all_plain [] c h = rw append-nil
add_all_plain (tx ∷ txs) c h =
    let c' : Channel = record c { queue = c.queue ++ tx ∷ [] } in
    ap (add_all txs) (add_tx_plain tx c ∙ ap plain_pool (offered tx c (omega arith)))
    ∙ add_all_plain txs c' (omega (arith, length-append c.queue (tx ∷ [])))
    ∙ ap (λ (q : List Transaction). plain_pool (record c { queue = q }))
        (append_assoc c.queue (tx ∷ []) txs)

-- The pool of a node without priorities is a queue: what is added while there is room comes out in
-- the order in which it was added, behind what was there, and the batch is at once the first
-- `tx_num` of it.
pub commit_trs-add_all :
    (arrivals : List (List Transaction)) (tx_num : ℕ) (txs : List Transaction) (c : Channel)
    → length c.queue + length txs ≤ c.cap
    → 0 < length c.queue + length txs
    → commit_trs arrivals tx_num (add_all txs (plain_pool c))
      ≡ ok (
        take tx_num (c.queue ++ txs),
        plain_pool (record c { queue = drop tx_num (c.queue ++ txs) }),
      )
unfolding ch_length
commit_trs-add_all arrivals tx_num txs c h some_tx =
    rw (add_all_plain txs c h)
      (commit_trs_lem arrivals tx_num _ (ground (arith, length-append c.queue txs)) ∙ rw append-nil)
