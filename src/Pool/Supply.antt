-- ===== src/Pool/Supply.antt =====
-- TxPool.go: a pool without priorities that gets a transaction does not keep CommitTrs waiting.
use frustum.Prelude.{
  ℕ, ◌+◌, ◌<◌, ◌≡◌, refl, ap, ◌∙◌, inl, inr, List, [], ◌∷◌, ◌==◌, arith, length, length-append,
  Bool-cases, ltb,
}
use frustum.Prelude.Outcome.{ok}
use frustum.Message.{Transaction}
use frustum.Pool.{Channel, TxPool, offer, add_all, ch_length, commit_trs}
use frustum.Pool.Order.{commit_trs_lem}
use frustum.Pool.Fill.{plain_pool, add_tx_plain, commit_trs_empty}

-- A pool of one channel, in which there is room for something.
abbrev pub IsPlain : TxPool → Type 0
IsPlain p = (c : Channel) × (p ≡ plain_pool c) × (0 < c.cap)

offer_room :
    (tx : Transaction) (c : Channel)
    → 0 < c.cap
    → (0 < length (offer tx c).queue) × ((offer tx c).cap ≡ c.cap)
unfolding offer
offer_room tx c room = elim (Bool-cases (ltb (length c.queue) c.cap)) [
  | inl free ↦ rw free (omega (arith, length-append c.queue (tx ∷ [])), refl)
  | inr full ↦ rw full (ground arith, refl)
]

add_all_more :
    (txs : List Transaction) (c : Channel)
    → 0 < c.cap
    → 0 < length c.queue
    → (c' : Channel) × (add_all txs (plain_pool c) ≡ plain_pool c')
      × (0 < c'.cap)
      × (0 < length c'.queue)
unfolding add_all
add_all_more [] c room some_tx = (c, refl, room, some_tx)
add_all_more (tx ∷ txs) c room some_tx =
    let (more, same) = offer_room tx c room in
    let (c', e, room', left) = add_all_more txs (offer tx c) (omega (arith, same)) more in
    (c', ap (add_all txs) (add_tx_plain tx c) ∙ e, room', left)

add_all_some :
    (tx : Transaction) (txs : List Transaction) (c : Channel)
    → 0 < c.cap
    → (c' : Channel) × (add_all (tx ∷ txs) (plain_pool c) ≡ plain_pool c')
      × (0 < c'.cap)
      × (0 < length c'.queue)
unfolding add_all
add_all_some tx txs c room =
    let (more, same) = offer_room tx c room in
    let (c', e, room', left) = add_all_more txs (offer tx c) (omega (arith, same)) more in
    (c', ap (add_all txs) (add_tx_plain tx c) ∙ e, room', left)

abbrev Commits : List (List Transaction) → ℕ → TxPool → Type 0
Commits arrivals tx_num p =
    (r : List Transaction × TxPool) × (commit_trs arrivals tx_num p ≡ ok r) × IsPlain r.1

commit_trs_some :
    (arrivals : List (List Transaction)) (tx_num : ℕ) (c : Channel)
    → 0 < c.cap
    → 0 < length c.queue
    → Commits arrivals tx_num (plain_pool c)
unfolding ch_length
commit_trs_some arrivals tx_num c room some_tx =
    (_, commit_trs_lem arrivals tx_num (plain_pool c) (omega arith), (_, refl, room))

-- CommitTrs on a pool of one channel with room, if at least one transaction arrives by the time that it
-- looks again, returns, and leaves such a pool.
pub commit_trs_supplied :
    (tx : Transaction) (txs : List Transaction) (later : List (List Transaction)) (tx_num : ℕ)
    (p : TxPool)
    → IsPlain p
    → Commits ((tx ∷ txs) ∷ later) tx_num p
unfolding ch_length
commit_trs_supplied tx txs later tx_num p (c, plain, room) =
    rw plain (elim (Bool-cases (length c.queue + 0 == 0)) [
      | inl empty ↦
          let (c', e, room', some_tx) = add_all_some tx txs c room in
          let (r, returned, left) = commit_trs_some later tx_num c' room' some_tx in
          (
            r,
            commit_trs_empty (tx ∷ txs) later tx_num (plain_pool c) empty
                ∙ ap (commit_trs later tx_num) e
                ∙ returned,
            left,
          )
      | inr more ↦ commit_trs_some ((tx ∷ txs) ∷ later) tx_num c room (ground arith)
    ])
