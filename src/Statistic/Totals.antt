-- ===== src/Statistic/Totals.antt =====
-- What Statistic of BlockChain/NetWork/Server.go counts over a run.
use frustum.Prelude.{
  ℕ, suc, ◌+◌, ◌/◌, ◌%◌, ◌<◌, ◌≡◌, refl, sym, ap, subst, ◌∙◌, List, [], ◌∷◌, ◌++◌, false, leb, ◌==◌,
  ==_iff, if◌then◌else◌, arith, length, length-append, Option, Bool-cases, inl, inr,
}
use frustum.Prelude.Outcome.{Outcome, ok, ◌>>=◌}
use frustum.Prelude.Ensures.{Ensures, returns, panics, Ensures-bind_with, Ensures-ok}
use frustum.Message.{Block, NodeMsg}
use frustum.Statistic.{
  Statistic, Count, two_64, new_statistic, stat_handle, stat_tick, latency_sum, handle_block,
  get_result,
}

-- What the goroutines of a server do with the statistics: a message at a time with its length, a tick,
-- and a block.
pub data Event : Type 0 where
  message : ℕ → NodeMsg → ℕ → Event
  tick : Event
  block : Block → Event

unfoldable pub stat_step : Event → Statistic → Outcome Statistic
stat_step (message now msg len) st = ok (stat_handle now msg len st).0
stat_step tick st = ok (stat_tick st)
stat_step (block b) st = handle_block b st

unfoldable pub stat_events : List Event → Statistic → Outcome Statistic
unfolding stat_step
stat_events [] st = ok st
stat_events (e ∷ es) st = stat_step e st >>= stat_events es

-- Every block of a run holds a transaction.
abbrev pub Filled : List Event → Type 0
Filled [] = Unit
Filled (block b ∷ es) = (0 < length b.block_body) × Filled es
Filled (e ∷ es) = Filled es

abbrev sum : List ℕ → ℕ
sum [] = 0
sum (v ∷ vs) = v + sum vs

sum-append : (xs ys : List ℕ) → sum (xs ++ ys) ≡ sum xs + sum ys
sum-append [] ys = omega arith
sum-append (x ∷ xs) ys = ground (arith, sum-append xs ys)

-- The bytes of the messages from height 1 on, and the transactions of the blocks.
abbrev pub traffic_of : List Event → ℕ
traffic_of [] = 0
traffic_of (message now msg len ∷ es) = (if leb 1 msg.block_height then len else 0) + traffic_of es
traffic_of (e ∷ es) = traffic_of es

abbrev pub txs_of : List Event → ℕ
txs_of [] = 0
txs_of (block b ∷ es) = length b.block_body + txs_of es
txs_of (e ∷ es) = txs_of es

abbrev pub blocks_of : List Event → ℕ
blocks_of [] = 0
blocks_of (block b ∷ es) = suc (blocks_of es)
blocks_of (e ∷ es) = blocks_of es

-- All traffic that was counted, in past periods and in this one.
abbrev pub all_traffic : Statistic → ℕ
all_traffic st = sum st.traffic.slice + st.traffic.counter

handle_traffic :
    (now : ℕ) (msg : NodeMsg) (len : ℕ) (st : Statistic)
    → ((stat_handle now msg len st).0.commit_tx ≡ st.commit_tx)
      × (all_traffic (stat_handle now msg len st).0 % two_64
          ≡ (all_traffic st + (if leb 1 msg.block_height then len else 0)) % two_64)
unfolding stat_handle
handle_traffic now msg len st = ground arith

tick_traffic : (st : Statistic) → (all_traffic (stat_tick st) ≡ all_traffic st)
unfolding stat_tick
tick_traffic st = ground (arith, sum-append st.traffic.slice (st.traffic.counter ∷ []))

-- The statistics after a run, compared with those before it.
abbrev pub Counts : List Event → Statistic → Statistic → Type 0
Counts es st st' =
    (all_traffic st' % two_64 ≡ (all_traffic st + traffic_of es) % two_64)
    × (st'.commit_tx.counter % two_64 ≡ (st.commit_tx.counter + txs_of es) % two_64)
    × (length st'.commit_tx.slice ≡ length st.commit_tx.slice + blocks_of es)

joined :
    (total middle before here later : ℕ)
    → total % two_64 ≡ (middle + later) % two_64
    → middle % two_64 ≡ (before + here) % two_64
    → total % two_64 ≡ (before + (here + later)) % two_64
joined total middle before here later h h' = omega arith

handle_block_lem :
    (b : Block) (st : Statistic)
    → 0 < length b.block_body
    → (st' : Statistic) × (handle_block b st ≡ ok st')
      × (st'.traffic ≡ st.traffic)
      × (st'.commit_tx.counter ≡ (st.commit_tx.counter + length b.block_body) % two_64)
      × (length st'.commit_tx.slice ≡ length st.commit_tx.slice + 1)
unfolding handle_block
handle_block_lem b st filled =
    let some_tx : (length b.block_body == 0) ≡ false =
      ground (arith, ==_iff (length b.block_body) 0) in
    rw some_tx (_, refl, refl, refl, length-append st.commit_tx.slice _)

-- Over any run of messages, ticks and blocks that hold a transaction, nothing panics, and the
-- statistics count, modulo 2^64, exactly: all bytes of the messages from height 1 on, in the finished
-- periods and the current one together, and all transactions of the blocks; and there is one latency
-- for each block.
pub stat_events-Counts :
    (es : List Event) (st : Statistic)
    → Filled es
    → (st' : Statistic) × (stat_events es st ≡ ok st') × Counts es st st'
unfolding stat_events stat_step stat_tick
stat_events-Counts [] st h = (st, refl, (omega arith, omega arith, omega arith))
stat_events-Counts (message now msg len ∷ es) st h =
    let st1 = (stat_handle now msg len st).0 in
    let (same, traffic) = handle_traffic now msg len st in
    let (st', e, (t, c, l)) = stat_events-Counts es st1 h in
    (
      st',
      e,
      (
        joined (all_traffic st') (all_traffic st1) (all_traffic st)
            (if leb 1 msg.block_height then len else 0) (traffic_of es) t traffic,
        c ∙ ap (λ (k : Count). (k.counter + txs_of es) % two_64) same,
        l ∙ ap (λ (k : Count). length k.slice + blocks_of es) same,
      ),
    )
stat_events-Counts (tick ∷ es) st h =
    let (st', e, (t, c, l)) = stat_events-Counts es (stat_tick st) h in
    (st', e, (t ∙ ap (λ (a : ℕ). (a + traffic_of es) % two_64) (tick_traffic st), c, l))
stat_events-Counts (block b ∷ es) st (filled, h) =
    let (st1, made, same, counted, longer) = handle_block_lem b st filled in
    let (st', e, (t, c, l)) = stat_events-Counts es st1 h in
    (
      st',
      rw made e,
      (
        t ∙ ap (λ (k : Count). (sum k.slice + k.counter + traffic_of es) % two_64) same,
        joined st'.commit_tx.counter st1.commit_tx.counter st.commit_tx.counter
            (length b.block_body) (txs_of es) c (rw counted (omega arith)),
        l ∙ rw longer (omega arith),
      ),
    )

-- There is a latency to average once a transaction was counted.
abbrev IsPaired : Statistic → Type 0
IsPaired st = length st.commit_tx.slice ≡ 0 → st.commit_tx.counter ≡ 0

handle_block-IsPaired : (b : Block) (st : Statistic) → Ensures IsPaired (handle_block b st)
unfolding handle_block
handle_block-IsPaired b st = elim (Bool-cases (length b.block_body == 0)) [
  | inl empty ↦ rw empty panics
  | inr filled ↦ rw filled (
      returns λ none_left. absurd (
        ground (
          arith,
          length-append st.commit_tx.slice
              (latency_sum b.time_stamp b.block_body 0 / length b.block_body ∷ []),
        )))
]

stat_events-IsPaired :
    (es : List Event) (st : Statistic) → IsPaired st → Ensures IsPaired (stat_events es st)
unfolding stat_events stat_step stat_tick
stat_events-IsPaired [] st p = returns p
stat_events-IsPaired (message now msg len ∷ es) st p =
    stat_events-IsPaired es (stat_handle now msg len st).0 (
      subst (λ (k : Count). length k.slice ≡ 0 → k.counter ≡ 0)
        (sym (handle_traffic now msg len st).0) p)
stat_events-IsPaired (tick ∷ es) st p = stat_events-IsPaired es (stat_tick st) p
stat_events-IsPaired (block b ∷ es) st p =
    Ensures-bind_with (handle_block b st) (handle_block-IsPaired b st)
      λ st1 p1. stat_events-IsPaired es st1 p1

get_result_lem : (st : Statistic) → IsPaired st → (r : Option ℕ × Option ℕ) × (get_result st ≡ ok r)
unfolding get_result
get_result_lem st p = elim (Bool-cases (st.commit_tx.counter == 0)) [
  | inl nothing ↦ rw nothing (_, refl)
  | inr counted ↦
      let averaged : (length st.commit_tx.slice == 0) ≡ false =
        ground (arith, p, ==_iff (length st.commit_tx.slice) 0, ==_iff st.commit_tx.counter 0) in
      rw (counted, averaged) (_, refl)
]

-- After any run from a new Statistic whose blocks all hold a transaction, GetResult returns: none of
-- its averages divides by zero.
pub get_result-stat_events :
    (es : List Event)
    → Filled es
    → (st : Statistic) × (r : Option ℕ × Option ℕ) × (stat_events es new_statistic ≡ ok st)
      × (get_result st ≡ ok r)
get_result-stat_events es h =
    let (st, e, _) = stat_events-Counts es new_statistic h in
    let (r, e') =
      get_result_lem st (Ensures-ok (stat_events-IsPaired es new_statistic (λ empty. refl)) e) in
    (st, r, e, e')
