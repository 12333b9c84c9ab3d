-- ===== src/Statistic.antt =====
-- Statistic of BlockChain/NetWork/Server.go: the traffic and the committed transactions of a run. A
-- counter is a uint64 and a time is in nanoseconds; the goroutine of Run is its two cases, a tick
-- and the end. The quotients that GetResult only prints as decimals are left out.
pub mod Totals
mod Tests
use frustum.Prelude.{
  ℕ, zero, suc, ◌+◌, ◌-◌, ◌/◌, ◌%◌, ◌^◌, ◌*◌, List, [], ◌∷◌, ◌++◌, Bool, true, false, not, ◌&&◌,
  ltb, leb, ◌==◌, if◌then◌else◌, length, Option, none, some,
}
use frustum.Prelude.Outcome.{Outcome, ok, panic, ◌>>=◌}
use frustum.Message.{Transaction, Block, NodeMsg, MsgType, pre_prepare}

abbrev pub two_64 : ℕ
two_64 = 2 ^ 64

pub record Count : Type 0 where
  pub counter : ℕ
  pub slice : List ℕ

abbrev pub new_count : Count
new_count = record { counter = 0; slice = [] }

-- Neither time is read before it is set, but by GetResult.
pub record Statistic : Type 0 where
  pub start_time : Option ℕ
  pub end_time : Option ℕ
  pub commit_tx : Count
  pub traffic : Count
  pub run_for_once : Bool

abbrev pub new_statistic : Statistic
new_statistic = record {
  start_time = none;
  end_time = none;
  commit_tx = new_count;
  traffic = new_count;
  run_for_once = false;
}

is_pre_prepare : MsgType → Bool
is_pre_prepare pre_prepare = true
is_pre_prepare _ = false

-- The statistic afterwards, and whether a goroutine of Run was started.
unfoldable pub stat_handle : ℕ → NodeMsg → ℕ → Statistic → Statistic × Bool
unfolding is_pre_prepare
stat_handle now msg len st =
    if leb 1 msg.block_height
    then (let st' = record st {
      traffic = record st.traffic { counter = (st.traffic.counter + len) % two_64 };
    } in
        if is_pre_prepare msg.msg_type && msg.block_height == 1 && not st.run_for_once
        then (record st' { start_time = some now }, true)
        else (st', false))
    else (st, false)

-- Run as it is entered: whether it goes on to its loop.
unfoldable pub stat_run : Statistic → Statistic × Bool
stat_run st = if st.run_for_once then (st, false) else (record st { run_for_once = true }, true)

-- A tick of the loop.
unfoldable pub stat_tick : Statistic → Statistic
stat_tick st = record st {
  traffic = record { slice = st.traffic.slice ++ st.traffic.counter ∷ []; counter = 0 };
}

-- The quotient of two int64 toward zero, of a difference of a and b, as a uint64: a negative one wraps.
unfoldable pub latency : ℕ → ℕ → ℕ
latency block_time tx_time =
    if leb tx_time block_time
    then (block_time - tx_time) / 10 ^ 6
    else (two_64 - (tx_time - block_time) / 10 ^ 6) % two_64

latency_sum : ℕ → List Transaction → ℕ → ℕ
latency_sum block_time [] sum = sum
latency_sum block_time (tx ∷ txs) sum =
    latency_sum block_time txs ((sum + latency block_time tx.time_stamp) % two_64)

-- The division is by the number of transactions, and panics when there are none.
unfoldable pub handle_block : Block → Statistic → Outcome Statistic
unfolding latency_sum latency
handle_block block st =
    let tx_num = length block.block_body in
    if tx_num == 0
    then panic
    else ok (record st {
      commit_tx = record {
        counter = (st.commit_tx.counter + tx_num) % two_64;
        slice = st.commit_tx.slice ++ latency_sum block.time_stamp block.block_body 0 / tx_num ∷ [];
      };
    })

wrapped_sum : List ℕ → ℕ → ℕ
wrapped_sum [] sum = sum
wrapped_sum (v ∷ vs) sum = wrapped_sum vs ((sum + v) % two_64)

-- What GetResult prints as averages: of the latency, if anything was committed, and of the traffic.
unfoldable pub get_result : Statistic → Outcome (Option ℕ × Option ℕ)
unfolding wrapped_sum
get_result st = do
  average ←
      (if st.commit_tx.counter == 0
        then ok none
        else if length st.commit_tx.slice == 0
        then panic
        else ok (some (wrapped_sum st.commit_tx.slice 0 / length st.commit_tx.slice)))
  ok (
    average,
    if length st.traffic.slice == 0
        then none
        else some (wrapped_sum st.traffic.slice 0 / length st.traffic.slice),
  )
