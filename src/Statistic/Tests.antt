-- ===== src/Statistic/Tests.antt =====
-- Statistic of BlockChain/NetWork/Server.go at concrete inputs.
use frustum.Prelude.{ℕ, ◌≡◌, refl, List, [], ◌∷◌, arith, pos, codes, Option}
use frustum.Prelude.Outcome.{ok, panic}
use frustum.Message.{Transaction, Block, NodeMsg, MsgType, null, pre_prepare, prepare}
use frustum.Statistic.{Statistic, new_statistic, latency, handle_block, get_result}
use frustum.Statistic.Totals.{
  Event, message, tick, block, stat_events, Counts, stat_events-Counts, get_result-stat_events,
}

abbrev tx_at : ℕ → Transaction
tx_at t = record {
  time_stamp = t;
  level = pos 0;
  from = pos 0;
  to = pos 0;
  payload = [];
  hash = [];
  orig_hash = [];
}

abbrev block_at : ℕ → List Transaction → Block
block_at t txs = record {
  time_stamp = t;
  block_height = 1;
  miner = [];
  pre_block_hash = [];
  block_hash = [];
  block_body = txs;
}

abbrev at_height : ℕ → MsgType → NodeMsg
at_height h t = record {
  time_stamp = 0;
  from = codes "0-1";
  to = codes "0-2";
  msg_type = t;
  msg_body = null;
  epoch_num = 0;
  block_height = h;
  consensus_type = [];
}

abbrev events : List Event
events =
    message 3 (at_height 1 pre_prepare) 100
    ∷ message 4 (at_height 0 prepare) 50
    ∷ tick
    ∷ block (block_at 9000000 (tx_at 1000000 ∷ tx_at 3000000 ∷ []))
    ∷ message 5 (at_height 1 prepare) 20
    ∷ []

empty_block : handle_block (block_at 1 []) new_statistic ≡ panic
unfolding handle_block
empty_block = refl

average_latency : latency 9000000 3000000 ≡ 6
unfolding latency
average_latency = refl

stat_events-Counts_example :
    (st : Statistic) × (stat_events events new_statistic ≡ ok st) × Counts events new_statistic st
stat_events-Counts_example = stat_events-Counts events new_statistic (omega arith, tt)

get_result-stat_events_example :
    (st : Statistic) × (r : Option ℕ × Option ℕ) × (stat_events events new_statistic ≡ ok st)
    × (get_result st ≡ ok r)
get_result-stat_events_example = get_result-stat_events events (omega arith, tt)
