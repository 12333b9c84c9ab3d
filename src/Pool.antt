-- ===== src/Pool.antt =====
-- BlockChain/TxPool/TxPool.go: the transaction pool, a buffered channel for each level. A channel is
-- the queue of what it holds, the oldest first, with its capacity; the map of channels is the list
-- of those under the keys 0, 1, and so on, which are the keys that NewTxPool makes.
pub mod Order
pub mod Fill
pub mod Supply
mod Tests
use frustum.Prelude.{
  ℕ, zero, suc, ◌+◌, ◌-◌, ◌*◌, ◌^◌, List, [], ◌∷◌, ◌++◌, Bool, true, false, ltb, leb, ◌==◌,
  if◌then◌else◌, ℤ, pos, negsuc, length, take, drop,
}
use frustum.Prelude.Outcome.{Outcome, ok, blocked, ◌>>=◌}
use frustum.Message.{Transaction}

abbrev pub tc_pool_ch_length : ℕ
tc_pool_ch_length = 2 ^ 20

pub record Channel : Type 0 where
  pub queue : List Transaction
  pub cap : ℕ

pub record TxPool : Type 0 where
  pub channels : List Channel
  pub priority : Bool

make_channels : ℕ → List Channel
make_channels zero = []
make_channels (suc n) = record { queue = []; cap = tc_pool_ch_length } ∷ make_channels n

unfoldable pub new_tx_pool : Bool → ℕ → TxPool
unfolding make_channels
new_tx_pool priority priority_num = record {
  channels =
      if priority
      then make_channels priority_num
      else record { queue = []; cap = tc_pool_ch_length * priority_num } ∷ [];
  priority = priority;
}

-- PoolLength: LevelLength, and the sum of it.
abbrev pub level_length : List Channel → List ℕ
level_length [] = []
level_length (c ∷ cs) = length c.queue ∷ level_length cs

abbrev pub total_length : List ℕ → ℕ
total_length [] = 0
total_length (v ∷ vs) = v + total_length vs

unfoldable pub ch_length : TxPool → List ℕ × ℕ
ch_length p = let lengths = level_length p.channels in (lengths, total_length lengths)

-- A send that is dropped when the channel is full.
pub offer : Transaction → Channel → Channel
offer tx c = if ltb (length c.queue) c.cap then record c { queue = c.queue ++ tx ∷ [] } else c

-- A key that no channel has gives a nil channel, to which nothing is sent.
offer_at : ℕ → Transaction → List Channel → List Channel
offer_at i tx [] = []
offer_at zero tx (c ∷ cs) = offer tx c ∷ cs
offer_at (suc i) tx (c ∷ cs) = c ∷ offer_at i tx cs

offer_level : ℤ → Transaction → List Channel → List Channel
offer_level (pos i) tx cs = offer_at i tx cs
offer_level (negsuc i) tx cs = cs

unfoldable pub add_tx : Transaction → TxPool → TxPool
unfolding offer_level offer_at offer
add_tx tx p =
    if p.priority
    then record p { channels = offer_level tx.level tx p.channels }
    else record p { channels = offer_at 0 tx p.channels }

-- The loop of LengthCompare, at the level `k`.
compare_from : ℕ → ℕ → ℕ → List ℕ → ℕ
compare_from count k tr_num [] = k
compare_from count k tr_num (v ∷ vs) =
    if leb tr_num (count + v) then k else compare_from (count + v) (k + 1) tr_num vs

unfoldable pub length_compare : List ℕ → ℕ → ℕ
unfolding compare_from
length_compare lengths tr_num = compare_from 0 0 tr_num lengths

-- `n` receives from a channel, which wait when it is empty.
receive : ℕ → Channel → Outcome (List Transaction × Channel)
receive n c =
    if leb n (length c.queue)
    then ok (take n c.queue, record c { queue = drop n c.queue })
    else blocked

-- Receives from the channels 0, 1, and so on, as many as the numbers say.
receive_each : List ℕ → List Channel → Outcome (List Transaction × List Channel)
receive_each [] cs = ok ([], cs)
receive_each (v ∷ vs) [] = blocked
receive_each (v ∷ vs) (c ∷ cs) =
    let rest = receive_each vs cs in
    do first ← receive v c; others ← rest; ok (first.0 ++ others.0, first.1 ∷ others.1)

-- The loop of the last case: all of each level before `num`, and of `num` what is left to take. The
-- difference is never negative, and a negative bound would make no round either.
shares : ℕ → ℕ → List ℕ → List ℕ
shares zero left lengths = left ∷ []
shares (suc num) left [] = []
shares (suc num) left (v ∷ vs) = v ∷ shares num (left - v) vs

-- The three cases of the switch.
batch_shares : ℕ → ℕ → List ℕ → List ℕ
batch_shares zero tx_num lengths = tx_num ∷ []
batch_shares (suc num) tx_num lengths =
    if suc num == length lengths then lengths else shares (suc num) tx_num lengths

with_channels : TxPool → List Transaction × List Channel → List Transaction × TxPool
with_channels p (batch, cs) = (batch, record p { channels = cs })

-- What CommitTrs does with a pool that holds something.
pack : ℕ → TxPool → Outcome (List Transaction × TxPool)
pack tx_num p = do
  r ←
      receive_each (batch_shares (length_compare (ch_length p).0 tx_num) tx_num (ch_length p).0)
        p.channels
  ok (with_channels p r)

unfoldable pub add_all : List Transaction → TxPool → TxPool
add_all [] p = p
add_all (tx ∷ txs) p = add_all txs (add_tx tx p)

-- CommitTrs calls itself until the pool holds something. The list tells what other goroutines add
-- after each call that finds the pool empty: when it ends with the pool still empty, the call still waits. What they
-- add while a batch is received comes behind it in each channel, and stays there.
unfoldable pub commit_trs :
    List (List Transaction) → ℕ → TxPool → Outcome (List Transaction × TxPool)
unfolding pack receive_each receive batch_shares shares with_channels add_all
commit_trs [] tx_num p = if (ch_length p).1 == 0 then blocked else pack tx_num p
commit_trs (arrived ∷ later) tx_num p =
    if (ch_length p).1 == 0 then commit_trs later tx_num (add_all arrived p) else pack tx_num p
