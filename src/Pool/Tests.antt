-- ===== src/Pool/Tests.antt =====
-- The pool of TxPool.go at concrete inputs.
use frustum.Prelude.{ℕ, ◌≡◌, refl, [], ◌∷◌, true, arith, pos, take, drop}
use frustum.Prelude.Outcome.{ok, blocked}
use frustum.Message.{Transaction}
use frustum.Pool.{
  Channel, TxPool, ch_length, add_tx, add_all, length_compare, commit_trs, new_tx_pool,
}
use frustum.Pool.Order.{contents, caps, commit_trs-contents}
use frustum.Pool.Fill.{plain_pool, commit_trs-add_all}

abbrev tx_of : ℕ → ℕ → Transaction
tx_of t level = record {
  time_stamp = t;
  level = pos level;
  from = pos 0;
  to = pos 0;
  payload = [];
  hash = [];
  orig_hash = [];
}

abbrev leveled : TxPool
leveled = record {
  channels =
      record { queue = tx_of 1 0 ∷ []; cap = 4 }
      ∷ record { queue = tx_of 2 1 ∷ tx_of 3 1 ∷ []; cap = 4 }
      ∷ record { queue = tx_of 4 2 ∷ []; cap = 4 }
      ∷ [];
  priority = true;
}

abbrev plain : Channel
plain = record { queue = tx_of 9 0 ∷ []; cap = 4 }

by_level :
    commit_trs [] 2 leveled
    ≡ ok (
      tx_of 1 0 ∷ tx_of 2 1 ∷ [],
      record leveled {
        channels =
            record { queue = []; cap = 4 }
            ∷ record { queue = tx_of 3 1 ∷ []; cap = 4 }
            ∷ record { queue = tx_of 4 2 ∷ []; cap = 4 }
            ∷ [];
      },
    )
unfolding commit_trs ch_length length_compare
by_level = refl

unknown_level : add_tx (tx_of 5 7) leveled ≡ leveled
unfolding add_tx
unknown_level = refl

still_waiting : commit_trs ([] ∷ []) 2 (new_tx_pool true 3) ≡ blocked
unfolding commit_trs ch_length new_tx_pool
still_waiting = refl

commit_trs-contents_example :
    (p' : TxPool) × (commit_trs [] 2 leveled ≡ ok (take 2 (contents leveled.channels), p'))
    × (contents p'.channels ≡ drop 2 (contents leveled.channels))
    × (caps p'.channels ≡ caps leveled.channels)
    × (p'.priority ≡ true)
unfolding ch_length
commit_trs-contents_example = commit_trs-contents [] 2 leveled (omega arith)

commit_trs-add_all_example :
    commit_trs [] 2 (add_all (tx_of 1 0 ∷ tx_of 2 0 ∷ []) (plain_pool plain))
    ≡ ok (tx_of 9 0 ∷ tx_of 1 0 ∷ [], plain_pool (record plain { queue = tx_of 2 0 ∷ [] }))
commit_trs-add_all_example =
    commit_trs-add_all [] 2 (tx_of 1 0 ∷ tx_of 2 0 ∷ []) plain (omega arith) (omega arith)
