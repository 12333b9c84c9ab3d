-- ===== src/Quorum/Buffer.antt =====
-- The buffer of Quorum.go across rounds.
use frustum.Prelude.{ℕ, suc, ◌<◌, List, [], ◌∷◌, ◌==◌, if◌then◌else◌}
use frustum.Float.{Float64}
use frustum.Message.{NodeMsg}
use frustum.Quorum.{Quorum, reset_count, handle}

-- What happens to a counter: a message, with the size of the shard at that moment, or a new round.
pub data Op : Type 0 where
  message : ℕ → NodeMsg → Op
  round : ℕ → Op

pub apply : Float64 → Op → Quorum → Quorum
apply f (message total m) q = (handle f total m q).0
apply f (round num) q = reset_count num q

pub apply_all : Float64 → List Op → Quorum → Quorum
unfolding apply
apply_all f [] q = q
apply_all f (op ∷ ops) q = apply_all f ops (apply f op q)

-- No operation starts round `num` or a later one.
abbrev pub Before : ℕ → List Op → Type 0
Before num [] = Unit
Before num (message total m ∷ ops) = Before num ops
Before num (round r ∷ ops) = (r < num) × Before num ops

-- How many messages of a round arrive.
abbrev pub arrivals : ℕ → List Op → ℕ
arrivals num [] = 0
arrivals num (message total m ∷ ops) =
    if m.block_height == num then suc (arrivals num ops) else arrivals num ops
arrivals num (round r ∷ ops) = arrivals num ops
