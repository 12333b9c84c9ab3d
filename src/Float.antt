-- ===== src/Float.antt =====
-- The float64 arithmetic of Handle in BlockChain/Consensus/PBFT/Quorum.go: the floor of a product
-- of an int and a non-negative float64, with the rounding of IEEE 754 (53 bits, ties to even).
pub mod Table
use frustum.Prelude.{
  ℕ, zero, suc, ◌+◌, ◌-◌, ◌*◌, ◌/◌, ◌%◌, ◌^◌, true, false, ltb, ◌==◌, if◌then◌else◌,
}

-- The value mantissa / 2 ^ scale.
pub record Float64 : Type 0 where
  pub mantissa : ℕ
  pub scale : ℕ

-- How many low bits a number has to lose to fit 53 bits.
excess : ℕ → ℕ → ℕ
excess zero p = 0
excess (suc f) p = elim (ltb p (2 ^ 53)) [ true ↦ 0 | false ↦ suc (excess f (p / 2)) ]

-- The quotient nearest to p / step, the even one if two are.
nearest : ℕ → ℕ → ℕ
nearest p step =
    let q = p / step in
    let r = 2 * (p % step) in if ltb r step then q else if r == step then q + q % 2 else q + 1

-- The float64 nearest to a whole number. Products of an int and a mantissa lie below 2 ^ 116, so
-- that 128 rounds find the excess.
pub round_float : ℕ → ℕ
unfolding excess nearest
round_float p = let step = 2 ^ excess 128 p in nearest p step * step

-- int(math.Floor(float64(n) * x))
unfoldable pub floor_mul : ℕ → Float64 → ℕ
unfolding round_float
floor_mul n x = round_float (round_float n * x.mantissa) / 2 ^ x.scale

-- The constant Malicious = float64(1) / 3 of BlockChain/Consensus/frustum/Node.go.
abbrev pub malicious : Float64
malicious = record { mantissa = 6004799503160661; scale = 54 }

-- The constant QuorumPercentage = 0.5 of BlockChain/Consensus/SS-PBFT-V1/ConsensusFunc.go.
abbrev pub quorum_percentage : Float64
quorum_percentage = record { mantissa = 4503599627370496; scale = 53 }
