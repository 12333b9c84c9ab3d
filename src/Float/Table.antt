-- ===== src/Float/Table.antt =====
-- The values of the product by a third, by evaluation.
use frustum.Prelude.{
  ℕ, zero, suc, ◌/◌, ◌<◌, ◌≡◌, refl, Bool, true, false, if◌then◌else◌, arith, ◌==◌, ==_iff,
}
use frustum.Float.{floor_mul, malicious}

-- Whether the product is the quotient for the `k` numbers before `k`.
exact_before : ℕ → Bool
exact_before zero = true
exact_before (suc k) = if floor_mul k malicious == k / 3 then exact_before k else false

exact_before_lem :
    (bound n : ℕ) → exact_before bound ≡ true → n < bound → floor_mul n malicious ≡ n / 3
unfolding exact_before
exact_before_lem zero n checked below = absurd (omega arith)
exact_before_lem (suc k) n checked below =
    ground (arith, ==_iff (floor_mul n malicious) (n / 3), exact_before_lem k n)

exact_to_2048 : exact_before 2048 ≡ true
unfolding exact_before floor_mul
exact_to_2048 = refl

-- The float product loses nothing for shards of fewer than 2048 members.
pub floor_mul-malicious : (n : ℕ) → n < 2048 → floor_mul n malicious ≡ n / 3
floor_mul-malicious n h = exact_before_lem 2048 n exact_to_2048 h
