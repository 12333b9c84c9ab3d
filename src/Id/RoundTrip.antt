-- ===== src/Id/RoundTrip.antt =====
-- Printing an identity and reading it back.
use frustum.Prelude.{
  ℕ, zero, suc, ◌+◌, ◌-◌, ◌*◌, ◌/◌, ◌%◌, ◌^◌, ◌≤◌, ◌<◌, ◌≡◌, ◌≢◌, refl, ap, ◌∙◌, inl, inr, [], ◌∷◌,
  ◌++◌, ltb, arith, ℤ, pos, negsuc, Bytes, All, All-append, Bool-cases,
}
use frustum.Prelude.Outcome.{ok}
use frustum.Id.{NodeId, decimal_digits, itoa, number, scan, atoi, split, to_string, string_to_id}

scan-append_digit :
    (s : Bytes) (n m d : ℕ)
    → d < 10
    → scan n s ≡ number m
    → m * 10 + d < 2 ^ 64
    → scan n (s ++ (b'0' + d) ∷ []) ≡ number (m * 10 + d)
unfolding scan
scan-append_digit [] n m d h e b = ground arith
scan-append_digit (c ∷ s) n m d h e b =
    ground (arith, scan-append_digit s (n * 10 + (c - b'0')) m d)

scan-decimal_digits : (f n : ℕ) → n < f → n < 2 ^ 64 → scan 0 (decimal_digits f n) ≡ number n
unfolding decimal_digits
scan-decimal_digits zero n h b = absurd (omega arith)
scan-decimal_digits (suc f) n h b = elim (Bool-cases (ltb n 10)) [
  | inl e ↦ rw (e, decimal_digits) (unfold scan in ground arith)
  | inr e ↦
      rw (e, decimal_digits)
        (scan-append_digit (decimal_digits f (n / 10)) 0 (n / 10) (n % 10) (omega arith)
            (scan-decimal_digits f (n / 10) (ground arith) (omega arith)) (omega arith)
          ∙ ap number (omega arith))
]

abbrev IsDigit : ℕ → Type 0
IsDigit c = (b'0' ≤ c) × (c ≤ b'9')

append_digit-ne-nil : (s : Bytes) (d : ℕ) → s ++ (b'0' + d) ∷ [] ≢ []
append_digit-ne-nil [] d = cc
append_digit-ne-nil (c ∷ s) d = cc

decimal_digits-IsDigit : (f n : ℕ) → All IsDigit (decimal_digits f n)
unfolding decimal_digits
decimal_digits-IsDigit zero n = tt
decimal_digits-IsDigit (suc f) n = elim (Bool-cases (ltb n 10)) [
  | inl e ↦ rw (e, decimal_digits) ((omega arith, ground arith), tt)
  | inr e ↦
      rw (e, decimal_digits)
        (All-append IsDigit (decimal_digits f (n / 10)) ((b'0' + n % 10) ∷ [])
          (decimal_digits-IsDigit f (n / 10)) (omega arith))
]

atoi_digits :
    (s : Bytes) (n : ℕ) → s ≢ [] → All IsDigit s → scan 0 s ≡ number n → n < 2 ^ 63 → atoi s ≡ pos n
unfolding atoi
atoi_digits [] n ne h e b = absurd (ne refl)
atoi_digits (c ∷ s) n ne h e b = ground arith

split_digits : (s : Bytes) → All IsDigit s → split b'-' s ≡ s ∷ []
unfolding split
split_digits [] h = refl
split_digits (c ∷ s) h = ground (arith, split_digits s)

split_digits_dash :
    (s rest : Bytes) → All IsDigit s → split b'-' (s ++ b'-' ∷ rest) ≡ s ∷ split b'-' rest
unfolding split
split_digits_dash [] rest h = refl
split_digits_dash (c ∷ s) rest h = ground (arith, split_digits_dash s rest)

decimal_digits-ne-nil : (f n : ℕ) → decimal_digits (suc f) n ≢ []
unfolding decimal_digits
decimal_digits-ne-nil f n = ground (arith, append_digit-ne-nil (decimal_digits f (n / 10)) (n % 10))

abbrev pub of_ints : ℤ → ℤ → NodeId
of_ints a b = record { shard_id = a; in_shard_id = b }

itoa-IsDigit : (n : ℕ) → All IsDigit (itoa (pos n))
unfolding itoa
itoa-IsDigit n = decimal_digits-IsDigit (suc n) n

-- strconv.Atoi reads what strconv.Itoa printed.
pub atoi-itoa : (n : ℕ) → n < 2 ^ 63 → atoi (itoa (pos n)) ≡ pos n
unfolding itoa
atoi-itoa n h =
    atoi_digits (decimal_digits (suc n) n) n (decimal_digits-ne-nil n n)
      (decimal_digits-IsDigit (suc n) n) (scan-decimal_digits (suc n) n (omega arith) (omega arith))
      h

-- The identity of two ints that are not negative is read back as it was printed.
pub string_to_id-to_string :
    (a b : ℕ)
    → a < 2 ^ 63
    → b < 2 ^ 63
    → let id = of_ints (pos a) (pos b) in string_to_id (to_string id) ≡ ok id
unfolding to_string string_to_id
string_to_id-to_string a b ha hb = rw (
  split_digits_dash (itoa (pos a)) (itoa (pos b)) (itoa-IsDigit a),
  split_digits (itoa (pos b)) (itoa-IsDigit b),
  atoi-itoa a ha,
  atoi-itoa b hb,
)

itoa_negsuc : (n : ℕ) → itoa (negsuc n) ≡ b'-' ∷ itoa (pos (suc n))
unfolding itoa
itoa_negsuc n = refl

atoi_nil : atoi [] ≡ pos 0
unfolding atoi
atoi_nil = refl

split_dash : (s : Bytes) → split b'-' (b'-' ∷ s) ≡ [] ∷ split b'-' s
unfolding split
split_dash s = refl

-- The identity of a negative shard, whose absolute value fits, and of a number within it that is
-- not negative is read back as shard 0, with the shard's absolute value as the number within it.
pub string_to_id-to_string_negative :
    (n b : ℕ)
    → n + 1 < 2 ^ 63
    → string_to_id (to_string (of_ints (negsuc n) (pos b))) ≡ ok (of_ints (pos 0) (pos (suc n)))
unfolding to_string string_to_id
string_to_id-to_string_negative n b h =
    let digits = itoa (pos (suc n)) in
    let parts : split b'-' (itoa (negsuc n) ++ b'-' ∷ itoa (pos b))
        ≡ [] ∷ digits ∷ itoa (pos b) ∷ [] =
      ap (λ (x : Bytes). split b'-' (x ++ b'-' ∷ itoa (pos b))) (itoa_negsuc n)
      ∙ split_dash (digits ++ b'-' ∷ itoa (pos b))
      ∙ ap (◌∷◌ []) (
          split_digits_dash digits (itoa (pos b)) (itoa-IsDigit (suc n))
          ∙ ap (◌∷◌ digits) (split_digits (itoa (pos b)) (itoa-IsDigit b))) in
    rw parts (rw (atoi_nil, atoi-itoa (suc n) (omega arith)))
