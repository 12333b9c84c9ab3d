-- ===== src/Id/Malformed.antt =====
-- Texts that are no identity.
use frustum.Prelude.{
  ℕ, ◌≡◌, ap, ◌↔◌, ◌⊎◌, refl, List, [], ◌∷◌, Bool, true, false, ◌==◌, if◌then◌else◌, Bytes,
  Bool-cases, inl, inr,
}
use frustum.Prelude.Outcome.{panic}
use frustum.Id.{from_parts, split, string_to_id}

-- Whether a byte occurs in a text.
abbrev pub has_byte : ℕ → Bytes → Bool
has_byte b [] = false
has_byte b (c ∷ s) = if c == b then true else has_byte b s

-- The parts of a text, with and without a dash.
parts_cases :
    (s : Bytes)
    → ((has_byte b'-' s ≡ false) × (split b'-' s ≡ s ∷ []))
      ⊎ ((a : Bytes) × (b : Bytes) × (r : List Bytes) × (has_byte b'-' s ≡ true)
          × (split b'-' s ≡ a ∷ b ∷ r))
unfolding split
parts_cases [] = inl (refl, refl)
parts_cases (c ∷ s) = elim (Bool-cases (c == b'-')) [
  | inl dash ↦ elim (parts_cases s) [
    | inl (lacks, e) ↦ inr ([], s, [], rw dash, rw (dash, split, e))
    | inr (a, b, r, has, e) ↦ inr ([], a, b ∷ r, rw dash, rw (dash, split, e))
  ]
  | inr other ↦ elim (parts_cases s) [
    | inl (lacks, e) ↦ inl (rw other lacks, rw (other, split, e))
    | inr (a, b, r, has, e) ↦ inr (c ∷ a, b, r, rw other has, rw (other, split, e))
  ]
]

-- StringToID panics exactly on the texts that have no dash.
pub string_to_id-panic : (s : Bytes) → (string_to_id s ≡ panic) ↔ (has_byte b'-' s ≡ false)
unfolding string_to_id
string_to_id-panic s = elim (parts_cases s) [
  | inl (lacks, e) ↦ ((λ _. lacks), (λ _. rw e))
  | inr (a, b, r, has, e) ↦ ((λ p. cc (ap from_parts e, p)), (λ l. cc))
]
