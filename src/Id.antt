-- ===== src/Id.antt =====
-- BlockChain/ID/ID.go: node identities and their text "ShardID-InShardID", with what the code uses
-- of Go's strconv and strings packages. An int has 64 bits.
pub mod RoundTrip
pub mod Malformed
mod Tests
use frustum.Prelude.{
  ℕ, zero, suc, ◌+◌, ◌-◌, ◌*◌, ◌/◌, ◌%◌, ◌^◌, List, [], ◌∷◌, ◌++◌, Bool, true, false, ◌&&◌, ltb,
  leb, ◌==◌, if◌then◌else◌, ℤ, pos, negsuc, Bytes,
}
use frustum.Prelude.Outcome.{Outcome, ok, panic}

pub record NodeId : Type 0 where
  pub shard_id : ℤ
  pub in_shard_id : ℤ

-- The decimal digits of a number: strconv, with a digit for each round of its loop.
decimal_digits : ℕ → ℕ → Bytes
decimal_digits zero n = []
decimal_digits (suc f) n = elim (ltb n 10) [
  | true ↦ (b'0' + n) ∷ []
  | false ↦ decimal_digits f (n / 10) ++ (b'0' + n % 10) ∷ []
]

-- strconv.Itoa.
unfoldable pub itoa : ℤ → Bytes
unfolding decimal_digits
itoa (pos n) = decimal_digits (suc n) n
itoa (negsuc n) = b'-' ∷ decimal_digits (suc (suc n)) (suc n)

-- What strconv.ParseUint finds: a number, one that passes 64 bits, or a byte that is no digit.
pub data Scanned : Type 0 where
  number : ℕ → Scanned
  too_big bad_syntax : Scanned

scan : ℕ → Bytes → Scanned
scan n [] = number n
scan n (c ∷ s) =
    let n' = n * 10 + (c - b'0') in
    let rest = scan n' s in
    if leb b'0' c && leb c b'9' then (if ltb n' (2 ^ 64) then rest else too_big) else bad_syntax

-- strconv.Atoi on digits with no sign, at the sign `s`; on an error the value that it returns
-- beside it, which is all that StringToID keeps: 0, or the bound of int.
signed : Bool → Scanned → ℤ
signed false (number n) = if ltb n (2 ^ 63) then pos n else pos (2 ^ 63 - 1)
signed false too_big = pos (2 ^ 63 - 1)
signed true (number zero) = pos 0
signed true (number (suc n)) = if ltb n (2 ^ 63) then negsuc n else negsuc (2 ^ 63 - 1)
signed true too_big = negsuc (2 ^ 63 - 1)
signed _ bad_syntax = pos 0

magnitude : Bool → Bytes → ℤ
unfolding scan signed
magnitude negative [] = pos 0
magnitude negative (c ∷ s) = signed negative (scan 0 (c ∷ s))

unfoldable pub atoi : Bytes → ℤ
unfolding magnitude scan signed
atoi [] = pos 0
atoi (c ∷ s) =
    if c == b'-'
    then magnitude true s
    else if c == b'+'
    then magnitude false s
    else magnitude false (c ∷ s)

prepend : ℕ → List Bytes → List Bytes
prepend c [] = (c ∷ []) ∷ []
prepend c (part ∷ parts) = (c ∷ part) ∷ parts

-- strings.Split at one byte.
unfoldable pub split : ℕ → Bytes → List Bytes
unfolding prepend
split sep [] = [] ∷ []
split sep (c ∷ s) = let parts = split sep s in if c == sep then [] ∷ parts else prepend c parts

unfoldable pub to_string : NodeId → Bytes
to_string id = itoa id.shard_id ++ b'-' ∷ itoa id.in_shard_id

-- An index out of range is a panic.
from_parts : List Bytes → Outcome NodeId
from_parts (a ∷ b ∷ parts) = ok (record { shard_id = atoi a; in_shard_id = atoi b })
from_parts _ = panic

unfoldable pub string_to_id : Bytes → Outcome NodeId
unfolding from_parts split atoi
string_to_id s = from_parts (split b'-' s)
