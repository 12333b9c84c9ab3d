-- ===== src/Id/Tests.antt =====
-- Identities of ID.go, and the theorems at concrete inputs.
use frustum.Prelude.{◌≡◌, ◌↔◌, refl, false, arith, pos, codes}
use frustum.Prelude.Outcome.{ok, panic}
use frustum.Id.{atoi, split, to_string, itoa, string_to_id}
use frustum.Id.RoundTrip.{of_ints, string_to_id-to_string}
use frustum.Id.Malformed.{has_byte, string_to_id-panic}

printed : to_string (of_ints (pos 12) (pos 345)) ≡ codes "12-345"
unfolding to_string itoa
printed = refl

read_back : string_to_id (codes "7-3-x") ≡ ok (of_ints (pos 7) (pos 3))
unfolding string_to_id split atoi
read_back = refl

saturated : atoi (codes "99999999999999999999x") ≡ pos 9223372036854775807
unfolding atoi
saturated = refl

string_to_id-to_string_example :
    string_to_id (to_string (of_ints (pos 12) (pos 345))) ≡ ok (of_ints (pos 12) (pos 345))
string_to_id-to_string_example = string_to_id-to_string 12 345 (omega arith) (omega arith)

string_to_id-panic_example :
    (string_to_id (codes "17") ≡ panic) ↔ (has_byte b'-' (codes "17") ≡ false)
string_to_id-panic_example = string_to_id-panic (codes "17")
