-- ===== src/Archive/Values.antt =====
-- Tests that the first version makes on values of a JSON object.
use nitzan_shinnies_inspecti.Prelude.{ℕ, ◌*◌, ◌^◌, String, Bool, true, false, Option, none, some}
use nitzan_shinnies_inspecti.Prelude.Int.{ℤ, pos, ℤ-eq}
use nitzan_shinnies_inspecti.Prelude.Eq.{◌==◌, ℕ-eq, String-eq, pair_eq}
use nitzan_shinnies_inspecti.Json.{Json, null, bool, int, real, str}

-- isinstance(v, int), with the value; a bool is an int
abbrev pub int_value : Option Json → Option ℤ
int_value (some (int n)) = some n
int_value (some (bool true)) = some (pos 1)
int_value (some (bool false)) = some (pos 0)
int_value _ = none

abbrev pub is_text : Option Json → Bool
is_text (some (str s)) = true
is_text _ = false

-- v == s, for a text s
abbrev pub text_is : String → Option Json → Bool
text_is s (some (str t)) = t == s
text_is s _ = false

-- v == n, for an integer n above 1: a number with a point may be equal to it
abbrev pub equals_int : ℕ → Option Json → Bool
equals_int n (some (int m)) = m == pos n
equals_int n (some (real m k)) = m == pos (n * 10 ^ k)
equals_int n _ = false

-- v is not None
abbrev pub is_present : Option Json → Bool
is_present none = false
is_present (some null) = false
is_present (some v) = true
