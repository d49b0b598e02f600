-- ===== src/Archive/Keys.antt =====
-- Object keys of the first version: worker/pending_record.py, the terminal keys of
-- health_monitor/reconcile.py, and persistence/key_policy.py, under
-- v1_obsolete/project/src/inspectio_exercise.
use Prim.Native.Char.{Char, code}
use Prim.Native.String.{String, [], ◌∷◌}
use mathlib.Core.List.{List, [], ◌∷◌}
use nitzan_shinnies_inspecti.Prelude.{
  ℕ, zero, suc, Bool, true, false, ◌&&◌, ◌||◌, Option, none, some, eqb, if◌then◌else◌,
}
use nitzan_shinnies_inspecti.Prelude.Eq.{◌==◌, String-eq}
use nitzan_shinnies_inspecti.Prelude.Int.{ℤ, pos, ltb_ℤ}
use nitzan_shinnies_inspecti.Prelude.Result.{Done, value_error, ◌>>◌, raise_if}

abbrev pub is_slash : Char → Bool
is_slash c = eqb (code c) 47

-- a character before the first of some parts
abbrev pub begin_part : Char → List String → List String
begin_part c [] = (c ∷ []) ∷ []
begin_part c (p ∷ ps) = (c ∷ p) ∷ ps

-- s.split("/")
unfoldable pub split_slash : String → List String
split_slash [] = [] ∷ []
split_slash (c ∷ s) =
    let parts = split_slash s in if is_slash c then [] ∷ parts else begin_part c parts

-- s.rsplit("/", maxsplit=1)[-1]
abbrev pub last_part : List String → String
last_part [] = []
last_part (p ∷ []) = p
last_part (p ∷ q ∷ ps) = last_part (q ∷ ps)

abbrev pub prepend : Char → Option String → Option String
prepend c none = none
prepend c (some s) = some (c ∷ s)

-- What stands before a suffix, if the text ends with it.
unfoldable pub before_suffix : String → String → Option String
before_suffix suffix [] = if [] == suffix then some [] else none
before_suffix suffix (c ∷ s) =
    let rest = before_suffix suffix s in if (c ∷ s) == suffix then some [] else prepend c rest

abbrev pub unless_empty : Option String → Option String
unless_empty none = none
unless_empty (some []) = none
unless_empty (some (c ∷ s)) = some (c ∷ s)

-- A base that ends with ".json" and is not shorter than 6 has at least one character before it.
unfoldable pub message_id_from_pending_key : String → Option String
message_id_from_pending_key key = unless_empty (before_suffix ".json" (last_part (split_slash key)))

-- any(part == ".." for part in parts)
abbrev pub any_dots : List String → Bool
any_dots [] = false
any_dots (p ∷ ps) = (p == "..") || any_dots ps

abbrev pub is_blank : String → Bool
is_blank [] = true
is_blank (c ∷ s) = false

abbrev pub starts_with_slash : String → Bool
starts_with_slash [] = false
starts_with_slash (c ∷ s) = is_slash c

unfoldable pub validate_list_prefix : String → Done
validate_list_prefix prefix = raise_if (is_blank prefix) value_error

abbrev pub below_one : Option ℤ → Bool
below_one none = false
below_one (some n) = ltb_ℤ n (pos 1)

unfoldable pub validate_max_keys : Option ℤ → Done
validate_max_keys max_keys = raise_if (below_one max_keys) value_error

unfoldable pub validate_object_key : String → Done
validate_object_key key = do
  raise_if (is_blank key) value_error
  raise_if (starts_with_slash key) value_error
  raise_if (any_dots (split_slash key)) value_error

-- The last part of a terminal key, `([^/]+)\.json$`, where `$` also stands before a final line feed.
unfoldable pub terminal_name : String → Option String
terminal_name base = elim (unless_empty (before_suffix ".json" base)) [
  | some mid ↦ some mid
  | none ↦ unless_empty (before_suffix ".json\n" base)
]

-- `is_decimal` says which characters `\d` takes.
module _ (is_decimal : Char → Bool) where
  -- \d{n}
  unfoldable pub has_digits : ℕ → String → Bool
  has_digits zero [] = true
  has_digits (suc n) (c ∷ s) = is_decimal c && has_digits n s
  has_digits _ _ = false

  abbrev name_under : String → String → String → String → String → String → String → Option String
  name_under root tree y m d h base =
      if (root == "state")
        && ((tree == "success") || (tree == "failed"))
        && (has_digits 4 y && (has_digits 2 m && (has_digits 2 d && has_digits 2 h)))
      then terminal_name base
      else none

  abbrev name_of_parts : List String → Option String
  name_of_parts (root ∷ tree ∷ y ∷ m ∷ d ∷ h ∷ base ∷ []) = name_under root tree y m d h base
  name_of_parts _ = none

  unfoldable pub message_id_from_terminal_key : String → Option String
  message_id_from_terminal_key key = name_of_parts (split_slash key)
