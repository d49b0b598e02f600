-- ===== src/Prelude/Text.antt =====
-- Python's `str` methods that the program uses, over the native texts.
use Prim.Native.Char.{Char, code}
use Prim.Native.String.{String, [], ◌∷◌, ◌++◌}
use mathlib.Core.List.{List, [], ◌∷◌}
use mathlib.Core.Bool.{Bool, true, false, ◌&&◌, ◌||◌}
use nitzan_shinnies_inspecti.Prelude.{ℕ, ◌-◌, leb, eqb, if◌then◌else◌}

-- str.isspace() on one character: the ASCII and Latin-1 spaces, and Unicode's.
unfoldable pub is_space : Char → Bool
is_space ch =
    let c = code ch in
    (leb 9 c && leb c 13)
    || ((leb 28 c && leb c 32)
        || (eqb c 0x85
            || (eqb c 0xa0
                || (eqb c 0x1680
                    || ((leb 0x2000 c && leb c 0x200a)
                        || (eqb c 0x2028
                            || (eqb c 0x2029
                                || (eqb c 0x202f || (eqb c 0x205f || eqb c 0x3000)))))))))

abbrev pub is_empty : String → Bool
is_empty [] = true
is_empty (c ∷ s) = false

unfoldable pub lstrip : String → String
lstrip [] = []
lstrip (c ∷ s) = let rest = lstrip s in if is_space c then rest else c ∷ s

abbrev cons_unless_blank : Char → String → String
cons_unless_blank c [] = if is_space c then [] else c ∷ []
cons_unless_blank c (d ∷ s) = c ∷ d ∷ s

unfoldable pub rstrip : String → String
rstrip [] = []
rstrip (c ∷ s) = cons_unless_blank c (rstrip s)

-- s.strip()
unfoldable pub strip : String → String
unfolding lstrip rstrip
strip s = rstrip (lstrip s)

-- The characters that end a line for s.splitlines()
unfoldable pub is_line_end : Char → Bool
is_line_end ch =
    let c = code ch in
    (leb 10 c && leb c 13)
    || ((leb 28 c && leb c 30) || (eqb c 0x85 || (eqb c 0x2028 || eqb c 0x2029)))

abbrev starts_with_lf : String → Bool
starts_with_lf [] = false
starts_with_lf (c ∷ s) = eqb (code c) 10

-- a character before the first line
abbrev begin_line : Char → List String → List String
begin_line c [] = (c ∷ []) ∷ []
begin_line c (l ∷ ls) = (c ∷ l) ∷ ls

-- s.splitlines(), where a carriage return and a line feed end one line
unfoldable pub splitlines : String → List String
splitlines [] = []
splitlines (c ∷ s) =
    let rest = splitlines s in
    if eqb (code c) 13 && starts_with_lf s
    then rest
    else if is_line_end c
    then ([] ∷ rest)
    else begin_line c rest

-- list(s)
abbrev pub chars : String → List String
chars [] = []
chars (c ∷ s) = (c ∷ []) ∷ chars s

abbrev cons_unless_slash : Char → String → String
cons_unless_slash c [] = if eqb (code c) 47 then [] else c ∷ []
cons_unless_slash c (d ∷ s) = c ∷ d ∷ s

-- s.rstrip("/")
unfoldable pub rstrip_slashes : String → String
rstrip_slashes [] = []
rstrip_slashes (c ∷ s) = cons_unless_slash c (rstrip_slashes s)

-- the text of an f-string of two parts
abbrev pub string_append : String → String → String
string_append s t = s ++ t

-- s.startswith(prefix) and s.endswith(suffix)
unfoldable pub starts_with : String → String → Bool
starts_with [] s = true
starts_with (c ∷ p) [] = false
starts_with (c ∷ p) (d ∷ s) = eqb (code c) (code d) && starts_with p s

-- The texts of an f-string, one after the other.
abbrev pub join : List String → String
join List.[] = []
join (List.◌∷◌ s ss) = s ++ join ss

abbrev digit_text : ℕ → String
digit_text d =
    if eqb d 0
    then "0"
    else if eqb d 1
    then "1"
    else if eqb d 2
    then "2"
    else if eqb d 3
    then "3"
    else if eqb d 4
    then "4"
    else if eqb d 5
    then "5"
    else if eqb d 6
    then "6"
    else if eqb d 7
    then "7"
    else if eqb d 8
    then "8"
    else "9"

-- A text of decimal digits, from their codes.
unfoldable pub digits_text : List ℕ → String
digits_text List.[] = []
digits_text (List.◌∷◌ c cs) = digit_text (c - 48) ++ digits_text cs
