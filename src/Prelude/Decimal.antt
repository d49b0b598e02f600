-- ===== src/Prelude/Decimal.antt =====
-- Python's decimal and hexadecimal formats, as lists of ASCII codes.
use Prim.Native.Char.{code}
use Prim.Native.String.{String}
use nitzan_shinnies_inspecti.Prelude.{
  ℕ, zero, suc, ◌+◌, ◌-◌, ◌*◌, ◌/◌, ◌%◌, ◌≤◌, ◌<◌, ◌≡◌, refl, sym, ap, ◌∙◌, ◌↔◌, inl, inr, Bool,
  true, false, ◌&&◌, List, [], ◌∷◌, ◌++◌, arith, ltb, eqb, if◌then◌else◌, Bool-cases, length,
  length-append,
}
use nitzan_shinnies_inspecti.Prelude.Eq.{Eq, ℕ-eq}

abbrev pub Codes : Type 0
Codes = List ℕ

-- The code points of a text.
abbrev pub codes : String → Codes
codes String.[] = []
codes (String.◌∷◌ c s) = code c ∷ codes s

unfoldable pub codes_beq : Codes → Codes → Bool
codes_beq [] [] = true
codes_beq [] (d ∷ ys) = false
codes_beq (c ∷ xs) [] = false
codes_beq (c ∷ xs) (d ∷ ys) = eqb c d && codes_beq xs ys

pub codes_beq_iff : (xs ys : Codes) → (codes_beq xs ys ≡ true) ↔ (xs ≡ ys)
unfolding codes_beq
codes_beq_iff [] [] = ground arith
codes_beq_iff [] (d ∷ ys) = ground arith
codes_beq_iff (c ∷ xs) [] = ground arith
codes_beq_iff (c ∷ xs) (d ∷ ys) = ground (arith, codes_beq_iff xs ys)

instance abbrev pub Codes-eq : Eq Codes
Codes-eq = record { beq = codes_beq; beq_iff = codes_beq_iff }

-- The number that a text of digits stands for.
unfoldable pub value_from : ℕ → Codes → ℕ
value_from n [] = n
value_from n (c ∷ s) = value_from (n * 10 + (c - 48)) s

pub value : Codes → ℕ
unfolding value_from
value s = value_from 0 s

-- The last `f` decimal digits of `n`, in front of `s`; without leading zeros.
unfoldable pub digits_onto : ℕ → ℕ → Codes → Codes
digits_onto zero n s = s
digits_onto (suc f) n s =
    let shorter = (48 + n % 10) ∷ s in
    let longer = digits_onto f (n / 10) shorter in if ltb n 10 then shorter else longer

-- str(n)
unfoldable pub decimal : ℕ → Codes
unfolding digits_onto
decimal n = digits_onto (suc n) n []

unfoldable pub zeros : ℕ → Codes
zeros zero = []
zeros (suc k) = 48 ∷ zeros k

-- f"{n:0{w}d}"
unfoldable pub zero_pad : ℕ → ℕ → Codes
unfolding decimal zeros
zero_pad w n = zeros (w - length (decimal n)) ++ decimal n

value_from-append :
    (n : ℕ) (xs ys : Codes) → value_from n (xs ++ ys) ≡ value_from (value_from n xs) ys
unfolding value_from
value_from-append n [] ys = refl
value_from-append n (c ∷ xs) ys = value_from-append (n * 10 + (c - 48)) xs ys

value_from-zeros : (k : ℕ) (s : Codes) → value_from 0 (zeros k ++ s) ≡ value_from 0 s
unfolding value_from zeros
value_from-zeros zero s = refl
value_from-zeros (suc k) s = value_from-zeros k s

-- With fuel above the number all of its digits are written.
value_from-digits_onto :
    (f n : ℕ) (s : Codes) → n < f → value_from 0 (digits_onto f n s) ≡ value_from n s
unfolding value_from digits_onto
value_from-digits_onto zero n s h = elim h [ ]
value_from-digits_onto (suc f) n s h = elim (Bool-cases (ltb n 10)) [
  | inl small ↦ rw small (ap (λ (t : ℕ). value_from t s) (ground arith))
  | inr big ↦ rw big (
      value_from-digits_onto f (n / 10) ((48 + n % 10) ∷ s) (ground arith)
      ∙ ap (λ (t : ℕ). value_from t s) (omega arith))
]

-- Reading a padded number gives the number back.
pub value-zero_pad : (w n : ℕ) → value (zero_pad w n) ≡ n
unfolding value zero_pad value_from
value-zero_pad w n =
    value_from-zeros (w - length (decimal n)) (decimal n)
    ∙ value_from-digits_onto (suc n) n [] (omega arith)

pub zero_pad_injective : (w m n : ℕ) → zero_pad w m ≡ zero_pad w n → m ≡ n
zero_pad_injective w m n e = sym (value-zero_pad w m) ∙ ap value e ∙ value-zero_pad w n

length-zeros : (k : ℕ) → length (zeros k) ≡ k
unfolding zeros
length-zeros zero = refl
length-zeros (suc k) = ap suc (length-zeros k)

pub length-zero_pad : (w n : ℕ) → w ≤ length (zero_pad w n)
unfolding zero_pad
length-zero_pad w n = omega (
  arith,
  length-append (zeros (w - length (decimal n))) (decimal n),
  length-zeros (w - length (decimal n)),
)
