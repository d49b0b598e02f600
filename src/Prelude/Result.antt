-- ===== src/Prelude/Result.antt =====
-- Python exceptions as values.
use mathlib.Core.Logic.{◌⊎◌, inl, inr}
use mathlib.Core.Path.{◌≡◌, refl, ap}
use mathlib.Core.Bool.{Bool, true, false}
use Prim.Native.String.{String}
use Prim.Native.Nat.{ℕ}

pub data Error : Type 0 where
  value_error key_error type_error runtime_error validation_error zero_division : Error
  journal_decode journal_validation journal_index : Error
  ingest_unavailable transport_error connection_error : Error
  os_error unicode_decode_error eof_error zlib_error : Error
  http_status_error : ℕ → Error
  client_error : String → Error
  http_exception : ℕ → Error

pub data Result {ℓ} (A : Type ℓ) : Type ℓ where
  ok : A → Result A
  err : Error → Result A

abbrev pub is_ok {ℓ} : {A : Type ℓ} → Result A → Bool
is_ok (ok a) = true
is_ok (err e) = false

-- the result of a procedure
abbrev pub Done : Type 0
Done = Result (Unit {0})

module _ {ℓ κ} {A : Type ℓ} {B : Type κ} where
  infixl 5 ◌>>=◌
  abbrev pub ◌>>=◌ : Result A → (A → Result B) → Result B
  ok x >>= next = next x
  err c >>= next = err c

infixl 5 ◌>>◌
abbrev pub ◌>>◌ {ℓ} : {A : Type ℓ} → Result (Unit {0}) → Result A → Result A
first >> rest = first >>= λ done. rest

-- `if bad: raise e`
abbrev pub raise_if : Bool → Error → Result (Unit {0})
raise_if true e = err e
raise_if false e = ok tt

-- a block that returned: so did its first part
pub >>=-eq-ok {ℓ κ} :
    {A : Type ℓ} {B : Type κ} (first : Result A) (rest : A → Result B) {out : B}
    → (first >>= rest) ≡ ok out
    → (x : A) × (first ≡ ok x) × (rest x ≡ ok out)
>>=-eq-ok (ok x) rest returned = (x, refl, returned)
>>=-eq-ok (err c) rest returned = cc

pub Result-cases {ℓ} :
    {A : Type ℓ} (r : Result A) → ((a : A) × (r ≡ ok a)) ⊎ ((e : Error) × (r ≡ err e))
Result-cases (ok a) = inl (a, refl)
Result-cases (err e) = inr (e, refl)

pub ok_inj {ℓ} : {A : Type ℓ} {x y : A} → ok x ≡ ok y → x ≡ y
ok_inj {A = A} {x = x} p = ap value p
  where
    value : Result A → A
    value (ok a) = a
    value (err e) = x
