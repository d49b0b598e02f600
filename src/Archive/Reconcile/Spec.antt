-- ===== src/Archive/Reconcile/Spec.antt =====
-- What the checks of a snapshot look for, on the fields of the rows and bodies, and the tests of
-- health_monitor/reconcile.py that decide it.
use nitzan_shinnies_inspecti.Prelude.{
  ℕ, ◌*◌, ◌^◌, String, ◌≡◌, refl, ap, ◌↔◌, ◌⊎◌, inl, inr, Bool, true, false, not, ◌&&◌, ◌||◌,
  Option, none, some, List, [], ◌∷◌, arith, Option-cases,
}
use nitzan_shinnies_inspecti.Prelude.Int.{ℤ, pos, ◌≤ℤ◌, ℤ-eq}
use nitzan_shinnies_inspecti.Prelude.Eq.{ℕ-eq, String-eq, pair_eq}
use nitzan_shinnies_inspecti.Json.{Json, Fields, null, bool, int, real, str, arr, obj, get_field}
use nitzan_shinnies_inspecti.Archive.Values.{int_value, text_is, equals_int}
use nitzan_shinnies_inspecti.Archive.Reconcile.{
  is_2xx, is_5xx, is_4xx, status_is, status_of, is_validation_audit_row, is_for, is_send,
  is_success_row,
}

-- A value is an integer; a bool is one.
abbrev pub IsInt : Option Json → ℤ → Type 0
IsInt (some (int m)) n = m ≡ n
IsInt (some (bool true)) n = pos 1 ≡ n
IsInt (some (bool false)) n = pos 0 ≡ n
IsInt _ n = ⊥

-- A value is the number 6, which may be written with a point.
abbrev pub IsSix : Option Json → Type 0
IsSix (some (int m)) = m ≡ pos 6
IsSix (some (real m k)) = m ≡ pos (6 * 10 ^ k)
IsSix _ = ⊥

abbrev pub HasText : Fields → String → String → Type 0
HasText d k s = get_field d k ≡ some (str s)

abbrev pub StatusBetween : ℕ → ℕ → Fields → Type 0
StatusBetween lo hi row =
    (n : ℤ) × IsInt (get_field row "http_status") n × (pos lo ≤ℤ n) × (n ≤ℤ pos hi)

-- A row of a request that the provider refused as invalid.
abbrev pub IsInvalid : Fields → Type 0
IsInvalid row = HasText row "outcome_kind" "validation_error" ⊎ StatusBetween 400 499 row

abbrev pub IsSent : Fields → Type 0
IsSent row = ¬ IsInvalid row × (StatusBetween 200 299 row ⊎ StatusBetween 500 599 row)

abbrev pub IsSucceeded : String → Fields → Type 0
IsSucceeded mid row =
    HasText row "messageId" mid × (StatusBetween 200 299 row × HasText row "outcome_kind" "success")

-- Some row has the property.
abbrev pub Some : (Fields → Type 0) → List Fields → Type 0
Some P [] = ⊥
Some P (row ∷ rows) = P row ⊎ Some P rows

module _ {P Q R : Type 0} where
  pub iff_trans : P ↔ Q → Q ↔ R → P ↔ R
  iff_trans (f, g) (h, k) = (λ x. h (f x), λ x. g (k x))

module _ {P Q P' Q' : Type 0} where
  pub iff_both : P ↔ P' → Q ↔ Q' → (P × Q) ↔ (P' × Q')
  iff_both (f, g) (h, k) = (λ (x, y). (f x, h y), λ (x, y). (g x, k y))

  pub iff_either : P ↔ P' → Q ↔ Q' → (P ⊎ Q) ↔ (P' ⊎ Q')
  iff_either (f, g) (h, k) = (
    λ z. elim z [ inl x ↦ inl (f x) | inr y ↦ inr (h y) ],
    λ z. elim z [ inl x ↦ inl (g x) | inr y ↦ inr (k y) ],
  )

pub and_iff : (a b : Bool) → ((a && b) ≡ true) ↔ ((a ≡ true) × (b ≡ true))
and_iff a b = (λ h. ground arith, λ h. ground arith)

pub or_iff : (a b : Bool) → ((a || b) ≡ true) ↔ ((a ≡ true) ⊎ (b ≡ true))
or_iff a b = (λ h. ground arith, λ h. ground arith)

pub not_iff : {P : Type 0} (a : Bool) → (a ≡ true) ↔ P → (not a ≡ true) ↔ (¬ P)
not_iff true (f, g) = (λ h. cc, λ h. absurd (h (f refl)))
not_iff false (f, g) = (λ h p. absurd (false_is_true (g p)), λ h. refl)
  where
    false_is_true : false ≡ true → ⊥
    false_is_true e = cc

pub text_is_iff : (s : String) (v : Option Json) → (text_is s v ≡ true) ↔ (v ≡ some (str s))
text_is_iff s none = (λ h. cc, λ h. cc)
text_is_iff s (some null) = (λ h. cc, λ h. cc)
text_is_iff s (some (bool b)) = (λ h. cc, λ h. cc)
text_is_iff s (some (int n)) = (λ h. cc, λ h. cc)
text_is_iff s (some (real n k)) = (λ h. cc, λ h. cc)
text_is_iff s (some (arr vs)) = (λ h. cc, λ h. cc)
text_is_iff s (some (obj d)) = (λ h. cc, λ h. cc)
text_is_iff s (some (str t)) = (
  λ h. ap (λ u. some (str u)) ((String-eq.beq_iff t s).0 h),
  λ h. (String-eq.beq_iff t s).1 (str_inj h),
)
  where
    text_of : Option Json → String
    text_of (some (str u)) = u
    text_of _ = ""

    str_inj : some (str t) ≡ some (str s) → t ≡ s
    str_inj h = ap text_of h

pub int_value_iff : (v : Option Json) (n : ℤ) → (int_value v ≡ some n) ↔ IsInt v n
int_value_iff none n = (λ h. cc, λ h. absurd h)
int_value_iff (some null) n = (λ h. cc, λ h. absurd h)
int_value_iff (some (bool true)) n = (λ h. ground (arith, h), λ h. ap some h)
int_value_iff (some (bool false)) n = (λ h. ground (arith, h), λ h. ap some h)
int_value_iff (some (int m)) n = (λ h. ground (arith, h), λ h. ap some h)
int_value_iff (some (real m k)) n = (λ h. cc, λ h. absurd h)
int_value_iff (some (str t)) n = (λ h. cc, λ h. absurd h)
int_value_iff (some (arr vs)) n = (λ h. cc, λ h. absurd h)
int_value_iff (some (obj d)) n = (λ h. cc, λ h. absurd h)

pub equals_int-IsSix_iff : (v : Option Json) → (equals_int 6 v ≡ true) ↔ IsSix v
equals_int-IsSix_iff none = (λ h. cc, λ h. absurd h)
equals_int-IsSix_iff (some null) = (λ h. cc, λ h. absurd h)
equals_int-IsSix_iff (some (bool b)) = (λ h. cc, λ h. absurd h)
equals_int-IsSix_iff (some (int m)) = ℤ-eq.beq_iff m (pos 6)
equals_int-IsSix_iff (some (real m k)) = ℤ-eq.beq_iff m (pos (6 * 10 ^ k))
equals_int-IsSix_iff (some (str t)) = (λ h. cc, λ h. absurd h)
equals_int-IsSix_iff (some (arr vs)) = (λ h. cc, λ h. absurd h)
equals_int-IsSix_iff (some (obj d)) = (λ h. cc, λ h. absurd h)

-- A test of the status holds exactly within the bounds.
StatusBetween-iff :
    (p : ℤ → Bool) (lo hi : ℕ) (row : Fields)
    → ((n : ℤ) → (p n ≡ true) ↔ ((pos lo ≤ℤ n) × (n ≤ℤ pos hi)))
    → (status_is p row ≡ true) ↔ StatusBetween lo hi row
StatusBetween-iff p lo hi row bounds =
    elim (Option-cases (int_value (get_field row "http_status"))) [
      | inl e ↦ (
        λ h. absurd (ground (arith, h, e)),
        λ (n, at, b, c).
            absurd (ground (arith, e, (int_value_iff (get_field row "http_status") n).1 at)),
      )
      | inr (n, e) ↦ (
        λ h.
            let (b, c) = (bounds n).0 (rw (status_is, status_of, e) at h) in
            (n, (int_value_iff (get_field row "http_status") n).0 e, b, c),
        λ (m, at, b, c).
            let f = (int_value_iff (get_field row "http_status") m).1 at in
            rw (status_is, status_of, f) ((bounds m).1 (b, c)),
      )
    ]

pub is_2xx_iff : (row : Fields) → (status_is is_2xx row ≡ true) ↔ StatusBetween 200 299 row
is_2xx_iff row = StatusBetween-iff is_2xx 200 299 row (λ n. (λ h. ground arith, λ h. ground arith))

pub is_5xx_iff : (row : Fields) → (status_is is_5xx row ≡ true) ↔ StatusBetween 500 599 row
is_5xx_iff row = StatusBetween-iff is_5xx 500 599 row (λ n. (λ h. ground arith, λ h. ground arith))

is_4xx_iff : (row : Fields) → (status_is is_4xx row ≡ true) ↔ StatusBetween 400 499 row
is_4xx_iff row = StatusBetween-iff is_4xx 400 499 row (λ n. (λ h. ground arith, λ h. ground arith))

pub is_validation_iff : (row : Fields) → (is_validation_audit_row row ≡ true) ↔ IsInvalid row
unfolding is_validation_audit_row
is_validation_iff row =
    iff_trans
      (or_iff (text_is "validation_error" (get_field row "outcome_kind")) (status_is is_4xx row))
      (iff_either (text_is_iff "validation_error" (get_field row "outcome_kind")) (is_4xx_iff row))

pub is_send_iff : (row : Fields) → (is_send row ≡ true) ↔ IsSent row
is_send_iff row =
    iff_trans
      (and_iff (not (is_validation_audit_row row)) (status_is is_2xx row || status_is is_5xx row))
      (iff_both (not_iff (is_validation_audit_row row) (is_validation_iff row)) (
        iff_trans (or_iff (status_is is_2xx row) (status_is is_5xx row))
          (iff_either (is_2xx_iff row) (is_5xx_iff row))))

pub is_success_row_iff :
    (mid : String) (row : Fields) → (is_success_row mid row ≡ true) ↔ IsSucceeded mid row
is_success_row_iff mid row =
    iff_trans
      (and_iff (is_for mid row)
        (status_is is_2xx row && text_is "success" (get_field row "outcome_kind")))
      (iff_both (text_is_iff mid (get_field row "messageId")) (
        iff_trans
          (and_iff (status_is is_2xx row) (text_is "success" (get_field row "outcome_kind")))
          (iff_both (is_2xx_iff row) (text_is_iff "success" (get_field row "outcome_kind")))))
