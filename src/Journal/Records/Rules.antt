-- ===== src/Journal/Records/Rules.antt =====
-- What the payload rules of journal/records.py accept, stated without the checks.
use nitzan_shinnies_inspecti.Prelude.{
  ℕ, ◌≤◌, String, ◌≡◌, refl, ◌↔◌, ◌⊎◌, inl, inr, Bool, true, false, not, ◌||◌, Option, none, some,
  List, [], ◌∷◌, arith, Bool-cases, All,
}
use nitzan_shinnies_inspecti.Prelude.Int.{ℤ, pos, ℤ-eq}
use nitzan_shinnies_inspecti.Prelude.Result.{Done, ok, err}
use nitzan_shinnies_inspecti.Json.{
  Json, Fields, null, bool, int, str, get_field, field_names, all_in, one_of, is_str, is_int,
  is_bool, is_null,
}
use nitzan_shinnies_inspecti.Journal.Records.{
  RecordType, ingest_applied, dispatch_scheduled, send_attempted, send_result, next_due, terminal,
  item, require_keys, forbid_extra_keys, is_body_hash, int_outside, bad_hash, check_reason, is_text,
  bad_reason, validate_ingest_applied, validate_dispatch_scheduled, validate_send_attempted,
  validate_send_result, validate_next_due, validate_terminal, validate_payload_for_type,
}
use text.Mathlib.TextEquality.{eq_iff}

-- Every key of the payload is one of `allowed`.
abbrev pub Only : Fields → List String → Type 0
Only d allowed = All (λ k. one_of k allowed ≡ true) (field_names d)

abbrev pub Holds : Fields → String → Json → Type 0
Holds d k v = get_field d k ≡ some v

abbrev pub IntBetween : Fields → String → ℕ → ℕ → Type 0
IntBetween d k lo hi = (n : ℕ) × Holds d k (int (pos n)) × (lo ≤ n) × (n ≤ hi)

-- The keys of each payload.
abbrev pub allowed : RecordType → List String
allowed ingest_applied = "receivedAtMs" ∷ "idempotencyKey" ∷ "bodyHash" ∷ []
allowed dispatch_scheduled = "reason" ∷ []
allowed send_attempted = "attemptIndex" ∷ []
allowed send_result = "attemptIndex" ∷ "ok" ∷ "httpStatus" ∷ "errorClass" ∷ []
allowed next_due = "attemptCount" ∷ "nextDueAtMs" ∷ []
allowed terminal = "status" ∷ "attemptCount" ∷ "reason" ∷ []

abbrev pub IsWellFormed : RecordType → Fields → Type 0
IsWellFormed ingest_applied d =
    Only d (allowed ingest_applied)
    × ((n : ℤ) × Holds d "receivedAtMs" (int n))
    × ((s : String) × Holds d "idempotencyKey" (str s))
    × ((s : String) × Holds d "bodyHash" (str s) × (is_body_hash s ≡ true))
IsWellFormed dispatch_scheduled d =
    Only d (allowed dispatch_scheduled)
    × ((s : String) × Holds d "reason" (str s)
        × ((s ≡ "immediate") ⊎ ((s ≡ "tick") ⊎ (s ≡ "replay"))))
IsWellFormed send_attempted d = Only d (allowed send_attempted) × IntBetween d "attemptIndex" 0 5
IsWellFormed send_result d =
    Only d (allowed send_result)
    × IntBetween d "attemptIndex" 0 5
    × ((b : Bool) × Holds d "ok" (bool b))
    × (Holds d "httpStatus" null ⊎ ((n : ℤ) × Holds d "httpStatus" (int n)))
    × (Holds d "errorClass" null ⊎ ((s : String) × Holds d "errorClass" (str s)))
IsWellFormed next_due d =
    Only d (allowed next_due)
    × IntBetween d "attemptCount" 1 5
    × ((n : ℤ) × Holds d "nextDueAtMs" (int n))
IsWellFormed terminal d =
    Only d (allowed terminal)
    × IntBetween d "attemptCount" 1 6
    × ((Holds d "status" (str "success") × (get_field d "reason" ≡ none))
        ⊎ (Holds d "status" (str "failed") × ((s : String) × Holds d "reason" (str s))))

only_allowed :
    (names allowed : List String)
    → all_in names allowed ≡ true
    → All (λ k. one_of k allowed ≡ true) names
only_allowed [] allowed h = tt
only_allowed (k ∷ ks) allowed h = (ground arith, only_allowed ks allowed (ground arith))

Only→all_in :
    (names allowed : List String)
    → All (λ k. one_of k allowed ≡ true) names
    → all_in names allowed ≡ true
Only→all_in [] allowed h = refl
Only→all_in (k ∷ ks) allowed h = ground (arith, Only→all_in ks allowed h.1)

forbid_extra_keys_iff :
    (d : Fields) (allowed : List String) → (forbid_extra_keys d allowed ≡ ok tt) ↔ Only d allowed
unfolding forbid_extra_keys
forbid_extra_keys_iff d allowed = (
  λ h. only_allowed (field_names d) allowed (ground arith),
  λ h. ground (arith, Only→all_in (field_names d) allowed h),
)

-- The value under a key is there and passes a test.
abbrev passes : (Json → Bool) → Option Json → Bool
passes p none = false
passes p (some v) = p v

IsInt-of_passes : (o : Option Json) → passes is_int o ≡ true → (n : ℤ) × (o ≡ some (int n))
IsInt-of_passes none h = cc
IsInt-of_passes (some (int n)) h = (n, refl)
IsInt-of_passes (some v) h = ground arith

IsStr-of_passes : (o : Option Json) → passes is_str o ≡ true → (s : String) × (o ≡ some (str s))
IsStr-of_passes none h = cc
IsStr-of_passes (some (str s)) h = (s, refl)
IsStr-of_passes (some v) h = ground arith

IsBool-of_passes : (o : Option Json) → passes is_bool o ≡ true → (b : Bool) × (o ≡ some (bool b))
IsBool-of_passes none h = cc
IsBool-of_passes (some (bool b)) h = (b, refl)
IsBool-of_passes (some v) h = ground arith

maybe_int :
    (o : Option Json)
    → passes (λ v. is_null v || is_int v) o ≡ true
    → (o ≡ some null) ⊎ ((n : ℤ) × (o ≡ some (int n)))
maybe_int none h = cc
maybe_int (some null) h = inl refl
maybe_int (some (int n)) h = inr (n, refl)
maybe_int (some v) h = ground arith

maybe_str :
    (o : Option Json)
    → passes (λ v. is_null v || is_str v) o ≡ true
    → (o ≡ some null) ⊎ ((s : String) × (o ≡ some (str s)))
maybe_str none h = cc
maybe_str (some null) h = inl refl
maybe_str (some (str s)) h = inr (s, refl)
maybe_str (some v) h = ground arith

int_between :
    (lo hi : ℕ) (o : Option Json)
    → passes (λ v. not (int_outside (pos lo) (pos hi) v)) o ≡ true
    → (n : ℕ) × (o ≡ some (int (pos n))) × (lo ≤ n) × (n ≤ hi)
unfolding int_outside
int_between lo hi none h = cc
int_between lo hi (some (int (pos n))) h = (n, refl, ground arith, ground arith)
int_between lo hi (some v) h = ground arith

hash_str :
    (o : Option Json)
    → passes (λ v. not (bad_hash v)) o ≡ true
    → (s : String) × (o ≡ some (str s)) × (is_body_hash s ≡ true)
unfolding bad_hash
hash_str none h = cc
hash_str (some (str s)) h = (s, refl, ground arith)
hash_str (some v) h = ground arith

abbrev is_done : Done → Bool
is_done (ok u) = true
is_done (err e) = false

reason_str :
    (o : Option Json)
    → passes (λ v. is_done (check_reason v)) o ≡ true
    → (s : String) × (o ≡ some (str s)) × ((s ≡ "immediate") ⊎ ((s ≡ "tick") ⊎ (s ≡ "replay")))
unfolding check_reason
reason_str none h = cc
reason_str (some (str s)) h =
    (s, refl, ground (arith, eq_iff s "immediate", eq_iff s "tick", eq_iff s "replay"))
reason_str (some v) h = ground arith

status_str : (t : String) (o : Option Json) → passes (is_text t) o ≡ true → o ≡ some (str t)
status_str t none h = cc
status_str t (some (str s)) h = ground (arith, eq_iff s t)
status_str t (some v) h = ground arith

module _ (d : Fields) where
  abbrev at : String → Option Json
  at = get_field d

  send_attempted_iff : (validate_send_attempted d ≡ ok tt) ↔ IsWellFormed send_attempted d
  unfolding validate_send_attempted require_keys item int_outside
  send_attempted_iff = (
    λ h. (
      (forbid_extra_keys_iff d (allowed send_attempted)).0 (ground arith),
      int_between 0 5 (at "attemptIndex") (ground arith),
    ),
    λ h. ground (arith, forbid_extra_keys_iff d (allowed send_attempted)),
  )

  next_due_iff : (validate_next_due d ≡ ok tt) ↔ IsWellFormed next_due d
  unfolding validate_next_due require_keys item int_outside
  next_due_iff = (
    λ h. (
      (forbid_extra_keys_iff d (allowed next_due)).0 (ground arith),
      int_between 1 5 (at "attemptCount") (ground arith),
      IsInt-of_passes (at "nextDueAtMs") (ground arith),
    ),
    λ h. ground (arith, forbid_extra_keys_iff d (allowed next_due)),
  )

  ingest_applied_iff : (validate_ingest_applied d ≡ ok tt) ↔ IsWellFormed ingest_applied d
  unfolding validate_ingest_applied require_keys item bad_hash
  ingest_applied_iff = (
    λ h. (
      (forbid_extra_keys_iff d (allowed ingest_applied)).0 (ground arith),
      IsInt-of_passes (at "receivedAtMs") (ground arith),
      IsStr-of_passes (at "idempotencyKey") (ground arith),
      hash_str (at "bodyHash") (ground arith),
    ),
    λ h. ground (arith, forbid_extra_keys_iff d (allowed ingest_applied)),
  )

  dispatch_scheduled_iff :
      (validate_dispatch_scheduled d ≡ ok tt) ↔ IsWellFormed dispatch_scheduled d
  unfolding validate_dispatch_scheduled require_keys item check_reason
  dispatch_scheduled_iff = (
    λ h. (
      (forbid_extra_keys_iff d (allowed dispatch_scheduled)).0 (ground arith),
      reason_str (at "reason") (ground arith),
    ),
    λ h. ground (
      arith,
      forbid_extra_keys_iff d (allowed dispatch_scheduled),
      eq_iff h.1.0 "immediate",
      eq_iff h.1.0 "tick",
      eq_iff h.1.0 "replay",
    ),
  )

  send_result_iff : (validate_send_result d ≡ ok tt) ↔ IsWellFormed send_result d
  unfolding validate_send_result require_keys item int_outside
  send_result_iff = (
    λ h. (
      (forbid_extra_keys_iff d (allowed send_result)).0 (ground arith),
      int_between 0 5 (at "attemptIndex") (ground arith),
      IsBool-of_passes (at "ok") (ground arith),
      maybe_int (at "httpStatus") (ground arith),
      maybe_str (at "errorClass") (ground arith),
    ),
    λ h. ground (arith, forbid_extra_keys_iff d (allowed send_result)),
  )

  terminal_cases :
      passes (λ v. is_text "success" v || is_text "failed" v) (at "status") ≡ true
      → bad_reason (passes (is_text "failed") (at "status")) d ≡ false
      → (Holds d "status" (str "success") × (at "reason" ≡ none))
        ⊎ (Holds d "status" (str "failed") × ((s : String) × Holds d "reason" (str s)))
  terminal_cases two h = elim (Bool-cases (passes (is_text "failed") (at "status"))) [
    | inl f ↦
        inr (status_str "failed" (at "status") f, IsStr-of_passes (at "reason") (ground arith))
    | inr n ↦ inl (status_str "success" (at "status") (ground arith), ground arith)
  ]

  terminal_iff : (validate_terminal d ≡ ok tt) ↔ IsWellFormed terminal d
  unfolding validate_terminal require_keys item int_outside
  terminal_iff = (
    λ h. (
      (forbid_extra_keys_iff d (allowed terminal)).0 (ground arith),
      int_between 1 6 (at "attemptCount") (ground arith),
      terminal_cases (ground arith) (ground arith),
    ),
    λ h. ground (arith, forbid_extra_keys_iff d (allowed terminal)),
  )

-- The payload rules accept exactly the payloads of the six documented shapes.
pub validate_payload_for_type_iff :
    (t : RecordType) (d : Fields) → (validate_payload_for_type t d ≡ ok tt) ↔ IsWellFormed t d
unfolding validate_payload_for_type
validate_payload_for_type_iff ingest_applied d = ingest_applied_iff d
validate_payload_for_type_iff dispatch_scheduled d = dispatch_scheduled_iff d
validate_payload_for_type_iff send_attempted d = send_attempted_iff d
validate_payload_for_type_iff send_result d = send_result_iff d
validate_payload_for_type_iff next_due d = next_due_iff d
validate_payload_for_type_iff terminal d = terminal_iff d
