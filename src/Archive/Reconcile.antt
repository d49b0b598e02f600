-- ===== src/Archive/Reconcile.antt =====
-- v1_obsolete/project/src/inspectio_exercise/health_monitor/reconcile.py: the audit rows of the mock SMS
-- provider against the objects of the lifecycle. A violation has its kind and message id; the text of its
-- detail is left out.
pub mod Snapshot
pub mod Rules
pub mod Equivalence
pub mod Spec
pub mod Shuffle
pub mod Attempts
pub mod Known
pub mod Duplicates
pub mod Complete
mod Tests
use nitzan_shinnies_inspecti.Prelude.{
  String, Bool, true, false, not, ◌&&◌, ◌||◌, Option, none, some, List, [], ◌∷◌, eqb, if◌then◌else◌,
  length, keep,
}
use nitzan_shinnies_inspecti.Prelude.Int.{ℤ, pos, ltb_ℤ, leb_ℤ, ℤ-eq}
use nitzan_shinnies_inspecti.Prelude.Eq.{◌==◌, ℕ-eq, String-eq, pair_eq}
use nitzan_shinnies_inspecti.Prelude.Dict.{Dict}
use nitzan_shinnies_inspecti.Json.{Fields, get_field}
use nitzan_shinnies_inspecti.Archive.Values.{int_value, text_is, equals_int}

pub data Kind : Type 0 where
  invalid_pending_key invalid_pending_document invalid_success_key : Kind
  terminal_success_invalid_status invalid_failed_key duplicate_success_terminal_keys : Kind
  duplicate_failed_terminal_keys duplicate_terminal pending_due_without_mock_send_audit : Kind
  audit_send_without_lifecycle terminal_failed_invalid_status : Kind
  terminal_failed_invalid_attempt_count terminal_failed_missing_audit_sends : Kind
  terminal_failed_audit_send_not_5xx terminal_failed_audit_has_success : Kind
  terminal_failed_audit_attempt_indices terminal_success_missing_audit : Kind

pub record Violation : Type 0 where
  pub kind : Kind
  pub message_id : Option String

abbrev pub violation_of : Kind → String → Violation
violation_of kind mid = record { kind = kind; message_id = some mid }

pub record LifecycleSnapshot : Type 0 where
  pub failed_bodies : Dict String Fields
  pub failed_keys_by_mid : Dict String (List String)
  pub pending_bodies : Dict String Fields
  pub success_keys_by_mid : Dict String (List String)

-- HTTP_STATUS_MIN_SUCCESS <= st <= HTTP_STATUS_MAX_SUCCESS, and so for server errors
abbrev pub is_2xx : ℤ → Bool
is_2xx st = leb_ℤ (pos 200) st && leb_ℤ st (pos 299)

abbrev pub is_5xx : ℤ → Bool
is_5xx st = leb_ℤ (pos 500) st && leb_ℤ st (pos 599)

abbrev pub is_4xx : ℤ → Bool
is_4xx st = leb_ℤ (pos 400) st && ltb_ℤ st (pos 500)

abbrev pub status_of : Fields → Option ℤ
status_of row = int_value (get_field row "http_status")

-- isinstance(st, int) and p(st)
abbrev pub status_is : (ℤ → Bool) → Fields → Bool
status_is p row = elim (status_of row) [ none ↦ false | some st ↦ p st ]

unfoldable pub is_validation_audit_row : Fields → Bool
is_validation_audit_row row =
    text_is "validation_error" (get_field row "outcome_kind") || status_is is_4xx row

abbrev pub is_for : String → Fields → Bool
is_for mid row = text_is mid (get_field row "messageId")

-- any(p(row) for row in rows)
abbrev pub any_row : (Fields → Bool) → List Fields → Bool
any_row p [] = false
any_row p (row ∷ rows) = p row || any_row p rows

abbrev pub is_success_row : String → Fields → Bool
is_success_row mid row =
    is_for mid row && (status_is is_2xx row && text_is "success" (get_field row "outcome_kind"))

unfoldable pub audit_has_success_for_message : List Fields → String → Bool
audit_has_success_for_message rows mid = any_row (is_success_row mid) rows

-- A simulated send: not a validation row, with a status of a success or a server error.
abbrev pub is_send : Fields → Bool
is_send row = not (is_validation_audit_row row) && (status_is is_2xx row || status_is is_5xx row)

unfoldable pub audit_has_mock_send_attempt : List Fields → String → Bool
audit_has_mock_send_attempt rows mid = any_row (λ row. is_for mid row && is_send row) rows

unfoldable pub audit_rows_for_terminal_failed_analysis : List Fields → String → List Fields
audit_rows_for_terminal_failed_analysis rows mid =
    keep (λ row. is_for mid row && not (is_validation_audit_row row)) rows

abbrev pub when : Bool → Violation → List Violation → List Violation
when b v vs = if b then v ∷ vs else vs

unfoldable pub terminal_failed_body_violations : String → Fields → List Violation
terminal_failed_body_violations mid body =
    when (not (text_is "failed" (get_field body "status")))
      (violation_of terminal_failed_invalid_status mid)
      (when (not (equals_int 6 (get_field body "attemptCount")))
        (violation_of terminal_failed_invalid_attempt_count mid) [])

-- The kind of the first row that is no server error.
unfoldable pub first_bad_send : List Fields → Option Kind
first_bad_send [] = none
first_bad_send (row ∷ rows) =
    let rest = first_bad_send rows in
    elim (status_of row) [
      | none ↦ some terminal_failed_audit_send_not_5xx
      | some st ↦
          if is_2xx st
          then some terminal_failed_audit_has_success
          else if is_5xx st
          then rest
          else some terminal_failed_audit_send_not_5xx
    ]

-- The attempt indexes, if every row has one.
unfoldable pub attempt_indexes : List Fields → Option (List ℤ)
attempt_indexes [] = some []
attempt_indexes (row ∷ rows) =
    let rest = attempt_indexes rows in
    elim (int_value (get_field row "attemptIndex")) [
      | none ↦ none
      | some n ↦ elim rest [ none ↦ none | some ns ↦ some (n ∷ ns) ]
    ]

-- sorted(indices)
unfoldable pub insert_int : ℤ → List ℤ → List ℤ
insert_int n [] = n ∷ []
insert_int n (m ∷ ms) = let rest = insert_int n ms in if ltb_ℤ m n then m ∷ rest else n ∷ m ∷ ms

unfoldable pub sorted : List ℤ → List ℤ
sorted [] = []
sorted (n ∷ ns) = insert_int n (sorted ns)

abbrev pub same_ints : List ℤ → List ℤ → Bool
same_ints [] [] = true
same_ints [] (m ∷ ms) = false
same_ints (n ∷ ns) [] = false
same_ints (n ∷ ns) (m ∷ ms) = (n == m) && same_ints ns ms

-- list(range(6))
abbrev pub six_indexes : List ℤ
six_indexes = pos 0 ∷ pos 1 ∷ pos 2 ∷ pos 3 ∷ pos 4 ∷ pos 5 ∷ []

abbrev pub bad_indexes : Option (List ℤ) → Bool
bad_indexes none = false
bad_indexes (some ns) = not (eqb (length ns) 6) || not (same_ints (sorted ns) six_indexes)

unfoldable pub terminal_failed_audit_violations : String → List Fields → List Violation
terminal_failed_audit_violations mid [] = violation_of terminal_failed_missing_audit_sends mid ∷ []
terminal_failed_audit_violations mid (row ∷ rows) = elim (first_bad_send (row ∷ rows)) [
  | some kind ↦ violation_of kind mid ∷ []
  | none ↦
      when (bad_indexes (attempt_indexes (row ∷ rows)))
        (violation_of terminal_failed_audit_attempt_indices mid) []
]
