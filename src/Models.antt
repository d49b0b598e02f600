-- ===== src/Models.antt =====
-- inspectio/models.py: the payload of a send, and the retry state with its construction checks.
mod Tests
use nitzan_shinnies_inspecti.Prelude.{String, ◌≡◌, ◌↔◌, not, ◌||◌, Option, arith}
use nitzan_shinnies_inspecti.Prelude.Int.{ℤ, pos, ◌≤ℤ◌, ltb_ℤ, eqb_ℤ, ℤ-eq}
use nitzan_shinnies_inspecti.Prelude.Result.{Done, value_error, ok, ◌>>=◌, ◌>>◌, raise_if}
use nitzan_shinnies_inspecti.Json.{Fields}

abbrev pub min_attempt_count : ℤ
min_attempt_count = pos 0

abbrev pub max_attempt_count : ℤ
max_attempt_count = pos 6

abbrev pub min_pending_attempt_count : ℤ
min_pending_attempt_count = pos 0

abbrev pub max_pending_attempt_count : ℤ
max_pending_attempt_count = pos 5

abbrev pub min_success_attempt_count : ℤ
min_success_attempt_count = pos 1

abbrev pub max_success_attempt_count : ℤ
max_success_attempt_count = pos 6

abbrev pub failed_attempt_count : ℤ
failed_attempt_count = pos 6

pub record Message : Type 0 where
  pub message_id : String
  pub to : String
  pub body : String

pub data RetryStatus : Type 0 where
  pending success failed : RetryStatus

pub record RetryState : Type 0 where
  pub message_id : String
  pub attempt_count : ℤ
  pub next_due_at_ms : ℤ
  pub status : RetryStatus
  pub last_error : Option String
  pub payload : Fields
  pub updated_at_ms : ℤ

abbrev check_status : RetryStatus → ℤ → Done
check_status pending n = do
  raise_if (ltb_ℤ n min_pending_attempt_count) value_error
  raise_if (ltb_ℤ max_pending_attempt_count n) value_error
check_status success n = do
  raise_if (ltb_ℤ n min_success_attempt_count) value_error
  raise_if (ltb_ℤ max_success_attempt_count n) value_error
check_status failed n = raise_if (not (eqb_ℤ n failed_attempt_count)) value_error

-- `RetryStateV1.__post_init__`, which runs when a state is constructed.
unfoldable pub post_init : RetryState → Done
post_init s = do
  raise_if (ltb_ℤ s.attempt_count min_attempt_count || ltb_ℤ max_attempt_count s.attempt_count)
      value_error
  check_status s.status s.attempt_count

-- The attempt counts that a status allows.
abbrev pub Allows : RetryStatus → ℤ → Type 0
Allows pending n = (pos 0 ≤ℤ n) × (n ≤ℤ pos 5)
Allows success n = (pos 1 ≤ℤ n) × (n ≤ℤ pos 6)
Allows failed n = n ≡ pos 6

check_status_iff : (st : RetryStatus) (n : ℤ) → (check_status st n ≡ ok tt) ↔ Allows st n
check_status_iff pending n = (λ h. (ground arith, ground arith), λ h. ground arith)
check_status_iff success n = (λ h. (ground arith, ground arith), λ h. ground arith)
check_status_iff failed n = (λ h. ground arith, λ h. ground arith)

Allows-in_range : (st : RetryStatus) (n : ℤ) → Allows st n → (pos 0 ≤ℤ n) × (n ≤ℤ pos 6)
Allows-in_range pending n h = (h.0, omega arith)
Allows-in_range success n h = (omega arith, h.1)
Allows-in_range failed n h = rw h (omega arith, omega arith)

-- A retry state is constructed exactly if its attempt count is one that its status allows: 0 to 5
-- for pending, 1 to 6 for success, and 6 for failed.
pub post_init_iff : (s : RetryState) → (post_init s ≡ ok tt) ↔ Allows s.status s.attempt_count
unfolding post_init
post_init_iff s = (
  λ h. (check_status_iff s.status s.attempt_count).0 (ground arith),
  λ h. ground (
    arith,
    check_status_iff s.status s.attempt_count,
    Allows-in_range s.status s.attempt_count h,
  ),
)
