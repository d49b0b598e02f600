-- ===== src/Notification.antt =====
-- inspectio/notification: the store of terminal outcomes and the routes over it. Redis is modelled by the
-- documented effect of LPUSH, LTRIM and LRANGE on a list, with an answer to each write that may be an error.
-- A row in a list stands for the JSON text that is pushed, which the routes decode again.
pub mod Refinement
mod Tests
use nitzan_shinnies_inspecti.Prelude.{
  ℕ, ◌+◌, ◌≤◌, String, ◌≡◌, ◌⊎◌, inl, inr, Option, none, some, List, [], ◌∷◌, arith, if◌then◌else◌,
  length, take, length-take,
}
use nitzan_shinnies_inspecti.Prelude.Int.{ℤ, pos, pos_part, ◌≤ℤ◌, min_ℤ, max_ℤ, ℤ-eq}
use nitzan_shinnies_inspecti.Prelude.Eq.{◌==◌, ℕ-eq, String-eq, pair_eq}
use nitzan_shinnies_inspecti.Prelude.Result.{Result-cases, value_error, Result, ok, err}
use nitzan_shinnies_inspecti.Prelude.Exec.{Exec, lift, ◌>>=◌, ◌>>◌}
use nitzan_shinnies_inspecti.Json.{Json, Fields, end, field, int, str, null, get_field}
use nitzan_shinnies_inspecti.Settings.{Settings}
use nitzan_shinnies_inspecti.Journal.Records.{item}

unfoldable pub list_max_len : ℕ
list_max_len = 10000

-- The two lists, newest row first, and the writes that Redis was asked for.
pub record Outcomes : Type 0 where
  pub success : List Fields
  pub failed : List Fields
  pub writes : ℕ

pub data Status : Type 0 where
  success failed : Status

abbrev pub rows : Status → Outcomes → List Fields
rows success o = o.success
rows failed o = o.failed

abbrev pub set_rows : Status → List Fields → Outcomes → Outcomes
set_rows success rs o = record o { success = rs }
set_rows failed rs o = record o { failed = rs }

abbrev text_status : String → Result Status
text_status s =
    if s == "success" then ok success else if s == "failed" then ok failed else err value_error

abbrev pub status_of : Option Json → Result Status
status_of (some (str s)) = text_status s
status_of _ = err value_error

-- The fields of `MessageTerminalV1`, which the web framework validates.
pub record MessageTerminal : Type 0 where
  pub message_id : String
  pub terminal_status : String
  pub attempt_count : ℤ
  pub final_timestamp_ms : ℤ
  pub reason : Option String

abbrev pub reason_json : Option String → Json
reason_json none = null
reason_json (some s) = str s

pub terminal_row : MessageTerminal → Fields
terminal_row b = field "messageId" (str b.message_id) (
    field "terminalStatus" (str b.terminal_status) (
      field "attemptCount" (int b.attempt_count) (
        field "finalTimestampMs" (int b.final_timestamp_ms)
          (field "reason" (reason_json b.reason) end))))

unfoldable pub clamp_limit : ℤ → Settings → ℤ
clamp_limit raw settings = max_ℤ (pos 1) (min_ℤ raw (pos settings.outcomes_max_limit))

-- The write fails or takes place.
module _ (write_answer : ℕ → Result (Unit {0})) where
  abbrev pub write : Status → (List Fields → List Fields) → Exec Outcomes Unit
  write st f o =
      let o' = record o { writes = o.writes + 1 } in
      elim (write_answer o.writes) [
        | ok a ↦ (ok tt, set_rows st (f (rows st o)) o')
        | err e ↦ (err e, o')
      ]

  unfoldable pub lpush : Status → Fields → Exec Outcomes Unit
  lpush st row = write st (λ rs. row ∷ rs)

  -- LTRIM key 0 (n - 1)
  unfoldable pub ltrim : Status → ℕ → Exec Outcomes Unit
  ltrim st n = write st (take n)

  unfoldable pub push_and_trim : Fields → Status → Exec Outcomes Unit
  push_and_trim row st = lpush st row >> ltrim st list_max_len

  unfoldable pub record_terminal : Fields → Exec Outcomes Unit
  unfolding get_field
  record_terminal row = lift (status_of (get_field row "terminalStatus")) >>= push_and_trim row

  unfoldable pub post_terminal : MessageTerminal → Exec Outcomes Unit
  unfolding terminal_row
  post_terminal body = record_terminal (terminal_row body)

-- LRANGE key 0 (limit - 1), for a limit of at least 1
unfoldable pub list_rows : Status → ℕ → Outcomes → List Fields
list_rows st limit o = take limit (rows st o)

abbrev or_null : Option Json → Json
or_null none = null
or_null (some v) = v

unfoldable pub public_item : Fields → Result Fields
public_item r = elim (item r "messageId") [
  | err e ↦ err e
  | ok mid ↦ elim (item r "attemptCount") [
    | err e ↦ err e
    | ok n ↦ elim (item r "finalTimestampMs") [
      | err e ↦ err e
      | ok t ↦ ok (
          field "messageId" mid (
            field "attemptCount" n
              (field "finalTimestamp" t (field "reason" (or_null (get_field r "reason")) end))))
    ]
  ]
]

unfoldable pub public_items : List Fields → Result (List Fields)
public_items [] = ok []
public_items (r ∷ rs) =
    let rest = public_items rs in
    elim (public_item r) [
      | err e ↦ err e
      | ok i ↦ elim rest [ err e ↦ err e | ok items ↦ ok (i ∷ items) ]
    ]

unfoldable pub get_outcomes : Status → ℤ → Settings → Outcomes → Result (List Fields)
unfolding clamp_limit max_ℤ min_ℤ
get_outcomes st limit settings o =
    public_items (list_rows st (pos_part (clamp_limit limit settings)) o)

unfoldable pub list_success : ℕ → Outcomes → List Fields
unfolding list_rows
list_success = list_rows success

unfoldable pub list_failed : ℕ → Outcomes → List Fields
unfolding list_rows
list_failed = list_rows failed

unfoldable pub get_outcomes_success : ℤ → Settings → Outcomes → Result (List Fields)
unfolding get_outcomes
get_outcomes_success = get_outcomes success

unfoldable pub get_outcomes_failed : ℤ → Settings → Outcomes → Result (List Fields)
unfolding get_outcomes
get_outcomes_failed = get_outcomes failed

-- The two lists are within their bound.
abbrev pub IsBounded : Outcomes → Type 0
IsBounded o = (length o.success ≤ list_max_len) × (length o.failed ≤ list_max_len)

-- A limit is at least 1 and at most the larger of 1 and the setting, and one within these bounds is
-- taken as it is.
pub clamp_limit_bounds :
    (raw : ℤ) (settings : Settings)
    → 1 ≤ settings.outcomes_max_limit
    → (pos 1 ≤ℤ clamp_limit raw settings)
      × (clamp_limit raw settings ≤ℤ pos settings.outcomes_max_limit)
unfolding clamp_limit max_ℤ min_ℤ
clamp_limit_bounds raw settings h = ground arith

-- A call more that raised, or none.
abbrev pub count_raised : Result (Unit {0}) → ℕ → ℕ
count_raised (ok a) n = n
count_raised (err e) n = n + 1

-- Both lists have at most so many rows more than their bound.
abbrev pub IsOverBy : ℕ → Outcomes → Type 0
IsOverBy k o = (length o.success ≤ list_max_len + k) × (length o.failed ≤ list_max_len + k)

count_raised-add : (r : Result (Unit {0})) (k n : ℕ) → count_raised r k + n ≡ k + count_raised r n
count_raised-add (ok a) k n = omega arith
count_raised-add (err e) k n = omega arith

module _ (write_answer : ℕ → Result (Unit {0})) where
  -- Recording a row of a status, when Redis takes both writes, puts it in front of the rows of that
  -- status, of which the newest 10000 stay, and leaves the rows of the other status.
  pub record_terminal-rows :
      (row : Fields) (st other : Status) (o : Outcomes)
      → status_of (get_field row "terminalStatus") ≡ ok st
      → (record_terminal write_answer row o).0 ≡ ok tt
      → (rows st (record_terminal write_answer row o).1 ≡ take list_max_len (row ∷ rows st o))
        × ((other ≡ st) ⊎ (rows other (record_terminal write_answer row o).1 ≡ rows other o))
  unfolding record_terminal push_and_trim lpush ltrim
  record_terminal-rows row success success o e h = ground arith
  record_terminal-rows row success failed o e h = ground arith
  record_terminal-rows row failed success o e h = ground arith
  record_terminal-rows row failed failed o e h = ground arith

  -- A number of calls of `record_terminal`, one after the other, and how many of them raised.
  unfoldable pub record_all : List Fields → Outcomes → ℕ × Outcomes
  record_all [] o = (0, o)
  record_all (row ∷ rs) o =
      let (r, o') = record_terminal write_answer row o in
      let (n, last) = record_all rs o' in (count_raised r n, last)

  record_terminal-IsOverBy :
      (row : Fields) (k : ℕ) (o : Outcomes)
      → IsOverBy k o
      → IsOverBy
          (count_raised (record_terminal write_answer row o).0 k)
          (record_terminal write_answer row o).1
  unfolding record_terminal push_and_trim lpush ltrim
  record_terminal-IsOverBy row k o (b, c) =
      elim (Result-cases (status_of (get_field row "terminalStatus"))) [
        | inr (e, raised) ↦ rw raised (omega arith, omega arith)
        | inl (success, e) ↦ ground (arith, length-take list_max_len (row ∷ o.success))
        | inl (failed, e) ↦ ground (arith, length-take list_max_len (row ∷ o.failed))
      ]

  record_all-IsOverBy :
      (rs : List Fields) (k : ℕ) (o : Outcomes)
      → IsOverBy k o
      → IsOverBy (k + (record_all rs o).0) (record_all rs o).1
  unfolding record_all
  record_all-IsOverBy [] k o (b, c) = (omega arith, omega arith)
  record_all-IsOverBy (row ∷ rs) k o b =
      let (r, o') = record_terminal write_answer row o in
      let here : IsOverBy (count_raised r k) o' = record_terminal-IsOverBy row k o b in
      let (x, y) = record_all-IsOverBy rs (count_raised r k) o' here in
      let shift = count_raised-add r k (record_all rs o').0 in
      (omega (arith, x, shift), omega (arith, y, shift))

  -- From lists within 10000 rows, however many rows are recorded and whichever writes Redis refuses, each
  -- list has at most as many rows above 10000 as calls have raised. So it stays within 10000 where none has.
  pub record_all-bounds :
      (rs : List Fields) (o : Outcomes)
      → IsBounded o
      → IsOverBy (record_all rs o).0 (record_all rs o).1
  record_all-bounds rs o (b, c) =
      let (x, y) = record_all-IsOverBy rs 0 o (omega arith, omega arith) in
      (omega (arith, x), omega (arith, y))
