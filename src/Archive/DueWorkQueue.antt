-- ===== src/Archive/DueWorkQueue.antt =====
-- v1_obsolete/project/src/inspectio_exercise/worker/due_work_queue.py and pending_record.py: the queue of
-- pending messages by due time. The heap of heapq is a list in the order in which heapq pops: by due time
-- and then by number. The decoder of a raw object (UTF-8 and json.loads) is a parameter.
mod Tests
use nitzan_shinnies_inspecti.Prelude.{
  ℕ, ◌+◌, String, inl, inr, Bool, true, false, ◌&&◌, Option, none, some, List, [], ◌∷◌, arith,
  if◌then◌else◌, Bool-cases, All,
}
use nitzan_shinnies_inspecti.Prelude.Int.{ℤ, pos, ◌≤ℤ◌, ◌<ℤ◌, ltb_ℤ, leb_ℤ, ℤ-eq}
use nitzan_shinnies_inspecti.Prelude.Eq.{◌==◌, ℕ-eq, String-eq, pair_eq}
use nitzan_shinnies_inspecti.Prelude.Dict.{Dict, get, put, remove, or_default}
use nitzan_shinnies_inspecti.Prelude.Decimal.{Codes}
use nitzan_shinnies_inspecti.Archive.Values.{int_value, is_text, text_is}
use nitzan_shinnies_inspecti.Json.{Json, Fields, obj, get_field}

pub record HeapEntry : Type 0 where
  pub due_ms : ℤ
  pub seq : ℕ
  pub mid : String

pub record DueWorkQueue : Type 0 where
  pub heap : List HeapEntry
  pub seq : ℕ
  pub records : Dict String Fields
  pub pending_keys : Dict String String

abbrev valid_count : Option ℤ → Bool
valid_count none = false
valid_count (some n) = leb_ℤ (pos 0) n && leb_ℤ n (pos 6)

abbrev valid_payload : Option Json → Bool
valid_payload (some (obj pl)) = is_text (get_field pl "to") && is_text (get_field pl "body")
valid_payload _ = false

abbrev is_some : Option ℤ → Bool
is_some none = false
is_some (some n) = true

-- A record that is valid, if the value is one.
unfoldable pub is_valid_pending_row : String → Fields → Bool
is_valid_pending_row message_id d =
    text_is message_id (get_field d "messageId")
    && (text_is "pending" (get_field d "status")
        && (valid_count (int_value (get_field d "attemptCount"))
            && (is_some (int_value (get_field d "nextDueAt"))
                && valid_payload (get_field d "payload"))))

-- heapq.heappush
unfoldable pub push : HeapEntry → List HeapEntry → List HeapEntry
push e [] = e ∷ []
push e (x ∷ xs) = let rest = push e xs in if ltb_ℤ e.due_ms x.due_ms then e ∷ x ∷ xs else x ∷ rest

unfoldable pub schedule_locked : String → ℤ → DueWorkQueue → DueWorkQueue
schedule_locked mid due_ms q = record q {
  seq = q.seq + 1;
  heap = push (record { due_ms = due_ms; seq = q.seq + 1; mid = mid }) q.heap;
}

unfoldable pub drop_locked : String → DueWorkQueue → DueWorkQueue
drop_locked mid q = record q {
  records = remove q.records mid;
  pending_keys = remove q.pending_keys mid;
}

-- int(rec["nextDueAt"]) == due_ms
abbrev pub is_due_at : ℤ → Fields → Bool
is_due_at due_ms row = elim (int_value (get_field row "nextDueAt")) [
  | none ↦ false
  | some n ↦ n == due_ms
]

abbrev pub Row : Type 0
Row = String × (Fields × String)

-- The row of an entry, unless its message was dropped or has another due time now.
unfoldable pub live_row : DueWorkQueue → HeapEntry → Option Row
live_row q e = elim (get q.records e.mid) [
  | none ↦ none
  | some row ↦ elim (get q.pending_keys e.mid) [
    | none ↦ none
    | some key ↦ if is_due_at e.due_ms row then some (e.mid, (row, key)) else none
  ]
]

abbrev cons_row : Option Row → List Row → List Row
cons_row none rows = rows
cons_row (some r) rows = r ∷ rows

unfoldable pub collect_from : DueWorkQueue → ℤ → List HeapEntry → List Row × List HeapEntry
collect_from q now [] = ([], [])
collect_from q now (e ∷ es) =
    let (rows, heap) = collect_from q now es in
    if leb_ℤ e.due_ms now then (cons_row (live_row q e) rows, heap) else ([], e ∷ es)

unfoldable pub collect_due : ℤ → DueWorkQueue → List Row × DueWorkQueue
collect_due now q = let (rows, heap) = collect_from q now q.heap in (rows, record q { heap = heap })

module _ (decode : Codes → Option Json) where
  abbrev valid_row : String → Option Json → Option Fields
  valid_row mid (some (obj d)) = if is_valid_pending_row mid d then some d else none
  valid_row mid _ = none

  abbrev due_of : Fields → ℤ
  due_of d = or_default (int_value (get_field d "nextDueAt")) (pos 0)

  abbrev track : String → String → Fields → DueWorkQueue → DueWorkQueue
  track mid key d q =
      schedule_locked mid (due_of d)
        (record q { records = put q.records mid d; pending_keys = put q.pending_keys mid key })

  -- if mid in self.records: return
  abbrev track_if_new : String → String → Fields → DueWorkQueue → DueWorkQueue
  track_if_new mid key d q = elim (get q.records mid) [ none ↦ track mid key d q | some old ↦ q ]

  unfoldable pub ingest_if_new : String → String → Codes → DueWorkQueue → DueWorkQueue
  ingest_if_new mid key raw q = elim (valid_row mid (decode raw)) [
    | none ↦ q
    | some d ↦ track_if_new mid key d q
  ]

  unfoldable pub upsert_pending : String → String → Codes → DueWorkQueue → Bool × DueWorkQueue
  upsert_pending mid key raw q = elim (valid_row mid (decode raw)) [
    | none ↦ (false, q)
    | some d ↦ (true, track mid key d q)
  ]

-- The due times of the heap ascend from a floor.
abbrev pub IsSortedFrom : ℤ → List HeapEntry → Type 0
IsSortedFrom low [] = Unit
IsSortedFrom low (e ∷ es) = (low ≤ℤ e.due_ms) × IsSortedFrom e.due_ms es

late :
    (now low : ℤ) (es : List HeapEntry)
    → now <ℤ low
    → IsSortedFrom low es
    → All (λ e. now <ℤ e.due_ms) es
late now low [] h s = tt
late now low (e ∷ es) h (le, s) = (omega arith, late now e.due_ms es (omega arith) s)

-- When the due times of the heap ascend, what collecting leaves in the heap is due later than now.
pub collect_from-later :
    (q : DueWorkQueue) (now low : ℤ) (es : List HeapEntry)
    → IsSortedFrom low es
    → All (λ e. now <ℤ e.due_ms) (collect_from q now es).1
unfolding collect_from
collect_from-later q now low [] s = tt
collect_from-later q now low (e ∷ es) (le, s) = elim (Bool-cases (leb_ℤ e.due_ms now)) [
  | inl due ↦ rw due (collect_from-later q now e.due_ms es s)
  | inr not_due ↦ rw not_due (ground arith, late now e.due_ms es (ground arith) s)
]
