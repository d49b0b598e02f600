-- ===== src/Domain/Schedule.antt =====
-- inspectio/domain/schedule.py: when a send is due.
mod Tests
use nitzan_shinnies_inspecti.Prelude.{
  ℕ, zero, suc, ◌-◌, ◌≤◌, ◌<◌, ◌≡◌, refl, ◌⊎◌, inl, inr, Bool, none, some, List, [], ◌∷◌, arith,
  ltb, leb, if◌then◌else◌, Bool-cases, length, get_elem?,
}
use nitzan_shinnies_inspecti.Prelude.Int.{
  ℤ, pos, negsuc, ◌+ℤ◌, ◌≤ℤ◌, ◌<ℤ◌, ltb_ℤ, leb_ℤ, ℤ-eq, int_laws,
}
use nitzan_shinnies_inspecti.Prelude.Result.{
  value_error, key_error, Result, ok, err, ◌>>=◌, ◌>>◌, raise_if,
}

abbrev pub retry_offset_ms : List ℕ
retry_offset_ms = 0 ∷ 500 ∷ 2000 ∷ 4000 ∷ 8000 ∷ 16000 ∷ []

abbrev pub min_completed_send_count : ℤ
min_completed_send_count = pos 0

abbrev pub max_completed_send_count : ℤ
max_completed_send_count = pos (length retry_offset_ms - 1)

unfoldable pub is_send_due : ℤ → ℤ → Bool
is_send_due now_ms next_due_at_ms = leb_ℤ next_due_at_ms now_ms

-- `RETRY_OFFSET_MS[n]`, which the guards keep in range.
abbrev pub offset_at : ℤ → Result ℤ
offset_at (pos n) = elim (get_elem? retry_offset_ms n) [
  | none ↦ err key_error
  | some o ↦ ok (pos o)
]
offset_at (negsuc n) = err key_error

unfoldable pub next_due_ms : ℤ → ℤ → Result ℤ
next_due_ms arrival_ms completed_send_count = do
  raise_if (ltb_ℤ completed_send_count min_completed_send_count) value_error
  raise_if (ltb_ℤ max_completed_send_count completed_send_count) value_error
  offset ← offset_at completed_send_count
  ok (arrival_ms +ℤ offset)

-- the offset of each count, as a ladder
unfoldable pub offset : ℕ → ℕ
offset n =
    if ltb n 1
    then 0
    else if ltb n 2
    then 500
    else if ltb n 3
    then 2000
    else if ltb n 4
    then 4000
    else if ltb n 5
    then 8000
    else 16000

offset_at_lem : (n : ℕ) → n ≤ 5 → offset_at (pos n) ≡ ok (pos (offset n))
unfolding offset
offset_at_lem zero h = refl
offset_at_lem (suc zero) h = refl
offset_at_lem (suc (suc zero)) h = refl
offset_at_lem (suc (suc (suc zero))) h = refl
offset_at_lem (suc (suc (suc (suc zero)))) h = refl
offset_at_lem (suc (suc (suc (suc (suc zero))))) h = refl
offset_at_lem (suc (suc (suc (suc (suc (suc n)))))) h = absurd (omega arith)

offset_mono : (m n : ℕ) → m < n → n ≤ 5 → offset m < offset n
unfolding offset
offset_mono m n h k = ground arith

pub offset_bounds : (n : ℕ) → offset n ≤ 16000
unfolding offset
offset_bounds n = ground arith

pub next_due_ms_lem :
    (arrival : ℤ) (n : ℕ) → n ≤ 5 → next_due_ms arrival (pos n) ≡ ok (arrival +ℤ pos (offset n))
unfolding next_due_ms
next_due_ms_lem arrival n h = ground (arith, offset_at_lem n h)

next_due_ms-above : (arrival : ℤ) (n : ℕ) → 5 < n → next_due_ms arrival (pos n) ≡ err value_error
unfolding next_due_ms
next_due_ms-above arrival n h = ground arith

next_due_ms-below : (arrival : ℤ) (n : ℕ) → next_due_ms arrival (negsuc n) ≡ err value_error
unfolding next_due_ms
next_due_ms-below arrival n = ground arith

-- ValueError is raised exactly for a count outside 0..5, and no other error is.
pub next_due_ms-domain :
    (arrival count : ℤ)
    → ((pos 0 ≤ℤ count) × (count ≤ℤ pos 5) × ((due : ℤ) × (next_due_ms arrival count ≡ ok due)))
      ⊎ ((next_due_ms arrival count ≡ err value_error) × ((count <ℤ pos 0) ⊎ (pos 5 <ℤ count)))
next_due_ms-domain arrival (negsuc n) = inr (next_due_ms-below arrival n, inl (omega arith))
next_due_ms-domain arrival (pos n) = elim (Bool-cases (leb n 5)) [
  | inl low ↦ inl (
    omega arith,
    ground arith,
    (arrival +ℤ pos (offset n), next_due_ms_lem arrival n (ground arith)),
  )
  | inr high ↦ inr (next_due_ms-above arrival n (ground arith), inr (ground arith))
]

-- A due time that was computed lies in the schedule.
pub next_due_ms-eq-ok :
    (arrival : ℤ) (n : ℕ) (due : ℤ)
    → next_due_ms arrival (pos n) ≡ ok due
    → (n ≤ 5) × (due ≡ arrival +ℤ pos (offset n))
next_due_ms-eq-ok arrival n due h = elim (Bool-cases (leb n 5)) [
  | inl low ↦ (ground arith, cc (next_due_ms_lem arrival n (ground arith)))
  | inr high ↦ cc (next_due_ms-above arrival n (ground arith))
]

-- The schedule is anchored to the arrival: the due times of two counts are never before the arrival,
-- the higher count is due strictly later, and none is later than 16 seconds after the arrival.
pub next_due_ms-increasing :
    (arrival : ℤ) (m n : ℕ) (due later : ℤ)
    → m < n
    → next_due_ms arrival (pos m) ≡ ok due
    → next_due_ms arrival (pos n) ≡ ok later
    → (arrival ≤ℤ due) × (due <ℤ later) × (later ≤ℤ arrival +ℤ pos 16000)
next_due_ms-increasing arrival m n due later h d l =
    let (_, ed) = next_due_ms-eq-ok arrival m due d in
    let (k, el) = next_due_ms-eq-ok arrival n later l in
    rw (ed, el) (omega (int_laws, offset_mono m n h k, offset_bounds n))
