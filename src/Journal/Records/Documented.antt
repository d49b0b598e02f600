-- ===== src/Journal/Records/Documented.antt =====
-- The payloads that plans/NEW_SYSTEM_IMPLEMENTATION_BLUEPRINT.md (18.2) describes, and those that
-- journal/records.py accepts beside them.
use nitzan_shinnies_inspecti.Prelude.{ℕ, String, ◌≡◌, ◌⊎◌, none}
use nitzan_shinnies_inspecti.Json.{Fields, str, get_field}
use nitzan_shinnies_inspecti.Journal.Records.{RecordType, terminal}
use nitzan_shinnies_inspecti.Journal.Records.Rules.{Only, Holds, IntBetween, allowed, IsWellFormed}

-- A success after 1 to 6 sends, with no reason.
abbrev IsSuccess : Fields → Type 0
IsSuccess d =
    IntBetween d "attemptCount" 1 6
    × Holds d "status" (str "success")
    × (get_field d "reason" ≡ none)

-- A failure with a reason, after a number of sends.
abbrev IsFailure : ℕ → ℕ → Fields → Type 0
IsFailure lo hi d =
    IntBetween d "attemptCount" lo hi
    × Holds d "status" (str "failed")
    × ((s : String) × Holds d "reason" (str s))

-- As the blueprint has it, a terminal failure is only after the sixth send.
abbrev pub IsDocumented : RecordType → Fields → Type 0
IsDocumented terminal d = Only d (allowed terminal) × (IsSuccess d ⊎ IsFailure 6 6 d)
IsDocumented type d = IsWellFormed type d

-- A terminal failure before the sixth send.
abbrev pub IsEarlyFailure : RecordType → Fields → Type 0
IsEarlyFailure terminal d = Only d (allowed terminal) × IsFailure 1 5 d
IsEarlyFailure type d = ⊥
