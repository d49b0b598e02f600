-- ===== src/Notification/Tests.antt =====
-- The store of outcomes at a small row.
use nitzan_shinnies_inspecti.Prelude.Result.{err, value_error, Result, ok}
use nitzan_shinnies_inspecti.Prelude.{
  ◌≤◌, eqb, ◌%◌, none, List, if◌then◌else◌, ℕ, ◌≡◌, refl, [], ◌∷◌, arith,
}
use nitzan_shinnies_inspecti.Notification.Refinement.{each, log_terminal, each-list_rows}
use nitzan_shinnies_inspecti.Notification.{
  MessageTerminal, list_rows, Outcomes, success, IsBounded, list_max_len, lpush, ltrim,
  push_and_trim, record_terminal, record_all, IsOverBy, record_all-bounds,
}
use nitzan_shinnies_inspecti.Prelude.Int.{pos, ℤ-eq}
use nitzan_shinnies_inspecti.Json.{Fields, end, field, str, get_field}

abbrev row : Fields
row = field "terminalStatus" (str "success") end

abbrev empty_lists : Outcomes
empty_lists = record { success = []; failed = row ∷ []; writes = 0 }

abbrev accept : ℕ → Result (Unit {0})
accept n = ok tt

recorded : (record_terminal accept row empty_lists).0 ≡ ok tt
unfolding record_terminal push_and_trim lpush ltrim get_field
recorded = refl

bounded : IsBounded empty_lists
unfolding list_max_len
bounded = (omega arith, omega arith)

-- Every third write is refused.
abbrev refuse_third : ℕ → Result (Unit {0})
refuse_third n = if eqb (n % 3) 2 then err value_error else ok tt

record_all-bounds_example :
    IsOverBy
      (record_all refuse_third (row ∷ row ∷ row ∷ []) empty_lists).0
      (record_all refuse_third (row ∷ row ∷ row ∷ []) empty_lists).1
record_all-bounds_example =
    record_all-bounds refuse_third (row ∷ row ∷ row ∷ []) empty_lists bounded

abbrev bodies : List MessageTerminal
bodies =
    record {
      message_id = "a";
      terminal_status = "success";
      attempt_count = pos 1;
      final_timestamp_ms = pos 5;
      reason = none;
    }
    ∷ record {
      message_id = "b";
      terminal_status = "success";
      attempt_count = pos 2;
      final_timestamp_ms = pos 7;
      reason = none;
    }
    ∷ []

in_bound : 1000 ≤ list_max_len
unfolding list_max_len
in_bound = omega arith

each-list_rows_example :
    ((each refuse_third (record_terminal refuse_third) bodies empty_lists).0
      ≡ (each refuse_third (log_terminal refuse_third) bodies empty_lists).0)
    × (list_rows success 1000
          (each refuse_third (record_terminal refuse_third) bodies empty_lists).1
        ≡ list_rows success 1000
            (each refuse_third (log_terminal refuse_third) bodies empty_lists).1)
each-list_rows_example = each-list_rows refuse_third bodies empty_lists success 1000 in_bound
