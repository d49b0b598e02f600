-- ===== src/Archive/DueWorkQueue/Tests.antt =====
-- A heap with one entry that is due and one that is not.
use nitzan_shinnies_inspecti.Archive.DueWorkQueue.{live_row, HeapEntry, DueWorkQueue, collect_from}
use nitzan_shinnies_inspecti.Prelude.Dict.{get}
use nitzan_shinnies_inspecti.Prelude.{◌≡◌, refl, ℕ, [], ◌∷◌}
use nitzan_shinnies_inspecti.Prelude.Int.{pos, ℤ-eq}

abbrev entry : ℕ → HeapEntry
entry due = record { due_ms = pos due; seq = due; mid = "a" }

abbrev queue : DueWorkQueue
queue = record { heap = []; seq = 0; records = []; pending_keys = [] }

one_is_left : (collect_from queue (pos 5) (entry 3 ∷ entry 9 ∷ [])).1 ≡ entry 9 ∷ []
unfolding collect_from live_row get
one_is_left = refl
