-- ===== src/Archive/Worker/Tests.antt =====
-- A worker with one pending object that is due, whose store fails at times.
use nitzan_shinnies_inspecti.Prelude.Dict.{get}
use nitzan_shinnies_inspecti.Prelude.Result.{ok, err, value_error, transport_error}
use nitzan_shinnies_inspecti.Prelude.{
  inl, inr, ℕ, ◌+◌, String, ◌≡◌, refl, false, Option, none, some, [], ◌∷◌, ◌++◌, eqb, if◌then◌else◌,
}
use nitzan_shinnies_inspecti.Archive.Worker.Kept.Handle.{handle_one_core-IsKept, IsDueMessage}
use nitzan_shinnies_inspecti.Archive.Worker.Scan.{IsEnd, objects_of}
use nitzan_shinnies_inspecti.Archive.Worker.Kept.{IsPending, IsKept}
use nitzan_shinnies_inspecti.Archive.Worker.{terminal_in, World, Core}
use nitzan_shinnies_inspecti.Archive.Worker.Lifecycle.{
  both_texts, text_or_empty, payload_of, handle_one_core, ended_as,
}
use nitzan_shinnies_inspecti.Prelude.Int.{ℤ, pos, negsuc, ℤ-eq}
use nitzan_shinnies_inspecti.Prelude.Eq.{◌==◌, ℕ-eq, String-eq, pair_eq}
use nitzan_shinnies_inspecti.Prelude.Decimal.{Codes}
use nitzan_shinnies_inspecti.Json.{Json, Fields, end, field, int, str, obj, get_field, set_field}
use nitzan_shinnies_inspecti.Archive.Rules.{terminal_success_key, terminal_failed_key}
use nitzan_shinnies_inspecti.Archive.Store.{Fault, works, after}

abbrev rec : Fields
rec = field "messageId" (str "a") (
    field "attemptCount" (int (pos 0)) (
      field "nextDueAt" (int (pos 5)) (
        field "status" (str "pending")
          (field "payload" (obj (field "to" (str "+1") (field "body" (str "hi") end))) end))))

abbrev pending_key : String
pending_key = "state/pending/shard-0/a.json"

-- The records that the worker writes of this message: what was added to it.
abbrev number_code : Option Json → Codes
number_code (some (int (pos n))) = 0 ∷ n ∷ []
number_code (some (int (negsuc n))) = 1 ∷ n ∷ []
number_code _ = []

abbrev status_code : Option Json → ℕ
status_code (some (str s)) = if s == "success" then 1 else if s == "failed" then 2 else 0
status_code _ = 0

abbrev dumps : Fields → Codes
dumps d =
    status_code (get_field d "status")
    ∷ (number_code (get_field d "attemptCount") ++ number_code (get_field d "recordedAt"))

abbrev number : ℕ → ℕ → ℤ
number s n = if eqb s 0 then pos n else negsuc n

abbrev counted : ℕ → ℕ → Fields
counted s n = set_field rec "attemptCount" (int (number s n))

abbrev ended : ℕ → ℤ → Fields → Fields
ended status t d =
    set_field (set_field d "recordedAt" (int t)) "status"
      (str (if eqb status 1 then "success" else "failed"))

abbrev decode : Codes → Option Json
decode (status ∷ s ∷ n ∷ []) = some (obj (counted s n))
decode (status ∷ s ∷ n ∷ u ∷ m ∷ []) = some (obj (ended status (number u m) (counted s n)))
decode _ = none

-- The third call of the store takes place, and its answer is lost.
abbrev faults : ℕ → Fault
faults n = if eqb n 2 then after transport_error else works

abbrev world : World
world = record {
  client = record { fault = faults; max_attempts = 5 };
  decode = decode;
  dumps = dumps;
  int_of_text = λ s. err value_error;
  clock = λ n. pos (10 + n);
  sms = λ n s. ok 200;
  notify = λ n b. err transport_error;
  utc = λ t. record { yyyy = "1970"; mm = "01"; dd = "01"; hh = "00" };
  digest = λ s. 7;
  uuid5 = λ s. s;
  publish_attempts = 3;
  lookback_hours = pos 6;
  total_shards = pos 4;
}

reads_success :
    (t : ℤ)
    → decode (dumps (ended_as world "success" t rec)) ≡ some (obj (ended_as world "success" t rec))
unfolding get_field set_field
reads_success (pos t) = refl
reads_success (negsuc t) = refl

reads_failed :
    (t n : ℤ)
    → decode (dumps (ended_as world "failed" t (set_field rec "attemptCount" (int n))))
      ≡ some (obj (ended_as world "failed" t (set_field rec "attemptCount" (int n))))
unfolding get_field set_field
reads_failed (pos t) (pos n) = refl
reads_failed (pos t) (negsuc n) = refl
reads_failed (negsuc t) (pos n) = refl
reads_failed (negsuc t) (negsuc n) = refl

has_id : get_field rec "messageId" ≡ some (str "a")
unfolding get_field
has_id = refl

payload_valid :
    both_texts
      (text_or_empty (get_field (payload_of (get_field rec "payload")) "to"))
      (text_or_empty (get_field (payload_of (get_field rec "payload")) "body"))
    ≡ some ("+1", "hi")
unfolding get_field
payload_valid = refl

no_success_key : (t : ℤ) → (pending_key == terminal_success_key world.utc "a" t) ≡ false
unfolding terminal_success_key
no_success_key t = refl

no_failed_key : (t : ℤ) → (pending_key == terminal_failed_key world.utc "a" t) ≡ false
unfolding terminal_failed_key
no_failed_key t = refl

is_due : IsDueMessage world "a" rec pending_key
is_due = record {
  reads_success = reads_success;
  reads_failed = reads_failed;
  id = has_id;
  success_elsewhere = no_success_key;
  failed_elsewhere = no_failed_key;
}

live : (outcome : String) → IsEnd outcome → terminal_in world "a" outcome (ok (dumps rec)) ≡ none
unfolding get_field set_field
live outcome (inl e) = rw e refl
live outcome (inr e) = rw e refl

abbrev core : Core
core = record {
  port = record { objects = (pending_key, dumps rec) ∷ []; calls = 0 };
  queue = record {
    heap = [];
    seq = 1;
    records = ("a", rec) ∷ [];
    pending_keys = ("a", pending_key) ∷ [];
  };
  reads = 0;
  sends = [];
  posts = [];
  awake = false;
}

is_pending : IsPending world "a" pending_key (objects_of core)
unfolding get
is_pending = (dumps rec, refl, live)

handle_one_core-IsKept_example :
    IsKept world "a" pending_key (objects_of (handle_one_core world "a" rec pending_key core).1)
handle_one_core-IsKept_example =
    handle_one_core-IsKept world "a" pending_key rec is_due ("+1", "hi") payload_valid core
      is_pending
