-- ===== src/Archive/Store.antt =====
-- The object store of the first version, under v1_obsolete/project/src/inspectio_exercise:
-- persistence/memory_s3.py, and the retries of worker/persistence_retry.py and retrying_persistence.py
-- over it (Memory). A call crosses the network: it may raise before it takes place, or after it.
pub mod Memory
pub mod Retry
pub mod Effects
mod Tests
use nitzan_shinnies_inspecti.Prelude.{
  ℕ, zero, suc, ◌+◌, String, Bool, true, false, not, ◌&&◌, ◌||◌, Option, List, [], ◌∷◌, leb, eqb,
  if◌then◌else◌,
}
use nitzan_shinnies_inspecti.Prelude.Int.{ℤ, ℤ-eq}
use nitzan_shinnies_inspecti.Prelude.Eq.{ℕ-eq, String-eq, pair_eq}
use nitzan_shinnies_inspecti.Prelude.Result.{
  Result, Error, ok, err, key_error, runtime_error, http_status_error, transport_error,
}
use nitzan_shinnies_inspecti.Prelude.Exec.{Exec, pure}
use nitzan_shinnies_inspecti.Prelude.Decimal.{Codes}
use nitzan_shinnies_inspecti.Archive.Store.Memory.{Objects, ObjectWrite}
use nitzan_shinnies_inspecti.Archive.Store.Memory

-- How the nth call ends: it takes place, or it raises before that, or after that.
pub data Fault : Type 0 where
  works : Fault
  before after : Error → Fault

-- The objects, and the calls that were made.
pub record Port : Type 0 where
  pub objects : Objects
  pub calls : ℕ

abbrev pub performed : {A : Type 0} → Exec Objects A → Port → Result A × Port
performed act p = let (r, o) = act p.objects in (r, record p { objects = o })

abbrev pub ends : {A : Type 0} → Fault → Exec Objects A → Port → Result A × Port
ends works act p = performed act p
ends (before e) act p = (err e, p)
ends (after e) act p = (err e, (performed act p).1)

unfoldable pub is_transient_persistence_failure : Error → Bool
is_transient_persistence_failure (http_status_error code) = eqb code 429 || leb 500 code
is_transient_persistence_failure transport_error = true
is_transient_persistence_failure _ = false

module _ {S A : Type 0} where
  abbrev pub or_again : ℕ → Result A × S → Result A × S → Result A × S
  or_again n again (ok a, s) = (ok a, s)
  or_again n again (err e, s) =
      if is_transient_persistence_failure e && not (eqb n 0) then again else (err e, s)

  -- max_attempts calls at most; a transient failure is raised by the last one only
  unfoldable pub run_with_persistence_retries : ℕ → Exec S A → Exec S A
  run_with_persistence_retries zero call s = (err runtime_error, s)
  run_with_persistence_retries (suc n) call s =
      or_again n (run_with_persistence_retries n call (call s).1) (call s)

-- The port of the worker: the answers to its calls, and how often it makes one.
pub record Client : Type 0 where
  pub fault : ℕ → Fault
  pub max_attempts : ℕ

module _ (c : Client) where
  abbrev pub remote : {A : Type 0} → Exec Objects A → Exec Port A
  remote act p = ends (c.fault p.calls) act (record p { calls = p.calls + 1 })

  abbrev pub retried : {A : Type 0} → Exec Objects A → Exec Port A
  retried act = run_with_persistence_retries c.max_attempts (remote act)

  unfoldable pub delete_object : String → Exec Port Unit
  delete_object key = retried (Memory.delete_object key)

  unfoldable pub get_object : String → Exec Port Codes
  get_object key = retried (Memory.get_object key)

  unfoldable pub list_prefix : String → Option ℤ → Exec Port (List String)
  list_prefix prefix max_keys = retried (Memory.list_prefix prefix max_keys)

  unfoldable pub put_object : String → Codes → Exec Port Unit
  put_object key raw = retried (Memory.put_object key raw "application/json")

  unfoldable pub put_objects : List ObjectWrite → Exec Port Unit
  put_objects [] = pure tt
  put_objects (ow ∷ items) = retried (Memory.put_objects (ow ∷ items))

  -- a missing object is no error
  abbrev suppress_key_error : Result (Unit {0}) × Port → Result (Unit {0}) × Port
  suppress_key_error (err key_error, p) = (ok tt, p)
  suppress_key_error (r, p) = (r, p)

  unfoldable pub delete_pending_best_effort : String → Exec Port Unit
  delete_pending_best_effort key p = suppress_key_error (delete_object key p)
