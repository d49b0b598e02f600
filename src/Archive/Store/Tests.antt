-- ===== src/Archive/Store/Tests.antt =====
-- The store at a port whose first two calls fail.
use nitzan_shinnies_inspecti.Prelude.{ℕ, zero, suc, ◌≤◌, ◌≡◌, refl, ◌⊎◌, some, [], ◌∷◌}
use nitzan_shinnies_inspecti.Prelude.Int.{ℤ-eq}
use nitzan_shinnies_inspecti.Prelude.Eq.{ℕ-eq, String-eq, pair_eq}
use nitzan_shinnies_inspecti.Prelude.Dict.{get}
use nitzan_shinnies_inspecti.Prelude.Result.{Error, ok, err, http_status_error, transport_error}
use nitzan_shinnies_inspecti.Archive.Store.{Port, Client, Fault, works, before, after}
use nitzan_shinnies_inspecti.Archive.Store.Effects.{SameBut, MayHold, put_object-Outcome}
use nitzan_shinnies_inspecti.Archive.Store.Memory
use nitzan_shinnies_inspecti.Archive.Store

abbrev faults : ℕ → Fault
faults zero = before transport_error
faults (suc zero) = after (http_status_error 503)
faults (suc (suc n)) = works

abbrev client : Client
client = record { fault = faults; max_attempts = 5 }

abbrev port : Port
port = record { objects = ("a", 1 ∷ []) ∷ []; calls = 0 }

put_object-Outcome_example :
    ((Store.put_object client "b" (2 ∷ []) port).1.calls ≤ 5)
    × SameBut "b" (("a", 1 ∷ []) ∷ []) (Store.put_object client "b" (2 ∷ []) port).1.objects
    × ((((Store.put_object client "b" (2 ∷ []) port).0 ≡ ok tt)
          × (get (Store.put_object client "b" (2 ∷ []) port).1.objects "b" ≡ some (2 ∷ [])))
        ⊎ (((e : Error) × ((Store.put_object client "b" (2 ∷ []) port).0 ≡ err e))
            × MayHold "b"
                (2 ∷ [])
                (("a", 1 ∷ []) ∷ [])
                (Store.put_object client "b" (2 ∷ []) port).1.objects))
put_object-Outcome_example = put_object-Outcome client "b" (2 ∷ []) port

third_call_stores : (Store.put_object client "b" (2 ∷ []) port).1.calls ≡ 3
unfolding Store.put_object Memory.put_object Memory.put_objects Store.run_with_persistence_retries
    Store.is_transient_persistence_failure nitzan_shinnies_inspecti.Archive.Keys.validate_object_key
    nitzan_shinnies_inspecti.Archive.Keys.split_slash
third_call_stores = refl
