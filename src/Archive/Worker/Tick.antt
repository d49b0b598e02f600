-- ===== src/Archive/Worker/Tick.antt =====
-- worker/pending_discovery.py and runtime.py: the discovery of pending objects, their activation by the
-- API, and a tick. The tasks of a tick run one after the other; the first error is raised at the end.
use nitzan_shinnies_inspecti.Prelude.{
  ℕ, ◌+◌, String, Bool, true, false, ◌||◌, none, some, List, [], ◌∷◌, ltb, eqb, if◌then◌else◌,
}
use nitzan_shinnies_inspecti.Prelude.Int.{ℤ, ℤ-eq}
use nitzan_shinnies_inspecti.Prelude.Eq.{ℕ-eq, String-eq, pair_eq}
use nitzan_shinnies_inspecti.Prelude.Dict.{get}
use nitzan_shinnies_inspecti.Prelude.Result.{Result, ok, err, key_error}
use nitzan_shinnies_inspecti.Prelude.Exec.{Exec, pure, raise, lift, gets, modify, ◌>>=◌, ◌>>◌}
use nitzan_shinnies_inspecti.Prelude.Decimal.{Codes}
use nitzan_shinnies_inspecti.Archive.Keys.{message_id_from_pending_key}
use nitzan_shinnies_inspecti.Archive.Rules.{pending_prefix_for_shard, shard_id_for_message}
use nitzan_shinnies_inspecti.Archive.DueWorkQueue.{Row, collect_due, ingest_if_new, upsert_pending}
use nitzan_shinnies_inspecti.Archive.Worker.{World, Core, in_port, caught, now_ms}
use nitzan_shinnies_inspecti.Archive.Worker.Lifecycle.{handle_one_core}
use nitzan_shinnies_inspecti.Archive.Store

-- The answers of an activation.
pub data Activation : Type 0 where
  scheduled not_owner missing invalid : Activation

pub record Counts : Type 0 where
  pub accepted : ℕ
  pub not_owners : ℕ
  pub missings : ℕ
  pub invalids : ℕ

unfoldable pub record_activation_status : Activation → Counts → Counts
record_activation_status scheduled c = record c { accepted = c.accepted + 1 }
record_activation_status not_owner c = record c { not_owners = c.not_owners + 1 }
record_activation_status missing c = record c { missings = c.missings + 1 }
record_activation_status invalid c = record c { invalids = c.invalids + 1 }

abbrev no_counts : Counts
no_counts = record { accepted = 0; not_owners = 0; missings = 0; invalids = 0 }

unfoldable pub is_owned : ℕ → List ℕ → Bool
is_owned shard [] = false
is_owned shard (s ∷ owned) = eqb s shard || is_owned shard owned

abbrev wake_up : Exec Core Unit
wake_up = modify (λ c. record c { awake = true })

abbrev listed : Result (List String) → List String
listed (err e) = []
listed (ok rows) = rows

-- `owned` are the shards of the worker.
module _ (w : World) (owned : List ℕ) where
  abbrev is_known : String → Exec Core Bool
  is_known mid = gets (λ c. elim (get c.queue.records mid) [ none ↦ false | some r ↦ true ])

  abbrev ingest_read : String → String → Result Codes → Exec Core Unit
  ingest_read mid key (err e) = pure tt
  ingest_read mid key (ok raw) =
      modify (λ c. record c { queue = ingest_if_new w.decode mid key raw c.queue })

  abbrev ingest_unless_known : String → String → Bool → Exec Core Unit
  ingest_unless_known mid key true = pure tt
  ingest_unless_known mid key false =
      caught (in_port (Store.get_object w.client key)) >>= ingest_read mid key

  abbrev discover_row : String → Exec Core Unit
  discover_row key = elim (message_id_from_pending_key key) [
    | none ↦ pure tt
    | some mid ↦ is_known mid >>= ingest_unless_known mid key
  ]

  unfoldable pub discover_rows : List String → Exec Core Unit
  discover_rows [] = pure tt
  discover_rows (key ∷ rows) = discover_row key >> discover_rows rows

  unfoldable pub discover_owned_pending : List ℕ → Exec Core Unit
  discover_owned_pending [] = pure tt
  discover_owned_pending (shard ∷ shards) =
      caught (in_port (Store.list_prefix w.client (pending_prefix_for_shard shard) none))
      >>= (λ rows. discover_rows (listed rows) >> discover_owned_pending shards)

  abbrev upsert : String → String → Codes → Exec Core Bool
  upsert mid key raw c =
      let (b, q) = upsert_pending w.decode mid key raw c.queue in (ok b, record c { queue = q })

  abbrev woken : Bool → Exec Core Activation
  woken wake = if wake then (wake_up >> pure scheduled) else pure scheduled

  abbrev activate_read : String → String → Bool → Result Codes → Exec Core Activation
  activate_read mid key wake (err key_error) = pure missing
  activate_read mid key wake (err e) = raise e
  activate_read mid key wake (ok raw) =
      upsert mid key raw >>= (λ b. if b then woken wake else pure invalid)

  unfoldable pub activate_pending_enqueue : String → Bool → Exec Core Activation
  activate_pending_enqueue pending_key wake = elim (message_id_from_pending_key pending_key) [
    | none ↦ pure invalid
    | some mid ↦ do
      shard ← lift (shard_id_for_message w.digest mid w.total_shards)
      if is_owned shard owned
          then (caught (in_port (Store.get_object w.client pending_key))
              >>= activate_read mid pending_key wake)
          else pure not_owner
  ]

  unfoldable pub activate_pending_now : String → Exec Core Activation
  activate_pending_now pending_key = activate_pending_enqueue pending_key true

  unfoldable pub activate_all : List String → Counts → Exec Core Counts
  activate_all [] counts = pure counts
  activate_all (pk ∷ pending_keys) counts = do
    st ← activate_pending_enqueue pk false
    activate_all pending_keys (record_activation_status st counts)

  unfoldable pub activate_pending_batch : List String → Exec Core Counts
  activate_pending_batch pending_keys = do
    counts ← activate_all pending_keys no_counts
    if ltb 0 counts.accepted then (wake_up >> pure counts) else pure counts

  abbrev first_error : Result (Unit {0}) → Result (Unit {0}) → Result (Unit {0})
  first_error (err e) r = err e
  first_error (ok u) r = r

  unfoldable pub handle_all : List Row → Exec Core Unit
  handle_all [] c = (ok tt, c)
  handle_all ((mid, (rec, key)) ∷ due) c =
      let (r, c') = handle_one_core w mid rec key c in
      let (rs, c'') = handle_all due c' in (first_error r rs, c'')

  abbrev collect : ℤ → Exec Core (List Row)
  collect now c = let (due, q) = collect_due now c.queue in (ok due, record c { queue = q })

  unfoldable pub run_tick : Exec Core Unit
  run_tick = discover_owned_pending owned >> (now_ms w >>= (λ now. collect now >>= handle_all))
