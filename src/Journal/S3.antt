-- ===== src/Journal/S3.antt =====
-- What the journal asks of the world: two clocks, the object store and `json.dumps`.
use nitzan_shinnies_inspecti.Prelude.{ℕ, String, Bool, List, ◌≡◌, refl, ◌⊎◌, inl, inr}
use nitzan_shinnies_inspecti.Prelude.Int.{ℤ, ℤ-eq}
use nitzan_shinnies_inspecti.Prelude.Decimal.{Codes}
use nitzan_shinnies_inspecti.Settings.{Settings}
use nitzan_shinnies_inspecti.Journal.Records.{JournalRecord}

-- What `put_object` does: it stores and returns, or the store answers with an error and stores nothing,
-- which is a ClientError with a code, or another exception of botocore is raised, such as that of a lost
-- connection or of a timeout, before the object is stored (false) or after that (true).
pub data PutAnswer : Type 0 where
  stored : PutAnswer
  refused : String → PutAnswer
  lost : Bool → PutAnswer

pub PutAnswer-cases :
    (a : PutAnswer)
    → (a ≡ stored) ⊎ (((code : String) × (a ≡ refused code)) ⊎ ((b : Bool) × (a ≡ lost b)))
PutAnswer-cases stored = inl refl
PutAnswer-cases (refused code) = inr (inl (code, refl))
PutAnswer-cases (lost b) = inr (inr (b, refl))

-- The nth reading of `int(time.time() * 1000)` and of `time.monotonic()`, in milliseconds, the
-- answer to the nth `put_object`, and the compact line of a record with sorted keys.
pub record Env : Type 0 where
  pub settings : Settings
  pub clock_ms : ℕ → ℕ
  pub mono_ms : ℕ → ℕ
  pub put_answer : ℕ → PutAnswer
  pub dumps : JournalRecord → String

-- An object that was stored: the shard that it was written for, its key, and the lines that are
-- joined, encoded and compressed into its body.
pub record Segment : Type 0 where
  pub shard_id : ℤ
  pub key : Codes
  pub lines : List String
