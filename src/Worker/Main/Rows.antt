-- ===== src/Worker/Main/Rows.antt =====
-- Which rows a snapshot of a shard holds, and which shards a worker takes.
use nitzan_shinnies_inspecti.Prelude.{
  ◌≡◌, refl, inl, inr, ◌&&◌, List, [], ◌∷◌, map, arith, Bool-cases, keep,
}
use nitzan_shinnies_inspecti.Prelude.Int.{ℤ, ℤ-eq}
use nitzan_shinnies_inspecti.Prelude.Eq.{◌==◌, ℕ-eq, String-eq, pair_eq}
use nitzan_shinnies_inspecti.Json.{get_field}
use nitzan_shinnies_inspecti.Worker.Runtime.{MessageState, is_pending}
use nitzan_shinnies_inspecti.Worker.Snapshot.{snapshot_rows, snapshot_row}
use nitzan_shinnies_inspecti.Worker.Main.{rows_for, is_row_of}

is_row_of-snapshot_row :
    (sid : ℤ) (st : MessageState) → is_row_of sid (snapshot_row st) ≡ (st.shard_id == sid)
unfolding is_row_of snapshot_row get_field
is_row_of-snapshot_row sid st = refl

-- The snapshot of a shard has one row for each pending message of the shard, in the order of the
-- messages, and no other.
pub rows_for_lem :
    (sid : ℤ) (sts : List MessageState)
    → rows_for sid sts
      ≡ map snapshot_row (keep (λ st. is_pending st.status && (st.shard_id == sid)) sts)
unfolding rows_for snapshot_rows
rows_for_lem sid [] = refl
rows_for_lem sid (st ∷ sts) = elim (Bool-cases (is_pending st.status)) [
  | inl p ↦ ground (arith, rows_for_lem sid sts, is_row_of-snapshot_row sid st)
  | inr p ↦ ground (arith, rows_for_lem sid sts)
]
