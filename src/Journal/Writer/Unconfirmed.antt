-- ===== src/Journal/Writer/Unconfirmed.antt =====
-- What a flush leaves in the store when it raises.
use nitzan_shinnies_inspecti.Prelude.{String, ◌≡◌, ◌⊎◌, List, [], ◌∷◌, ◌++◌}
use nitzan_shinnies_inspecti.Prelude.Eq.{String-eq}
use nitzan_shinnies_inspecti.Prelude.Int.{ℤ}
use nitzan_shinnies_inspecti.Prelude.Decimal.{Codes}
use nitzan_shinnies_inspecti.Prelude.Result.{Done, connection_error, err}
use nitzan_shinnies_inspecti.Journal.Writer.{Writer}

-- No segment is stored by a call that raised; or the connection was lost, a segment of the shard with these
-- lines is stored, and the buffers are as before.
abbrev pub IsUnconfirmed : ℤ → List String → Writer → Done × Writer → Type 0
IsUnconfirmed sid lines w (r, w') =
    (w'.unconfirmed ≡ w.unconfirmed)
    ⊎ ((key : Codes) × (r ≡ err connection_error)
        × (w'.unconfirmed
            ≡ w.unconfirmed ++ (record { shard_id = sid; key = key; lines = lines }) ∷ [])
        × (w'.buffers ≡ w.buffers))
