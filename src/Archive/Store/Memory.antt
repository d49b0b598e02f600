-- ===== src/Archive/Store/Memory.antt =====
-- persistence/memory_s3.py: the provider that keeps the objects in a dictionary.
use nitzan_shinnies_inspecti.Prelude.{
  String, Option, none, some, List, [], ◌∷◌, if◌then◌else◌, take,
}
use nitzan_shinnies_inspecti.Prelude.Int.{ℤ, pos_part, ℤ-eq}
use nitzan_shinnies_inspecti.Prelude.Eq.{ℕ-eq, String-eq, pair_eq}
use nitzan_shinnies_inspecti.Prelude.Dict.{Dict, get, put, remove, keys}
use nitzan_shinnies_inspecti.Prelude.Result.{Result, ok, err, key_error}
use nitzan_shinnies_inspecti.Prelude.Exec.{Exec, pure, lift, gets, modify, ◌>>=◌, ◌>>◌}
use nitzan_shinnies_inspecti.Prelude.Text.{starts_with}
use nitzan_shinnies_inspecti.Prelude.Decimal.{Codes}
use nitzan_shinnies_inspecti.Archive.Keys.{
  validate_object_key, validate_list_prefix, validate_max_keys,
}
use nitzan_shinnies_inspecti.Archive.Reconcile.Snapshot.{insert_text}

abbrev pub Objects : Type 0
Objects = Dict String Codes

pub record ObjectWrite : Type 0 where
  pub key : String
  pub body : Codes
  pub content_type : String

abbrev found : Option Codes → Result Codes
found none = err key_error
found (some raw) = ok raw

-- the keys that start with a prefix, sorted
unfoldable pub matching_keys : String → List String → List String
matching_keys prefix [] = []
matching_keys prefix (k ∷ ks) =
    let rest = matching_keys prefix ks in if starts_with prefix k then insert_text k rest else rest

abbrev at_most : Option ℤ → List String → List String
at_most none ks = ks
at_most (some n) ks = take (pos_part n) ks

unfoldable pub delete_object : String → Exec Objects Unit
delete_object key = do lift (validate_object_key key); modify (λ o. remove o key)

unfoldable pub get_object : String → Exec Objects Codes
get_object key = do lift (validate_object_key key); got ← gets (λ o. get o key); lift (found got)

-- The keys of the returned rows.
unfoldable pub list_prefix : String → Option ℤ → Exec Objects (List String)
list_prefix prefix max_keys = do
  lift (validate_list_prefix prefix)
  lift (validate_max_keys max_keys)
  gets (λ o. at_most max_keys (matching_keys prefix (keys o)))

unfoldable pub put_objects : List ObjectWrite → Exec Objects Unit
put_objects [] = pure tt
put_objects (ow ∷ items) =
    lift (validate_object_key ow.key) >> (modify (λ o. put o ow.key ow.body) >> put_objects items)

unfoldable pub put_object : String → Codes → String → Exec Objects Unit
put_object key body content_type =
    put_objects ((record { key = key; body = body; content_type = content_type }) ∷ [])
