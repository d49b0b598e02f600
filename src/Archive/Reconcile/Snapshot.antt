-- ===== src/Archive/Reconcile/Snapshot.antt =====
-- `build_lifecycle_snapshot`: the listed objects by message id, and what is wrong with their keys.
use nitzan_shinnies_inspecti.Prelude.{
  String, Bool, true, false, not, ◌&&◌, none, some, List, [], ◌∷◌, ◌++◌, map, ltb, if◌then◌else◌,
  length,
}
use nitzan_shinnies_inspecti.Prelude.Eq.{ℕ-eq, String-eq, pair_eq}
use nitzan_shinnies_inspecti.Prelude.Dict.{Dict, get, put, keys, or_default}
use Prim.Native.Char.{Char}
use Prim.Native.String.{compare}
use Prim.Native.Nat.{Ordering}
use nitzan_shinnies_inspecti.Json.{Fields, get_field}
use nitzan_shinnies_inspecti.Archive.Values.{text_is, is_present}
use nitzan_shinnies_inspecti.Archive.Keys.{
  message_id_from_pending_key, message_id_from_terminal_key,
}
use nitzan_shinnies_inspecti.Archive.DueWorkQueue.{is_valid_pending_row}
use nitzan_shinnies_inspecti.Archive.Reconcile.{
  Kind, Violation, violation_of, LifecycleSnapshot, when, invalid_pending_key,
  invalid_pending_document, invalid_success_key, terminal_success_invalid_status,
  invalid_failed_key, duplicate_success_terminal_keys, duplicate_failed_terminal_keys,
  duplicate_terminal,
}

-- A listed object: its key and its parsed body.
abbrev pub Listed : Type 0
Listed = List (String × Fields)

abbrev pub keyless : Kind → Violation
keyless kind = record { kind = kind; message_id = none }

-- d.setdefault(mid, []).append(key)
abbrev pub add_key : Dict String (List String) → String → String → Dict String (List String)
add_key d mid key = put d mid (or_default (get d mid) [] ++ key ∷ [])

unfoldable pub load_pending : Listed → Dict String Fields → List Violation × Dict String Fields
load_pending [] d = ([], d)
load_pending ((key, body) ∷ rest) d = elim (message_id_from_pending_key key) [
  | none ↦ let (vs, d') = load_pending rest d in (keyless invalid_pending_key ∷ vs, d')
  | some mid ↦ elim (is_valid_pending_row mid body) [
    | false ↦
        let (vs, d') = load_pending rest d in (violation_of invalid_pending_document mid ∷ vs, d')
    | true ↦ load_pending rest (put d mid body)
  ]
]

-- st is not None and st != "success"
abbrev pub has_other_status : Fields → Bool
has_other_status body =
    is_present (get_field body "status") && not (text_is "success" (get_field body "status"))

abbrev pub Failed : Type 0
Failed = Dict String (List String) × Dict String Fields

module _ (is_decimal : Char → Bool) where
  unfoldable pub load_success :
      Listed → Dict String (List String) → List Violation × Dict String (List String)
  load_success [] d = ([], d)
  load_success ((key, body) ∷ rest) d = elim (message_id_from_terminal_key is_decimal key) [
    | none ↦ let (vs, d') = load_success rest d in (keyless invalid_success_key ∷ vs, d')
    | some mid ↦
        let (vs, d') = load_success rest (add_key d mid key) in
        (when (has_other_status body) (violation_of terminal_success_invalid_status mid) vs, d')
  ]

  unfoldable pub load_failed : Listed → Failed → List Violation × Failed
  load_failed [] d = ([], d)
  load_failed ((key, body) ∷ rest) (keys, bodies) =
      elim (message_id_from_terminal_key is_decimal key) [
        | none ↦
            let (vs, d') = load_failed rest (keys, bodies) in (keyless invalid_failed_key ∷ vs, d')
        | some mid ↦ load_failed rest (add_key keys mid key, put bodies mid body)
      ]

-- The ids with more than one key.
unfoldable pub several_keys : Kind → Dict String (List String) → List Violation
several_keys kind [] = []
several_keys kind ((mid, keys) ∷ rest) =
    when (ltb 1 (length keys)) (violation_of kind mid) (several_keys kind rest)

-- sorted(set(a) & set(b)): texts are ordered by their code points
abbrev pub text_le : String → String → Bool
text_le s t = elim (compare s t) [ Ordering.gt ↦ false | _ ↦ true ]

unfoldable pub insert_text : String → List String → List String
insert_text s [] = s ∷ []
insert_text s (t ∷ ts) = let rest = insert_text s ts in if text_le s t then s ∷ t ∷ ts else t ∷ rest

unfoldable pub in_both : Dict String (List String) → Dict String (List String) → List String
in_both [] b = []
in_both ((mid, keys) ∷ a) b =
    let rest = in_both a b in elim (get b mid) [ none ↦ rest | some k ↦ insert_text mid rest ]

-- What is reported of ids with several terminal keys.
abbrev pub duplicate_violations :
    Dict String (List String) → Dict String (List String) → List Violation
duplicate_violations success_by_mid failed_by_mid =
    several_keys duplicate_success_terminal_keys success_by_mid
    ++ (several_keys duplicate_failed_terminal_keys failed_by_mid
        ++ map (violation_of duplicate_terminal) (in_both success_by_mid failed_by_mid))

module _ (is_decimal : Char → Bool) where
  unfoldable pub build_lifecycle_snapshot :
      Listed → Listed → Listed → LifecycleSnapshot × List Violation
  build_lifecycle_snapshot pending success failed =
      let (v1, pending_bodies) = load_pending pending [] in
      let (v2, success_by_mid) = load_success is_decimal success [] in
      let (v3, (failed_by_mid, failed_bodies)) = load_failed is_decimal failed ([], []) in
      (
        record {
          failed_bodies = failed_bodies;
          failed_keys_by_mid = failed_by_mid;
          pending_bodies = pending_bodies;
          success_keys_by_mid = success_by_mid;
        },
        v1 ++ (v2 ++ (v3 ++ duplicate_violations success_by_mid failed_by_mid)),
      )
