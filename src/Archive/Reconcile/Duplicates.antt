-- ===== src/Archive/Reconcile/Duplicates.antt =====
-- The checks of health_monitor/reconcile.py for several terminal keys of one id.
use nitzan_shinnies_inspecti.Prelude.{
  String, ◌≡◌, refl, sym, ap, ◌∙◌, ◌↔◌, ◌⊎◌, inl, inr, none, List, [], ◌∷◌, ◌≤◌, arith, length, map,
  All, Bool-cases, Option-cases, ltb,
}
use nitzan_shinnies_inspecti.Prelude.Int.{ℤ-eq}
use nitzan_shinnies_inspecti.Prelude.Eq.{◌==◌, ℕ-eq, String-eq, pair_eq}
use nitzan_shinnies_inspecti.Prelude.Dict.{Dict, get}
use nitzan_shinnies_inspecti.Archive.Reconcile.{Kind, Violation}
use nitzan_shinnies_inspecti.Archive.Reconcile.Snapshot.{
  several_keys, in_both, insert_text, text_le,
}

abbrev pub Keys : Type 0
Keys = Dict String (List String)

abbrev pub IsSingle : String × List String → Type 0
IsSingle (mid, keys) = length keys ≤ 1

pub several_keys_iff : (kind : Kind) (d : Keys) → (several_keys kind d ≡ []) ↔ All IsSingle d
unfolding several_keys
several_keys_iff kind [] = (λ h. tt, λ h. refl)
several_keys_iff kind ((mid, keys) ∷ d) = elim (Bool-cases (ltb 1 (length keys))) [
  | inl e ↦ (λ h. absurd (ground (arith, e, h)), λ (h, hs). absurd (ground (arith, e)))
  | inr e ↦ (
    λ h. (ground arith, (several_keys_iff kind d).0 (rw e at h)),
    λ (h, hs). rw e ((several_keys_iff kind d).1 hs),
  )
]

-- No id has both a success and a failure.
abbrev pub NotInBoth : Keys → Keys → Type 0
NotInBoth a b = (mid : String) → (get a mid ≡ none) ⊎ (get b mid ≡ none)

insert_text_nonempty : (s : String) (ts : List String) → insert_text s ts ≡ [] → ⊥
unfolding insert_text
insert_text_nonempty s [] h = cc
insert_text_nonempty s (t ∷ ts) h = elim (Bool-cases (text_le s t)) [
  | inl e ↦ absurd (ground (arith, e, h))
  | inr e ↦ absurd (ground (arith, e, h))
]

pub in_both_iff : (a b : Keys) → (in_both a b ≡ []) ↔ NotInBoth a b
unfolding in_both get
in_both_iff [] b = (λ h mid. inl refl, λ h. refl)
in_both_iff ((m, ks) ∷ a) b = elim (Option-cases (get b m)) [
  | inr (js, e) ↦ (
    λ h. absurd (insert_text_nonempty m (in_both a b) (rw (in_both, e) at h)),
    λ h. elim (h m) [
      | inl f ↦ absurd (ground (arith, f, String-eq.beq_iff m m))
      | inr f ↦ absurd (ground (arith, e, f))
    ],
  )
  | inl e ↦ (
    λ h mid. elim (Bool-cases (m == mid)) [
      | inl same ↦ inr (ap (get b) (sym ((String-eq.beq_iff m mid).0 same)) ∙ e)
      | inr other ↦ rw other ((in_both_iff a b).0 (rw (in_both, e) at h) mid)
    ],
    λ h.
        rw (in_both, e)
          ((in_both_iff a b).1 (λ mid. elim (Bool-cases (m == mid)) [
            | inl same ↦ inr (ap (get b) (sym ((String-eq.beq_iff m mid).0 same)) ∙ e)
            | inr other ↦ rw other at (h mid)
          ])),
  )
]

pub map_nil_iff : (f : String → Violation) (xs : List String) → (map f xs ≡ []) ↔ (xs ≡ [])
map_nil_iff f [] = (λ h. refl, λ h. refl)
map_nil_iff f (x ∷ xs) = (λ h. cc, λ h. cc)
