-- ===== src/Archive/Rules/Ledger.antt =====
-- Histories of the activation ledger.
use nitzan_shinnies_inspecti.Prelude.{
  ℕ, ◌+◌, ◌≤◌, String, ◌≡◌, refl, subst, ◌⊎◌, inl, inr, Bool, true, false, ◌&&◌, ◌||◌, List, [],
  ◌∷◌, arith, if◌then◌else◌, Bool-cases,
}
use nitzan_shinnies_inspecti.Prelude.Eq.{◌==◌, ℕ-eq, String-eq, pair_eq, beq_refl}
use nitzan_shinnies_inspecti.Archive.Rules.{
  ActivationLedger, in_ids, discard, mark_terminal, try_activate,
}

-- What is done to a ledger: an activation is asked for, or a message ends.
pub data Step : Type 0 where
  activate finish : String → Step

abbrev one_if : Bool → ℕ
one_if b = if b then 1 else 0

-- How often a message is activated in a history.
unfoldable pub activations : String → List Step → ActivationLedger → ℕ
activations mid [] l = 0
activations mid (activate m ∷ steps) l =
    one_if ((try_activate m l).0 && (m == mid)) + activations mid steps (try_activate m l).1
activations mid (finish m ∷ steps) l = activations mid steps (mark_terminal m l)

-- A message that is pending or has ended.
abbrev IsKnown : String → ActivationLedger → Type 0
IsKnown mid l = (in_ids mid l.terminal || in_ids mid l.pending) ≡ true

in_ids-discard :
    (mid m : String) (ids : List String)
    → (m == mid) ≡ false
    → in_ids mid (discard m ids) ≡ in_ids mid ids
unfolding in_ids discard
in_ids-discard mid m [] h = refl
in_ids-discard mid m (x ∷ xs) h = elim (Bool-cases (x == m)) [
  | inl same ↦ ground (arith, in_ids-discard mid m xs h, String-eq.beq_iff x m)
  | inr other ↦ ground (arith, in_ids-discard mid m xs h)
]

mark_terminal-IsKnown :
    (mid m : String) (l : ActivationLedger) → IsKnown mid l → IsKnown mid (mark_terminal m l)
unfolding mark_terminal in_ids
mark_terminal-IsKnown mid m l h = elim (Bool-cases (m == mid)) [
  | inl same ↦ rw same refl
  | inr other ↦ ground (arith, in_ids-discard mid m l.pending other)
]

try_activate-IsKnown :
    (mid m : String) (l : ActivationLedger) → IsKnown mid l → IsKnown mid (try_activate m l).1
unfolding try_activate in_ids
try_activate-IsKnown mid m l h = ground arith

activated :
    (m : String) (l : ActivationLedger)
    → (try_activate m l).0 ≡ true
    → IsKnown m (try_activate m l).1
unfolding try_activate in_ids
activated m l h = ground (arith, beq_refl m)

known-refused :
    (mid m : String) (l : ActivationLedger)
    → IsKnown mid l
    → ((try_activate m l).0 && (m == mid)) ≡ false
unfolding try_activate
known-refused mid m l h = elim (Bool-cases (m == mid)) [
  | inl same ↦ let e = (String-eq.beq_iff m mid).0 same in rw (e, h) refl
  | inr other ↦ ground arith
]

activations-IsKnown :
    (mid : String) (steps : List Step) (l : ActivationLedger)
    → IsKnown mid l
    → activations mid steps l ≡ 0
unfolding activations
activations-IsKnown mid [] l h = refl
activations-IsKnown mid (activate m ∷ steps) l h =
    let rest =
      activations-IsKnown mid steps (try_activate m l).1 (try_activate-IsKnown mid m l h) in
    rw (known-refused mid m l h) (omega (arith, rest))
activations-IsKnown mid (finish m ∷ steps) l h =
    activations-IsKnown mid steps _ (mark_terminal-IsKnown mid m l h)

at_most_once :
    (mid : String) (steps : List Step) (l : ActivationLedger) → activations mid steps l ≤ 1
unfolding activations
at_most_once mid [] l = omega arith
at_most_once mid (activate m ∷ steps) l = elim (Bool-cases ((try_activate m l).0 && (m == mid))) [
  | inr refused ↦
      let rest = at_most_once mid steps (try_activate m l).1 in rw refused (omega (arith, rest))
  | inl taken ↦
      let same : m ≡ mid = (String-eq.beq_iff m mid).0 (ground (arith)) in
      let known : IsKnown mid (try_activate m l).1 =
        subst (λ x. IsKnown x (try_activate m l).1) same (activated m l (ground (arith))) in
      let rest = activations-IsKnown mid steps (try_activate m l).1 known in
      rw taken (omega (arith, rest))
]
at_most_once mid (finish m ∷ steps) l = at_most_once mid steps (mark_terminal m l)

-- However activations and ends are mixed, a message is activated at most once, and never if it is
-- pending or has ended at the start.
pub activations_bound :
    (mid : String) (steps : List Step) (l : ActivationLedger)
    → (activations mid steps l ≤ 1)
      × (((in_ids mid l.terminal || in_ids mid l.pending) ≡ false) ⊎ (activations mid steps l ≡ 0))
activations_bound mid steps l = (
  at_most_once mid steps l,
  elim (Bool-cases (in_ids mid l.terminal || in_ids mid l.pending)) [
    | inl known ↦ inr (activations-IsKnown mid steps l known)
    | inr fresh ↦ inl fresh
  ],
)
