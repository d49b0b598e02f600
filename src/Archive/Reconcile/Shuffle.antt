-- ===== src/Archive/Reconcile/Shuffle.antt =====
-- Sorting the attempt indexes, as health_monitor/reconcile.py does, and lists with the same members.
use nitzan_shinnies_inspecti.Prelude.{
  ◌≡◌, refl, subst, sym, ap, ◌∙◌, ◌↔◌, inl, inr, true, false, List, [], ◌∷◌, ◌++◌, arith, All,
  Bool-cases,
}
use nitzan_shinnies_inspecti.Archive.Reconcile.{sorted, insert_int, six_indexes}
use nitzan_shinnies_inspecti.Prelude.Int.{ℤ, ◌<ℤ◌, ltb_ℤ, ℤ-eq}
use nitzan_shinnies_inspecti.Prelude.Eq.{ℕ-eq, String-eq, pair_eq}

-- The second list has the members of the first in some order.
abbrev pub IsShuffle : List ℤ → List ℤ → Type 0
IsShuffle [] ms = ms ≡ []
IsShuffle (n ∷ ns) ms =
    (before after : List ℤ) × (ms ≡ before ++ n ∷ after) × IsShuffle ns (before ++ after)

abbrev Increases : List ℤ → Type 0
Increases [] = Unit
Increases (m ∷ ms) = All (λ n. m <ℤ n) ms × Increases ms

insert_int-at :
    (n : ℤ) (ms : List ℤ)
    → (before after : List ℤ) × (insert_int n ms ≡ before ++ n ∷ after) × (before ++ after ≡ ms)
unfolding insert_int
insert_int-at n [] = ([], [], refl, refl)
insert_int-at n (m ∷ ms) = elim (Bool-cases (ltb_ℤ m n)) [
  | inl below ↦
      let (before, after, e, f) = insert_int-at n ms in
      (m ∷ before, after, rw (below, e) refl, ap (λ l. m ∷ l) f)
  | inr above ↦ ([], m ∷ ms, rw above refl, refl)
]

sorted-IsShuffle : (ns : List ℤ) → IsShuffle ns (sorted ns)
unfolding sorted
sorted-IsShuffle [] = refl
sorted-IsShuffle (n ∷ ns) =
    let (before, after, e, f) = insert_int-at n (sorted ns) in
    (before, after, e, subst (IsShuffle ns) (sym f) (sorted-IsShuffle ns))

All-skip :
    (P : ℤ → Type 0) (before : List ℤ) (n : ℤ) (after : List ℤ)
    → All P (before ++ n ∷ after)
    → P n × All P (before ++ after)
All-skip P [] n after (p, h) = (p, h)
All-skip P (m ∷ before) n after (p, h) = let (q, k) = All-skip P before n after h in (q, (p, k))

insert_int-back :
    (n : ℤ) (before after : List ℤ)
    → Increases (before ++ n ∷ after)
    → (insert_int n (before ++ after) ≡ before ++ n ∷ after) × Increases (before ++ after)
unfolding insert_int
insert_int-back n [] [] h = (refl, tt)
insert_int-back n [] (m ∷ after) ((lt, all), h) =
    let no : ltb_ℤ m n ≡ false = ground arith in (rw no refl, h)
insert_int-back n (m ∷ before) after (all, h) =
    let (e, k) = insert_int-back n before after h in
    let (lt, rest) = All-skip (λ x. m <ℤ x) before n after all in
    let yes : ltb_ℤ m n ≡ true = ground arith in (rw (yes, e) refl, (rest, k))

IsShuffle-sorted : (ns ms : List ℤ) → Increases ms → IsShuffle ns ms → sorted ns ≡ ms
unfolding sorted
IsShuffle-sorted [] ms inc h = sym h
IsShuffle-sorted (n ∷ ns) ms inc (before, after, e, h) =
    let (f, k) = insert_int-back n before after (subst Increases e inc) in
    ap (insert_int n) (IsShuffle-sorted ns (before ++ after) k h) ∙ (f ∙ sym e)

six-Increases : Increases six_indexes
six-Increases = (
  (omega arith, (omega arith, (omega arith, (omega arith, (omega arith, tt))))),
  (
    (omega arith, (omega arith, (omega arith, (omega arith, tt)))),
    (
      (omega arith, (omega arith, (omega arith, tt))),
      ((omega arith, (omega arith, tt)), ((omega arith, tt), (tt, tt))),
    ),
  ),
)

pub sorted_iff : (ns : List ℤ) → (sorted ns ≡ six_indexes) ↔ IsShuffle ns six_indexes
sorted_iff ns = (
  λ h. subst (IsShuffle ns) h (sorted-IsShuffle ns),
  λ h. IsShuffle-sorted ns six_indexes six-Increases h,
)
