-- ===== src/Archive/Rules/Due.antt =====
-- domain/wakeup.py: the order in which messages become due.
use nitzan_shinnies_inspecti.Prelude.{
  String, ◌≡◌, refl, ◌⊎◌, inl, inr, Bool, true, false, ◌&&◌, ◌||◌, List, [], ◌∷◌, map, arith,
  if◌then◌else◌, Bool-cases, All,
}
use nitzan_shinnies_inspecti.Prelude.Int.{ℤ-eq, ℤ, ◌≤ℤ◌, ◌<ℤ◌, ltb_ℤ, leb_ℤ}
use nitzan_shinnies_inspecti.Prelude.Eq.{◌==◌, ℕ-eq, String-eq, pair_eq}
use mathlib.Core.List.{Perm}
use Prim.Native.String.{compare}
use Prim.Native.Nat.{Ordering}
use mathlib.Core.List.Perm

abbrev pub Timed : Type 0
Timed = ℤ × String

-- (t, a) <= (u, b) for tuples of a time and a text; texts are ordered by their code points
abbrev text_le : String → String → Bool
text_le s t = elim (compare s t) [ Ordering.gt ↦ false | _ ↦ true ]

unfoldable pub timed_le : Timed → Timed → Bool
timed_le (t, a) (u, b) = ltb_ℤ t u || ((t == u) && text_le a b)

unfoldable pub insert_timed : Timed → List Timed → List Timed
insert_timed x [] = x ∷ []
insert_timed x (y ∷ ys) =
    let rest = insert_timed x ys in if timed_le x y then x ∷ y ∷ ys else y ∷ rest

-- sorted(...), and the order in which heapq pops
unfoldable pub sort_timed : List Timed → List Timed
sort_timed [] = []
sort_timed (x ∷ xs) = insert_timed x (sort_timed xs)

unfoldable pub heap_pop_order : List Timed → List String
heap_pop_order events = map (λ e. e.1) (sort_timed events)

-- [(mid, t) for mid, t in messages if t <= now_ms], each time in front
unfoldable pub due_pairs : List (String × ℤ) → ℤ → List Timed
due_pairs [] now_ms = []
due_pairs ((mid, t) ∷ messages) now_ms =
    let rest = due_pairs messages now_ms in if leb_ℤ t now_ms then (t, mid) ∷ rest else rest

unfoldable pub select_due_message_ids : List (String × ℤ) → ℤ → List String
select_due_message_ids messages now_ms = map (λ e. e.1) (sort_timed (due_pairs messages now_ms))

-- The times ascend from a floor.
abbrev pub AscendsFrom : ℤ → List Timed → Type 0
AscendsFrom low [] = Unit
AscendsFrom low ((t, mid) ∷ xs) = (low ≤ℤ t) × AscendsFrom t xs

insert_timed-perm : (x : Timed) (xs : List Timed) → Perm (insert_timed x xs) (x ∷ xs)
unfolding insert_timed
insert_timed-perm x [] = Perm.rfl
insert_timed-perm x (y ∷ ys) = elim (Bool-cases (timed_le x y)) [
  | inl below ↦ rw below Perm.rfl
  | inr above ↦ rw above (Perm.trans (Perm.cons y (insert_timed-perm x ys)) (Perm.swap x y ys))
]

sort_timed-perm : (xs : List Timed) → Perm (sort_timed xs) xs
unfolding sort_timed
sort_timed-perm [] = Perm.rfl
sort_timed-perm (x ∷ xs) =
    Perm.trans (insert_timed-perm x (sort_timed xs)) (Perm.cons x (sort_timed-perm xs))

t_below_u : (t u : ℤ) (a b : String) → (ltb_ℤ t u || ((t == u) && text_le a b)) ≡ true → t ≤ℤ u
t_below_u t u a b h = elim (Bool-cases (ltb_ℤ t u)) [
  | inl less ↦ ground arith
  | inr more ↦ let same : t ≡ u = (ℤ-eq.beq_iff t u).0 (ground arith) in rw same (omega arith)
]

u_below_t : (t u : ℤ) (a b : String) → (ltb_ℤ t u || ((t == u) && text_le a b)) ≡ false → u ≤ℤ t
u_below_t t u a b h = ground arith

insert_timed-AscendsFrom :
    (t low : ℤ) (mid : String) (xs : List Timed)
    → low ≤ℤ t
    → AscendsFrom low xs
    → AscendsFrom low (insert_timed (t, mid) xs)
unfolding insert_timed timed_le
insert_timed-AscendsFrom t low mid [] h s = (h, tt)
insert_timed-AscendsFrom t low mid ((u, b) ∷ ys) h (le, s) =
    elim (Bool-cases (ltb_ℤ t u || ((t == u) && text_le mid b))) [
      | inl below ↦ rw below (h, (t_below_u t u mid b below, s))
      | inr above ↦ rw above (le, insert_timed-AscendsFrom t u mid ys (u_below_t t u mid b above) s)
    ]

sort_timed-AscendsFrom :
    (low : ℤ) (xs : List Timed) → All (λ x. low ≤ℤ x.0) xs → AscendsFrom low (sort_timed xs)
unfolding sort_timed
sort_timed-AscendsFrom low [] h = tt
sort_timed-AscendsFrom low ((t, mid) ∷ xs) (le, h) =
    insert_timed-AscendsFrom t low mid (sort_timed xs) le (sort_timed-AscendsFrom low xs h)

-- The pairs are those of the messages whose time has come, in the order of the messages.
abbrev pub ArePicked : List (String × ℤ) → ℤ → List Timed → Type 0
ArePicked [] now_ms xs = xs ≡ []
ArePicked ((mid, t) ∷ messages) now_ms xs =
    ((t ≤ℤ now_ms)
      × ((rest : List Timed) × (xs ≡ (t, mid) ∷ rest) × ArePicked messages now_ms rest))
    ⊎ ((now_ms <ℤ t) × ArePicked messages now_ms xs)

due_pairs-ArePicked :
    (messages : List (String × ℤ)) (now_ms : ℤ)
    → ArePicked messages now_ms (due_pairs messages now_ms)
unfolding due_pairs
due_pairs-ArePicked [] now_ms = refl
due_pairs-ArePicked ((mid, t) ∷ ms) now_ms = elim (Bool-cases (leb_ℤ t now_ms)) [
  | inl due ↦
      rw due (inl (ground arith, (due_pairs ms now_ms, refl, due_pairs-ArePicked ms now_ms)))
  | inr later ↦ rw later (inr (ground arith, due_pairs-ArePicked ms now_ms))
]

due_pairs-above :
    (low now_ms : ℤ) (messages : List (String × ℤ))
    → All (λ m. low ≤ℤ m.1) messages
    → All (λ x. low ≤ℤ x.0) (due_pairs messages now_ms)
unfolding due_pairs
due_pairs-above low now_ms [] h = tt
due_pairs-above low now_ms ((mid, t) ∷ ms) (le, h) = elim (Bool-cases (leb_ℤ t now_ms)) [
  | inl due ↦ rw due (le, due_pairs-above low now_ms ms h)
  | inr later ↦ rw later (due_pairs-above low now_ms ms h)
]

-- The ids that are selected are those of exactly the messages whose time is not after now, each as often
-- as it occurs, in the order of their times. `low` is a time before all of them.
pub select_due_message_ids-IsOrder :
    (messages : List (String × ℤ)) (now_ms low : ℤ)
    → All (λ m. low ≤ℤ m.1) messages
    → (picked es : List Timed) × ArePicked messages now_ms picked
      × Perm es picked
      × AscendsFrom low es
      × (select_due_message_ids messages now_ms ≡ map (λ e. e.1) es)
unfolding select_due_message_ids
select_due_message_ids-IsOrder messages now_ms low h =
    let picked = due_pairs messages now_ms in
    (
      picked,
      sort_timed picked,
      due_pairs-ArePicked messages now_ms,
      sort_timed-perm picked,
      sort_timed-AscendsFrom low picked (due_pairs-above low now_ms messages h),
      refl,
    )
