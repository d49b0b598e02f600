-- ===== src/Prelude/Exec.antt =====
-- Methods that change an object and may raise: what was written before the raise stays written, so
-- the state comes back beside the error.
use mathlib.Core.Path.{◌≡◌, refl}
use mathlib.Core.Bool.{Bool, true, false}
use nitzan_shinnies_inspecti.Prelude.{if◌then◌else◌}
use nitzan_shinnies_inspecti.Prelude.Result.{Error, Result, ok, err}

abbrev pub Exec : Type 0 → Type 0 → Type 0
Exec S A = S → Result A × S

module _ {S A : Type 0} where
  abbrev pub pure : A → Exec S A
  pure a s = (ok a, s)

  abbrev pub raise : Error → Exec S A
  raise e s = (err e, s)

  abbrev pub lift : Result A → Exec S A
  lift r s = (r, s)

  abbrev pub gets : (S → A) → Exec S A
  gets f s = (ok (f s), s)

abbrev pub modify : {S : Type 0} → (S → S) → Exec S (Unit {0})
modify f s = (ok tt, f s)

module _ {S A B : Type 0} where
  abbrev pub continue : Result A → (A → Exec S B) → Exec S B
  continue (err c) next s = (err c, s)
  continue (ok x) next s = next x s

  infixl 5 ◌>>=◌ ◌>>◌
  abbrev pub ◌>>=◌ : Exec S A → (A → Exec S B) → Exec S B
  ◌>>=◌ act next s = let (returned, after) = act s in continue returned next after

  abbrev pub ◌>>◌ : Exec S A → Exec S B → Exec S B
  act >> next = act >>= λ done. next

-- A method of a part of the state.
abbrev pub zoom : {S T A : Type 0} → (S → T) → (T → S → S) → Exec T A → Exec S A
zoom view over m s = let (r, t) = m (view s) in (r, over t s)

-- An invariant that a method keeps, whether it returns or raises.
pub record Keeps {S A : Type 0} (Inv : S → Type 0) (act : Exec S A) : Type 0 where
  pub at : (s : S) → Inv s → Inv (act s).1

module _ {S A B : Type 0} {Inv : S → Type 0} where
  Keeps-continue :
      (r : Result A) (next : A → Exec S B)
      → ((a : A) → r ≡ ok a → Keeps Inv (next a))
      → Keeps Inv (continue r next)
  Keeps-continue (ok a) next each = each a refl
  Keeps-continue (err c) next each = record { at = λ s inv. inv }

  -- The rest of a block may use that what is lifted did not raise.
  pub Keeps-bind_lift :
      (r : Result A) (next : A → Exec S B)
      → ((a : A) → r ≡ ok a → Keeps Inv (next a))
      → Keeps Inv (lift r >>= next)
  Keeps-bind_lift r next each = record { at = (Keeps-continue r next each).at }

  pub Keeps-bind :
      (act : Exec S A) (next : A → Exec S B)
      → Keeps Inv act
      → ((a : A) → Keeps Inv (next a))
      → Keeps Inv (act >>= next)
  Keeps-bind act next here each = record {
    at = λ s inv. let p = act s in (Keeps-continue p.0 next (λ a _. each a)).at p.1 (here.at s inv);
  }

module _ {S A : Type 0} {Inv : S → Type 0} where
  pub Keeps-if :
      (test : Bool) (act other : Exec S A)
      → (test ≡ true → Keeps Inv act)
      → (test ≡ false → Keeps Inv other)
      → Keeps Inv (if test then act else other)
  Keeps-if true act other k _ = k refl
  Keeps-if false act other _ k = k refl

  pub Keeps-gets : (view : S → A) → Keeps Inv (gets view)
  Keeps-gets view = record { at = λ s inv. inv }

  pub Keeps-pure : (a : A) → Keeps Inv (pure a)
  Keeps-pure a = record { at = λ s inv. inv }

  pub Keeps-lift : (r : Result A) → Keeps Inv (lift r)
  Keeps-lift r = record { at = λ s inv. inv }

  pub Keeps-raise : (e : Error) → Keeps Inv (raise {A = A} e)
  Keeps-raise e = record { at = λ s inv. inv }

pub ruleset keeps_rules = (Keeps-pure, Keeps-raise, Keeps-lift, Keeps-gets, Keeps-if, Keeps-bind)

module _ {S A B : Type 0} where
  continue-eq-ok :
      (r : Result A) (f : A → Exec S B) (s : S) {b : B}
      → (continue r f s).0 ≡ ok b
      → (a : A) × (r ≡ ok a) × (continue r f s ≡ f a s)
  continue-eq-ok (ok a) f s h = (a, refl, refl)
  continue-eq-ok (err e) f s h = cc

  -- A block that returned: its first part did, and the rest ran from where that ended.
  pub bind-eq-ok :
      (m : Exec S A) (f : A → Exec S B) (s : S) {b : B}
      → ((m >>= f) s).0 ≡ ok b
      → (a : A) × ((m s).0 ≡ ok a) × ((m >>= f) s ≡ f a (m s).1)
  bind-eq-ok m f s h = let (r, s') = m s in continue-eq-ok r f s' h

-- A method that returns, from every state.
pub record Total {S A : Type 0} (act : Exec S A) : Type 0 where
  pub result : (s : S) → (a : A) × ((act s).0 ≡ ok a)

module _ {S A : Type 0} where
  pub Total-pure : (a : A) → Total {S = S} (pure a)
  Total-pure a = record { result = λ s. (a, refl) }

  pub Total-gets : (view : S → A) → Total (gets view)
  Total-gets view = record { result = λ s. (view s, refl) }

  pub Total-if :
      (test : Bool) (act other : Exec S A)
      → (test ≡ true → Total act)
      → (test ≡ false → Total other)
      → Total (if test then act else other)
  Total-if true act other k _ = k refl
  Total-if false act other _ k = k refl

module _ {S T A : Type 0} (view : S → T) (over : T → S → S) where
  pub Total-zoom : (act : Exec T A) → Total act → Total (zoom view over act)
  Total-zoom act k = record { result = λ s. k.result (view s) }

pub Total-modify : {S : Type 0} (f : S → S) → Total (modify f)
Total-modify f = record { result = λ s. (tt, refl) }

module _ {S A B : Type 0} where
  pub bind-ok :
      (act : Exec S A) (next : A → Exec S B) (s : S) {a : A} {b : B}
      → (act s).0 ≡ ok a
      → (next a (act s).1).0 ≡ ok b
      → ((act >>= next) s).0 ≡ ok b
  bind-ok act next s e f = rw e f

  pub Total-bind :
      (act : Exec S A) (next : A → Exec S B)
      → Total act
      → ((a : A) → Total (next a))
      → Total (act >>= next)
  Total-bind act next k each = record {
    result = λ s.
        let (a, e) = k.result s in
        let (b, f) = (each a).result (act s).1 in (b, bind-ok act next s e f);
  }

  pub Total-lift :
      (r : Result A) (next : A → Exec S B) (a : A)
      → r ≡ ok a
      → Total (next a)
      → Total (lift r >>= next)
  Total-lift r next a e k = record {
    result = λ s. let (b, f) = k.result s in (b, bind-ok (lift r) next s e f);
  }

pub ruleset total_rules = (Total-pure, Total-gets, Total-if, Total-modify, Total-zoom, Total-bind)
