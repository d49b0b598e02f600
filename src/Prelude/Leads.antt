-- ===== src/Prelude/Leads.antt =====
-- What a method leads to: from states with a property, to one of its result if it returns, and to another
-- of the state if it raises.
use mathlib.Core.Path.{◌≡◌, sym, subst}
use mathlib.Core.Bool.{Bool, true, false}
use nitzan_shinnies_inspecti.Prelude.{if◌then◌else◌}
use nitzan_shinnies_inspecti.Prelude.Result.{Error, Result, ok, err, ok_inj}
use nitzan_shinnies_inspecti.Prelude.Exec.{
  Exec, pure, raise, lift, modify, continue, ◌>>=◌, zoom, Keeps,
}

module _ {S A : Type 0} where
  abbrev pub Ends : (A → S → Type 0) → (S → Type 0) → Result A → S → Type 0
  Ends Q E (ok a) s = Q a s
  Ends Q E (err e) s = E s

  pub record Leads (P : S → Type 0) (act : Exec S A) (Q : A → S → Type 0) (E : S → Type 0)
      : Type 0 where
    pub at : (s : S) → P s → Ends Q E (act s).0 (act s).1

  pub Ends-mono :
      (Q Q' : A → S → Type 0) (E E' : S → Type 0)
      → ((a : A) (s : S) → Q a s → Q' a s)
      → ((s : S) → E s → E' s)
      → (r : Result A) (s : S) → Ends Q E r s
      → Ends Q' E' r s
  Ends-mono Q Q' E E' q e (ok a) s h = q a s h
  Ends-mono Q Q' E E' q e (err x) s h = e s h

  pub Leads-mono :
      (P : S → Type 0) (act : Exec S A) (Q Q' : A → S → Type 0) (E E' : S → Type 0)
      → ((a : A) (s : S) → Q a s → Q' a s)
      → ((s : S) → E s → E' s)
      → Leads P act Q E
      → Leads P act Q' E'
  Leads-mono P act Q Q' E E' q e l = record {
    at = λ s p. Ends-mono Q Q' E E' q e (act s).0 (act s).1 (l.at s p);
  }

  Ends-same :
      (I E : S → Type 0)
      → ((s : S) → I s → E s)
      → (r : Result A) (s : S) → I s
      → Ends (λ a. I) E r s
  Ends-same I E w (ok a) s h = h
  Ends-same I E w (err e) s h = w s h

  -- An invariant that is kept leads to itself.
  pub Leads-Keeps :
      (I E : S → Type 0) (act : Exec S A)
      → ((s : S) → I s → E s)
      → Keeps I act
      → Leads I act (λ a. I) E
  Leads-Keeps I E act w k = record { at = λ s h. Ends-same I E w (act s).0 (act s).1 (k.at s h) }

  pub Leads-lift : (P : S → Type 0) (r : Result A) → Leads P (lift r) (λ a. P) P
  Leads-lift P r = record { at = λ s h. Ends-same P P (λ t i. i) r s h }

  pub Leads-raise :
      (P E : S → Type 0) (Q : A → S → Type 0) (e : Error)
      → ((s : S) → P s → E s)
      → Leads P (raise e) Q E
  Leads-raise P E Q e w = record { at = w }

  pub Leads-pure :
      (P E : S → Type 0) (Q : A → S → Type 0) (a : A)
      → ((s : S) → P s → Q a s)
      → Leads P (pure a) Q E
  Leads-pure P E Q a w = record { at = w }

  pub Leads-if :
      (P E : S → Type 0) (Q : A → S → Type 0) (test : Bool) (act other : Exec S A)
      → Leads P act Q E
      → Leads P other Q E
      → Leads P (if test then act else other) Q E
  Leads-if P E Q true act other k l = k
  Leads-if P E Q false act other k l = l

  -- What holds in every case of a result that returned holds where no error was raised.
  pub Ends-ok :
      (Q : A → S → Type 0) (E : S → Type 0) (r : Result A) (s : S) (a : A)
      → Ends Q E r s
      → r ≡ ok a
      → Q a s
  Ends-ok Q E (ok b) s a h e = subst (λ x. Q x s) (ok_inj e) h
  Ends-ok Q E (err x) s a h e = cc

module _ {S A B : Type 0} where
  Leads-continue :
      (E : S → Type 0) (Q : A → S → Type 0) (R : B → S → Type 0) (next : A → Exec S B)
      → ((a : A) → Leads (Q a) (next a) R E)
      → (r : Result A) (s : S) → Ends Q E r s
      → Ends R E (continue r next s).0 (continue r next s).1
  Leads-continue E Q R next each (ok a) s h = (each a).at s h
  Leads-continue E Q R next each (err e) s h = h

  pub Leads-bind :
      (P E : S → Type 0) (act : Exec S A) (Q : A → S → Type 0) (R : B → S → Type 0)
      (next : A → Exec S B)
      → Leads P act Q E
      → ((a : A) → Leads (Q a) (next a) R E)
      → Leads P (act >>= next) R E
  Leads-bind P E act Q R next here each = record {
    at = λ s p. Leads-continue E Q R next each (act s).0 (act s).1 (here.at s p);
  }

pub Leads-modify :
    {S : Type 0} (P E : S → Type 0) (Q : Unit {0} → S → Type 0) (f : S → S)
    → ((s : S) → P s → Q tt (f s))
    → Leads P (modify f) Q E
Leads-modify P E Q f w = record { at = w }

module _ {S T A : Type 0} (view : S → T) (over : T → S → S)
    (back : (t : T) (s : S) → view (over t s) ≡ t) where
  Ends-over :
      (Q : A → T → Type 0) (E : T → Type 0) (r : Result A) (t : T) (s : S)
      → Ends Q E r t
      → Ends (λ a u. Q a (view u)) (λ u. E (view u)) r (over t s)
  Ends-over Q E (ok a) t s h = subst (Q a) (sym (back t s)) h
  Ends-over Q E (err e) t s h = subst E (sym (back t s)) h

  pub Leads-zoom :
      (P E : T → Type 0) (act : Exec T A) (Q : A → T → Type 0)
      → Leads P act Q E
      → Leads (λ s. P (view s)) (zoom view over act) (λ a s. Q a (view s)) (λ s. E (view s))
  Leads-zoom P E act Q l = record {
    at = λ s p. Ends-over Q E (act (view s)).0 (act (view s)).1 s (l.at (view s) p);
  }

module _ {S A : Type 0} where
  Ends-either : (P : S → Type 0) (r : Result A) (s : S) → Ends (λ a. P) P r s → P s
  Ends-either P (ok a) s h = h
  Ends-either P (err e) s h = h

  -- A method that leads back in every case keeps the property.
  pub Keeps-Leads : (P : S → Type 0) (act : Exec S A) → Leads P act (λ a. P) P → Keeps P act
  Keeps-Leads P act l = record { at = λ s p. Ends-either P (act s).0 (act s).1 (l.at s p) }
