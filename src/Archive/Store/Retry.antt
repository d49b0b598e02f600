-- ===== src/Archive/Store/Retry.antt =====
-- What a retried call leads to, and how many calls it makes.
use nitzan_shinnies_inspecti.Prelude.{
  refl, ◌≤◌, arith, ◌≡◌, ℕ, zero, suc, ◌+◌, Bool, true, false, not, ◌&&◌, eqb, if◌then◌else◌,
}
use nitzan_shinnies_inspecti.Prelude.Int.{ℤ-eq}
use nitzan_shinnies_inspecti.Prelude.Eq.{ℕ-eq, String-eq, pair_eq}
use nitzan_shinnies_inspecti.Prelude.Result.{Result, Error, ok, err}
use nitzan_shinnies_inspecti.Prelude.Exec.{Exec}
use nitzan_shinnies_inspecti.Prelude.Leads.{Leads, Ends}
use nitzan_shinnies_inspecti.Archive.Store.Memory.{Objects}
use nitzan_shinnies_inspecti.Archive.Store.{Port, Client, Fault}
use nitzan_shinnies_inspecti.Archive.Store

module _ {S A : Type 0} (I : S → Type 0) (Q : A → S → Type 0) (act : Exec S A)
    (w : Leads I act Q I) where
  again_or_stop :
      (more : Bool) (next : Result A × S) (e : Error) (s : S)
      → Ends Q I next.0 next.1
      → I s
      → Ends Q I (if more then next else (err e, s)).0 (if more then next else (err e, s)).1
  again_or_stop true next e s h i = h
  again_or_stop false next e s h i = i

  after_raise :
      (r : Result A) (s : S) (next : Result A × S)
      → (I s → Ends Q I next.0 next.1)
      → Ends Q I r s
      → (n : ℕ) → Ends Q I (Store.or_again n next (r, s)).0 (Store.or_again n next (r, s)).1
  after_raise (ok a) s next k q n = q
  after_raise (err e) s next k i n =
      again_or_stop (Store.is_transient_persistence_failure e && not (eqb n 0)) next e s (k i) i

  ends_at :
      (n : ℕ) (s : S)
      → I s
      → Ends Q I
          (Store.run_with_persistence_retries n act s).0
          (Store.run_with_persistence_retries n act s).1
  unfolding Store.run_with_persistence_retries
  ends_at zero s h = h
  ends_at (suc n) s h = after_raise (act s).0 (act s).1 _ (λ i. ends_at n (act s).1 i) (w.at s h) n

  -- What one call leads to, and leads back to when it raises, a retried call leads to.
  pub run_with_persistence_retries-Leads :
      (n : ℕ) → Leads I (Store.run_with_persistence_retries n act) Q I
  run_with_persistence_retries-Leads n = record { at = ends_at n }

-- A call over the network leads to what the provider leads to, or raises and leads back.
module _ {A : Type 0} (c : Client) (J : Objects → Type 0) (Q : A → Objects → Type 0)
    (act : Exec Objects A) (w : Leads J act Q J) (back : (a : A) (o : Objects) → Q a o → J o) where
  kept : (r : Result A) (o : Objects) → Ends Q J r o → J o
  kept (ok a) o q = back a o q
  kept (err e) o j = j

  over_port :
      (r : Result A) (o : Objects)
      → Ends Q J r o
      → (n : ℕ)
      → Ends {S = Port}
          (λ a p. Q a p.objects)
          (λ p. J p.objects)
          r
          (record { objects = o; calls = n })
  over_port (ok a) o q n = q
  over_port (err e) o j n = j

  ends-Ends :
      (f : Fault) (p : Port)
      → J p.objects
      → Ends {S = Port}
          (λ a q. Q a q.objects)
          (λ q. J q.objects)
          (Store.ends f act p).0
          (Store.ends f act p).1
  ends-Ends Store.works p j =
      over_port (act p.objects).0 (act p.objects).1 (w.at p.objects j) p.calls
  ends-Ends (Store.before e) p j = j
  ends-Ends (Store.after e) p j = kept (act p.objects).0 (act p.objects).1 (w.at p.objects j)

  remote-Leads :
      Leads (λ p. J p.objects) (Store.remote c act) (λ a p. Q a p.objects) (λ p. J p.objects)
  remote-Leads = record {
    at = λ p j. ends-Ends (c.fault p.calls) (record p { calls = p.calls + 1 }) j;
  }

  pub retried-Leads :
      Leads (λ p. J p.objects) (Store.retried c act) (λ a p. Q a p.objects) (λ p. J p.objects)
  retried-Leads =
      run_with_persistence_retries-Leads (λ p. J p.objects) (λ a p. Q a p.objects)
        (Store.remote c act) remote-Leads c.max_attempts

last_call :
    {A : Type 0} (n : ℕ) (next r : Result A × Port) (calls : ℕ)
    → r.1.calls ≡ calls + 1
    → next.1.calls ≤ r.1.calls + n
    → (Store.or_again n next r).1.calls ≤ calls + suc n
last_call n next (ok a, p) calls e h = omega (arith, e)
last_call n next (err x, p) calls e h = ground (arith, e, h)

bounded_calls :
    {A : Type 0} (n : ℕ) (act : Exec Port A) (p : Port)
    → ((q : Port) → (act q).1.calls ≡ q.calls + 1)
    → (Store.run_with_persistence_retries n act p).1.calls ≤ p.calls + n
unfolding Store.run_with_persistence_retries
bounded_calls zero act p one = omega arith
bounded_calls (suc n) act p one =
    let rest = bounded_calls n act (act p).1 one in
    last_call n (Store.run_with_persistence_retries n act (act p).1) (act p) p.calls (one p) rest

one_call :
    {A : Type 0} (act : Exec Objects A) (p : Port) (f : Fault)
    → (Store.ends f act p).1.calls ≡ p.calls
one_call act p Store.works = refl
one_call act p (Store.before e) = refl
one_call act p (Store.after e) = refl

-- A retried call makes at most as many calls as there are attempts.
pub retried_calls :
    {A : Type 0} (c : Client) (act : Exec Objects A) (p : Port)
    → (Store.retried c act p).1.calls ≤ p.calls + c.max_attempts
retried_calls c act p =
    bounded_calls c.max_attempts (Store.remote c act) p
      (λ q. one_call act (record q { calls = q.calls + 1 }) (c.fault q.calls))
