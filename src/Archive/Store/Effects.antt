-- ===== src/Archive/Store/Effects.antt =====
-- What the calls of the store do to the objects, however often they are retried.
use nitzan_shinnies_inspecti.Prelude.Result.{Error, key_error, Result, ok, err}
use nitzan_shinnies_inspecti.Prelude.{
  refl, ◌≤◌, ◌+◌, Option, ◌≡◌, String, ◌⊎◌, inl, inr, some, Option-cases, false,
}
use nitzan_shinnies_inspecti.Archive.Store.Retry.{retried_calls, retried-Leads}
use nitzan_shinnies_inspecti.Prelude.Int.{ℤ, ℤ-eq}
use nitzan_shinnies_inspecti.Prelude.Exec.{keeps_rules}
use nitzan_shinnies_inspecti.Prelude.Leads.{
  Leads-Keeps, Leads-bind, Leads-lift, Leads-modify, Leads-pure, Leads, Ends,
}
use nitzan_shinnies_inspecti.Archive.Keys.{validate_object_key}
use nitzan_shinnies_inspecti.Prelude.Decimal.{Codes}
use nitzan_shinnies_inspecti.Prelude.Eq.{◌==◌, beq_refl, ℕ-eq, String-eq, pair_eq}
use nitzan_shinnies_inspecti.Prelude.Dict.{get, put, remove, get-put, get-remove}
use nitzan_shinnies_inspecti.Archive.Store.Memory.{Objects}
use nitzan_shinnies_inspecti.Archive.Store.{Port, Client}
use nitzan_shinnies_inspecti.Archive.Store.Memory
use nitzan_shinnies_inspecti.Archive.Store

-- The objects of other keys are those of before.
abbrev pub SameBut : String → Objects → Objects → Type 0
SameBut key o0 o = (j : String) → (key == j) ≡ false → get o j ≡ get o0 j

-- A body is stored under a key, or what stood there is there still.
abbrev pub MayHold : String → Codes → Objects → Objects → Type 0
MayHold key raw o0 o = (get o key ≡ some raw) ⊎ (get o key ≡ get o0 key)

module _ (key : String) (o0 : Objects) where
  SameBut-put : (raw : Codes) (o : Objects) → SameBut key o0 o → SameBut key o0 (put o key raw)
  SameBut-put raw o h j other = rw (get-put o key j raw, other) (h j other)

  SameBut-remove : (o : Objects) → SameBut key o0 o → SameBut key o0 (remove o key)
  SameBut-remove o h j other = rw (get-remove o key j, other) (h j other)

  get-put_same : (raw : Codes) (o : Objects) → get (put o key raw) key ≡ some raw
  get-put_same raw o = rw (get-put o key key raw, beq_refl key) refl

  module _ (raw : Codes) where
    -- The objects after a put, or after one that raised.
    abbrev pub Stored : Objects → Type 0
    Stored o = SameBut key o0 o × (get o key ≡ some raw)

    abbrev pub Written : Objects → Type 0
    Written o = SameBut key o0 o × MayHold key raw o0 o

    memory_put :
        (content_type : String)
        → Leads Written (Memory.put_object key raw content_type) (λ u. Stored) Written
    unfolding Memory.put_object Memory.put_objects
    memory_put content_type =
        Leads-bind Written Written _ (λ u. Written) (λ u. Stored) _
          (Leads-lift Written (validate_object_key key))
          (λ u.
            Leads-bind Written Written _ (λ v. Stored) (λ v. Stored) _
              (Leads-modify Written Written (λ v. Stored) _
                (λ o h. (SameBut-put raw o h.0, get-put_same raw o)))
              (λ v. Leads-pure Stored Written (λ x. Stored) tt (λ o h. h)))

    -- A put that returns has stored the object, and one that raises has stored it or changed nothing; the
    -- objects of other keys are those of before.
    pub put_object-Leads :
        (c : Client)
        → Leads
            (λ p. Written p.objects)
            (Store.put_object c key raw)
            (λ u p. Stored p.objects)
            (λ p. Written p.objects)
    unfolding Store.put_object
    put_object-Leads c =
        retried-Leads c Written (λ u. Stored) (Memory.put_object key raw "application/json")
          (memory_put "application/json") (λ u o h. (h.0, inl h.1))

  memory_delete :
      Leads (SameBut key o0) (Memory.delete_object key) (λ u. SameBut key o0) (SameBut key o0)
  unfolding Memory.delete_object
  memory_delete =
      Leads-bind (SameBut key o0) (SameBut key o0) _ (λ u. SameBut key o0) (λ u. SameBut key o0) _
        (Leads-lift (SameBut key o0) (validate_object_key key))
        (λ u. Leads-modify (SameBut key o0) (SameBut key o0) (λ v. SameBut key o0) _ SameBut-remove)

  -- A delete changes no object of another key.
  pub delete_object-Leads :
      (c : Client)
      → Leads
          (λ p. SameBut key o0 p.objects)
          (Store.delete_object c key)
          (λ u p. SameBut key o0 p.objects)
          (λ p. SameBut key o0 p.objects)
  unfolding Store.delete_object
  delete_object-Leads c =
      retried-Leads c (SameBut key o0) (λ u. SameBut key o0) (Memory.delete_object key)
        memory_delete (λ u o h. h)

  abbrev pub Same : Objects → Type 0
  Same o = o ≡ o0

  memory_get : Leads Same (Memory.get_object key) (λ raw o. Same o × (get o key ≡ some raw)) Same
  unfolding Memory.get_object
  memory_get =
      Leads-bind Same Same _ (λ u. Same) _ _ (Leads-lift Same (validate_object_key key))
        (λ u. record {
          at = λ o h. elim (Option-cases (get o key)) [
            | inl none_there ↦ rw none_there h
            | inr (raw, there) ↦ rw there (h, there)
          ];
        })

  -- A read that returns has the object, and changes nothing.
  pub get_object-Leads :
      (c : Client)
      → Leads
          (λ p. Same p.objects)
          (Store.get_object c key)
          (λ raw p. Same p.objects × (get p.objects key ≡ some raw))
          (λ p. Same p.objects)
  unfolding Store.get_object
  get_object-Leads c =
      retried-Leads c Same (λ raw o. Same o × (get o key ≡ some raw)) (Memory.get_object key)
        memory_get (λ raw o h. h.0)

  suppressed :
      (c : Client) (r : Result (Unit {0})) (p : Port)
      → Ends {S = Port} (λ u q. SameBut key o0 q.objects) (λ q. SameBut key o0 q.objects) r p
      → Ends {S = Port}
          (λ u q. SameBut key o0 q.objects)
          (λ q. SameBut key o0 q.objects)
          (Store.suppress_key_error c (r, p)).0
          (Store.suppress_key_error c (r, p)).1
  suppressed c (ok u) p h = h
  suppressed c (err key_error) p h = h
  suppressed c (err e) p h = h

  pub delete_pending_best_effort-Leads :
      (c : Client)
      → Leads
          (λ p. SameBut key o0 p.objects)
          (Store.delete_pending_best_effort c key)
          (λ u p. SameBut key o0 p.objects)
          (λ p. SameBut key o0 p.objects)
  unfolding Store.delete_pending_best_effort
  delete_pending_best_effort-Leads c = record {
    at = λ p h.
        suppressed c (Store.delete_object c key p).0 (Store.delete_object c key p).1
          ((delete_object-Leads c).at p h);
  }

-- A listing changes nothing.
pub list_prefix-Leads :
    (prefix : String) (max_keys : Option ℤ) (o0 : Objects) (c : Client)
    → Leads
        (λ p. p.objects ≡ o0)
        (Store.list_prefix c prefix max_keys)
        (λ ks p. p.objects ≡ o0)
        (λ p. p.objects ≡ o0)
unfolding Store.list_prefix Memory.list_prefix
list_prefix-Leads prefix max_keys o0 c =
    retried-Leads c (λ o. o ≡ o0) (λ ks o. o ≡ o0) (Memory.list_prefix prefix max_keys)
      (Leads-Keeps (λ o. o ≡ o0) (λ o. o ≡ o0) _ (λ o h. h) (search keeps_rules)) (λ ks o h. h)

split :
    (key : String) (raw : Codes) (o0 : Objects) (r : Result (Unit {0})) (p : Port)
    → Ends {S = Port} (λ u q. Stored key o0 raw q.objects) (λ q. Written key o0 raw q.objects) r p
    → SameBut key o0 p.objects
      × (((r ≡ ok tt) × (get p.objects key ≡ some raw))
          ⊎ (((e : Error) × (r ≡ err e)) × MayHold key raw o0 p.objects))
split key raw o0 (ok u) p (same, held) = (same, inl (refl, held))
split key raw o0 (err e) p (same, may) = (same, inr ((e, refl), may))

-- A put makes at most as many calls as there are attempts, and changes no object of another key. If it
-- returns, the body is stored under the key; if it raises, it is, or the key has what it had.
pub put_object-Outcome :
    (c : Client) (key : String) (raw : Codes) (p : Port)
    → ((Store.put_object c key raw p).1.calls ≤ p.calls + c.max_attempts)
      × SameBut key p.objects (Store.put_object c key raw p).1.objects
      × ((((Store.put_object c key raw p).0 ≡ ok tt)
            × (get (Store.put_object c key raw p).1.objects key ≡ some raw))
          ⊎ (((e : Error) × ((Store.put_object c key raw p).0 ≡ err e))
              × MayHold key raw p.objects (Store.put_object c key raw p).1.objects))
unfolding Store.put_object
put_object-Outcome c key raw p =
    let (same, out) =
      split key raw p.objects _ _
        ((put_object-Leads key p.objects raw c).at p ((λ j other. refl), inr refl)) in
    (retried_calls c (Memory.put_object key raw "application/json") p, same, out)
