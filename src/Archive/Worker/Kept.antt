-- ===== src/Archive/Worker/Kept.antt =====
-- A due message is not lost: its pending object stays until a terminal record of it is stored.
pub mod Handle
use nitzan_shinnies_inspecti.Prelude.{
  ℕ, zero, suc, String, ◌≡◌, refl, sym, ap, ◌∙◌, subst, ◌⊎◌, inl, inr, Bool, true, false, Option,
  none, some, arith, if◌then◌else◌, Bool-cases, some_inj, length,
}
use nitzan_shinnies_inspecti.Prelude.Int.{ℤ, ℤ-eq}
use nitzan_shinnies_inspecti.Prelude.Eq.{◌==◌, ℕ-eq, String-eq, pair_eq}
use nitzan_shinnies_inspecti.Prelude.Dict.{get}
use nitzan_shinnies_inspecti.Prelude.Result.{Result, ok, err}
use nitzan_shinnies_inspecti.Prelude.Exec.{Keeps, keeps_rules}
use nitzan_shinnies_inspecti.Prelude.Leads.{Leads, Ends-mono, Keeps-Leads}
use nitzan_shinnies_inspecti.Prelude.Decimal.{Codes}
use nitzan_shinnies_inspecti.Archive.Store.Memory.{Objects}
use nitzan_shinnies_inspecti.Archive.Store.Effects.{SameBut, delete_pending_best_effort-Leads}
use nitzan_shinnies_inspecti.Archive.Worker.{
  World, Core, Send, Found, Outcome, drop_mid, now_ms, publish, publish_tries, sent_or_again,
  find_existing, terminal_in,
}
use nitzan_shinnies_inspecti.Archive.Worker.Scan.{
  objects_of, IsEnd, IsTerminal, FoundIn, find_existing-Leads,
}
use nitzan_shinnies_inspecti.Archive.Worker.Lifecycle.{
  delete_pending, reconcile_from_terminal, succeed_again, post_mock_send,
}
use nitzan_shinnies_inspecti.Archive.Store

none_not_some : {A : Type 0} {a : A} → none ≡ some a → ⊥
none_not_some h = cc

module _ (w : World) (mid pending_key : String) where
  -- A terminal record of the message is stored, under another key than that of the pending object.
  abbrev pub HasTerminal : Objects → Type 0
  HasTerminal o = (f : Found) × ((pending_key == f.1.0) ≡ false) × IsTerminal w mid f o

  abbrev pub IsKept : Objects → Type 0
  IsKept o = ((raw : Codes) × (get o pending_key ≡ some raw)) ⊎ HasTerminal o

  -- The pending object is there, and it is no terminal record.
  abbrev pub IsPending : Objects → Type 0
  IsPending o =
      (raw : Codes) × (get o pending_key ≡ some raw)
      × ((outcome : String) → IsEnd outcome → terminal_in w mid outcome (ok raw) ≡ none)

  abbrev AtCore : (Objects → Type 0) → Core → Type 0
  AtCore I c = I (objects_of c)

  module _ (I : Objects → Type 0) where
    now_ms-Keeps : Keeps (AtCore I) (now_ms w)
    unfolding now_ms
    now_ms-Keeps = record { at = λ c h. h }

    drop_mid-Keeps : Keeps (AtCore I) (drop_mid mid)
    drop_mid-Keeps = record { at = λ c h. h }

    post_mock_send-Keeps : (s : Send) → Keeps (AtCore I) (post_mock_send w s)
    unfolding post_mock_send
    post_mock_send-Keeps s = record { at = λ c h. h }

    if_kept :
        (more : Bool) (x y : Result (Unit {0}) × Core)
        → AtCore I x.1
        → AtCore I y.1
        → AtCore I (if more then x else y).1
    if_kept true x y h k = h
    if_kept false x y h k = k

    sent_or_again-kept :
        (n : ℕ) (again : Result (Unit {0}) × Core) (r : Result (Unit {0})) (c : Core)
        → AtCore I again.1
        → AtCore I c
        → AtCore I (sent_or_again w n again (r, c)).1
    sent_or_again-kept n again (ok u) c h k = k
    sent_or_again-kept n again (err e) c h k = if_kept _ again (err e, c) h k

    publish_tries-kept :
        (n : ℕ) (b : Outcome) (c : Core) → AtCore I c → AtCore I (publish_tries w n b c).1
    unfolding publish_tries
    publish_tries-kept zero b c h = h
    publish_tries-kept (suc n) b c h =
        sent_or_again-kept n _ (w.notify (length c.posts) b) _ (publish_tries-kept n b _ h) h

    publish-Keeps :
        (message_id outcome : String) (recorded_at : ℤ) (shard_id : ℕ) (n : ℤ)
        (reason : Option String) (key : String)
        → Keeps (AtCore I) (publish w message_id outcome recorded_at shard_id n reason key)
    unfolding publish
    publish-Keeps message_id outcome recorded_at shard_id n reason key = record {
      at = λ c h. publish_tries-kept w.publish_attempts _ c h;
    }

  ruleset object_rules =
      (keeps_rules, now_ms-Keeps, drop_mid-Keeps, post_mock_send-Keeps, publish-Keeps)

  -- A terminal record under another key survives the delete of the pending object.
  SameBut-HasTerminal : (o0 o : Objects) → HasTerminal o0 → SameBut pending_key o0 o → HasTerminal o
  SameBut-HasTerminal o0 o ((outcome, (tkey, body)), other, (raw, there, is, end)) same =
      ((outcome, (tkey, body)), other, (raw, same tkey other ∙ there, is, end))

  delete_pending-HasTerminal : Keeps (AtCore HasTerminal) (delete_pending w pending_key)
  delete_pending-HasTerminal = record {
    at = λ c h. SameBut-HasTerminal (objects_of c) _ h (
        (Keeps-Leads (λ p. SameBut pending_key (objects_of c) p.objects) _
            (delete_pending_best_effort-Leads pending_key (objects_of c) w.client)).at
          c.port (λ j e. refl));
  }

  reconcile_from_terminal-HasTerminal :
      (f : Found) → Keeps (AtCore HasTerminal) (reconcile_from_terminal w mid pending_key f)
  unfolding reconcile_from_terminal
  reconcile_from_terminal-HasTerminal (outcome, (tkey, body)) =
      search (object_rules, delete_pending-HasTerminal) depth 16

  succeed_again-HasTerminal :
      (f : Found) → Keeps (AtCore HasTerminal) (succeed_again w mid pending_key f)
  unfolding succeed_again
  succeed_again-HasTerminal (outcome, rest) =
      search (object_rules, delete_pending-HasTerminal, reconcile_from_terminal-HasTerminal) depth 8

  IsPending-IsKept : (o : Objects) → IsPending o → IsKept o
  IsPending-IsKept o (raw, there, live) = inl (raw, there)

  other_way : (a b : String) → (a == b) ≡ false → (b == a) ≡ false
  other_way a b h = ground (arith, String-eq.beq_iff a b, String-eq.beq_iff b a)

  -- What a scan finds is under another key than that of the pending object.
  found_elsewhere : (f : Found) (o : Objects) → IsPending o → IsTerminal w mid f o → HasTerminal o
  found_elsewhere (outcome, (tkey, body)) o (raw, there, live) (raw', there', is, end) =
      elim (Bool-cases (pending_key == tkey)) [
        | inr other ↦ ((outcome, (tkey, body)), other, (raw', there', is, end))
        | inl same ↦
            let e : pending_key ≡ tkey = (String-eq.beq_iff pending_key tkey).0 same in
            let r : raw ≡ raw' = some_inj (sym there ∙ (ap (get o) e ∙ there')) in
            absurd (
              none_not_some
                (sym (live outcome end) ∙ (ap (λ x. terminal_in w mid outcome (ok x)) r ∙ is)))
      ]

  abbrev AfterScan : Option Found → Core → Type 0
  AfterScan none c = IsPending (objects_of c)
  AfterScan (some f) c = HasTerminal (objects_of c)

  scan-Leads :
      (now : ℤ) → Leads (AtCore IsPending) (find_existing w mid now) AfterScan (AtCore IsKept)
  scan-Leads now = record {
    at = λ c h.
        Ends-mono (FoundIn w mid (objects_of c)) AfterScan (λ d. objects_of d ≡ objects_of c)
          (AtCore IsKept) (λ f d k. scanned f (objects_of c) d h k)
          (λ d e. IsPending-IsKept (objects_of d) (subst IsPending (sym e) h)) _ _
          ((find_existing-Leads w mid (objects_of c) now).at c refl);
  }
    where
      scanned :
          (f : Option Found) (o : Objects) (d : Core)
          → IsPending o
          → FoundIn w mid o f d
          → AfterScan f d
      scanned none o d h e = subst IsPending (sym e) h
      scanned (some f) o d h (e, is) =
          found_elsewhere f (objects_of d) (subst IsPending (sym e) h) is
