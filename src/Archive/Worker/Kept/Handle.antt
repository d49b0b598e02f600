-- ===== src/Archive/Worker/Kept/Handle.antt =====
-- The handling of a due message loses neither its pending object nor a terminal record.
use nitzan_shinnies_inspecti.Prelude.{
  ℕ, String, ◌≡◌, refl, sym, ◌∙◌, subst, inl, inr, false, Option, none, some,
}
use nitzan_shinnies_inspecti.Prelude.Int.{ℤ, pos, ◌+ℤ◌, ℤ-eq}
use nitzan_shinnies_inspecti.Prelude.Eq.{◌==◌, ℕ-eq, String-eq, pair_eq, beq_refl}
use nitzan_shinnies_inspecti.Prelude.Result.{Result, ok, err, key_error}
use nitzan_shinnies_inspecti.Prelude.Exec.{Exec, lift, ◌>>=◌, Keeps, Keeps-lift}
use nitzan_shinnies_inspecti.Prelude.Leads.{
  Leads, Ends, Ends-mono, Leads-mono, Leads-bind, Leads-pure, Leads-if, Leads-Keeps, Keeps-Leads,
  Leads-modify,
}
use nitzan_shinnies_inspecti.Prelude.Decimal.{Codes}
use nitzan_shinnies_inspecti.Json.{Fields, int, str, obj, get_field, set_field, get_field-set_field}
use nitzan_shinnies_inspecti.Archive.Rules.{
  terminal_success_key, terminal_failed_key, attempt_count_is_terminal, is_successful_send,
}
use nitzan_shinnies_inspecti.Archive.Store.Effects.{
  Stored, Written, put_object-Leads, get_object-Leads,
}
use nitzan_shinnies_inspecti.Archive.Worker.{
  World, Core, Found, in_port, caught, now_ms, int_of, find_existing, terminal_in,
}
use nitzan_shinnies_inspecti.Archive.Worker.Scan.{objects_of, in_port-Leads, IsEnd}
use nitzan_shinnies_inspecti.Archive.Worker.Lifecycle.{
  put_json, reconcile_from_terminal, ended_as, fail_for_good, retry_later, fail_once,
  transition_failure, succeed, succeed_again, transition_success, send_and_settle, dispatch,
  handle_one_core, count_of, required, payload_of, text_or_empty, both_texts, handle_present,
  after_read,
}
use nitzan_shinnies_inspecti.Archive.Worker.Kept.{
  HasTerminal, IsKept, IsPending, AtCore, AfterScan, object_rules, now_ms-Keeps,
  post_mock_send-Keeps, IsPending-IsKept, other_way, scan-Leads, delete_pending-HasTerminal,
  reconcile_from_terminal-HasTerminal, succeed_again-HasTerminal,
}
use nitzan_shinnies_inspecti.Archive.Store

-- Of a due message, its record and its key: the record carries the id, the codec reads the terminal
-- records that are written of it, and the terminal keys of the id are other keys.
pub record IsDueMessage (w : World) (mid : String) (rec : Fields) (pending_key : String)
    : Type 0 where
  pub reads_success :
      (t : ℤ)
      → w.decode (w.dumps (ended_as w "success" t rec)) ≡ some (obj (ended_as w "success" t rec))
  pub reads_failed :
      (t n : ℤ)
      → w.decode (w.dumps (ended_as w "failed" t (set_field rec "attemptCount" (int n))))
        ≡ some (obj (ended_as w "failed" t (set_field rec "attemptCount" (int n))))
  pub id : get_field rec "messageId" ≡ some (str mid)
  pub success_elsewhere : (t : ℤ) → (pending_key == terminal_success_key w.utc mid t) ≡ false
  pub failed_elsewhere : (t : ℤ) → (pending_key == terminal_failed_key w.utc mid t) ≡ false

module _ (w : World) (mid pending_key : String) (rec : Fields)
    (due : IsDueMessage w mid rec pending_key) where
  abbrev P : Core → Type 0
  P = AtCore w mid pending_key (IsPending w mid pending_key)

  abbrev T : Core → Type 0
  T = AtCore w mid pending_key (HasTerminal w mid pending_key)

  abbrev K : Core → Type 0
  K = AtCore w mid pending_key (IsKept w mid pending_key)

  P-K : (c : Core) → P c → K c
  P-K c h = IsPending-IsKept w mid pending_key (objects_of c) h

  T-K : (c : Core) → T c → K c
  T-K c h = inr h

  abbrev Kept : Exec Core Unit → Type 0
  Kept act = Leads P act (λ u. K) K

  Keeps-either : (r : Result (Unit {0})) (c : Core) → Ends (λ u. K) K r c → K c
  Keeps-either (ok u) c h = h
  Keeps-either (err e) c h = h

  from_T : (act : Exec Core Unit) → Keeps T act → Leads T act (λ u. K) K
  from_T act k =
      Leads-mono T act (λ u. T) (λ u. K) K K (λ u c h. T-K c h) (λ c h. h)
        (Leads-Keeps T K act T-K k)

  ended_as-terminal :
      (status : String) (t : ℤ) (d : Fields)
      → get_field d "messageId" ≡ some (str mid)
      → w.decode (w.dumps (ended_as w status t d)) ≡ some (obj (ended_as w status t d))
      → terminal_in w mid status (ok (w.dumps (ended_as w status t d)))
        ≡ some (ended_as w status t d)
  ended_as-terminal status t d id codec =
      let m : get_field (ended_as w status t d) "messageId" ≡ some (str mid) =
        rw (get_field-set_field, get_field-set_field) id in
      let s : get_field (ended_as w status t d) "status" ≡ some (str status) =
        rw get_field-set_field refl in
      rw (codec, m, s, beq_refl mid, beq_refl status) refl

  put_terminal :
      (tkey status : String) (d : Fields)
      → (pending_key == tkey) ≡ false
      → terminal_in w mid status (ok (w.dumps d)) ≡ some d
      → IsEnd status
      → Leads P (put_json w tkey d) (λ u. T) K
  put_terminal tkey status d other is end = record {
    at = λ c h.
        Ends-mono (λ u e. Stored tkey (objects_of c) (w.dumps d) (objects_of e)) (λ u. T)
          (λ e. Written tkey (objects_of c) (w.dumps d) (objects_of e)) K
          (λ u e k. ((status, (tkey, d)), other, (w.dumps d, k.1, is, end)))
          (λ e k.
            inl (h.0, k.0 pending_key (other_way w mid pending_key pending_key tkey other) ∙ h.1))
          _ _
          ((in_port-Leads _ _ _ _ (put_object-Leads tkey (objects_of c) (w.dumps d) w.client)).at c
            ((λ j e. refl), inr refl));
  }

  put_pending : (d : Fields) → Leads P (put_json w pending_key d) (λ u. K) K
  put_pending d = record {
    at = λ c h.
        Ends-mono (λ u e. Stored pending_key (objects_of c) (w.dumps d) (objects_of e)) (λ u. K)
          (λ e. Written pending_key (objects_of c) (w.dumps d) (objects_of e)) K
          (λ u e k. inl (w.dumps d, k.1))
          (λ e k. elim k.1 [ inl new ↦ inl (w.dumps d, new) | inr old ↦ inl (h.0, old ∙ h.1) ]) _ _
          ((in_port-Leads _ _ _ _
              (put_object-Leads pending_key (objects_of c) (w.dumps d) w.client)).at
            c ((λ j e. refl), inr refl));
  }

  pending-Keeps : {A : Type 0} (act : Exec Core A) → Keeps P act → Leads P act (λ a. P) K
  pending-Keeps act k = Leads-Keeps P K act P-K k

  lifted : {A : Type 0} (r : Result A) → Leads P (lift r) (λ a. P) K
  lifted r = pending-Keeps (lift r) (Keeps-lift r)

  counted : (d : Fields) → Leads P (count_of w d) (λ n. P) K
  counted d =
      Leads-bind P K (lift (required (get_field d "attemptCount"))) (λ v. P) (λ n. P)
        (λ v. lift (int_of w v)) (lifted (required (get_field d "attemptCount")))
        (λ v. lifted (int_of w v))

  clock : Leads P (now_ms w) (λ t. P) K
  clock = pending-Keeps (now_ms w) (now_ms-Keeps w mid pending_key (IsPending w mid pending_key))

  fail_for_good-Kept :
      (new_ac : ℤ) (shard_id : ℕ) → Kept (fail_for_good w mid rec pending_key new_ac shard_id)
  unfolding fail_for_good
  fail_for_good-Kept new_ac shard_id =
      Leads-bind P K _ (λ t. P) (λ u. K) _ clock
        (λ t.
          Leads-bind P K _ (λ u. T) (λ u. K) _
            (put_terminal _ "failed" _ (due.failed_elsewhere t)
              (ended_as-terminal "failed" t _ (rw get_field-set_field due.id)
                (due.reads_failed t new_ac))
              (inr refl))
            (λ u. from_T _ (search (object_rules, delete_pending-HasTerminal) depth 10)))

  retry_later-Kept :
      (d : Fields) (new_ac : ℤ) (nd : Option ℤ) → Kept (retry_later w mid d pending_key new_ac nd)
  unfolding retry_later
  retry_later-Kept d new_ac none = Leads-pure P K (λ u. K) tt P-K
  retry_later-Kept d new_ac (some nd) =
      Leads-bind P K _ (λ u. K) (λ u. K) _ (put_pending _)
        (λ u. Leads-modify K K (λ u. K) _ (λ c h. h))

  fail_once-Kept : (now : ℤ) → Kept (fail_once w mid rec pending_key now)
  unfolding fail_once
  fail_once-Kept now =
      Leads-bind P K _ (λ t. P) (λ u. K) _ (counted rec)
        (λ ac.
          Leads-bind P K _ (λ t. P) (λ u. K) _ (lifted _)
            (λ shard_id.
              Leads-if P K (λ u. K) (attempt_count_is_terminal (ac +ℤ pos 1)) _ _
                (fail_for_good-Kept (ac +ℤ pos 1) shard_id)
                (Leads-bind P K _ (λ t. P) (λ u. K) _ (lifted _)
                  (λ nd. retry_later-Kept rec (ac +ℤ pos 1) nd))))

  succeed-Kept : (t : ℤ) → Kept (succeed w mid rec pending_key t)
  unfolding succeed
  succeed-Kept t =
      Leads-bind P K _ (λ s. P) (λ u. K) _ (lifted _)
        (λ shard_id.
          Leads-bind P K _ (λ u. T) (λ u. K) _
            (put_terminal _ "success" _ (due.success_elsewhere t)
              (ended_as-terminal "success" t _ due.id (due.reads_success t)) (inl refl))
            (λ u. from_T _ (search (object_rules, delete_pending-HasTerminal) depth 12)))

  after_scan :
      (found : Option Found) (some_act : Found → Exec Core Unit) (none_act : Exec Core Unit)
      → ((f : Found) → Keeps T (some_act f))
      → Kept none_act
      → Leads
          (AfterScan w mid pending_key found)
          (elim found [ some f ↦ some_act f | none ↦ none_act ])
          (λ u. K)
          K
  after_scan none some_act none_act k l = l
  after_scan (some f) some_act none_act k l = from_T (some_act f) (k f)

  scanned :
      (t : ℤ) (some_act : Found → Exec Core Unit) (none_act : Exec Core Unit)
      → ((f : Found) → Keeps T (some_act f))
      → Kept none_act
      → Kept (
          find_existing w mid t >>= (λ found. elim found [ some f ↦ some_act f | none ↦ none_act ]))
  scanned t some_act none_act k l =
      Leads-bind P K _ (AfterScan w mid pending_key) (λ u. K) _ (scan-Leads w mid pending_key t)
        (λ found. after_scan found some_act none_act k l)

  transition_failure-Kept : Kept (transition_failure w mid rec pending_key)
  unfolding transition_failure
  transition_failure-Kept =
      Leads-bind P K _ (λ t. P) (λ u. K) _ clock
        (λ t.
          scanned t (reconcile_from_terminal w mid pending_key) (fail_once w mid rec pending_key t)
            (reconcile_from_terminal-HasTerminal w mid pending_key) (fail_once-Kept t))

  transition_success-Kept : Kept (transition_success w mid rec pending_key)
  unfolding transition_success
  transition_success-Kept =
      Leads-bind P K _ (λ t. P) (λ u. K) _ clock
        (λ t.
          scanned t (succeed_again w mid pending_key) (succeed w mid rec pending_key t)
            (succeed_again-HasTerminal w mid pending_key) (succeed-Kept t))

  send_and_settle-Kept :
      (texts : String × String) → Kept (send_and_settle w mid rec pending_key texts)
  unfolding send_and_settle
  send_and_settle-Kept (to, body) =
      Leads-bind P K _ (λ t. P) (λ u. K) _ (counted rec)
        (λ ac.
          Leads-bind P K _ (λ t. P) (λ u. K) _
            (pending-Keeps _
              (post_mock_send-Keeps w mid pending_key (IsPending w mid pending_key) _))
            (λ status.
              Leads-if P K (λ u. K) (is_successful_send status) _ _ transition_success-Kept
                transition_failure-Kept))

  module _ (texts : String × String)
      (valid : both_texts
          (text_or_empty (get_field (payload_of (get_field rec "payload")) "to"))
          (text_or_empty (get_field (payload_of (get_field rec "payload")) "body"))
        ≡ some texts) where
    dispatch-Kept : Kept (dispatch w mid rec pending_key)
    unfolding dispatch
    dispatch-Kept = rw (dispatch, valid) (send_and_settle-Kept texts)

    handle_present-Kept : Kept (handle_present w mid rec pending_key)
    handle_present-Kept =
        Leads-bind P K _ (λ t. P) (λ u. K) _ clock
          (λ t.
            scanned t (reconcile_from_terminal w mid pending_key) (dispatch w mid rec pending_key)
              (reconcile_from_terminal-HasTerminal w mid pending_key) dispatch-Kept)

    after_read-Kept : (r : Result Codes) → Kept (after_read w mid rec pending_key r)
    after_read-Kept (ok raw) = handle_present-Kept
    after_read-Kept (err key_error) = Leads-modify P K (λ u. K) _ P-K
    after_read-Kept (err e) = record { at = P-K }

    read : Leads P (caught (in_port (Store.get_object w.client pending_key))) (λ r. P) K
    read = record {
      at = λ c h.
          let same =
            (Keeps-Leads (λ p. p.objects ≡ objects_of c) (Store.get_object w.client pending_key)
                (Leads-mono (λ p. p.objects ≡ objects_of c) (Store.get_object w.client pending_key)
                  _ (λ raw p. p.objects ≡ objects_of c) (λ p. p.objects ≡ objects_of c)
                  (λ p. p.objects ≡ objects_of c) (λ raw p k. k.0) (λ p k. k)
                  (get_object-Leads pending_key (objects_of c) w.client))).at
              c.port refl in
          subst (IsPending w mid pending_key) (sym same) h;
    }

    handle_one_core-Leads : Kept (handle_one_core w mid rec pending_key)
    unfolding handle_one_core
    handle_one_core-Leads = Leads-bind P K _ (λ r. P) (λ u. K) _ read after_read-Kept

    -- The handling of a due message whose payload has a recipient and a body does not lose it, wherever
    -- an error is raised: if its pending object was stored, and is no terminal record, then at the end it
    -- is stored still, or a terminal record of the message is stored under another key.
    pub handle_one_core-IsKept :
        (c : Core)
        → IsPending w mid pending_key (objects_of c)
        → IsKept w mid pending_key (objects_of (handle_one_core w mid rec pending_key c).1)
    handle_one_core-IsKept c h =
        (Keeps-either (handle_one_core w mid rec pending_key c).0
          (handle_one_core w mid rec pending_key c).1 (handle_one_core-Leads.at c h))
