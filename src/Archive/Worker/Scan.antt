-- ===== src/Archive/Worker/Scan.antt =====
-- What the scan for a terminal record finds: it changes no object, and what it returns is stored.
use nitzan_shinnies_inspecti.Prelude.{
  String, ◌≡◌, refl, ◌⊎◌, inl, inr, Option, none, some, List, [], ◌∷◌,
}
use nitzan_shinnies_inspecti.Prelude.Int.{ℤ, ℤ-eq}
use nitzan_shinnies_inspecti.Prelude.Eq.{ℕ-eq, String-eq, pair_eq}
use nitzan_shinnies_inspecti.Prelude.Dict.{get}
use nitzan_shinnies_inspecti.Prelude.Result.{Result, ok, err}
use nitzan_shinnies_inspecti.Prelude.Exec.{Exec, ◌>>=◌}
use nitzan_shinnies_inspecti.Prelude.Leads.{
  Leads, Ends, Leads-bind, Leads-pure, Leads-if, Leads-zoom,
}
use nitzan_shinnies_inspecti.Prelude.Decimal.{Codes}
use nitzan_shinnies_inspecti.Json.{Fields}
use nitzan_shinnies_inspecti.Archive.Store.{Port}
use nitzan_shinnies_inspecti.Archive.Store.Memory.{Objects}
use nitzan_shinnies_inspecti.Archive.Store.Effects.{get_object-Leads, list_prefix-Leads}
use nitzan_shinnies_inspecti.Archive.Worker.{
  World, Core, Found, in_port, caught, terminal_in, or_next, or_else, listed,
  key_matches_message_terminal, find_in_rows, find_in_prefixes, find_existing,
  terminal_prefixes_for_lookback,
}
use nitzan_shinnies_inspecti.Archive.Store

abbrev pub objects_of : Core → Objects
objects_of c = c.port.objects

pub in_port-Leads :
    {A : Type 0} (P E : Port → Type 0) (act : Exec Port A) (Q : A → Port → Type 0)
    → Leads P act Q E
    → Leads (λ c. P c.port) (in_port act) (λ a c. Q a c.port) (λ c. E c.port)
in_port-Leads P E act Q l =
    Leads-zoom (λ c. c.port) (λ p c. record c { port = p }) (λ p c. refl) P E act Q l

caught-Leads :
    {A : Type 0} (P E E' : Core → Type 0) (act : Exec Core A) (Q : A → Core → Type 0)
    → Leads P act Q E
    → Leads P (caught act) (λ r c. Ends Q E r c) E'
caught-Leads P E E' act Q l = record { at = l.at }

abbrev pub IsEnd : String → Type 0
IsEnd outcome = (outcome ≡ "success") ⊎ (outcome ≡ "failed")

module _ (w : World) (mid : String) where
  -- An object is a terminal record of the message.
  abbrev pub IsTerminal : Found → Objects → Type 0
  IsTerminal (outcome, (tkey, body)) o =
      (raw : Codes) × (get o tkey ≡ some raw)
      × (terminal_in w mid outcome (ok raw) ≡ some body)
      × IsEnd outcome

  abbrev pub FoundIn : Objects → Option Found → Core → Type 0
  FoundIn o0 none c = objects_of c ≡ o0
  FoundIn o0 (some f) c = (objects_of c ≡ o0) × IsTerminal f (objects_of c)

  module _ (o0 : Objects) where
    abbrev Here : Core → Type 0
    Here c = objects_of c ≡ o0

    abbrev Search : Exec Core (Option Found) → Type 0
    Search act = Leads Here act (FoundIn o0) Here

    found_or_next :
        (outcome tkey : String) (raw : Codes) (next : Exec Core (Option Found))
        (found : Option Fields)
        → IsEnd outcome
        → Search next
        → terminal_in w mid outcome (ok raw) ≡ found
        → Leads
            (λ c. Here c × (get (objects_of c) tkey ≡ some raw))
            (or_next w outcome tkey found next)
            (FoundIn o0)
            Here
    found_or_next outcome tkey raw next none end l e = record { at = λ c h. l.at c h.0 }
    found_or_next outcome tkey raw next (some body) end l e =
        Leads-pure _ Here (FoundIn o0) _ (λ c h. (h.0, (raw, h.1, e, end)))

    after_read :
        (outcome tkey : String) (next : Exec Core (Option Found)) (r : Result Codes)
        → IsEnd outcome
        → Search next
        → Leads
            (λ c. Ends (λ raw d. Here d × (get (objects_of d) tkey ≡ some raw)) Here r c)
            (or_next w outcome tkey (terminal_in w mid outcome r) next)
            (FoundIn o0)
            Here
    after_read outcome tkey next (err e) end l = l
    after_read outcome tkey next (ok raw) end l = found_or_next outcome tkey raw next _ end l refl

    find_in_rows-Search :
        (outcome : String) (rows : List String)
        → IsEnd outcome
        → Search (find_in_rows w mid outcome rows)
    unfolding find_in_rows
    find_in_rows-Search outcome [] end = Leads-pure Here Here (FoundIn o0) none (λ c h. h)
    find_in_rows-Search outcome (tkey ∷ rows) end =
        let next = find_in_rows-Search outcome rows end in
        Leads-if Here Here (FoundIn o0) (key_matches_message_terminal tkey mid) _ _
          (Leads-bind Here Here _ _ (FoundIn o0) _
            (caught-Leads Here Here Here _ _ (
              in_port-Leads (λ p. p.objects ≡ o0) (λ p. p.objects ≡ o0)
                (Store.get_object w.client tkey)
                (λ raw p. (p.objects ≡ o0) × (get p.objects tkey ≡ some raw))
                (get_object-Leads tkey o0 w.client)))
            (λ r. after_read outcome tkey _ r end next))
          next

    or_else-Search :
        (next : Exec Core (Option Found)) (f : Option Found)
        → Search next
        → Leads (FoundIn o0 f) (or_else w next f) (FoundIn o0) Here
    or_else-Search next none l = l
    or_else-Search next (some f) l = Leads-pure _ Here (FoundIn o0) (some f) (λ c h. h)

    after_list :
        (outcome : String) (next : Exec Core (Option Found)) (r : Result (List String))
        → IsEnd outcome
        → Search next
        → Leads
            (λ c. Ends (λ ks. Here) Here r c)
            (find_in_rows w mid outcome (listed w r) >>= or_else w next)
            (FoundIn o0)
            Here
    after_list outcome next (err e) end l =
        Leads-bind Here Here _ (FoundIn o0) (FoundIn o0) _ (find_in_rows-Search outcome [] end)
          (λ f. or_else-Search next f l)
    after_list outcome next (ok rows) end l =
        Leads-bind Here Here _ (FoundIn o0) (FoundIn o0) _ (find_in_rows-Search outcome rows end)
          (λ f. or_else-Search next f l)

    find_in_prefixes-Search :
        (outcome : String) (ps : List String)
        → IsEnd outcome
        → Search (find_in_prefixes w mid outcome ps)
    unfolding find_in_prefixes
    find_in_prefixes-Search outcome [] end = Leads-pure Here Here (FoundIn o0) none (λ c h. h)
    find_in_prefixes-Search outcome (prefix ∷ ps) end =
        Leads-bind Here Here _ _ (FoundIn o0) _
          (caught-Leads Here Here Here _ _ (
            in_port-Leads (λ p. p.objects ≡ o0) (λ p. p.objects ≡ o0)
              (Store.list_prefix w.client prefix none) (λ ks p. p.objects ≡ o0)
              (list_prefix-Leads prefix none o0 w.client)))
          (λ r. after_list outcome _ r end (find_in_prefixes-Search outcome ps end))

    -- The scan changes no object, and what it finds is a terminal record that is stored.
    pub find_existing-Leads :
        (now : ℤ)
        → Leads
            (λ c. objects_of c ≡ o0)
            (find_existing w mid now)
            (FoundIn o0)
            (λ c. objects_of c ≡ o0)
    unfolding find_existing
    find_existing-Leads now =
        Leads-bind Here Here _ (FoundIn o0) (FoundIn o0) _
          (find_in_prefixes-Search "success" (terminal_prefixes_for_lookback w now "state/success")
            (inl refl))
          (λ f. or_else-Search _ f (
            find_in_prefixes-Search "failed" (terminal_prefixes_for_lookback w now "state/failed")
              (inr refl)))
