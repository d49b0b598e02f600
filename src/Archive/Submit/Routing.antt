-- ===== src/Archive/Submit/Routing.antt =====
-- Which worker is asked to activate which message.
use nitzan_shinnies_inspecti.Prelude.{
  false, eqb, All, ℕ, zero, suc, ◌≤◌, ◌≡◌, refl, sym, ap, ◌∙◌, inl, inr, String, Option, none, List,
  [], ◌∷◌, ◌++◌, map, length, take, drop, append_assoc, append-nil, take-append-drop, length-drop,
  length-take, keep, arith, Bool-cases, if◌then◌else◌,
}
use nitzan_shinnies_inspecti.Prelude.Int.{negsuc, pos, ℤ}
use nitzan_shinnies_inspecti.Archive.Submit.{
  request_immediate_activation_batch, worker_activation_batch_max_keys, SubmittedMessage, Calls,
  worker_index, add_key, keys_by_worker, post, post_chunks, post_groups,
}
use nitzan_shinnies_inspecti.Prelude.Eq.{◌==◌, ℕ-eq}
use nitzan_shinnies_inspecti.Prelude.Dict.{Dict, get, put, or_default, get-put}
use nitzan_shinnies_inspecti.Prelude.Result.{ok}

-- The keys of all calls of a worker, in order.
abbrev pub asked : ℕ → List (ℕ × List String) → List String
asked i [] = []
asked i ((j, ks) ∷ ps) = let rest = asked i ps in if j == i then ks ++ rest else rest

-- No key of a dictionary stands twice.
abbrev Distinct : Dict ℕ (List String) → Type 0
Distinct [] = Unit
Distinct ((j, ks) ∷ d) = (get d j ≡ none) × Distinct d

asked-append :
    (i : ℕ) (xs ys : List (ℕ × List String)) → asked i (xs ++ ys) ≡ asked i xs ++ asked i ys
asked-append i [] ys = refl
asked-append i ((j, ks) ∷ xs) ys = elim (Bool-cases (j == i)) [
  | inl same ↦ rw (same, asked-append i xs ys) (sym (append_assoc ks (asked i xs) (asked i ys)))
  | inr other ↦ rw other (asked-append i xs ys)
]

asked_absent : (i : ℕ) (d : Dict ℕ (List String)) → get d i ≡ none → asked i d ≡ []
unfolding get
asked_absent i [] h = refl
asked_absent i ((j, ks) ∷ d) h = ground (arith, asked_absent i d)

asked-get : (i : ℕ) (d : Dict ℕ (List String)) → Distinct d → asked i d ≡ or_default (get d i) []
unfolding get
asked-get i [] h = refl
asked-get i ((j, ks) ∷ d) (a, h) = elim (Bool-cases (j == i)) [
  | inl same ↦
      let e : j ≡ i = ground (arith, same) in
      rw (same, asked_absent i d (rw e at a)) (append-nil ks)
  | inr other ↦ rw other (asked-get i d h)
]

put-Distinct :
    (d : Dict ℕ (List String)) (k : ℕ) (ks : List String) → Distinct d → Distinct (put d k ks)
unfolding put get
put-Distinct [] k ks h = (refl, tt)
put-Distinct ((j, w) ∷ d) k ks (a, h) = elim (Bool-cases (j == k)) [
  | inl same ↦ rw same (a, h)
  | inr other ↦ rw other (get-put d k j ks ∙ ground (arith, other, a), put-Distinct d k ks h)
]

-- A call asks for at least one key and for at most so many.
abbrev pub IsBatch : ℕ → ℕ × List String → Type 0
IsBatch batch_max p = (1 ≤ length p.1) × (length p.1 ≤ batch_max)

abbrev pub AllBatches : ℕ → List (ℕ × List String) → Type 0
AllBatches batch_max ps = All (IsBatch batch_max) ps

abbrev keys_if : ℕ → ℕ → List String → List String
keys_if i idx ks = asked i ((idx, ks) ∷ [])

AllBatches-append :
    (n : ℕ) (xs ys : List (ℕ × List String))
    → AllBatches n xs
    → AllBatches n ys
    → AllBatches n (xs ++ ys)
AllBatches-append n [] ys h k = k
AllBatches-append n (x ∷ xs) ys (a, h) k = (a, AllBatches-append n xs ys h k)

keys_if-append :
    (i idx : ℕ) (xs ys : List String)
    → keys_if i idx xs ++ keys_if i idx ys ≡ keys_if i idx (xs ++ ys)
keys_if-append i idx xs ys = elim (Bool-cases (idx == i)) [
  | inl same ↦ rw (same, append-nil xs, append-nil ys, append-nil (xs ++ ys)) refl
  | inr other ↦ rw other refl
]

module _ (status : ℕ → Option ℕ) (batch_max : ℕ) (some_key : 1 ≤ batch_max) where
  asked-post_chunks :
      (fuel i idx : ℕ) (keys : List String) (c : Calls)
      → length keys ≤ fuel
      → asked i (post_chunks status batch_max fuel idx keys c).posts
        ≡ asked i c.posts ++ keys_if i idx keys
  unfolding post_chunks
  asked-post_chunks zero i idx [] c h = ground (arith, append-nil (asked i c.posts))
  asked-post_chunks zero i idx (k ∷ keys) c h = absurd (omega arith)
  asked-post_chunks (suc fuel) i idx [] c h = ground (arith, append-nil (asked i c.posts))
  asked-post_chunks (suc fuel) i idx (k ∷ keys) c h =
      let chunk = take batch_max (k ∷ keys) in
      let rest = drop batch_max (k ∷ keys) in
      asked-post_chunks fuel i idx rest (post status batch_max idx chunk c)
        (omega (arith, length-drop batch_max (k ∷ keys)))
      ∙ (ap (λ l. l ++ keys_if i idx rest) (asked-append i c.posts ((idx, chunk) ∷ []))
          ∙ (append_assoc (asked i c.posts) (keys_if i idx chunk) (keys_if i idx rest)
              ∙ ap (λ l. asked i c.posts ++ l)
                  (keys_if-append i idx chunk rest
                    ∙ ap (keys_if i idx) (take-append-drop batch_max (k ∷ keys)))))

  post_chunks-AllBatches :
      (fuel idx : ℕ) (keys : List String) (c : Calls)
      → AllBatches batch_max c.posts
      → AllBatches batch_max (post_chunks status batch_max fuel idx keys c).posts
  unfolding post_chunks
  post_chunks-AllBatches zero idx keys c h = h
  post_chunks-AllBatches (suc fuel) idx [] c h = h
  post_chunks-AllBatches (suc fuel) idx (k ∷ keys) c h =
      let chunk = take batch_max (k ∷ keys) in
      let e = length-take batch_max (k ∷ keys) in
      post_chunks-AllBatches fuel idx (drop batch_max (k ∷ keys))
        (post status batch_max idx chunk c)
        (AllBatches-append batch_max c.posts ((idx, chunk) ∷ []) h
          ((omega (arith, e), omega (arith, e)), tt))

  asked-post_groups :
      (i : ℕ) (d : Dict ℕ (List String)) (c : Calls)
      → asked i (post_groups status batch_max d c).posts ≡ asked i c.posts ++ asked i d
  unfolding post_groups
  asked-post_groups i [] c = sym (append-nil (asked i c.posts))
  asked-post_groups i ((idx, keys) ∷ d) c =
      asked-post_groups i d (post_chunks status batch_max (length keys) idx keys c)
      ∙ (ap (λ l. l ++ asked i d) (asked-post_chunks (length keys) i idx keys c (omega arith))
          ∙ (append_assoc (asked i c.posts) (keys_if i idx keys) (asked i d)
              ∙ ap (λ l. asked i c.posts ++ l) (sym (asked-append i ((idx, keys) ∷ []) d))))

  post_groups-AllBatches :
      (d : Dict ℕ (List String)) (c : Calls)
      → AllBatches batch_max c.posts
      → AllBatches batch_max (post_groups status batch_max d c).posts
  unfolding post_groups
  post_groups-AllBatches [] c h = h
  post_groups-AllBatches ((idx, keys) ∷ d) c h =
      post_groups-AllBatches d (post_chunks status batch_max (length keys) idx keys c)
        (post_chunks-AllBatches (length keys) idx keys c h)

module _ (workers shards_per_pod : ℕ) where
  -- The keys of the messages that a worker is responsible for, in the order of submission.
  abbrev pub keys_for : ℕ → List SubmittedMessage → List String
  keys_for i ss =
      map (λ s. s.pending_key) (keep (λ s. worker_index workers shards_per_pod s == i) ss)

  get-keys_by_worker :
      (i : ℕ) (ss : List SubmittedMessage) (d : Dict ℕ (List String))
      → or_default (get (keys_by_worker workers shards_per_pod ss d) i) []
        ≡ or_default (get d i) [] ++ keys_for i ss
  unfolding keys_by_worker
  get-keys_by_worker i [] d = sym (append-nil (or_default (get d i) []))
  get-keys_by_worker i (s ∷ ss) d =
      let idx = worker_index workers shards_per_pod s in
      let rest = get-keys_by_worker i ss (add_key idx s.pending_key d) in
      let got = get-put d idx i (or_default (get d idx) [] ++ s.pending_key ∷ []) in
      elim (Bool-cases (idx == i)) [
        | inl same ↦
            let e : idx ≡ i = ground (arith, same) in
            rest
            ∙ rw (got, same, e)
                (append_assoc (or_default (get d i) []) (s.pending_key ∷ []) (keys_for i ss))
        | inr other ↦ rest ∙ rw (got, other) refl
      ]

  keys_by_worker-Distinct :
      (ss : List SubmittedMessage) (d : Dict ℕ (List String))
      → Distinct d
      → Distinct (keys_by_worker workers shards_per_pod ss d)
  unfolding keys_by_worker
  keys_by_worker-Distinct [] d h = h
  keys_by_worker-Distinct (s ∷ ss) d h =
      let idx = worker_index workers shards_per_pod s in
      keys_by_worker-Distinct ss (add_key idx s.pending_key d)
        (put-Distinct d idx (or_default (get d idx) [] ++ s.pending_key ∷ []) h)

abbrev pub no_calls : Calls
no_calls = record { posts = []; failures = 0 }

pub worker_activation_batch_max_keys_pos : (n : ℤ) → 1 ≤ worker_activation_batch_max_keys n
unfolding worker_activation_batch_max_keys
worker_activation_batch_max_keys_pos (pos n) = omega arith
worker_activation_batch_max_keys_pos (negsuc n) = omega arith

-- Where there are workers and shards per pod, the activation of submitted messages returns, whatever
-- the calls answer. The calls of a worker ask, in the order of submission, for exactly the messages
-- whose shard is his, and each call has at least one key and at most the configured number.
pub request_immediate_activation_batch-asked :
    (status : ℕ → Option ℕ) (env_max : ℤ) (workers shards_per_pod : ℕ) (ss : List SubmittedMessage)
    → 1 ≤ workers
    → 1 ≤ shards_per_pod
    → ((request_immediate_activation_batch status env_max workers shards_per_pod ss no_calls).0
        ≡ ok tt)
      × AllBatches
          (worker_activation_batch_max_keys env_max)
          (request_immediate_activation_batch status env_max workers shards_per_pod ss
            no_calls).1.posts
      × ((i : ℕ)
          → asked i
              (request_immediate_activation_batch status env_max workers shards_per_pod ss
                no_calls).1.posts
            ≡ keys_for workers shards_per_pod i ss)
unfolding request_immediate_activation_batch get
request_immediate_activation_batch-asked status env_max workers shards_per_pod [] h k =
    (refl, tt, λ i. refl)
request_immediate_activation_batch-asked status env_max workers shards_per_pod (s ∷ ss) h k =
    let a : eqb workers 0 ≡ false = ground arith in
    let b : eqb shards_per_pod 0 ≡ false = ground arith in
    let m = worker_activation_batch_max_keys env_max in
    let m_pos = worker_activation_batch_max_keys_pos env_max in
    let d = keys_by_worker workers shards_per_pod (s ∷ ss) [] in
    let all_asked : (i : ℕ)
        → asked i (post_groups status m d no_calls).posts
          ≡ keys_for workers shards_per_pod i (s ∷ ss) =
      λ i.
        asked-post_groups status m m_pos i d no_calls
        ∙ (asked-get i d (keys_by_worker-Distinct workers shards_per_pod (s ∷ ss) [] tt)
            ∙ get-keys_by_worker workers shards_per_pod i (s ∷ ss) []) in
    rw (a, b) (refl, post_groups-AllBatches status m m_pos d no_calls tt, all_asked)
