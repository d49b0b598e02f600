-- ===== src/Journal/Writer/Retry.antt =====
-- `_put_object_with_retry`: what is stored, and how often it is tried.
use nitzan_shinnies_inspecti.Prelude.{
  ◌∙◌, sym, subst, eqb, true, false, inl, inr, if◌then◌else◌, Bool-cases, ap, ℕ, zero, suc, ◌+◌,
  ◌≤◌, ◌<◌, String, ◌≡◌, refl, ◌⊎◌, [], ◌∷◌, ◌++◌, arith,
}
use nitzan_shinnies_inspecti.Journal.Writer.{
  is_retryable, put_object_with_retry, Writer, put_attempts, next_delay, after_refusal,
}
use nitzan_shinnies_inspecti.Journal.S3.{
  PutAnswer, PutAnswer-cases, refused, stored, lost, Env, Segment,
}
use native.Mathlib.Nat.{add-zero}
use nitzan_shinnies_inspecti.Prelude.Eq.{ℕ-eq, String-eq, pair_eq}
use nitzan_shinnies_inspecti.Prelude.Result.{Done, Error, client_error, connection_error, ok, err}

-- `o` joined the segments whose put returned, and the call returned, or no segment did, and it raised.
abbrev pub StoredOrRaised : Segment → Writer → Done × Writer → Type 0
StoredOrRaised o w (r, w') =
    ((r ≡ ok tt) × (w'.segments ≡ w.segments ++ o ∷ []))
    ⊎ (((e : Error) × (r ≡ err e)) × (w'.segments ≡ w.segments))

-- How a call ended when the last answer of the store, out of at most `most`, was `answer`: it returned and
-- `o` is stored once; or it raised the ClientError of a refusal that is not retried, or was the last, and
-- nothing is stored; or the connection was lost, and `o` is stored or is not.
abbrev pub EndedBy : ℕ → Segment → Writer → Done × Writer → PutAnswer → Type 0
EndedBy most o w (r, w') stored =
    (r ≡ ok tt) × (w'.segments ≡ w.segments ++ o ∷ []) × (w'.unconfirmed ≡ w.unconfirmed)
EndedBy most o w (r, w') (refused code) =
    (r ≡ err (client_error code))
    × (w'.segments ≡ w.segments)
    × (w'.unconfirmed ≡ w.unconfirmed)
    × ((is_retryable code ≡ false) ⊎ (w'.puts ≡ w.puts + most))
EndedBy most o w (r, w') (lost took_effect) =
    (r ≡ err connection_error)
    × (w'.segments ≡ w.segments)
    × (w'.unconfirmed ≡ (if took_effect then w.unconfirmed ++ o ∷ [] else w.unconfirmed))

-- What it leaves alone.
abbrev pub SameBuffers : Writer → Writer → Type 0
SameBuffers w w' =
    (w'.buffers ≡ w.buffers)
    × (w'.hwm ≡ w.hwm)
    × (w'.last_assigned ≡ w.last_assigned)
    × (w'.last_flush_mono ≡ w.last_flush_mono)

-- What ended a call after a retry ended it with one call of the store more.
later :
    (left : ℕ) (o : Segment) (w : Writer) (delay : ℕ) (a : PutAnswer) (p : Done × Writer)
    → EndedBy (suc left) o (after_refusal delay w) p a
    → EndedBy (suc (suc left)) o w p a
later left o w delay stored p h = h
later left o w delay (lost b) p h = h
later left o w delay (refused code) p (r, s, u, inl never) = (r, s, u, inl never)
later left o w delay (refused code) p (r, s, u, inr e) = (r, s, u, inr (omega (arith, e)))

module _ (env : Env) (o : Segment) where
  put_attempts-StoredOrRaised :
      (left delay : ℕ) (w : Writer) → StoredOrRaised o w (put_attempts env (suc left) delay o w)
  unfolding put_attempts
  put_attempts-StoredOrRaised zero delay w = elim (PutAnswer-cases (env.put_answer w.puts)) [
    | inl e ↦ ground (arith, e)
    | inr (inl (code, e)) ↦ ground (arith, e)
    | inr (inr (b, e)) ↦ rw (put_attempts, e) (inr ((connection_error, refl), refl))
  ]
  put_attempts-StoredOrRaised (suc left) delay w = elim (PutAnswer-cases (env.put_answer w.puts)) [
    | inl e ↦ ground (arith, e)
    | inr (inl (code, e)) ↦
        ground
          (arith, e, put_attempts-StoredOrRaised left (next_delay delay) (after_refusal delay w))
    | inr (inr (b, e)) ↦ rw (put_attempts, e) (inr ((connection_error, refl), refl))
  ]

  pub put_object_with_retry-StoredOrRaised :
      (w : Writer) → StoredOrRaised o w (put_object_with_retry env o w)
  put_object_with_retry-StoredOrRaised w = put_attempts-StoredOrRaised 7 50 w

  put_attempts-EndedBy :
      (left delay : ℕ) (w : Writer)
      → (n : ℕ) × ((put_attempts env (suc left) delay o w).1.puts ≡ n + 1)
        × EndedBy (suc left) o w (put_attempts env (suc left) delay o w) (env.put_answer n)
  unfolding put_attempts
  put_attempts-EndedBy zero delay w = elim (PutAnswer-cases (env.put_answer w.puts)) [
    | inl e ↦ (w.puts, rw (put_attempts, e) refl, rw (put_attempts, e) (refl, refl, refl))
    | inr (inl (code, e)) ↦ elim (Bool-cases (is_retryable code)) [
      | inl again ↦ (
        w.puts,
        rw (put_attempts, e, again) refl,
        rw (put_attempts, e, again) (refl, refl, refl, inr refl),
      )
      | inr never ↦ (
        w.puts,
        rw (put_attempts, e, never) refl,
        rw (put_attempts, e, never) (refl, refl, refl, inl refl),
      )
    ]
    | inr (inr (b, e)) ↦
        (w.puts, rw (put_attempts, e) refl, rw (put_attempts, e) (refl, refl, refl))
  ]
  put_attempts-EndedBy (suc left) delay w =
      let rest = put_attempts-EndedBy left (next_delay delay) (after_refusal delay w) in
      elim (PutAnswer-cases (env.put_answer w.puts)) [
        | inl e ↦ (w.puts, rw (put_attempts, e) refl, rw (put_attempts, e) (refl, refl, refl))
        | inr (inl (code, e)) ↦ elim (Bool-cases (is_retryable code)) [
          | inl again ↦
              let more : eqb (suc left) 0 ≡ false = ground arith in
              let step : put_attempts env (suc (suc left)) delay o w
                  ≡ put_attempts env (suc left) (next_delay delay) o (after_refusal delay w) =
                rw (put_attempts, e, again, more) refl in
              let (n, last, h) = rest in
              let p = put_attempts env (suc left) (next_delay delay) o (after_refusal delay w) in
              (
                n,
                ap (λ q. q.1.puts) step ∙ last,
                subst (λ q. EndedBy (suc (suc left)) o w q (env.put_answer n)) (sym step)
                    (later left o w delay (env.put_answer n) p h),
              )
          | inr never ↦ (
            w.puts,
            rw (put_attempts, e, never) refl,
            rw (put_attempts, e, never) (refl, refl, refl, inl refl),
          )
        ]
        | inr (inr (b, e)) ↦
            (w.puts, rw (put_attempts, e) refl, rw (put_attempts, e) (refl, refl, refl))
      ]

  pub put_attempts-SameBuffers :
      (left delay : ℕ) (w : Writer) → SameBuffers w (put_attempts env left delay o w).1
  unfolding put_attempts
  put_attempts-SameBuffers zero delay w = (refl, refl, refl, refl)
  put_attempts-SameBuffers (suc left) delay w =
      ground (arith, put_attempts-SameBuffers left (next_delay delay) (after_refusal delay w))

  -- At least one call is made and no more than are left.
  put_attempts-puts :
      (left delay : ℕ) (w : Writer)
      → (w.puts < (put_attempts env (suc left) delay o w).1.puts)
        × ((put_attempts env (suc left) delay o w).1.puts ≤ w.puts + suc left)
  unfolding put_attempts
  put_attempts-puts zero delay w = ground arith
  put_attempts-puts (suc left) delay w =
      ground (arith, put_attempts-puts left (next_delay delay) (after_refusal delay w))

-- the sum of `n` delays, each twice the one before and at most the greatest
budget : ℕ → ℕ → ℕ
budget zero delay = 0
budget (suc n) delay = delay + budget n (next_delay delay)

module _ (env : Env) (o : Segment) where
  put_attempts-slept :
      (left delay : ℕ) (w : Writer)
      → (put_attempts env (suc left) delay o w).1.slept_ms ≤ w.slept_ms + budget left delay
  unfolding put_attempts budget
  put_attempts-slept zero delay w = ground arith
  put_attempts-slept (suc left) delay w =
      ground (arith, put_attempts-slept left (next_delay delay) (after_refusal delay w))

  -- A call of `_put_object_with_retry` stores its object once and returns, or stores nothing and raises
  -- a ClientError. It asks the store 1 to 8 times and sleeps for at most 5150 milliseconds.
  pub put_object_with_retry_bounds :
      (w : Writer)
      → ((n : ℕ) × ((put_object_with_retry env o w).1.puts ≡ n + 1)
          × EndedBy 8 o w (put_object_with_retry env o w) (env.put_answer n))
        × (w.puts < (put_object_with_retry env o w).1.puts)
        × ((put_object_with_retry env o w).1.puts ≤ w.puts + 8)
        × ((put_object_with_retry env o w).1.slept_ms ≤ w.slept_ms + 5150)
  unfolding budget
  put_object_with_retry_bounds w = (
    put_attempts-EndedBy env o 7 50 w,
    (put_attempts-puts env o 7 50 w).0,
    (put_attempts-puts env o 7 50 w).1,
    put_attempts-slept 7 50 w,
  )

  -- The answer of the store to a call is a refusal that is worth a retry.
  abbrev pub Throttled : ℕ → Type 0
  Throttled n = (code : String) × (env.put_answer n ≡ refused code) × (is_retryable code ≡ true)

  put_attempts-stores :
      (k left delay : ℕ) (w : Writer)
      → k < left
      → ((j : ℕ) → j < k → Throttled (w.puts + j))
      → env.put_answer (w.puts + k) ≡ stored
      → ((put_attempts env left delay o w).0 ≡ ok tt)
        × ((put_attempts env left delay o w).1.segments ≡ w.segments ++ o ∷ [])
  unfolding put_attempts
  put_attempts-stores k zero delay w h before now = absurd (omega arith)
  put_attempts-stores zero (suc left) delay w h before now =
      ground (arith, ap env.put_answer (add-zero w.puts))
  put_attempts-stores (suc k) (suc left) delay w h before now =
      let (code, e, again) = before 0 (omega arith) in
      ground (
        arith,
        ap env.put_answer (add-zero w.puts),
        put_attempts-stores k left (next_delay delay) (after_refusal delay w) (omega arith)
            (λ j l.
              let (c, d, r) = before (suc j) (omega arith) in
              (c, sym (ap env.put_answer (omega arith)) ∙ d, r))
            (sym (ap env.put_answer (omega arith)) ∙ now),
      )

-- An object is stored if one of the first eight calls of the store takes it and the calls before that
-- one were throttled.
pub put_object_with_retry-stores :
    (env : Env) (o : Segment) (k : ℕ) (w : Writer)
    → k < 8
    → ((j : ℕ) → j < k → Throttled env o (w.puts + j))
    → env.put_answer (w.puts + k) ≡ stored
    → ((put_object_with_retry env o w).0 ≡ ok tt)
      × ((put_object_with_retry env o w).1.segments ≡ w.segments ++ o ∷ [])
put_object_with_retry-stores env o k w = put_attempts-stores env o k 8 50 w
