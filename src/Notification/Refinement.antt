-- ===== src/Notification/Refinement.antt =====
-- The bounded lists of outcomes, against a store that keeps every row.
use nitzan_shinnies_inspecti.Prelude.{
  ℕ, zero, suc, ◌+◌, ◌≤◌, ◌≡◌, refl, sym, ap, ◌∙◌, List, [], ◌∷◌, arith, take, inl, inr,
}
use nitzan_shinnies_inspecti.Prelude.Result.{Result, ok, err, Result-cases}
use nitzan_shinnies_inspecti.Prelude.Exec.{Exec, lift, ◌>>=◌, ◌>>◌}
use nitzan_shinnies_inspecti.Json.{Fields, get_field}
use nitzan_shinnies_inspecti.Notification.{
  Outcomes, Status, success, failed, rows, set_rows, write, lpush, ltrim, push_and_trim,
  record_terminal, terminal_row, MessageTerminal, list_rows, list_max_len, status_of,
}

take-take : {A : Type 0} (m n : ℕ) (xs : List A) → m ≤ n → take m (take n xs) ≡ take m xs
take-take zero n xs h = refl
take-take (suc m) zero xs h = absurd (omega arith)
take-take (suc m) (suc n) [] h = refl
take-take (suc m) (suc n) (x ∷ xs) h = ap (λ ys. x ∷ ys) (take-take m n xs (omega arith))

take-newest :
    {A : Type 0} (m n : ℕ) (xs ys : List A) → take n xs ≡ take n ys → m ≤ n → take m xs ≡ take m ys
take-newest m n xs ys same h = sym (take-take m n xs h) ∙ (ap (take m) same ∙ take-take m n ys h)

take-cons :
    {A : Type 0} (n : ℕ) (x : A) (xs ys : List A)
    → take n xs ≡ take n ys
    → take n (x ∷ xs) ≡ take n (x ∷ ys)
take-cons zero x xs ys same = refl
take-cons (suc n) x xs ys same = ap (λ zs. x ∷ zs) (take-newest n (suc n) xs ys same (omega arith))

-- Two stores were asked for as many writes, and have the same newest rows of each status.
pub record Agree (o a : Outcomes) : Type 0 where
  pub writes : o.writes ≡ a.writes
  pub of_success : take list_max_len o.success ≡ take list_max_len a.success
  pub of_failed : take list_max_len o.failed ≡ take list_max_len a.failed

newest :
    (st : Status) (o a : Outcomes)
    → Agree o a
    → take list_max_len (rows st o) ≡ take list_max_len (rows st a)
newest success o a h = h.of_success
newest failed o a h = h.of_failed

Agree-set_rows :
    (st : Status) (xs ys : List Fields) (o a : Outcomes)
    → Agree o a
    → take list_max_len xs ≡ take list_max_len ys
    → Agree (set_rows st xs o) (set_rows st ys a)
Agree-set_rows success xs ys o a h same = record {
  writes = h.writes;
  of_success = same;
  of_failed = h.of_failed;
}
Agree-set_rows failed xs ys o a h same = record {
  writes = h.writes;
  of_success = h.of_success;
  of_failed = same;
}

Agree-asked :
    (o a : Outcomes)
    → Agree o a
    → Agree (record o { writes = o.writes + 1 }) (record a { writes = a.writes + 1 })
Agree-asked o a h = record {
  writes = ap (λ n. n + 1) h.writes;
  of_success = h.of_success;
  of_failed = h.of_failed;
}

-- Two commands give the same answer on stores that agree, and leave stores that agree.
record Simulates {A : Type 0} (act spec : Exec Outcomes A) : Type 0 where
  at : (o a : Outcomes) → Agree o a → ((act o).0 ≡ (spec a).0) × Agree (act o).1 (spec a).1

Simulates-bind :
    {A B : Type 0} (act spec : Exec Outcomes A) (next then_ : A → Exec Outcomes B)
    → Simulates act spec
    → ((x : A) → Simulates (next x) (then_ x))
    → Simulates (act >>= next) (spec >>= then_)
Simulates-bind act spec next then_ s each = record {
  at = λ o a h.
      let (same, h') = s.at o a h in
      elim (Result-cases (act o).0) [
        | inl (x, e) ↦ rw (e, sym same ∙ e) ((each x).at (act o).1 (spec a).1 h')
        | inr (bad, e) ↦ rw (e, sym same ∙ e) (refl, h')
      ];
}

module _ (write_answer : ℕ → Result (Unit {0})) where
  write-Simulates :
      (st : Status) (f g : List Fields → List Fields)
      → ((xs ys : List Fields)
          → take list_max_len xs ≡ take list_max_len ys
          → take list_max_len (f xs) ≡ take list_max_len (g ys))
      → Simulates (write write_answer st f) (write write_answer st g)
  write-Simulates st f g same = record {
    at = λ o a h.
        let h' = Agree-asked o a h in
        elim (Result-cases (write_answer o.writes)) [
          | inl (x, e) ↦
              let e' : write_answer a.writes ≡ ok x = rw h.writes at e in
              rw (write, e, e') (refl, Agree-set_rows st _ _ _ _ h' (same _ _ (newest st o a h)))
          | inr (bad, e) ↦
              let e' : write_answer a.writes ≡ err bad = rw h.writes at e in
              rw (write, e, e') (refl, h')
        ];
  }

  -- The write that trims a list is made, and keeps the list as it is.
  abbrev pub keep_all : Status → Exec Outcomes Unit
  keep_all st = write write_answer st (λ rs. rs)

  -- `record_terminal` of a store that forgets no row.
  abbrev pub log_terminal : Fields → Exec Outcomes Unit
  log_terminal row =
      lift (status_of (get_field row "terminalStatus"))
      >>= (λ st. lpush write_answer st row >> keep_all st)

  record_terminal-Simulates :
      (row : Fields) → Simulates (record_terminal write_answer row) (log_terminal row)
  unfolding record_terminal push_and_trim lpush ltrim
  record_terminal-Simulates row =
      Simulates-bind _ _ _ _ (record { at = λ o a h. (refl, h) })
        (λ st.
          Simulates-bind _ _ _ _
            (write-Simulates st _ _ (λ xs ys same. take-cons list_max_len row xs ys same))
            (λ u.
              write-Simulates st _ _
                (λ xs ys same. take-take list_max_len list_max_len xs (omega arith) ∙ same)))

  -- The answers to a sequence of requests, and the store after them.
  unfoldable pub each :
      (Fields → Exec Outcomes Unit)
      → List MessageTerminal
      → Outcomes
      → List (Result (Unit {0})) × Outcomes
  each f [] o = ([], o)
  each f (b ∷ bs) o =
      let (r, o') = f (terminal_row b) o in let (rs, o'') = each f bs o' in (r ∷ rs, o'')

  each-Agree :
      (bs : List MessageTerminal) (o a : Outcomes)
      → Agree o a
      → ((each (record_terminal write_answer) bs o).0 ≡ (each log_terminal bs a).0)
        × Agree (each (record_terminal write_answer) bs o).1 (each log_terminal bs a).1
  unfolding each
  each-Agree [] o a h = (refl, h)
  each-Agree (b ∷ bs) o a h =
      let (same, h') = (record_terminal-Simulates (terminal_row b)).at o a h in
      let (rest, h'') = each-Agree bs _ _ h' in (rw (same, rest) refl, h'')

  -- A store that is trimmed to 10000 rows of each status answers as one that forgets no row: after any
  -- sequence of requests, Redis taking or refusing each write, the answers to the requests are the
  -- same, and so are the rows of a status that a limit of at most 10000 lists, newest first.
  pub each-list_rows :
      (bs : List MessageTerminal) (o : Outcomes) (st : Status) (limit : ℕ)
      → limit ≤ list_max_len
      → ((each (record_terminal write_answer) bs o).0 ≡ (each log_terminal bs o).0)
        × (list_rows st limit (each (record_terminal write_answer) bs o).1
            ≡ list_rows st limit (each log_terminal bs o).1)
  unfolding list_rows
  each-list_rows bs o st limit h =
      let (same, agree) =
        each-Agree bs o o (record { writes = refl; of_success = refl; of_failed = refl }) in
      (same, take-newest limit list_max_len _ _ (newest st _ _ agree) h)
