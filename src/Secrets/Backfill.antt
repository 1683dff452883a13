-- ===== src/Secrets/Backfill.antt =====
-- internal/config/project_secrets.go: the backfill of secrets that are stored as plain text.
use kindling.Base.{
  ℕ, ◌≡◌, refl, sym, ap, subst, ◌∙◌, ◌==◌, ==_iff, ==_refl, suc, Bool, true, false, Option, some,
  List, [], ◌∷◌, Text, length, put, Bool-cases, Option-cases, inl, inr, none≢some, false≢true, All,
}
use kindling.Secrets.{
  Crypto, IsCrypto, Row, encrypt_project_secret_value, encrypt_secret_bytes,
  is_encrypted_project_secret_value, decrypt_project_secret_value, backfill_rows,
  backfill_project_secrets,
}
use kindling.Secrets.Envelope.{decrypt-encrypt_project_secret_value}

All-map : {P Q : Row → Type 0} (rows : List Row) → ((r : Row) → P r → Q r) → All P rows → All Q rows
All-map [] f h = tt
All-map (r ∷ rows) f (d, h) = (f r d, All-map rows f h)

-- A text that is not an envelope is read as it is.
plain_value :
    (c : Crypto) (key v : Text)
    → is_encrypted_project_secret_value v ≡ false
    → decrypt_project_secret_value c key v ≡ some v
unfolding decrypt_project_secret_value
plain_value c key [] e = refl
plain_value c key (a ∷ v) e = simp (e, decrypt_project_secret_value) refl

module _ (c : Crypto) (law : IsCrypto c) (key : Text) (draws : ℕ → Option Text) (fails : ℕ → Bool)
    (sized : (id : ℕ) (nonce : Text) → draws id ≡ some nonce → length nonce ≡ c.nonce_size) where
  abbrev Same : (ℕ → Text) → (ℕ → Text) → Type 0
  Same new old =
      (j : ℕ)
      → (decrypt_project_secret_value c key (new j) ≡ decrypt_project_secret_value c key (old j))
        × (is_encrypted_project_secret_value (old j) ≡ true
            → is_encrypted_project_secret_value (new j) ≡ true)

  -- The value of each row is read as the value that stands, which is an envelope if the row's is.
  abbrev IsRead : (ℕ → Text) → Row → Type 0
  IsRead values row =
      (decrypt_project_secret_value c key (values row.id)
        ≡ decrypt_project_secret_value c key row.value)
      × (is_encrypted_project_secret_value row.value ≡ true
          → is_encrypted_project_secret_value (values row.id) ≡ true)

  encrypted_value :
      (id : ℕ) (plain stored : Text)
      → encrypt_project_secret_value c key (draws id) plain ≡ some stored
      → (is_encrypted_project_secret_value stored ≡ true)
        × (decrypt_project_secret_value c key stored ≡ some plain)
  unfolding encrypt_project_secret_value encrypt_secret_bytes
  encrypted_value id plain stored h = elim (Option-cases (draws id)) [
    | inl k ↦ elim (Bool-cases (length key == 32)) [
      | inl s ↦
          absurd (none≢some (simp (k, s, encrypt_project_secret_value, encrypt_secret_bytes) at h))
      | inr s ↦
          absurd (none≢some (simp (k, s, encrypt_project_secret_value, encrypt_secret_bytes) at h))
    ]
    | inr (nonce, k) ↦
        decrypt-encrypt_project_secret_value c law key nonce (sized id nonce k) plain stored
          (simp k at h)
  ]

  put-Same :
      (row : Row) (enc : Text) (values : ℕ → Text)
      → IsRead values row
      → is_encrypted_project_secret_value row.value ≡ false
      → is_encrypted_project_secret_value enc ≡ true
      → decrypt_project_secret_value c key enc ≡ some row.value
      → Same (put row.id enc values) values
  put-Same row enc values (read, _) plain e d j = elim (Bool-cases (row.id == j)) [
    | inr h ↦ simp h (refl, λ q. q)
    | inl h ↦
        let same = ap values ((==_iff row.id j).0 h) in
        simp h (
          d
              ∙ sym (plain_value c key row.value plain)
              ∙ sym read
              ∙ ap (decrypt_project_secret_value c key) same,
          λ q. e,
        )
  ]

  Same-trans : (x y z : ℕ → Text) → Same x y → Same y z → Same x z
  Same-trans x y z f g j = let (a, b) = f j in let (d, e) = g j in (a ∙ d, λ q. b (e q))

  IsRead-Same : (new old : ℕ → Text) → Same new old → (row : Row) → IsRead old row → IsRead new row
  IsRead-Same new old f row (d, e) = ((f row.id).0 ∙ d, λ q. (f row.id).1 (e q))

  abbrev IsEnveloped : (ℕ → Text) → Row → Type 0
  IsEnveloped values row = is_encrypted_project_secret_value (values row.id) ≡ true

  abbrev IsFilled : List Row → (ℕ → Text) → (ℕ → Text) × ℕ × Bool → Type 0
  IsFilled rows values r = Same r.0 values × (r.2 ≡ true → All (IsEnveloped r.0) rows)

  stopped : (rows : List Row) (values : ℕ → Text) (n : ℕ) → IsFilled rows values (values, n, false)
  stopped rows values n = (λ j. (refl, λ q. q), λ ok. absurd (false≢true ok))

  -- One row, and the rest of the loop.
  filled :
      (row : Row) (rows : List Row) (values new : ℕ → Text) (r : (ℕ → Text) × ℕ × Bool)
      → Same new values
      → IsEnveloped new row
      → IsFilled rows new r
      → IsFilled (row ∷ rows) values r
  filled row rows values new r first e (rest, all) =
      (Same-trans r.0 new values rest first, λ ok. ((rest row.id).1 e, all ok))

  of_result :
      (rows : List Row) (values : ℕ → Text) (n : ℕ) (r : (ℕ → Text) × ℕ × Bool)
      → backfill_rows c key draws fails rows values n ≡ r
      → IsFilled rows values r
      → IsFilled rows values (backfill_rows c key draws fails rows values n)
  of_result rows values n r e f = subst (λ r. IsFilled rows values r) (sym e) f

  backfill_rows-IsFilled :
      (rows : List Row) (values : ℕ → Text) (n : ℕ)
      → All (IsRead values) rows
      → IsFilled rows values (backfill_rows c key draws fails rows values n)
  unfolding backfill_rows
  backfill_rows-IsFilled [] values n h = (λ j. (refl, λ q. q), λ ok. tt)
  backfill_rows-IsFilled (row ∷ rows) values n (here, h) =
      let v = row.value in
      let stop = stopped (row ∷ rows) values n in
      let to = of_result (row ∷ rows) values n in
      elim (Bool-cases (is_encrypted_project_secret_value v)) [
        | inl e ↦ elim (Option-cases (decrypt_project_secret_value c key v)) [
          | inl k ↦ to (values, n, false) (simp (e, k, backfill_rows) refl) stop
          | inr (plain, k) ↦
              let r = backfill_rows c key draws fails rows values n in
              to r (simp (e, k, backfill_rows) refl) (
                filled row rows values values r (λ j. (refl, λ q. q)) (here.1 e)
                  (backfill_rows-IsFilled rows values n h))
        ]
        | inr e ↦ elim (Option-cases (encrypt_project_secret_value c key (draws row.id) v)) [
          | inl k ↦ to (values, n, false) (simp (e, k, backfill_rows) refl) stop
          | inr (enc, k) ↦ elim (Bool-cases (fails row.id)) [
            | inl f ↦ to (values, n, false) (simp (e, k, f, backfill_rows) refl) stop
            | inr f ↦
                let new = put row.id enc values in
                let r = backfill_rows c key draws fails rows new (suc n) in
                let (q, d) = encrypted_value row.id v enc k in
                let first = put-Same row enc values here e q d in
                to r (simp (e, k, f, backfill_rows) refl) (
                  filled row rows values new r first (simp (==_refl row.id) q) (
                    backfill_rows-IsFilled rows new (suc n)
                      (All-map rows (IsRead-Same new values first) h)))
          ]
        ]
      ]

  as_listed :
      (rows : List Row) (values : ℕ → Text)
      → All (λ row. (values row.id ≡ row.value)) rows
      → All (IsRead values) rows
  as_listed rows values h =
      All-map rows
        (λ row e. (
          ap (decrypt_project_secret_value c key) e,
          λ q. (ap is_encrypted_project_secret_value e ∙ q),
        ))
        h

  -- However far the backfill comes, and whatever fails in it, each stored secret is read with the key as
  -- it was before.
  pub backfill-reads :
      (rows : List Row) (values : ℕ → Text)
      → All (λ row. (values row.id ≡ row.value)) rows
      → (j : ℕ)
      → decrypt_project_secret_value c key
          ((backfill_project_secrets c key draws fails (some rows) values).0 j)
        ≡ decrypt_project_secret_value c key (values j)
  unfolding backfill_project_secrets
  backfill-reads rows values h j =
      ((backfill_rows-IsFilled rows values 0 (as_listed rows values h)).0 j).0

  -- If the backfill ends without an error, every listed row is an envelope.
  backfill-encrypts :
      (rows : List Row) (values : ℕ → Text)
      → All (λ row. (values row.id ≡ row.value)) rows
      → (backfill_project_secrets c key draws fails (some rows) values).2 ≡ true
      → All (IsEnveloped (backfill_project_secrets c key draws fails (some rows) values).0) rows
  unfolding backfill_project_secrets
  backfill-encrypts rows values h ok =
      (backfill_rows-IsFilled rows values 0 (as_listed rows values h)).1 ok
