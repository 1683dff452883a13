-- ===== src/Secrets/Envelope.antt =====
-- internal/config/crypto.go: what is encrypted is read back.
use kindling.Base.{
  ◌≡◌, refl, sym, ap, subst, ◌∙◌, ◌==◌, ◌<◌, true, false, some, [], ◌∷◌, ◌++◌, Text, is_empty,
  length, length-append, ltb, Bool-cases, Option-cases, inl, inr, arith, some-inj, none≢some,
}
use kindling.Secrets.{
  Crypto, IsCrypto, take, drop, project_secret_envelope_prefix, encrypt_secret_bytes,
  decrypt_secret_bytes, encrypt_project_secret_value, encrypt_cluster_secret,
  decrypt_cluster_secret, has_prefix, is_encrypted_project_secret_value,
  decrypt_project_secret_value,
}

take-append : (s t : Text) → take (length s) (s ++ t) ≡ s
take-append [] t = refl
take-append (a ∷ s) t = ap (λ r. a ∷ r) (take-append s t)

drop-append : (s t : Text) → drop (length s) (s ++ t) ≡ t
drop-append [] t = refl
drop-append (a ∷ s) t = drop-append s t

has_prefix-append : (s t : Text) → has_prefix s (s ++ t) ≡ true
has_prefix-append [] t = refl
has_prefix-append (a ∷ s) t = let e = has_prefix-append s t in ground arith

full : (s t : Text) → 0 < length s → is_empty (s ++ t) ≡ false
full [] t h = absurd (omega arith)
full (a ∷ s) t h = refl

module _ (c : Crypto) (law : IsCrypto c) (key nonce : Text)
    (size : length nonce ≡ c.nonce_size) where
  encrypt_bytes_cases :
      (plain ct : Text)
      → encrypt_secret_bytes c key (some nonce) plain ≡ some ct
      → (length key == 32 ≡ true) × (ct ≡ nonce ++ c.seal key nonce plain)
  unfolding encrypt_secret_bytes
  encrypt_bytes_cases plain ct h = elim (Bool-cases (length key == 32)) [
    | inl k ↦ (k, sym (some-inj (simp (k, encrypt_secret_bytes) at h)))
    | inr k ↦ absurd (none≢some (simp (k, encrypt_secret_bytes) at h))
  ]

  bytes_full : (plain ct : Text) → ct ≡ nonce ++ c.seal key nonce plain → is_empty ct ≡ false
  bytes_full plain ct e =
      let n = law.nonce_full in ap is_empty e ∙ full nonce (c.seal key nonce plain) (omega arith)

  -- Bytes that were encrypted decrypt to what they were.
  decrypt-encrypt_bytes :
      (plain ct : Text)
      → encrypt_secret_bytes c key (some nonce) plain ≡ some ct
      → decrypt_secret_bytes c key ct ≡ some plain
  unfolding decrypt_secret_bytes
  decrypt-encrypt_bytes plain ct h =
      let (k, e) = encrypt_bytes_cases plain ct h in
      let sealed = c.seal key nonce plain in
      let long : ltb (length (nonce ++ sealed)) c.nonce_size ≡ false =
        (let l = length-append nonce sealed in ground arith) in
      let front : take c.nonce_size (nonce ++ sealed) ≡ nonce =
        subst (λ n. take n (nonce ++ sealed) ≡ nonce) size (take-append nonce sealed) in
      let back : drop c.nonce_size (nonce ++ sealed) ≡ sealed =
        subst (λ n. drop n (nonce ++ sealed) ≡ sealed) size (drop-append nonce sealed) in
      subst (λ t. decrypt_secret_bytes c key t ≡ some plain) (sym e)
        (simp
          (
            k,
            full nonce sealed (omega (arith, law.nonce_full)),
            long,
            front,
            back,
            law.open_seal key nonce plain,
            decrypt_secret_bytes,
          )
          refl)

  -- What `EncryptClusterSecret` gives for a text, `DecryptClusterSecret` gives back.
  decrypt-encrypt_cluster_secret :
      (plain ct : Text)
      → encrypt_cluster_secret c key (some nonce) plain ≡ some ct
      → decrypt_cluster_secret c key ct ≡ some plain
  unfolding encrypt_cluster_secret decrypt_cluster_secret
  decrypt-encrypt_cluster_secret plain ct h = elim (Bool-cases (is_empty plain)) [
    | inl e ↦ absurd (none≢some (simp (e, encrypt_cluster_secret) at h))
    | inr e ↦ decrypt-encrypt_bytes plain ct (simp (e, encrypt_cluster_secret) at h)
  ]

  value_decrypts :
      (plain ct : Text)
      → encrypt_secret_bytes c key (some nonce) plain ≡ some ct
      → decrypt_project_secret_value c key (project_secret_envelope_prefix ++ c.encode ct)
        ≡ some plain
  unfolding decrypt_project_secret_value is_encrypted_project_secret_value
  value_decrypts plain ct h =
      let e = (encrypt_bytes_cases plain ct h).1 in
      simp
        (
          law.encode_full ct (bytes_full plain ct e),
          law.decode_encode ct,
          decrypt-encrypt_bytes plain ct h,
          decrypt_project_secret_value,
        )
        refl

  -- The envelope of a secret is recognised as one, and decrypts with the same key to the secret.
  pub decrypt-encrypt_project_secret_value :
      (plain stored : Text)
      → encrypt_project_secret_value c key (some nonce) plain ≡ some stored
      → (is_encrypted_project_secret_value stored ≡ true)
        × (decrypt_project_secret_value c key stored ≡ some plain)
  unfolding encrypt_project_secret_value is_encrypted_project_secret_value
  decrypt-encrypt_project_secret_value plain stored h =
      elim (Option-cases (encrypt_secret_bytes c key (some nonce) plain)) [
        | inl k ↦ absurd (none≢some (simp (k, encrypt_project_secret_value) at h))
        | inr (ct, k) ↦
            let e : project_secret_envelope_prefix ++ c.encode ct ≡ stored =
              some-inj (simp (k, encrypt_project_secret_value) at h) in
            subst
              (λ t.
                (is_encrypted_project_secret_value t ≡ true)
                × (decrypt_project_secret_value c key t ≡ some plain))
              e (refl, value_decrypts plain ct k)
      ]
