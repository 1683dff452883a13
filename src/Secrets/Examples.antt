-- ===== src/Secrets/Examples.antt =====
-- Secrets under a toy cipher.
use kindling.Base.{
  ◌==◌, if◌then◌else◌, subst, ℕ, ◌≡◌, refl, true, Option, none, some, List, [], ◌∷◌, ◌++◌, Text,
  codes, length, some-inj, arith,
}
use kindling.Secrets.{
  Crypto, IsCrypto, Row, encrypt_secret_bytes, encrypt_project_secret_value,
  decrypt_project_secret_value, is_encrypted_project_secret_value, backfill_project_secrets,
  project_secret_envelope_prefix,
}
use kindling.Secrets.Envelope.{decrypt-encrypt_project_secret_value}
use kindling.Secrets.Backfill.{backfill-reads}

abbrev rest : Text → Option Text
rest [] = none
rest (a ∷ t) = some t

abbrev crypto : Crypto
crypto = record {
  nonce_size = 1;
  seal = λ key nonce plain. (7 ∷ plain);
  open_sealed = λ key nonce t. rest t;
  encode = λ t. (65 ∷ t);
  decode = rest;
}

crypto-IsCrypto : IsCrypto crypto
crypto-IsCrypto = record {
  open_seal = λ key nonce plain. refl;
  decode_encode = λ t. refl;
  nonce_full = omega arith;
  encode_full = λ t h. refl;
}

abbrev key : Text
key = codes "0123456789abcdef0123456789abcdef"

decrypt-encrypt_project_secret_value_example :
    (let stored = project_secret_envelope_prefix ++ 65 ∷ 3 ∷ 7 ∷ codes "hunter2" in
      (is_encrypted_project_secret_value stored ≡ true)
      × (decrypt_project_secret_value crypto key stored ≡ some (codes "hunter2")))
unfolding encrypt_project_secret_value encrypt_secret_bytes
decrypt-encrypt_project_secret_value_example =
    decrypt-encrypt_project_secret_value crypto crypto-IsCrypto key (3 ∷ []) refl (codes "hunter2")
      (project_secret_envelope_prefix ++ 65 ∷ 3 ∷ 7 ∷ codes "hunter2") refl

abbrev draws : ℕ → Option Text
draws id = some (id ∷ [])

sized : (id : ℕ) (nonce : Text) → draws id ≡ some nonce → length nonce ≡ 1
sized id nonce h = subst (λ t. length t ≡ 1) (some-inj h) refl

abbrev plain_row : Row
plain_row = record { id = 4; value = codes "hunter2" }

abbrev envelope_row : Row
envelope_row = record {
  id = 5;
  value = project_secret_envelope_prefix ++ 65 ∷ 3 ∷ 7 ∷ codes "token";
}

abbrev rows : List Row
rows = plain_row ∷ envelope_row ∷ []

abbrev values : ℕ → Text
values id = if id == 4 then plain_row.value else envelope_row.value

backfill-reads_example :
    decrypt_project_secret_value crypto key
      ((backfill_project_secrets crypto key draws (λ id. true) (some rows) values).0 4)
    ≡ decrypt_project_secret_value crypto key (values 4)
backfill-reads_example =
    backfill-reads crypto crypto-IsCrypto key draws (λ id. true) sized rows values
      (refl, (refl, tt)) 4
