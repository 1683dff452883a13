-- ===== src/Secrets.antt =====
-- internal/config/crypto.go and internal/config/project_secrets.go: encrypted secrets.
--
-- Byte strings are texts. AES-GCM and base64 are a `Crypto`; `IsCrypto` is what the code relies on of
-- them. The nonce that a call draws is an argument, `none` where the source of random bytes fails.
pub mod Envelope
pub mod Backfill
mod Examples
use kindling.Base.{
  ℕ, ◌≡◌, ◌==◌, ◌<◌, suc, zero, Bool, true, false, not, ◌&&◌, Option, none, some, List, [], ◌∷◌,
  ◌++◌, Text, codes, is_empty, if◌then◌else◌, length, ltb, put, ◌+◌,
}

pub record Crypto : Type 0 where
  pub nonce_size : ℕ
  pub seal : Text → Text → Text → Text
  pub open_sealed : Text → Text → Text → Option Text
  pub encode : Text → Text
  pub decode : Text → Option Text

-- Opening undoes sealing, decoding undoes encoding, a nonce is not empty, and neither is what is encoded.
pub record IsCrypto (c : Crypto) : Type 0 where
  pub open_seal :
      (key nonce plain : Text) → c.open_sealed key nonce (c.seal key nonce plain) ≡ some plain
  pub decode_encode : (t : Text) → c.decode (c.encode t) ≡ some t
  pub nonce_full : 0 < c.nonce_size
  pub encode_full : (t : Text) → is_empty t ≡ false → is_empty (c.encode t) ≡ false

abbrev pub take : ℕ → Text → Text
take zero t = []
take (suc n) [] = []
take (suc n) (a ∷ t) = a ∷ take n t

abbrev pub drop : ℕ → Text → Text
drop zero t = t
drop (suc n) [] = []
drop (suc n) (a ∷ t) = drop n t

abbrev pub project_secret_envelope_prefix : Text
project_secret_envelope_prefix = codes "enc:v1:"

pub encrypt_secret_bytes : Crypto → Text → Option Text → Text → Option Text
encrypt_secret_bytes c key drawn plaintext =
    if not (length key == 32)
    then none
    else (elim drawn [ none ↦ none | some nonce ↦ some (nonce ++ c.seal key nonce plaintext) ])

pub decrypt_secret_bytes : Crypto → Text → Text → Option Text
decrypt_secret_bytes c key ciphertext =
    if not (length key == 32)
    then none
    else if is_empty ciphertext
    then some []
    else if ltb (length ciphertext) c.nonce_size
    then none
    else c.open_sealed key (take c.nonce_size ciphertext) (drop c.nonce_size ciphertext)

pub encrypt_cluster_secret : Crypto → Text → Option Text → Text → Option Text
encrypt_cluster_secret c key drawn plaintext =
    if is_empty plaintext then none else encrypt_secret_bytes c key drawn plaintext

pub decrypt_cluster_secret : Crypto → Text → Text → Option Text
decrypt_cluster_secret c key ciphertext = decrypt_secret_bytes c key ciphertext

pub encrypt_project_secret_value : Crypto → Text → Option Text → Text → Option Text
encrypt_project_secret_value c key drawn plaintext =
    elim (encrypt_secret_bytes c key drawn plaintext) [
      | none ↦ none
      | some ct ↦ some (project_secret_envelope_prefix ++ c.encode ct)
    ]

-- Whether the text begins with the prefix.
abbrev pub has_prefix : Text → Text → Bool
has_prefix [] t = true
has_prefix (a ∷ p) [] = false
has_prefix (a ∷ p) (b ∷ t) = a == b && has_prefix p t

pub is_encrypted_project_secret_value : Text → Bool
is_encrypted_project_secret_value stored = has_prefix project_secret_envelope_prefix stored

pub decrypt_project_secret_value : Crypto → Text → Text → Option Text
decrypt_project_secret_value c key stored =
    if is_empty stored
    then some []
    else if not (is_encrypted_project_secret_value stored)
    then some stored
    else let raw = drop (length project_secret_envelope_prefix) stored in
      if is_empty raw
      then none
      else (elim (c.decode raw) [ none ↦ none | some ct ↦ decrypt_secret_bytes c key ct ])

pub record Row : Type 0 where
  pub id : ℕ
  pub value : Text

-- The loop of `BackfillProjectSecrets`: what `EnvironmentVariableUpdateValue` has stored, how many rows
-- it has updated, and whether all went well. Each row draws its own nonce, and its update may fail.
pub backfill_rows :
    Crypto
    → Text
    → (ℕ → Option Text)
    → (ℕ → Bool)
    → List Row
    → (ℕ → Text)
    → ℕ
    → (ℕ → Text) × ℕ × Bool
backfill_rows c key draws fails [] values updated = (values, updated, true)
backfill_rows c key draws fails (row ∷ rows) values updated =
    let go = λ (new : ℕ → Text) (n : ℕ). backfill_rows c key draws fails rows new n in
    if is_encrypted_project_secret_value row.value
    then (elim (decrypt_project_secret_value c key row.value) [
      | none ↦ (values, updated, false)
      | some plain ↦ go values updated
    ])
    else (elim (encrypt_project_secret_value c key (draws row.id) row.value) [
      | none ↦ (values, updated, false)
      | some enc ↦
          if fails row.id
          then (values, updated, false)
          else go (put row.id enc values) (suc updated)
    ])

-- `none` where the rows cannot be listed.
pub backfill_project_secrets :
    Crypto
    → Text
    → (ℕ → Option Text)
    → (ℕ → Bool)
    → Option (List Row)
    → (ℕ → Text)
    → (ℕ → Text) × ℕ × Bool
backfill_project_secrets c key draws fails none values = (values, 0, false)
backfill_project_secrets c key draws fails (some rows) values =
    backfill_rows c key draws fails rows values 0
