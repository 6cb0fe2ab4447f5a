-- ===== src/Values/Keys.antt =====
-- internal/domain/values.go: key algorithms, public keys, secret purposes and encrypted secrets.
-- A Go string type with constants is a data type with those constants; `unlisted` is any other text.
use cert_me.Prelude.{Bool, false, true, ◌&&◌}
use cert_me.Errors.{Check, Result, err, invalid_value, ok, reject_if, wrapped, ◌>>◌}
use cert_me.Prelude.Int.{leb_ℤ, pos, ℤ}
use cert_me.Prelude.Text.{Text, is_empty, text_eq, trim_space}
use cert_me.Values.Hex.{Fingerprint, fingerprint_eq}
use cert_me.Values.Ids.{check_id, parse_uuid}

pub data KeyAlgorithm : Type 0 where
  ecdsa_p256 ecdsa_p384 rsa_2048 rsa_3072 rsa_4096 : KeyAlgorithm
  unlisted : Text → KeyAlgorithm

unfoldable pub validate_key_algorithm : KeyAlgorithm → Check
validate_key_algorithm (KeyAlgorithm.unlisted _) = err (wrapped invalid_value)
validate_key_algorithm ecdsa_p256 = ok tt
validate_key_algorithm _ = ok tt

-- `a == b` on the strings.
unfoldable pub key_algorithm_eq : KeyAlgorithm → KeyAlgorithm → Bool
unfolding text_eq
key_algorithm_eq ecdsa_p256 ecdsa_p256 = true
key_algorithm_eq ecdsa_p384 ecdsa_p384 = true
key_algorithm_eq rsa_2048 rsa_2048 = true
key_algorithm_eq rsa_3072 rsa_3072 = true
key_algorithm_eq rsa_4096 rsa_4096 = true
key_algorithm_eq (KeyAlgorithm.unlisted a) (KeyAlgorithm.unlisted b) = text_eq a b
key_algorithm_eq _ _ = false

pub record PublicKey : Type 0 where
  pub algorithm : KeyAlgorithm
  pub spki : Text

-- `NewPublicKey`; the copy of the bytes is the same value.
unfoldable pub new_public_key : KeyAlgorithm → Text → Result PublicKey
unfolding validate_key_algorithm
new_public_key algorithm spki_der = do
  validate_key_algorithm algorithm
  reject_if (is_empty spki_der) (wrapped invalid_value)
  ok (record { algorithm = algorithm; spki = spki_der })

-- SHA-256 and its hexadecimal form are Go's `crypto/sha256`: a parameter.
module _ (sha256_hex : Text → Text) where
  -- `NewFingerprint`
  unfoldable pub new_fingerprint : Text → Fingerprint
  new_fingerprint data_bytes = record { hex = sha256_hex data_bytes }

  unfoldable pub key_fingerprint : PublicKey → Fingerprint
  unfolding new_fingerprint
  key_fingerprint k = new_fingerprint k.spki

  unfoldable pub public_key_eq : PublicKey → PublicKey → Bool
  unfolding key_algorithm_eq key_fingerprint fingerprint_eq
  public_key_eq k other_key =
      key_algorithm_eq k.algorithm other_key.algorithm
      && fingerprint_eq (key_fingerprint k) (key_fingerprint other_key)

pub data SecretPurpose : Type 0 where
  ca_signing bootstrap_ca leaf_delivery internal_tls_key store_verifier : SecretPurpose
  unlisted : Text → SecretPurpose

unfoldable pub validate_secret_purpose : SecretPurpose → Check
validate_secret_purpose (SecretPurpose.unlisted _) = err (wrapped invalid_value)
validate_secret_purpose ca_signing = ok tt
validate_secret_purpose _ = ok tt

-- `EncryptedSecret`, and `EncryptedSecretFacts` with the same fields.
pub record EncryptedSecret : Type 0 where
  pub owner_key_id : Text
  pub purpose : SecretPurpose
  pub format_version : ℤ
  pub encryption_generation_id : Text
  pub nonce : Text
  pub ciphertext : Text

unfoldable pub new_encrypted_secret : EncryptedSecret → Result EncryptedSecret
unfolding parse_uuid validate_secret_purpose trim_space
new_encrypted_secret facts = do
  check_id facts.owner_key_id
  validate_secret_purpose facts.purpose
  reject_if (leb_ℤ facts.format_version (pos 0)) (wrapped invalid_value)
  reject_if (is_empty (trim_space facts.encryption_generation_id)) (wrapped invalid_value)
  reject_if (is_empty facts.nonce) (wrapped invalid_value)
  reject_if (is_empty facts.ciphertext) (wrapped invalid_value)
  ok facts
