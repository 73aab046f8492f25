-- ===== src/Crypto/Codec.antt =====
-- Codec of internal/passwordcrypto/codec.go. AES-GCM and base64 are parameters, with what their
-- documentation promises: sealing is undone by opening under the same nonce and additional data, and
-- decoding undoes encoding. The random nonce is an argument.
pub mod Laws
use password_hook_service.Prelude.{
  ℕ, Bool, not, Option, none, some, ◌==◌, if◌then◌else◌, is_empty, is_blank, length, Text, codes,
  same_text, Result, ok, err, ◌≡◌, false,
}
use password_hook_service.SyncStatus.{ContextError}
use password_hook_service.Migration.Message.{Envelope}

-- cipher.AEAD: Seal appends a tag, so that what it returns is never empty.
pub record Aead : Type 0 where
  pub seal : (nonce plaintext aad : Text) → Text
  pub unseal : (nonce ciphertext aad : Text) → Option Text
  pub unseal-seal :
      (nonce plaintext aad : Text) → unseal nonce (seal nonce plaintext aad) aad ≡ some plaintext
  pub seal_not_empty : (nonce plaintext aad : Text) → is_empty (seal nonce plaintext aad) ≡ false

-- base64.StdEncoding, whose alphabet has no space.
pub record Base64 : Type 0 where
  pub encode : Text → Text
  pub decode : Text → Option Text
  pub decode-encode : (s : Text) → decode (encode s) ≡ some s
  pub encode_not_blank : (s : Text) → is_empty s ≡ false → is_blank (encode s) ≡ false

pub record Codec : Type 0 where
  pub aead : Aead
  pub key_id : Text

pub data CodecError : Type 0 where
  bad_key_encoding bad_key_length key_id_required bad_cipher : CodecError
  context : ContextError → CodecError
  no_nonce unsupported_algorithm unsupported_key_id bad_nonce bad_ciphertext : CodecError
  decrypt_failed : CodecError

abbrev pub algorithm_aes_256_gcm : Text
algorithm_aes_256_gcm = codes "AES-256-GCM"

codec_of : Option Aead → Text → Result CodecError Codec
codec_of none key_id = err bad_cipher
codec_of (some aead) key_id = ok (record { aead = aead; key_id = key_id })

module _ (b : Base64) where
  -- `cipher_of` is aes.NewCipher with cipher.NewGCM.
  unfoldable pub new_codec_from_base64 :
      (Text → Option Aead) → Text → Text → Result CodecError Codec
  unfolding codec_of
  new_codec_from_base64 cipher_of key_b64 key_id = elim (b.decode key_b64) [
    | none ↦ err bad_key_encoding
    | some key ↦
        if not (length key == 32)
        then err bad_key_length
        else if is_empty key_id
        then err key_id_required
        else codec_of (cipher_of key) key_id
  ]

  sealed : Codec → (plaintext aad : Text) → Option Text → Result CodecError Envelope
  sealed c plaintext aad none = err no_nonce
  sealed c plaintext aad (some nonce) = ok (record {
    ciphertext = b.encode (c.aead.seal nonce plaintext aad);
    nonce = b.encode nonce;
    key_id = c.key_id;
    algorithm = algorithm_aes_256_gcm;
  })

  -- The third argument is what rand.Reader yields, `none` if it fails.
  unfoldable pub encrypt :
      Codec
      → Option ContextError
      → Option Text
      → (plaintext aad : Text) → Result CodecError Envelope
  unfolding sealed
  encrypt c (some e) drawn plaintext aad = err (context e)
  encrypt c none drawn plaintext aad = sealed c plaintext aad drawn

  unsealed : Option Text → Result CodecError Text
  unsealed none = err decrypt_failed
  unsealed (some plaintext) = ok plaintext

  open_decoded : Codec → (aad : Text) → Option Text → Option Text → Result CodecError Text
  unfolding unsealed
  open_decoded c aad none ciphertext = err bad_nonce
  open_decoded c aad (some nonce) none = err bad_ciphertext
  open_decoded c aad (some nonce) (some ciphertext) = unsealed (c.aead.unseal nonce ciphertext aad)

  unfoldable pub decrypt :
      Codec → Option ContextError → Envelope → (aad : Text) → Result CodecError Text
  unfolding open_decoded
  decrypt c (some e) env aad = err (context e)
  decrypt c none env aad =
      if not (same_text env.algorithm algorithm_aes_256_gcm)
      then err unsupported_algorithm
      else if not (same_text env.key_id c.key_id)
      then err unsupported_key_id
      else open_decoded c aad (b.decode env.nonce) (b.decode env.ciphertext)
