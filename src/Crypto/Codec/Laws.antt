-- ===== src/Crypto/Codec/Laws.antt =====
-- What Encrypt of internal/passwordcrypto/codec.go writes, Decrypt reads.
use password_hook_service.Prelude.{
  false, Option, none, some, ◌≡◌, refl, is_empty, is_blank, Text, same_text_refl, ok,
}
use password_hook_service.Migration.Message.{Envelope}
use password_hook_service.Crypto.Codec.{Base64, Codec, algorithm_aes_256_gcm, encrypt, decrypt}

algorithm_not_blank : is_blank algorithm_aes_256_gcm ≡ false
unfolding is_blank
algorithm_not_blank = refl

module _ (b : Base64) (c : Codec) where
  abbrev envelope_of : (nonce plaintext aad : Text) → Envelope
  envelope_of nonce plaintext aad = record {
    ciphertext = b.encode (c.aead.seal nonce plaintext aad);
    nonce = b.encode nonce;
    key_id = c.key_id;
    algorithm = algorithm_aes_256_gcm;
  }

  encrypted_as :
      (nonce plaintext aad : Text) {env : Envelope}
      → encrypt b c none (some nonce) plaintext aad ≡ ok env
      → env ≡ envelope_of nonce plaintext aad
  unfolding encrypt
  encrypted_as nonce plaintext aad e = cc e

  decrypt-envelope_of :
      (nonce plaintext aad : Text)
      → decrypt b c none (envelope_of nonce plaintext aad) aad ≡ ok plaintext
  unfolding decrypt
  decrypt-envelope_of nonce plaintext aad =
      simp (same_text_refl, b.decode-encode, c.aead.unseal-seal)

  -- An envelope that Encrypt wrote is decrypted to the plaintext, by a codec with the same key and
  -- under the same additional data.
  pub decrypt-encrypt :
      (nonce : Option Text) (plaintext aad : Text) {env : Envelope}
      → encrypt b c none nonce plaintext aad ≡ ok env
      → decrypt b c none env aad ≡ ok plaintext
  decrypt-encrypt none plaintext aad e = unfold encrypt in cc e
  decrypt-encrypt (some nonce) plaintext aad e =
      rw (encrypted_as nonce plaintext aad e) (decrypt-envelope_of nonce plaintext aad)

  -- No field of an envelope that Encrypt wrote is blank, if the codec has a key identifier and the nonce
  -- is not empty.
  pub encrypt_complete :
      (nonce plaintext aad : Text) {env : Envelope}
      → encrypt b c none (some nonce) plaintext aad ≡ ok env
      → is_empty nonce ≡ false
      → is_blank c.key_id ≡ false
      → (is_blank env.ciphertext ≡ false)
        × (is_blank env.nonce ≡ false)
        × (is_blank env.key_id ≡ false)
        × (is_blank env.algorithm ≡ false)
  encrypt_complete nonce plaintext aad e n k = rw (encrypted_as nonce plaintext aad e) (
    b.encode_not_blank (c.aead.seal nonce plaintext aad)
        (c.aead.seal_not_empty nonce plaintext aad),
    b.encode_not_blank nonce n,
    k,
    algorithm_not_blank,
  )
