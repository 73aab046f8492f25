-- ===== src/Tests/Arrival.antt =====
-- A password on its way from the hook to the processor, at concrete parts.
use password_hook_service.Prelude.{
  true, [], ◌≡◌, refl, codes, normalize, trim_space, ascii, none, some, ok,
}
use password_hook_service.Migration.Event.{password_change, valid_event_type}
use password_hook_service.Migration.Identity.{classify_cn, build_upn}
use password_hook_service.Migration.Service.{submit}
use password_hook_service.Migration.Message.{Envelope}
use password_hook_service.Crypto.Codec
use password_hook_service.Crypto.Codec.Laws.{decrypt-encrypt}
use password_hook_service.Journey.Arrival.{HasArrived, submit-HasArrived}
use password_hook_service.Tests.Accounts.{asking}
use password_hook_service.Tests.Wires.{
  prefixing, shared_codec, wired_service, wired_worker, marshal, wires, encrypted,
}

queued_for_student :
    (submit ascii wired_service [] (asking (codes "0812345") password_change) []).0.0.enqueued
    ≡ true
unfolding submit build_upn classify_cn trim_space normalize valid_event_type encrypted Codec.encrypt
queued_for_student = refl

submit-HasArrived_example :
    HasArrived ascii wired_service wired_worker marshal 300
      (asking (codes "0812345") password_change)
      (submit ascii wired_service [] (asking (codes "0812345") password_change) []).1
submit-HasArrived_example =
    submit-HasArrived prefixing shared_codec ascii wired_service wired_worker marshal
      (λ h. codes "n") wires 300 [] (asking (codes "0812345") password_change) queued_for_student

abbrev small_envelope : Envelope
small_envelope = record {
  ciphertext = codes "=#p@ss";
  nonce = codes "=n";
  key_id = codes "k1";
  algorithm = codes "AES-256-GCM";
}

encrypts_small :
    Codec.encrypt prefixing shared_codec none (some (codes "n")) (codes "p@ss") (codes "aad")
    ≡ ok small_envelope
unfolding Codec.encrypt
encrypts_small = refl

decrypt-encrypt_example :
    Codec.decrypt prefixing shared_codec none small_envelope (codes "aad") ≡ ok (codes "p@ss")
decrypt-encrypt_example =
    decrypt-encrypt prefixing shared_codec (some (codes "n")) (codes "p@ss") (codes "aad")
      encrypts_small
