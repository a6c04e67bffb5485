-- ===== src/Examples/Webhook.antt =====
-- The theorem about signed requests at a concrete input.
use event_media_platform.Prelude.{◌+◌, ◌-◌, ℕ, ◌≡◌, refl, List, [], ◌∷◌, none, some, length}
use event_media_platform.Prelude.Text.{codes}
use event_media_platform.Auth.Guard.{join}
use event_media_platform.Webhook.Signature.{
  WebhookCrypto, valid, invalid, outside_tolerance, no_match, verify_svix_signature,
}
use event_media_platform.Webhook.Fresh.{svix_signature, signed_headers, signed_request-verifies}

-- A signature that spells the lengths of the key and of the message with letters, and a clock of one
-- digit.
abbrev toy_crypto : WebhookCrypto
toy_crypto = record {
  number = λ text. elim text [ [] ↦ none | c ∷ rest ↦ some (c - b'0') ];
  from_base64 = λ text. text;
  hmac_sha256_base64 = λ key message. (97 + length key) ∷ (97 + length message) ∷ [];
}

abbrev signed : List ℕ
signed = svix_signature toy_crypto (codes "key") (codes "msg") (codes "7") (codes "body")

abbrev entry_pairs : List (List ℕ × List ℕ)
entry_pairs = (codes "v1", codes "old") ∷ ((codes "v1", signed) ∷ [])

signed_request-verifies_example :
    verify_svix_signature toy_crypto
      (codes "body")
      (signed_headers (codes "msg") (codes "7") entry_pairs)
      (codes "whsec_key")
      9000
    ≡ valid
unfolding join
signed_request-verifies_example =
    signed_request-verifies toy_crypto (codes "key") (codes "msg") (codes "7") (codes "body")
      (codes "v1", codes "old") ((codes "v1", signed) ∷ []) 7 9000 refl refl refl refl refl refl

replayed :
    verify_svix_signature toy_crypto
      (codes "body")
      (signed_headers (codes "msg") (codes "7") entry_pairs)
      (codes "whsec_key")
      400000
    ≡ invalid (outside_tolerance 393)
unfolding verify_svix_signature join
replayed = refl

changed_body :
    verify_svix_signature toy_crypto
      (codes "b")
      (signed_headers (codes "msg") (codes "7") entry_pairs)
      (codes "whsec_key")
      9000
    ≡ invalid no_match
unfolding verify_svix_signature join
changed_body = refl
