-- ===== src/Webhook/Fresh.antt =====
-- Signed webhook requests at their receiver (apps/backend/src/utils/svix-signature.ts), against the
-- format in which Svix signs them.
use event_media_platform.Prelude.{
  ℕ, ◌/◌, ◌≡◌, refl, ap, ◌∙◌, inl, inr, Bool, true, false, ◌&&◌, List, [], ◌∷◌, ◌++◌, map, some,
  arith, ltb, if◌then◌else◌, any, every, length, Bool-cases,
}
use event_media_platform.Prelude.Text.{codes, eq_text}
use event_media_platform.Auth.Guard.{is_empty, split, join}
use event_media_platform.Webhook.Signature.{
  WebhookCrypto, SvixHeaders, SvixResult, valid, invalid, outside_tolerance, no_match, is_match,
  strip_prefix, decode_secret, expected_signature, distance, check_entries, verify_svix_signature,
}
use event_media_platform.Webhook.Split.{is_free, split-join}

-- One signature of the header: the version, a comma and the value.
abbrev pub entry_text : List ℕ × List ℕ → List ℕ
entry_text (version, value) = version ++ (b',' ∷ value)

-- The header that a sender writes: the signatures, separated by spaces.
abbrev pub signed_headers : List ℕ → List ℕ → List (List ℕ × List ℕ) → SvixHeaders
signed_headers id timestamp entries = record {
  id = id;
  timestamp = timestamp;
  signature = join b' ' (map entry_text entries);
}

-- The signature that Svix makes: of `id.timestamp.body` under the key.
abbrev pub svix_signature : WebhookCrypto → List ℕ → List ℕ → List ℕ → List ℕ → List ℕ
svix_signature c key id timestamp body =
    c.hmac_sha256_base64 key (join b'.' (id ∷ timestamp ∷ body ∷ []))

-- An entry of version 1 with the signature.
abbrev pub is_signature : List ℕ → List ℕ × List ℕ → Bool
is_signature signature (version, value) = eq_text version (codes "v1") && eq_text value signature

abbrev pub has_no_comma : List ℕ × List ℕ → Bool
has_no_comma (version, value) = is_free b',' version && is_free b',' value

eq_text-length : (a b : List ℕ) → eq_text a b ≡ true → length a ≡ length b
eq_text-length [] [] h = refl
eq_text-length [] (d ∷ b) h = cc
eq_text-length (c ∷ a) [] h = cc
eq_text-length (c ∷ a) (d ∷ b) h = ground (arith, eq_text-length a b)

-- The test of the loop, on an entry that is not split yet.
entry-matches :
    (signature version value : List ℕ)
    → is_empty signature ≡ false
    → has_no_comma (version, value) ≡ true
    → is_match signature (split b',' (entry_text (version, value)))
      ≡ is_signature signature (version, value)
unfolding join
entry-matches [] version value full free = cc
entry-matches (s ∷ signature) version [] full free =
    ap (is_match (s ∷ signature)) (split-join b',' version ([] ∷ []) (ground arith)) ∙ ground arith
entry-matches (s ∷ signature) version (d ∷ value) full free =
    ap (is_match (s ∷ signature)) (split-join b',' version ((d ∷ value) ∷ []) (ground arith))
    ∙ ground (arith, eq_text-length (d ∷ value) (s ∷ signature))

abbrev pub answer : Bool → SvixResult
answer b = if b then valid else invalid no_match

check-any :
    (signature : List ℕ) (entries : List (List ℕ × List ℕ))
    → is_empty signature ≡ false
    → every has_no_comma entries ≡ true
    → check_entries signature (map entry_text entries)
      ≡ answer (any (is_signature signature) entries)
unfolding check_entries
check-any signature [] full free = refl
check-any signature ((version, value) ∷ entries) full free =
    let first = entry-matches signature version value full (ground arith) in
    let rest = check-any signature entries full (ground arith) in
    elim (Bool-cases (is_signature signature (version, value))) [
      | inl k ↦ rw (check_entries, first, k) refl
      | inr k ↦ rw (check_entries, first, k) rest
    ]

is_empty-append : (c : ℕ) (text rest : List ℕ) → is_empty (text ++ (c ∷ rest)) ≡ false
is_empty-append c [] rest = refl
is_empty-append c (d ∷ text) rest = refl

is_empty-header :
    (entry : List ℕ × List ℕ) (entries : List (List ℕ × List ℕ))
    → is_empty (join b' ' (map entry_text (entry ∷ entries))) ≡ false
unfolding join
is_empty-header (version, value) [] = is_empty-append b',' version value
is_empty-header (version, value) (e ∷ entries) =
    is_empty-append b' ' (version ++ (b',' ∷ value)) (join b' ' (map entry_text (e ∷ entries)))

-- What the receiver computes from the secret is what Svix signs with.
expected-svix :
    (c : WebhookCrypto) (encoded id timestamp body : List ℕ)
    → expected_signature c (codes "whsec_" ++ encoded) id timestamp body
      ≡ svix_signature c (c.from_base64 encoded) id timestamp body
unfolding expected_signature decode_secret strip_prefix join
expected-svix c encoded id timestamp body = refl

-- With a secret of `whsec_` and the key in base64, and a header of signatures `version,value` with
-- spaces between them, none of which holds another comma or a space: a request that is more than five
-- minutes off is refused with the difference, and any other is valid if one of the signatures is of
-- version v1 and signs `id.timestamp.body` under the key, and is refused if none is.
pub signed_request-verifies :
    (c : WebhookCrypto) (encoded id timestamp body : List ℕ) (entry : List ℕ × List ℕ)
    (entries : List (List ℕ × List ℕ)) (sent_at now : ℕ)
    → is_empty id ≡ false
    → is_empty timestamp ≡ false
    → is_empty (svix_signature c (c.from_base64 encoded) id timestamp body) ≡ false
    → every has_no_comma (entry ∷ entries) ≡ true
    → every (is_free b' ') (map entry_text (entry ∷ entries)) ≡ true
    → c.number timestamp ≡ some sent_at
    → verify_svix_signature c body
        (signed_headers id timestamp (entry ∷ entries))
        (codes "whsec_" ++ encoded)
        now
      ≡ (if ltb 300 (distance (now / 1000) sent_at)
          then invalid (outside_tolerance (distance (now / 1000) sent_at))
          else if any
              (is_signature (svix_signature c (c.from_base64 encoded) id timestamp body))
              (entry ∷ entries)
          then valid
          else invalid no_match)
unfolding verify_svix_signature
signed_request-verifies c encoded id timestamp body entry entries sent_at now i t full free apart
      n =
    let signature = svix_signature c (c.from_base64 encoded) id timestamp body in
    let checked =
      ap (check_entries signature)
        (split-join b' ' (entry_text entry) (map entry_text entries) apart)
      ∙ check-any signature (entry ∷ entries) full free in
    rw
      (
        verify_svix_signature,
        i,
        t,
        is_empty-header entry entries,
        n,
        expected-svix c encoded id timestamp body,
        checked,
      )
      refl
