-- ===== src/Webhook/Signature.antt =====
-- verifySvixSignature of apps/backend/src/utils/svix-signature.ts. A header that is missing is the
-- empty text: the code tests for truth.
use event_media_platform.Prelude.{
  ℕ, ◌+◌, ◌-◌, ◌*◌, ◌/◌, Bool, false, not, ◌&&◌, ◌||◌, List, [], ◌∷◌, ◌++◌, Option, none, some, ltb,
  ◌==◌, if◌then◌else◌, length,
}
use event_media_platform.Prelude.Text.{codes, eq_text}
use event_media_platform.Auth.Guard.{is_empty, split}

-- node:crypto and Buffer, and Number() on a header; times of Svix are whole seconds since 1970.
pub record WebhookCrypto : Type 0 where
  pub number : List ℕ → Option ℕ
  pub from_base64 : List ℕ → List ℕ
  pub hmac_sha256_base64 : List ℕ → List ℕ → List ℕ

pub record SvixHeaders : Type 0 where
  pub id : List ℕ
  pub timestamp : List ℕ
  pub signature : List ℕ

pub data Reason : Type 0 where
  missing_header no_timestamp no_match : Reason
  outside_tolerance : ℕ → Reason

pub data SvixResult : Type 0 where
  valid : SvixResult
  invalid : Reason → SvixResult

-- TOLERANCE_SECONDS
abbrev pub tolerance_seconds : ℕ
tolerance_seconds = 5 * 60

-- `secret.startsWith(prefix) ? secret.slice(prefix.length) : secret`
unfoldable pub strip_prefix : List ℕ → List ℕ → Option (List ℕ)
strip_prefix [] text = some text
strip_prefix (c ∷ prefix) [] = none
strip_prefix (c ∷ prefix) (d ∷ text) =
    let rest = strip_prefix prefix text in if c == d then rest else none

-- decodeSecret
unfoldable pub decode_secret : WebhookCrypto → List ℕ → List ℕ
unfolding strip_prefix
decode_secret c secret =
    c.from_base64 (elim (strip_prefix (codes "whsec_") secret) [ none ↦ secret | some rest ↦ rest ])

-- safeEqual
abbrev pub safe_equal : List ℕ → List ℕ → Bool
safe_equal a b = if length a == length b then eq_text a b else false

-- `const [version, value] = entry.split(',')`, and the test of the loop.
abbrev pub is_match : List ℕ → List (List ℕ) → Bool
is_match expected (version ∷ value ∷ rest) =
    eq_text version (codes "v1") && (not (is_empty value) && safe_equal value expected)
is_match expected _ = false

-- The payload `${id}.${timestamp}.${rawBody}` and its signature.
unfoldable pub expected_signature : WebhookCrypto → List ℕ → List ℕ → List ℕ → List ℕ → List ℕ
unfolding decode_secret
expected_signature c secret id timestamp body =
    c.hmac_sha256_base64 (decode_secret c secret) (id ++ (b'.' ∷ (timestamp ++ (b'.' ∷ body))))

-- `Math.abs(a - b)`
abbrev pub distance : ℕ → ℕ → ℕ
distance a b = (a - b) + (b - a)

-- The loop over the signatures.
unfoldable pub check_entries : List ℕ → List (List ℕ) → SvixResult
unfolding split
check_entries expected [] = invalid no_match
check_entries expected (entry ∷ entries) =
    let rest = check_entries expected entries in
    if is_match expected (split b',' entry) then valid else rest

-- verifySvixSignature; `now` is in milliseconds.
unfoldable pub verify_svix_signature :
    WebhookCrypto → List ℕ → SvixHeaders → List ℕ → ℕ → SvixResult
unfolding expected_signature check_entries
verify_svix_signature c body headers secret now =
    if is_empty headers.id || (is_empty headers.timestamp || is_empty headers.signature)
    then invalid missing_header
    else elim (c.number headers.timestamp) [
      | none ↦ invalid no_timestamp
      | some sent_at ↦
          let drift = distance (now / 1000) sent_at in
          if ltb tolerance_seconds drift
          then invalid (outside_tolerance drift)
          else check_entries (expected_signature c secret headers.id headers.timestamp body)
              (split b' ' headers.signature)
    ]
