-- ===== src/Auth/Guard.antt =====
-- authenticate, validate, extractSessionToken and verifyOrgRole of
-- apps/backend/src/services/auth.service.ts.
use event_media_platform.Prelude.{
  ℕ, Bool, true, false, not, ◌&&◌, ◌||◌, List, [], ◌∷◌, ◌++◌, Option, none, some, ltb, leb, ◌==◌,
  if◌then◌else◌,
}
use event_media_platform.Prelude.Text.{codes, eq_text, to_lower}
use event_media_platform.Prelude.Result.{Result, ok, throws, unauthorized, forbidden}
use event_media_platform.Auth.Rows.{
  OrgRole, role_order, User, Session, Participant, Db, get_by_token_hash, get_by_token, get_org_id,
  get_membership,
}

-- The hashes of the crypto library, and decodeURIComponent.
pub record Crypto : Type 0 where
  pub hash_sha256 : List ℕ → ℕ
  pub compare_bcrypt : List ℕ → ℕ → Bool
  pub hash_bcrypt : List ℕ → ℕ
  pub decode_uri : List ℕ → List ℕ

pub record AuthDto : Type 0 where
  pub participant : Option Participant
  pub user : Option User
  pub session : Option Session

pub record AuthenticateOptions : Type 0 where
  pub super_admin : Bool
  pub org_role : Option OrgRole
  pub participant : Bool
  pub allow_super_admin : Bool

-- A header that is missing is the empty text, and a path parameter that is missing is 0: the code
-- tests both for truth.
pub record AuthenticateRequest : Type 0 where
  pub authorization : List ℕ
  pub cookie : List ℕ
  pub gallery_token_header : List ℕ
  pub gallery_token_query : List ℕ
  pub org_id : ℕ
  pub event_id : ℕ
  pub options : AuthenticateOptions

-- String.prototype.split by a character
abbrev pub cons_head : ℕ → List (List ℕ) → List (List ℕ)
cons_head c [] = (c ∷ []) ∷ []
cons_head c (p ∷ ps) = (c ∷ p) ∷ ps

unfoldable pub split : ℕ → List ℕ → List (List ℕ)
split sep [] = [] ∷ []
split sep (c ∷ s) = let rest = split sep s in if c == sep then [] ∷ rest else cons_head c rest

-- Array.prototype.join with a character
unfoldable pub join : ℕ → List (List ℕ) → List ℕ
join sep [] = []
join sep (p ∷ []) = p
join sep (p ∷ q ∷ ps) = p ++ (sep ∷ join sep (q ∷ ps))

abbrev pub is_space : ℕ → Bool
is_space c = c == 32 || (leb 9 c && leb c 13 || c == 160)

abbrev pub is_empty : List ℕ → Bool
is_empty [] = true
is_empty (c ∷ s) = false

-- String.prototype.trim
unfoldable pub trim_start : List ℕ → List ℕ
trim_start [] = []
trim_start (c ∷ s) = if is_space c then trim_start s else c ∷ s

unfoldable pub trim_end : List ℕ → List ℕ
trim_end [] = []
trim_end (c ∷ s) = let rest = trim_end s in if is_space c && is_empty rest then [] else c ∷ rest

-- `const [type, token] = authorization.split(' ')`
unfoldable pub bearer_token : List (List ℕ) → Option (List ℕ)
bearer_token (type ∷ token ∷ rest) =
    if eq_text (to_lower type) (codes "bearer") && not (is_empty token) then some token else none
bearer_token _ = none

-- `const [name, ...rest] = part.trim().split('=')`
unfoldable pub cookie_value : Crypto → List (List ℕ) → Option (List ℕ)
unfolding join
cookie_value c [] = none
cookie_value c (name ∷ rest) =
    if eq_text name (codes "el_session") then some (c.decode_uri (join b'=' rest)) else none

unfoldable pub session_cookie : Crypto → List (List ℕ) → Option (List ℕ)
unfolding split trim_start trim_end cookie_value
session_cookie c [] = none
session_cookie c (part ∷ parts) =
    let rest = session_cookie c parts in
    elim (cookie_value c (split b'=' (trim_end (trim_start part)))) [
      | some token ↦ some token
      | none ↦ rest
    ]

-- extractSessionToken; a token that is empty is none, as the caller tests it for truth.
unfoldable pub extract_session_token : Crypto → AuthenticateRequest → Option (List ℕ)
unfolding split bearer_token session_cookie
extract_session_token c r = elim (bearer_token (split b' ' r.authorization)) [
  | some token ↦ some token
  | none ↦ elim (session_cookie c (split b';' r.cookie)) [
    | none ↦ none
    | some token ↦ if is_empty token then none else some token
  ]
]

-- `queryParams[…] || headers[…]`
abbrev pub gallery_token : AuthenticateRequest → List ℕ
gallery_token r =
    if is_empty r.gallery_token_query then r.gallery_token_header else r.gallery_token_query

unfoldable pub session_auth : Crypto → ℕ → AuthenticateRequest → Db → AuthDto
session_auth c now r db = elim (extract_session_token c r) [
  | none ↦ record { participant = none; user = none; session = none }
  | some token ↦ elim (get_by_token now (c.hash_sha256 token) db) [
    | none ↦ record { participant = none; user = none; session = none }
    | some found ↦ record { participant = none; user = some found.1; session = some found.0 }
  ]
]

-- validate
unfoldable pub validate : Crypto → ℕ → AuthenticateRequest → Db → AuthDto
unfolding session_auth
validate c now r db =
    if is_empty (gallery_token r)
    then session_auth c now r db
    else elim (get_by_token_hash (c.hash_sha256 (gallery_token r)) db) [
      | some p ↦ record { participant = some p; user = none; session = none }
      | none ↦ session_auth c now r db
    ]

-- The organization of the path.
unfoldable pub resolve_org : ℕ → ℕ → Db → ℕ
resolve_org org event db =
    if org == 0 && not (event == 0)
    then elim (get_org_id event db) [ none ↦ 0 | some o ↦ o ]
    else org

-- The end of verifyOrgRole, in the organization that was found.
unfoldable pub check_membership : User → OrgRole → ℕ → Db → Result (Unit {0})
check_membership user required org db =
    if org == 0 then throws forbidden else elim (get_membership org user.id db) [
      | none ↦ throws forbidden
      | some m ↦ if ltb (role_order m.role) (role_order required) then throws forbidden else ok tt
    ]

-- verifyOrgRole
unfoldable pub verify_org_role : User → OrgRole → ℕ → ℕ → Bool → Db → Result (Unit {0})
unfolding check_membership
verify_org_role user required org event allow_super_admin db =
    if user.is_super_admin && (allow_super_admin && event == 0)
    then ok tt
    else check_membership user required (resolve_org org event db) db

abbrev pub is_participant : AuthDto → Bool
is_participant a = elim a.participant [ none ↦ false | some p ↦ true ]

-- The checks of authenticate, by what is known of the user and the role that the route asks for.
unfoldable pub check_role :
    AuthenticateRequest → Db → AuthDto → User → Option OrgRole → Result AuthDto
check_role r db auth user none = ok auth
check_role r db auth user (some required) =
    elim (verify_org_role user required r.org_id r.event_id r.options.allow_super_admin db) [
      | throws x ↦ throws x
      | ok done ↦ ok auth
    ]

unfoldable pub check_user : AuthenticateRequest → Db → AuthDto → Option User → Result AuthDto
unfolding check_role
check_user r db auth none = throws unauthorized
check_user r db auth (some user) =
    if r.options.super_admin && not user.is_super_admin
    then throws forbidden
    else check_role r db auth user r.options.org_role

-- authenticate
unfoldable pub authenticate : Crypto → ℕ → AuthenticateRequest → Db → Result AuthDto
unfolding validate check_user
authenticate c now r db =
    let auth = validate c now r db in
    if r.options.participant && is_participant auth then ok auth else check_user r db auth auth.user
