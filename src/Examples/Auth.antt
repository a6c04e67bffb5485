-- ===== src/Examples/Auth.antt =====
-- The theorems about access and passwords at concrete inputs.
use event_media_platform.Prelude.{
  ℕ, ◌≡◌, refl, ◌⊎◌, true, false, not, ◌||◌, List, [], ◌∷◌, none, some, arith, ◌==◌, every, sum_by,
}
use event_media_platform.Prelude.Text.{codes}
use event_media_platform.Prelude.Result.{ok, throws, bad_request}
use event_media_platform.Auth.Rows.{
  OrgRole, User, Session, PasswordResetToken, Participant, EventScope, OrganizationUser, Db,
  get_user, is_redeemable, get_membership, get_by_token,
}
use event_media_platform.Auth.Guard.{
  Crypto, AuthDto, AuthenticateOptions, AuthenticateRequest, authenticate, resolve_org,
  is_participant, extract_session_token,
}
use event_media_platform.Auth.Passwords.{change_password, reset_password}
use event_media_platform.Auth.Access.{HasRole, IsBypass, authenticated-HasRole}
use event_media_platform.Auth.Sessions.{IsSignedIn, authenticated-IsSignedIn}
use event_media_platform.Auth.Resets.{reset_link_works_once, change_password_locks_out}

-- A hash that adds up the text.
abbrev pub toy_hash : List ℕ → ℕ
toy_hash text = sum_by (λ c. c) text

abbrev pub crypto : Crypto
crypto = record {
  hash_sha256 = toy_hash;
  compare_bcrypt = λ text hash. toy_hash text == hash;
  hash_bcrypt = toy_hash;
  decode_uri = λ text. text;
}

abbrev ann : User
ann = record {
  id = 1;
  email = 11;
  password = toy_hash (codes "old");
  is_super_admin = false;
  deleted = false;
}

abbrev ann_session : Session
ann_session = record { id = 5; user_id = 1; token = toy_hash (codes "abc"); expires_at = some 1000 }

abbrev other_session : Session
other_session = record { id = 6; user_id = 1; token = 77; expires_at = none }

abbrev rows : Db
rows = record {
  users = ann ∷ [];
  sessions = ann_session ∷ (other_session ∷ []);
  reset_tokens =
      record { user_id = 1; token = toy_hash (codes "link"); expires_at = 900; used_at = none }
      ∷ [];
  participants = [];
  events = record { id = 3; org_id = 4; deleted = false } ∷ [];
  members = record { org_id = 4; user_id = 1; role = OrgRole.admin } ∷ [];
  next_id = 10;
}

abbrev ann_auth : AuthDto
ann_auth = record { participant = none; user = some ann; session = some ann_session }

abbrev event_request : AuthenticateRequest
event_request = record {
  authorization = [];
  cookie = codes "theme=dark; el_session=abc";
  gallery_token_header = [];
  gallery_token_query = [];
  org_id = 0;
  event_id = 3;
  options = record {
    super_admin = false;
    org_role = some OrgRole.member;
    participant = false;
    allow_super_admin = false;
  };
}

ann_enters : authenticate crypto 100 event_request rows ≡ ok ann_auth
unfolding authenticate extract_session_token get_by_token
    event_media_platform.Auth.Guard.verify_org_role resolve_org
    event_media_platform.Auth.Rows.get_org_id get_membership
    event_media_platform.Auth.Rows.role_order
ann_enters = refl

authenticated-HasRole_example :
    ((event_request.options.participant ≡ true) × (is_participant ann_auth ≡ true))
    ⊎ ((user : User) × (ann_auth.user ≡ some user)
        × (IsBypass user event_request ⊎ HasRole user OrgRole.member (resolve_org 0 3 rows) rows))
authenticated-HasRole_example =
    authenticated-HasRole crypto 100 event_request rows ann_auth OrgRole.member refl ann_enters

reset_link_works_once_example :
    let db' = (reset_password crypto 100 (codes "link") (codes "new") rows).0 in
    let again = reset_password crypto 200 (codes "link") (codes "newer") db' in
    (again.1 ≡ throws bad_request) × (again.0.users ≡ db'.users) × (again.0.sessions ≡ db'.sessions)
reset_link_works_once_example =
    reset_link_works_once crypto 100 200 (codes "link") (codes "new") (codes "newer") rows
      (omega arith)

abbrev after_change : Db
after_change = record rows {
  users = record ann { password = toy_hash (codes "new") } ∷ [];
  sessions = ann_session ∷ [];
  reset_tokens =
      record { user_id = 1; token = toy_hash (codes "link"); expires_at = 900; used_at = some 100 }
      ∷ [];
}

ann_changes : change_password crypto 100 ann_auth (codes "old") (codes "new") rows ≡ ok after_change
unfolding change_password get_user event_media_platform.Auth.Rows.delete_for_user
    event_media_platform.Auth.Rows.invalidate_for_user event_media_platform.Auth.Rows.set_password
ann_changes = refl

change_password_locks_out_example :
    (user : User) × (get_user 1 rows ≡ some user)
    × (every (λ s. not (s.user_id == user.id) || s.id == 5) after_change.sessions ≡ true)
    × (every
          (λ t. not (t.user_id == user.id) || not (is_redeemable 200 (toy_hash (codes "link")) t))
          after_change.reset_tokens
        ≡ true)
change_password_locks_out_example =
    change_password_locks_out crypto 100 200 (toy_hash (codes "link")) ann_auth ann (codes "old")
      (codes "new") rows after_change refl ann_changes

authenticated-IsSignedIn_example :
    (s : Session) × (ann_auth.session ≡ some s) × IsSignedIn crypto 100 event_request rows ann s
authenticated-IsSignedIn_example =
    authenticated-IsSignedIn crypto 100 event_request rows ann_auth ann ann_enters refl
