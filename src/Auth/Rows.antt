-- ===== src/Auth/Rows.antt =====
-- The rows of user, session, password_reset_token, participant, event and organization_user as far as
-- apps/backend/src/services/auth.service.ts reads them, with the queries of the repositories.
-- Ids, emails and hashes are numbers.
use event_media_platform.Prelude.{
  ℕ, Bool, true, false, not, ◌&&◌, List, map, Option, none, some, ltb, ◌==◌, if◌then◌else◌, filter,
  find, update_by,
}

pub data OrgRole : Type 0 where
  owner admin member : OrgRole

-- ROLE_ORDER
unfoldable pub role_order : OrgRole → ℕ
role_order OrgRole.member = 0
role_order OrgRole.admin = 1
role_order OrgRole.owner = 2

pub record User : Type 0 where
  pub id : ℕ
  pub email : ℕ
  pub password : ℕ
  pub is_super_admin : Bool
  pub deleted : Bool

pub record Session : Type 0 where
  pub id : ℕ
  pub user_id : ℕ
  pub token : ℕ
  pub expires_at : Option ℕ

pub record PasswordResetToken : Type 0 where
  pub user_id : ℕ
  pub token : ℕ
  pub expires_at : ℕ
  pub used_at : Option ℕ

pub record Participant : Type 0 where
  pub id : ℕ
  pub gallery_token_hash : ℕ
  pub deleted : Bool

pub record EventScope : Type 0 where
  pub id : ℕ
  pub org_id : ℕ
  pub deleted : Bool

pub record OrganizationUser : Type 0 where
  pub org_id : ℕ
  pub user_id : ℕ
  pub role : OrgRole

pub record Db : Type 0 where
  pub users : List User
  pub sessions : List Session
  pub reset_tokens : List PasswordResetToken
  pub participants : List Participant
  pub events : List EventScope
  pub members : List OrganizationUser
  pub next_id : ℕ

-- getByTokenHash
unfoldable pub get_by_token_hash : ℕ → Db → Option Participant
get_by_token_hash hash db =
    find (λ p. p.gallery_token_hash == hash && not p.deleted) db.participants

-- getById of the users
unfoldable pub get_user : ℕ → Db → Option User
get_user id db = find (λ u. u.id == id && not u.deleted) db.users

-- getByEmail
unfoldable pub get_by_email : ℕ → Db → Option User
get_by_email email db = find (λ u. u.email == email && not u.deleted) db.users

abbrev pub is_live : ℕ → Session → Bool
is_live now s = elim s.expires_at [ none ↦ true | some t ↦ ltb now t ]

-- getByToken: the session with its user.
unfoldable pub get_by_token : ℕ → ℕ → Db → Option (Session × User)
unfolding get_user
get_by_token now hash db = elim (find (λ s. s.token == hash && is_live now s) db.sessions) [
  | none ↦ none
  | some s ↦ elim (get_user s.user_id db) [ none ↦ none | some u ↦ some (s, u) ]
]

-- deleteForUser
unfoldable pub delete_for_user : ℕ → Option ℕ → Db → Db
delete_for_user user except db = record db {
  sessions =
      filter
        (λ s. not (s.user_id == user && elim except [ none ↦ true | some k ↦ not (s.id == k) ]))
        db.sessions;
}

-- `usedAt IS NULL AND expiresAt > now`, with the token
abbrev pub is_redeemable : ℕ → ℕ → PasswordResetToken → Bool
is_redeemable now hash t =
    t.token == hash && (elim t.used_at [ none ↦ true | some u ↦ false ] && ltb now t.expires_at)

abbrev pub use_token : ℕ → ℕ → PasswordResetToken → PasswordResetToken
use_token now hash t = if is_redeemable now hash t then record t { used_at = some now } else t

abbrev pub used_row : ℕ → ℕ → Option PasswordResetToken → Option PasswordResetToken
used_row now hash none = none
used_row now hash (some t) = some (use_token now hash t)

-- redeem: the rows that match are marked, and one of them is returned.
unfoldable pub redeem : ℕ → ℕ → Db → Db × Option PasswordResetToken
redeem now hash db = (
  record db { reset_tokens = map (use_token now hash) db.reset_tokens },
  used_row now hash (find (is_redeemable now hash) db.reset_tokens),
)

abbrev pub void_token : ℕ → ℕ → PasswordResetToken → PasswordResetToken
void_token now user t =
    if t.user_id == user
    then elim t.used_at [ none ↦ record t { used_at = some now } | some u ↦ t ]
    else t

-- invalidateForUser
unfoldable pub invalidate_for_user : ℕ → ℕ → Db → Db
invalidate_for_user now user db = record db {
  reset_tokens = map (void_token now user) db.reset_tokens;
}

-- update of the users, for a new password
unfoldable pub set_password : ℕ → ℕ → Db → Db
set_password id password db = record db {
  users = update_by (λ u. u.id) id (λ u. record u { password = password }) db.users;
}

-- getOrgId
unfoldable pub get_org_id : ℕ → Db → Option ℕ
get_org_id event db = elim (find (λ e. e.id == event && not e.deleted) db.events) [
  | none ↦ none
  | some e ↦ some e.org_id
]

-- getMembership
unfoldable pub get_membership : ℕ → ℕ → Db → Option OrganizationUser
get_membership org user db = find (λ m. m.org_id == org && m.user_id == user) db.members
