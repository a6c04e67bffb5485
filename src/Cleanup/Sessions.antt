-- ===== src/Cleanup/Sessions.antt =====
-- handleSessionCleanup of apps/backend/src/services/cleanup.service.ts and the sign in that reads the
-- rows it deletes (services/auth.service.ts).
use event_media_platform.Prelude.{
  ℕ, ◌≤◌, ◌≡◌, refl, ap, ◌∙◌, inl, inr, Bool, true, not, ◌&&◌, Option, none, some, arith, ltb, ◌==◌,
  if◌then◌else◌, find, Option-cases,
}
use event_media_platform.Prelude.{find-filter}
use event_media_platform.Prelude.Result.{ok}
use event_media_platform.Auth.Rows.{
  Session, PasswordResetToken, get_by_token, is_live, is_redeemable, redeem, used_row, User,
  OrgRole, get_by_token_hash, get_org_id, get_membership,
}
use event_media_platform.Auth.Rows
use event_media_platform.Auth.Guard.{
  extract_session_token, Crypto, AuthDto, AuthenticateRequest, authenticate, validate, session_auth,
  check_user, check_role, verify_org_role, check_membership, resolve_org, is_participant, is_empty,
  gallery_token,
}
use event_media_platform.Cleanup.Rows.{delete_expired_sessions, delete_expired_tokens}
use event_media_platform.Cleanup.Service.{handle_session_cleanup}

abbrev cleaned : ℕ → Rows.Db → Rows.Db
cleaned now db = (handle_session_cleanup now db).0

find-cleaned :
    (now later hash : ℕ) (db : Rows.Db)
    → now ≤ later
    → find (λ s. s.token == hash && is_live later s) (cleaned now db).sessions
      ≡ find (λ s. s.token == hash && is_live later s) db.sessions
unfolding handle_session_cleanup delete_expired_sessions
find-cleaned now later hash db h =
    find-filter (λ s. s.token == hash && is_live later s)
      (λ s. elim s.expires_at [ none ↦ true | some t ↦ not (ltb t now) ]) db.sessions
      (λ s e. elim (Option-cases s.expires_at) [
        | inl k ↦ rw k refl
        | inr (t, k) ↦ ground (arith, rw k at e, k)
      ])

get_by_token-cleaned :
    (now later hash : ℕ) (db : Rows.Db)
    → now ≤ later
    → get_by_token later hash (cleaned now db) ≡ get_by_token later hash db
unfolding get_by_token handle_session_cleanup
get_by_token-cleaned now later hash db h = rw (get_by_token, find-cleaned now later hash db h) refl

session_auth-cleaned :
    (c : Crypto) (now later : ℕ) (r : AuthenticateRequest) (db : Rows.Db)
    → now ≤ later
    → session_auth c later r (cleaned now db) ≡ session_auth c later r db
unfolding session_auth
session_auth-cleaned c now later r db h = elim (Option-cases (extract_session_token c r)) [
  | inl e ↦ rw (session_auth, e) refl
  | inr (token, e) ↦
      rw (session_auth, e, get_by_token-cleaned now later (c.hash_sha256 token) db h) refl
]

validate-cleaned :
    (c : Crypto) (now later : ℕ) (r : AuthenticateRequest) (db : Rows.Db)
    → now ≤ later
    → validate c later r (cleaned now db) ≡ validate c later r db
unfolding validate get_by_token_hash handle_session_cleanup
validate-cleaned c now later r db h =
    ap
      (λ a.
        if is_empty (gallery_token r)
        then a
        else elim (get_by_token_hash (c.hash_sha256 (gallery_token r)) db) [
          | some p ↦ record { participant = some p; user = none; session = none }
          | none ↦ a
        ])
      (session_auth-cleaned c now later r db h)

verify-cleaned :
    (now : ℕ) (user : User) (required : OrgRole) (org event : ℕ) (allow : Bool) (db : Rows.Db)
    → verify_org_role user required org event allow (cleaned now db)
      ≡ verify_org_role user required org event allow db
unfolding verify_org_role check_membership resolve_org get_org_id get_membership
    handle_session_cleanup
verify-cleaned now user required org event allow db = refl

check_role-cleaned :
    (now : ℕ) (r : AuthenticateRequest) (db : Rows.Db) (auth : AuthDto) (user : User)
    (role : Option OrgRole)
    → check_role r (cleaned now db) auth user role ≡ check_role r db auth user role
unfolding check_role
check_role-cleaned now r db auth user none = refl
check_role-cleaned now r db auth user (some required) =
    let same =
      verify-cleaned now user required r.org_id r.event_id r.options.allow_super_admin db in
    rw (check_role, same) refl

check_user-cleaned :
    (now : ℕ) (r : AuthenticateRequest) (db : Rows.Db) (auth : AuthDto) (user : Option User)
    → check_user r (cleaned now db) auth user ≡ check_user r db auth user
unfolding check_user
check_user-cleaned now r db auth none = refl
check_user-cleaned now r db auth (some user) =
    rw (check_user, check_role-cleaned now r db auth user r.options.org_role) refl

redeem-cleaned :
    (now later hash : ℕ) (db : Rows.Db)
    → now ≤ later
    → (redeem later hash (cleaned now db)).1 ≡ (redeem later hash db).1
unfolding redeem handle_session_cleanup delete_expired_tokens
redeem-cleaned now later hash db h = ap (used_row later hash) (
    find-filter (is_redeemable later hash) (λ t. not (ltb t.expires_at now)) db.reset_tokens
      (λ t e. ground (arith, e)))

-- The deletion of expired sessions and reset tokens changes no answer that a request gets at that time
-- or later: neither whom it is signed in as, nor which reset link can be redeemed.
pub cleanup_changes_no_answer :
    (c : Crypto) (now later hash : ℕ) (r : AuthenticateRequest) (db : Rows.Db)
    → now ≤ later
    → let db' = (handle_session_cleanup now db).0 in
      (authenticate c later r db' ≡ authenticate c later r db)
      × ((redeem later hash db').1 ≡ (redeem later hash db).1)
unfolding authenticate
cleanup_changes_no_answer c now later hash r db h =
    let auth = validate c later r db in
    (
      ap
            (λ a.
              if r.options.participant && is_participant a
              then ok a
              else check_user r (cleaned now db) a a.user)
            (validate-cleaned c now later r db h)
          ∙ ap (λ x. if r.options.participant && is_participant auth then ok auth else x)
              (check_user-cleaned now r db auth auth.user),
      redeem-cleaned now later hash db h,
    )
