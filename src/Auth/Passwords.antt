-- ===== src/Auth/Passwords.antt =====
-- login, logout, changePassword and resetPassword of apps/backend/src/services/auth.service.ts.
use event_media_platform.Prelude.{
  ℕ, suc, ◌+◌, ◌*◌, Bool, true, false, not, List, [], ◌∷◌, Option, none, some, ◌==◌, if◌then◌else◌,
  filter,
}
use event_media_platform.Prelude.Result.{Result, ok, throws, unauthorized, bad_request, internal}
use event_media_platform.Auth.Rows.{
  User, Session, PasswordResetToken, Db, get_user, get_by_email, delete_for_user, redeem,
  invalidate_for_user, set_password,
}
use event_media_platform.Auth.Guard.{Crypto, AuthDto}

-- createSession: the row of a session whose token is the text that was drawn.
unfoldable pub create_session : Crypto → ℕ → ℕ → List ℕ → User → Db → Db
create_session c now session_ttl_days token user db =
    let session : Session = record {
      id = db.next_id;
      user_id = user.id;
      token = c.hash_sha256 token;
      expires_at = some (now + session_ttl_days * 24 * 60 * 60 * 1000);
    } in
    record db { sessions = session ∷ db.sessions; next_id = suc db.next_id }

-- login
unfoldable pub login : Crypto → ℕ → ℕ → List ℕ → ℕ → List ℕ → Db → Result Db
unfolding create_session
login c now ttl token email password db = elim (get_by_email email db) [
  | none ↦ throws unauthorized
  | some user ↦
      if c.compare_bcrypt password user.password
      then ok (create_session c now ttl token user db)
      else throws unauthorized
]

-- logout
unfoldable pub logout : AuthDto → Db → Db
logout auth db = elim auth.session [
  | none ↦ db
  | some s ↦ record db { sessions = filter (λ r. not (r.id == s.id)) db.sessions }
]

abbrev pub has_any : List User → Bool
has_any [] = false
has_any (u ∷ us) = true

-- adminSignup
unfoldable pub admin_signup : Crypto → ℕ → ℕ → List ℕ → ℕ → List ℕ → Db → Result Db
unfolding create_session
admin_signup c now ttl token email password db =
    if has_any db.users
    then throws bad_request
    else let user : User = record {
      id = db.next_id;
      email = email;
      password = c.hash_bcrypt password;
      is_super_admin = true;
      deleted = false;
    } in
      ok (
        create_session c now ttl token user
          (record db { users = user ∷ db.users; next_id = suc db.next_id }))

abbrev pub session_id : Option Session → Option ℕ
session_id none = none
session_id (some s) = some s.id

-- changePassword
unfoldable pub change_password : Crypto → ℕ → AuthDto → List ℕ → List ℕ → Db → Result Db
change_password c now auth password new_password db = elim auth.user [
  | none ↦ throws internal
  | some caller ↦ elim (get_user caller.id db) [
    | none ↦ throws bad_request
    | some user ↦
        if not (c.compare_bcrypt password user.password)
        then throws bad_request
        else ok (
            delete_for_user user.id (session_id auth.session) (
              invalidate_for_user now user.id
                (set_password user.id (c.hash_bcrypt new_password) db)))
  ]
]

-- The user of a redeemed token.
unfoldable pub reset_for : Crypto → List ℕ → Option PasswordResetToken → Db → Db × Result (Unit {0})
reset_for c new_password none db = (db, throws bad_request)
reset_for c new_password (some token) db = elim (get_user token.user_id db) [
  | none ↦ (db, throws bad_request)
  | some user ↦
      (delete_for_user user.id none (set_password user.id (c.hash_bcrypt new_password) db), ok tt)
]

-- resetPassword: the rows that it leaves, and whether it threw. A token is used up also when its user
-- is gone.
unfoldable pub reset_password : Crypto → ℕ → List ℕ → List ℕ → Db → Db × Result (Unit {0})
unfolding reset_for
reset_password c now token new_password db =
    let (db', redeemed) = redeem now (c.hash_sha256 token) db in
    reset_for c new_password redeemed db'
