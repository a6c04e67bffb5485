-- ===== src/Auth/Resets.antt =====
-- Reset links and sessions after a change of password (apps/backend/src/services/auth.service.ts,
-- repositories/password-reset.repository.ts, session.repository.ts).
use event_media_platform.Prelude.{
  ℕ, ◌≤◌, ◌≡◌, refl, sym, ap, ◌∙◌, inl, inr, true, false, not, ◌&&◌, ◌||◌, List, [], ◌∷◌, map,
  Option, none, some, arith, ◌==◌, filter, find, every, Bool-cases, Option-cases,
}
use event_media_platform.Prelude.Result.{ok, throws, bad_request}
use event_media_platform.Auth.Rows.{
  User, Session, PasswordResetToken, Db, is_redeemable, use_token, void_token, redeem,
  invalidate_for_user, set_password, delete_for_user, get_user,
}
use event_media_platform.Auth.Guard.{Crypto, AuthDto}
use event_media_platform.Auth.Passwords.{change_password, reset_for, reset_password, session_id}

-- A token that was used, or had expired, cannot be redeemed later.
find-used :
    (now later hash : ℕ) (tokens : List PasswordResetToken)
    → now ≤ later
    → find (is_redeemable later hash) (map (use_token now hash) tokens) ≡ none
find-used now later hash [] h = refl
find-used now later hash (t ∷ tokens) h = ground (arith, find-used now later hash tokens)

reset_for-tokens :
    (c : Crypto) (password : List ℕ) (t : Option PasswordResetToken) (db : Db)
    → (reset_for c password t db).0.reset_tokens ≡ db.reset_tokens
unfolding reset_for delete_for_user set_password
reset_for-tokens c password none db = refl
reset_for-tokens c password (some t) db = ground arith

-- A reset link works once: whatever the first attempt came to, a later attempt with the same token
-- throws and leaves the users and the sessions as they are.
pub reset_link_works_once :
    (c : Crypto) (now later : ℕ) (token first second : List ℕ) (db : Db)
    → now ≤ later
    → let db' = (reset_password c now token first db).0 in
      let again = reset_password c later token second db' in
      (again.1 ≡ throws bad_request)
      × (again.0.users ≡ db'.users)
      × (again.0.sessions ≡ db'.sessions)
unfolding reset_password redeem
reset_link_works_once c now later token first second db h =
    let hash = c.hash_sha256 token in
    let db₁ = (redeem now hash db).0 in
    let db' = (reset_password c now token first db).0 in
    let used : find (is_redeemable later hash) db'.reset_tokens ≡ none =
      ap (find (is_redeemable later hash)) (reset_for-tokens c first (redeem now hash db).1 db₁)
      ∙ find-used now later hash db.reset_tokens h in
    rw used (unfold reset_for in (refl, refl, refl))

pub sessions_left :
    (user : ℕ) (keep : Option ℕ) (sessions : List Session)
    → every
        (λ s. not (s.user_id == user) || elim keep [ none ↦ false | some k ↦ s.id == k ])
        (filter
          (λ s. not (s.user_id == user && elim keep [ none ↦ true | some k ↦ not (s.id == k) ]))
          sessions)
      ≡ true
sessions_left user keep [] = refl
sessions_left user none (s ∷ sessions) = ground (arith, sessions_left user none sessions)
sessions_left user (some k) (s ∷ sessions) = ground (arith, sessions_left user (some k) sessions)

pub find-voided :
    (now later hash user : ℕ) (tokens : List PasswordResetToken)
    → every
        (λ t. not (t.user_id == user) || not (is_redeemable later hash t))
        (map (void_token now user) tokens)
      ≡ true
find-voided now later hash user [] = refl
find-voided now later hash user (t ∷ tokens) =
    ground (arith, find-voided now later hash user tokens)

-- After a change of password the user has no session but the one that made the request, and none of
-- the user's reset links works at any time.
pub change_password_locks_out :
    (c : Crypto) (now later hash : ℕ) (auth : AuthDto) (caller : User) (password fresh : List ℕ)
    (db db' : Db)
    → auth.user ≡ some caller
    → change_password c now auth password fresh db ≡ ok db'
    → (user : User) × (get_user caller.id db ≡ some user)
      × (every
            (λ s.
              not (s.user_id == user.id)
              || elim (session_id auth.session) [ none ↦ false | some k ↦ s.id == k ])
            db'.sessions
          ≡ true)
      × (every
            (λ t. not (t.user_id == user.id) || not (is_redeemable later hash t))
            db'.reset_tokens
          ≡ true)
unfolding change_password delete_for_user invalidate_for_user set_password
change_password_locks_out c now later hash auth caller password fresh db db' u h =
    elim (Option-cases (get_user caller.id db)) [
      | inl e ↦ cc (rw (u, change_password, e) at h)
      | inr (user, e) ↦ elim (Bool-cases (c.compare_bcrypt password user.password)) [
        | inr b ↦ cc (rw (u, change_password, e, b) at h)
        | inl b ↦
            let same = rw (u, change_password, e, b) at h in
            let rows = ap (λ r. elim r [ ok d ↦ d | throws x ↦ db ]) same in
            (
              user,
              e,
              rw (sym rows) (sessions_left user.id (session_id auth.session) db.sessions),
              rw (sym rows) (find-voided now later hash user.id db.reset_tokens),
            )
      ]
    ]
