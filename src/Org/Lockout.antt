-- ===== src/Org/Lockout.antt =====
-- resetMemberPassword of apps/backend/src/services/organization.service.ts, with the reset link that it
-- mails (services/auth.service.ts).
use event_media_platform.Prelude.{
  ℕ, ◌+◌, ◌<◌, ◌≡◌, refl, sym, ap, ◌∙◌, inl, inr, Bool, true, false, not, ◌&&◌, ◌||◌, List, [], ◌∷◌,
  map, none, some, arith, ltb, ◌==◌, filter, find, every, Bool-cases, update_by, find_holds,
}
use mathlib.Core.Path.{subst}
use event_media_platform.Prelude.Result.{Result, ok}
use event_media_platform.Auth.Rows.{
  User, Session, PasswordResetToken, OrganizationUser, get_membership, get_user, is_redeemable,
  use_token, void_token, redeem, set_password, delete_for_user, invalidate_for_user,
}
use event_media_platform.Auth.Rows
use event_media_platform.Auth.Guard.{Crypto}
use event_media_platform.Auth.Passwords.{reset_for, reset_password}
use event_media_platform.Org.Rows.{OrgDb, create_token}
use event_media_platform.Org.Service.{
  password_reset_ttl_ms, lock_account, send_link, reset_user, reset_member_password,
}

-- A token of the user that can be redeemed at the time is the one with the hash, before the deadline.
abbrev pub is_dead_or_new : ℕ → ℕ → ℕ → ℕ → ℕ → PasswordResetToken → Bool
is_dead_or_new user time hash fresh deadline t =
    not (t.user_id == user)
    || (not (is_redeemable time hash t) || (t.token == fresh && ltb time deadline))

no_sessions :
    (user : ℕ) (sessions : List Session)
    → every (λ s. not (s.user_id == user)) (filter (λ s. not (s.user_id == user && true)) sessions)
      ≡ true
no_sessions user [] = refl
no_sessions user (s ∷ sessions) = ground (arith, no_sessions user sessions)

dead_tokens :
    (now user time hash fresh deadline : ℕ) (tokens : List PasswordResetToken)
    → every (is_dead_or_new user time hash fresh deadline) (map (void_token now user) tokens) ≡ true
dead_tokens now user time hash fresh deadline [] = refl
dead_tokens now user time hash fresh deadline (t ∷ tokens) =
    ground (arith, dead_tokens now user time hash fresh deadline tokens)

-- A user that is found is found when its password is another.
still_found :
    (p : User → Bool) (k password : ℕ) (users : List User) (u : User)
    → ((u : User) → p (record u { password = password }) ≡ p u)
    → find p users ≡ some u
    → (v : User) × (find p (update_by (λ u. u.id) k (λ u. record u { password = password }) users)
        ≡ some v)
      × (u.id ≡ k → v.password ≡ password)
still_found p k password [] u same h = cc
still_found p k password (x ∷ users) u same h = elim (Bool-cases (p x)) [
  | inl e ↦ elim (Bool-cases (x.id == k)) [
    | inl i ↦ rw (i, same x, e) (record x { password = password }, refl, λ y. refl)
    | inr i ↦ rw (i, e) (x, refl, λ y. ground arith)
  ]
  | inr e ↦ elim (Bool-cases (x.id == k)) [
    | inl i ↦ rw (i, same x, e) (still_found p k password users u same (rw e at h))
    | inr i ↦ rw (i, e) (still_found p k password users u same (rw e at h))
  ]
]

lock_rows :
    (c : Crypto) (now : ℕ) (sends : Bool) (lock token : List ℕ) (org user actor : ℕ) (db : OrgDb)
    (m : OrganizationUser) (u : User)
    → get_membership org user db.rows ≡ some m
    → get_user user db.rows ≡ some u
    → (reset_member_password c now sends lock token org user actor db).0.rows
      ≡ lock_account c now lock token u db.rows
unfolding reset_member_password reset_user send_link
lock_rows c now true lock token org user actor db m u e f = rw (reset_member_password, e, f) refl
lock_rows c now false lock token org user actor db m u e f = rw (reset_member_password, e, f) refl

redeem-first :
    (later hash : ℕ) (t : PasswordResetToken) (rows : Rows.Db)
    → is_redeemable later hash t ≡ true
    → (redeem later hash (create_token t rows)).1 ≡ some (record t { used_at = some later })
unfolding redeem create_token
redeem-first later hash t rows h = rw (h, use_token, h) refl

-- The reset succeeds, and the user is found with the new password.
abbrev pub HasPassword : Crypto → List ℕ → ℕ → Rows.Db × Result (Unit {0}) → Type 0
HasPassword c fresh user (rows, r) =
    (r ≡ ok tt) × (v : User) × (get_user user rows ≡ some v) × (v.password ≡ c.hash_bcrypt fresh)

reset_for-found :
    (c : Crypto) (fresh : List ℕ) (t : PasswordResetToken) (rows : Rows.Db) (v : User)
    → get_user t.user_id rows ≡ some v
    → HasPassword c fresh t.user_id (reset_for c fresh (some t) rows)
unfolding reset_for get_user set_password delete_for_user
reset_for-found c fresh t rows v h =
    let same : v.id ≡ t.user_id =
      ground (arith, find_holds (λ x. x.id == t.user_id && not x.deleted) rows.users h) in
    let (w, e, p) =
      still_found (λ x. x.id == t.user_id && not x.deleted) v.id (c.hash_bcrypt fresh) rows.users v
        (λ x. refl) h in
    rw (reset_for, h) (refl, w, e, p refl)

new_link_works :
    (c : Crypto) (now later : ℕ) (lock token fresh : List ℕ) (u : User) (rows : Rows.Db)
    → get_user u.id rows ≡ some u
    → later < now + password_reset_ttl_ms
    → HasPassword c fresh u.id
        (reset_password c later token fresh (lock_account c now lock token u rows))
unfolding reset_password redeem lock_account create_token get_user invalidate_for_user
    delete_for_user set_password
new_link_works c now later lock token fresh u rows f h =
    let hash = c.hash_sha256 token in
    let fresh_row : PasswordResetToken = record {
      user_id = u.id;
      token = hash;
      expires_at = now + password_reset_ttl_ms;
      used_at = none;
    } in
    let locked = lock_account c now lock token u rows in
    let (v, g, p) =
      still_found (λ x. x.id == u.id && not x.deleted) u.id (c.hash_bcrypt lock) rows.users u
        (λ x. refl) f in
    subst (λ r. HasPassword c fresh u.id (reset_for c fresh r (redeem later hash locked).0))
      (sym (
        redeem-first later hash fresh_row
          (invalidate_for_user now u.id
            (delete_for_user u.id none (set_password u.id (c.hash_bcrypt lock) rows)))
          (ground arith)))
      (reset_for-found c fresh (record fresh_row { used_at = some later })
        (redeem later hash locked).0 v g)

-- After the reset of a member's password the user has no session, the only reset link of the user that
-- can be redeemed, and only for 24 hours, is the one that was made, also when the mail did not go out,
-- and a reset with that link within that time succeeds and leaves the user with the hash of the new
-- password.
pub reset_locks_out :
    (c : Crypto) (now any_time later hash : ℕ) (sends : Bool) (lock token fresh : List ℕ)
    (org user actor : ℕ) (db : OrgDb) (m : OrganizationUser) (u : User)
    → get_membership org user db.rows ≡ some m
    → get_user user db.rows ≡ some u
    → later < now + password_reset_ttl_ms
    → let rows = (reset_member_password c now sends lock token org user actor db).0.rows in
      (every (λ s. not (s.user_id == u.id)) rows.sessions ≡ true)
      × (every
            (is_dead_or_new u.id any_time hash (c.hash_sha256 token) (now + password_reset_ttl_ms))
            rows.reset_tokens
          ≡ true)
      × HasPassword c fresh u.id (reset_password c later token fresh rows)
unfolding lock_account create_token get_user invalidate_for_user delete_for_user set_password
reset_locks_out c now any_time later hash sends lock token fresh org user actor db m u e f h =
    let deadline = now + password_reset_ttl_ms in
    let same_id : u.id ≡ user =
      ground (arith, find_holds (λ x. x.id == user && not x.deleted) db.rows.users f) in
    rw (lock_rows c now sends lock token org user actor db m u e f) (
      no_sessions u.id db.rows.sessions,
      ground (
        arith,
        dead_tokens now u.id any_time hash (c.hash_sha256 token) deadline db.rows.reset_tokens,
      ),
      new_link_works c now later lock token fresh u db.rows
          (ap (λ k. get_user k db.rows) same_id ∙ f) h,
    )
