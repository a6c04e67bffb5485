-- ===== src/Auth/Access.antt =====
-- What a request that `authenticate` of apps/backend/src/services/auth.service.ts lets through has
-- shown.
use event_media_platform.Prelude.{
  ℕ, ◌≤◌, ◌≡◌, refl, sym, ap, ◌∙◌, ◌⊎◌, inl, inr, true, not, ◌&&◌, Option, none, some, arith, ◌==◌,
  Bool-cases,
}
use event_media_platform.Prelude.Result.{Result, ok, throws}
use event_media_platform.Auth.Rows.{OrgRole, role_order, User, OrganizationUser, Db, get_membership}
use event_media_platform.Auth.Guard.{
  Crypto, AuthDto, AuthenticateRequest, validate, resolve_org, verify_org_role, check_membership,
  is_participant, check_role, check_user, authenticate,
}

-- The user is a member of the path's organization with a role that is high enough.
abbrev pub HasRole : User → OrgRole → ℕ → Db → Type 0
HasRole user required org db =
    (m : OrganizationUser) × (get_membership org user.id db ≡ some m)
    × (role_order required ≤ role_order m.role)

-- A super admin on a route that allows it, outside of any event.
abbrev pub IsBypass : User → AuthenticateRequest → Type 0
IsBypass user r =
    (user.is_super_admin ≡ true) × (r.options.allow_super_admin ≡ true) × (r.event_id ≡ 0)

check_membership-HasRole :
    (user : User) (required : OrgRole) (org : ℕ) (db : Db) {t : Unit {0}}
    → check_membership user required org db ≡ ok t
    → HasRole user required org db
unfolding check_membership
check_membership-HasRole user required org db h = ground arith

module _ (r : AuthenticateRequest) (db : Db) where
  verify_org_role-lem :
      (user : User) (required : OrgRole) {t : Unit {0}}
      → verify_org_role user required r.org_id r.event_id r.options.allow_super_admin db ≡ ok t
      → IsBypass user r ⊎ HasRole user required (resolve_org r.org_id r.event_id db) db
  unfolding verify_org_role
  verify_org_role-lem user required {t} h =
      elim (Bool-cases (user.is_super_admin && (r.options.allow_super_admin && r.event_id == 0))) [
        | inl e ↦ inl (ground arith)
        | inr e ↦ inr (
            check_membership-HasRole user required (resolve_org r.org_id r.event_id db) db {t = t}
              (rw (e, verify_org_role) at h))
      ]

  check_role-lem :
      (auth auth' : AuthDto) (user : User) (required : OrgRole)
      → check_role r db auth user (some required) ≡ ok auth'
      → (auth ≡ auth')
        × (IsBypass user r ⊎ HasRole user required (resolve_org r.org_id r.event_id db) db)
  unfolding check_role
  check_role-lem auth auth' user required h =
      go (verify_org_role user required r.org_id r.event_id r.options.allow_super_admin db) refl
    where
      go :
          (v : Result (Unit {0}))
          → verify_org_role user required r.org_id r.event_id r.options.allow_super_admin db ≡ v
          → (auth ≡ auth')
            × (IsBypass user r ⊎ HasRole user required (resolve_org r.org_id r.event_id db) db)
      go (throws x) e = cc (rw (e, check_role) at h)
      go (ok t) e =
          (ground (arith, rw (e, check_role) at h), verify_org_role-lem user required {t = t} e)

  check_user-lem :
      (auth auth' : AuthDto) (u : Option User) (required : OrgRole)
      → r.options.org_role ≡ some required
      → check_user r db auth u ≡ ok auth'
      → (auth ≡ auth')
        × ((user : User) × (u ≡ some user)
            × (IsBypass user r ⊎ HasRole user required (resolve_org r.org_id r.event_id db) db))
  unfolding check_user
  check_user-lem auth auth' none required o h = cc
  check_user-lem auth auth' (some user) required o h =
      elim (Bool-cases (r.options.super_admin && not user.is_super_admin)) [
        | inl e ↦ cc (rw (e, check_user) at h)
        | inr e ↦
            let role = check_role-lem auth auth' user required (rw (e, check_user, o) at h) in
            (role.0, (user, refl, role.1))
      ]

-- A request that passes a route which asks for a role comes from a participant on a route that is open
-- to participants, or from a super admin outside of any event on a route that allows it, or from a
-- member of the path's organization whose role is high enough: a super admin who is no member never
-- reaches an event's route.
pub authenticated-HasRole :
    (c : Crypto) (now : ℕ) (r : AuthenticateRequest) (db : Db) (auth : AuthDto) (required : OrgRole)
    → r.options.org_role ≡ some required
    → authenticate c now r db ≡ ok auth
    → ((r.options.participant ≡ true) × (is_participant auth ≡ true))
      ⊎ ((user : User) × (auth.user ≡ some user)
          × (IsBypass user r ⊎ HasRole user required (resolve_org r.org_id r.event_id db) db))
unfolding authenticate
authenticated-HasRole c now r db auth required o h =
    elim (Bool-cases (r.options.participant && is_participant (validate c now r db))) [
      | inl e ↦ inl (ground (arith, rw (e, authenticate) at h))
      | inr e ↦
          let user =
            check_user-lem r db (validate c now r db) auth (validate c now r db).user required o
              (rw (e, authenticate) at h) in
          inr (user.1.0, ap (λ a. a.user) (sym user.0) ∙ user.1.1, user.1.2)
    ]
