-- ===== src/Org/Service.antt =====
-- The operations of apps/backend/src/services/organization.service.ts.
use event_media_platform.Prelude.{
  ℕ, suc, ◌+◌, ◌*◌, Bool, true, false, not, ◌&&◌, ◌||◌, List, [], ◌∷◌, ◌++◌, Option, none, some,
  ◌==◌, if◌then◌else◌, filter, any,
}
use event_media_platform.Prelude.Text.{eq_text}
use event_media_platform.Prelude.Result.{
  Result, ok, throws, not_found, bad_request, internal, ◌>>=◌, ◌>>◌, throw_if,
}
use event_media_platform.Auth.Rows.{
  OrgRole, User, PasswordResetToken, OrganizationUser, get_user, get_by_email, delete_for_user,
  invalidate_for_user, set_password, get_membership,
}
use event_media_platform.Auth.Rows
use event_media_platform.Auth.Guard.{Crypto}
use event_media_platform.Upload.Quota.{OrgPlan}
use event_media_platform.Org.Rows.{
  OrgStatus, Organization, AuditAction, AuditRow, OrgDb, get_by_id, get_by_slug, update_org,
  upsert_member, delete_member, list_members, create_token,
}

-- get
unfoldable pub get : ℕ → OrgDb → Result Organization
get org db = elim (get_by_id org db.orgs) [ none ↦ throws not_found | some o ↦ ok o ]

-- resolveUser: the user with the address, created when a password is given. The column `email` is
-- UNIQUE, also over users that are deleted.
unfoldable pub resolve_user : Crypto → ℕ → Option (List ℕ) → OrgDb → Result (User × OrgDb)
resolve_user c email password db = elim (get_by_email email db.rows) [
  | some user ↦ ok (user, db)
  | none ↦ elim password [
    | none ↦ throws bad_request
    | some text ↦
        let user : User = record {
          id = db.rows.next_id;
          email = email;
          password = c.hash_bcrypt text;
          is_super_admin = false;
          deleted = false;
        } in
        let rows = record db.rows { users = user ∷ db.rows.users; next_id = suc db.rows.next_id } in
        if any (λ u. u.email == email) db.rows.users
        then throws internal
        else ok (user, record db { rows = rows })
  ]
]

-- addMember of the repository
abbrev pub put_member : ℕ → ℕ → OrgRole → OrgDb → OrgDb
put_member org user role db = record db {
  rows = record db.rows { members = upsert_member org user role db.rows.members };
}

-- The row of a new organization; the plan is the column's default.
abbrev pub new_org : ℕ → List ℕ → List ℕ → ℕ → Organization
new_org id name slug created_by = record {
  id = id;
  name = name;
  slug = slug;
  status = OrgStatus.active;
  plan = OrgPlan.starter;
  storage_limit_bytes = none;
  event_limit = none;
  created_by = created_by;
  deleted = false;
}

-- The inserts of create, once the owner is known.
unfoldable pub create_for : List ℕ → List ℕ → ℕ → User → OrgDb → OrgDb
create_for name slug created_by owner db =
    let id = db.rows.next_id in
    put_member id owner.id OrgRole.owner (record db {
      orgs = new_org id name slug created_by ∷ db.orgs;
      rows = record db.rows { next_id = suc id };
    })

-- The insert of create, by what resolveUser came to. The column `slug` is UNIQUE, also over
-- organizations that are deleted.
unfoldable pub insert_org :
    List ℕ → List ℕ → ℕ → OrgDb → Result (User × OrgDb) → OrgDb × Result (Unit {0})
unfolding create_for
insert_org name slug created_by db (throws x) = (db, throws x)
insert_org name slug created_by db (ok (owner, db')) =
    if any (λ o. eq_text o.slug slug) db'.orgs
    then (db', throws internal)
    else (create_for name slug created_by owner db', ok tt)

-- create: the rows that it leaves, and whether it threw.
unfoldable pub create :
    Crypto → List ℕ → List ℕ → ℕ → Option (List ℕ) → ℕ → OrgDb → OrgDb × Result (Unit {0})
unfolding insert_org
create c name slug email password created_by db = elim (get_by_slug slug db.orgs) [
  | some taken ↦ (db, throws bad_request)
  | none ↦ insert_org name slug created_by db (resolve_user c email password db)
]

pub record UpdateOrgDto : Type 0 where
  pub name : Option (List ℕ)
  pub slug : Option (List ℕ)
  pub status : Option OrgStatus

abbrev pub given {ℓ} : {A : Type ℓ} → Option A → A → A
given none old = old
given (some new) old = new

abbrev pub apply_update : UpdateOrgDto → Organization → Organization
apply_update dto o = record o {
  name = given dto.name o.name;
  slug = given dto.slug o.slug;
  status = given dto.status o.status;
}

-- Whether another organization has the slug that is asked for.
abbrev pub slug_taken : ℕ → Option (List ℕ) → OrgDb → Bool
slug_taken org none db = false
slug_taken org (some slug) db = elim (get_by_slug slug db.orgs) [
  | none ↦ false
  | some existing ↦ not (existing.id == org)
]

-- UNIQUE (slug) at the update
abbrev pub slug_clashes : ℕ → Option (List ℕ) → OrgDb → Bool
slug_clashes org none db = false
slug_clashes org (some slug) db = any (λ o. not (o.id == org) && eq_text o.slug slug) db.orgs

-- update
unfoldable pub update : ℕ → UpdateOrgDto → OrgDb → Result OrgDb
unfolding get
update org dto db = do
  o ← get org db
  throw_if (slug_taken org dto.slug db) bad_request
  throw_if (slug_clashes org dto.slug db) internal
  ok (record db { orgs = update_org org (apply_update dto) db.orgs })

-- A limit that is not submitted is none; null is `some none`.
pub record UpdatePlanDto : Type 0 where
  pub plan : Option OrgPlan
  pub storage_limit_bytes : Option (Option ℕ)
  pub event_limit : Option (Option ℕ)

abbrev pub is_enterprise : OrgPlan → Bool
is_enterprise OrgPlan.enterprise = true
is_enterprise _ = false

-- `limit != null`
abbrev pub is_number : Option (Option ℕ) → Bool
is_number (some (some n)) = true
is_number _ = false

abbrev pub same_plan : OrgPlan → OrgPlan → Bool
same_plan OrgPlan.starter OrgPlan.starter = true
same_plan OrgPlan.pro OrgPlan.pro = true
same_plan OrgPlan.enterprise OrgPlan.enterprise = true
same_plan _ _ = false

-- The patch of updatePlan.
unfoldable pub apply_plan : OrgPlan → UpdatePlanDto → Organization → Organization
apply_plan plan dto o =
    if is_enterprise plan
    then record o {
      plan = plan;
      storage_limit_bytes = given dto.storage_limit_bytes o.storage_limit_bytes;
      event_limit = given dto.event_limit o.event_limit;
    }
    else record o { plan = plan; storage_limit_bytes = none; event_limit = none }

abbrev pub plan_audit : ℕ → ℕ → OrgPlan → OrgPlan → AuditRow
plan_audit org actor before after = record {
  action = if same_plan before after then AuditAction.limits_changed else AuditAction.plan_changed;
  org_id = org;
  user_id = actor;
}

-- updatePlan
unfoldable pub update_plan : ℕ → UpdatePlanDto → ℕ → OrgDb → Result OrgDb
unfolding get
update_plan org dto actor db = do
  before ← get org db
  let plan = given dto.plan before.plan
  throw_if
      ((is_number dto.storage_limit_bytes || is_number dto.event_limit) && not (is_enterprise plan))
      bad_request
  ok (record db {
    orgs = update_org org (apply_plan plan dto) db.orgs;
    audit = plan_audit org actor before.plan plan ∷ db.audit;
  })

-- remove
unfoldable pub remove : ℕ → OrgDb → Result OrgDb
unfolding get
remove org db = do
  o ← get org db
  ok (record db {
    orgs = update_org org (λ o. record o { deleted = true }) db.orgs;
    queue = db.queue ++ (org ∷ []);
  })

-- addMember
unfoldable pub add_member : Crypto → ℕ → ℕ → Option (List ℕ) → OrgRole → OrgDb → Result OrgDb
unfolding get
add_member c org email password role db = elim (get org db) [
  | throws x ↦ throws x
  | ok o ↦ elim (resolve_user c email password db) [
    | throws x ↦ throws x
    | ok found ↦ ok (put_member org found.0.id role found.1)
  ]
]

abbrev pub is_owner : OrgRole → Bool
is_owner OrgRole.owner = true
is_owner _ = false

-- `owners.length === 1 && owners[0].userId === userId`
abbrev pub is_only : ℕ → List OrganizationUser → Bool
is_only user (m ∷ []) = m.user_id == user
is_only user _ = false

-- ensureNotLastOwner; no role is the removal.
unfoldable pub ensure_not_last_owner : ℕ → ℕ → Option OrgRole → OrgDb → Result (Unit {0})
unfolding list_members
ensure_not_last_owner org user new_role db =
    if elim new_role [ none ↦ false | some r ↦ is_owner r ]
    then ok tt
    else throw_if (is_only user (filter (λ m. is_owner m.role) (list_members org db.rows)))
        bad_request

-- updateMember
unfoldable pub update_member : ℕ → ℕ → OrgRole → OrgDb → Result OrgDb
unfolding ensure_not_last_owner
update_member org user role db = elim (get_membership org user db.rows) [
  | none ↦ throws not_found
  | some m ↦ ensure_not_last_owner org user (some role) db >> ok (put_member org user role db)
]

-- removeMember
unfoldable pub remove_member : ℕ → ℕ → OrgDb → Result OrgDb
unfolding ensure_not_last_owner
remove_member org user db = elim (get_membership org user db.rows) [
  | none ↦ throws not_found
  | some m ↦
      ensure_not_last_owner org user none db
      >> ok
          (record db { rows = record db.rows { members = delete_member org user db.rows.members } })
]

-- PASSWORD_RESET_TTL_MS
abbrev pub password_reset_ttl_ms : ℕ
password_reset_ttl_ms = 24 * 60 * 60 * 1000

-- The rows that a reset by an admin leaves: `lock` is the text nobody holds, `token` that of the link.
unfoldable pub lock_account : Crypto → ℕ → List ℕ → List ℕ → User → Rows.Db → Rows.Db
lock_account c now lock token user rows =
    create_token
      (record {
        user_id = user.id;
        token = c.hash_sha256 token;
        expires_at = now + password_reset_ttl_ms;
        used_at = none;
      })
      (invalidate_for_user now user.id
        (delete_for_user user.id none (set_password user.id (c.hash_bcrypt lock) rows)))

-- The mail and the audit row, which is written only when the mail was sent.
unfoldable pub send_link : Bool → ℕ → ℕ → List ℕ → User → OrgDb → OrgDb × Result (Unit {0})
send_link sends org actor token user db =
    if sends
    then (
      record db {
        mails = record { to = user.email; token = token } ∷ db.mails;
        audit =
            record { action = AuditAction.password_reset_admin; org_id = org; user_id = actor }
            ∷ db.audit;
      },
      ok tt,
    )
    else (db, throws internal)

-- resetMemberPassword of a member, by the row of the user.
unfoldable pub reset_user :
    Crypto → ℕ → Bool → List ℕ → List ℕ → ℕ → ℕ → OrgDb → Option User → OrgDb × Result (Unit {0})
unfolding lock_account send_link
reset_user c now sends lock token org actor db none = (db, throws not_found)
reset_user c now sends lock token org actor db (some u) =
    send_link sends org actor token u (record db { rows = lock_account c now lock token u db.rows })

-- resetMemberPassword: `sends` is whether the mail server takes the mail.
unfoldable pub reset_member_password :
    Crypto → ℕ → Bool → List ℕ → List ℕ → ℕ → ℕ → ℕ → OrgDb → OrgDb × Result (Unit {0})
unfolding reset_user
reset_member_password c now sends lock token org user actor db =
    elim (get_membership org user db.rows) [
      | none ↦ (db, throws not_found)
      | some m ↦ reset_user c now sends lock token org actor db (get_user user db.rows)
    ]
