-- ===== src/Org/Rows.antt =====
-- The rows of organization and organization_user with the queries of
-- apps/backend/src/repositories/organization.repository.ts, on the rows of users, sessions and reset
-- tokens of Auth. Members are listed in the order in which they were added, as their rows stand.
use event_media_platform.Prelude.{
  ℕ, Bool, not, ◌&&◌, List, [], ◌∷◌, ◌++◌, map, Option, ◌==◌, if◌then◌else◌, filter, find, any,
  update_by,
}
use event_media_platform.Prelude.Text.{eq_text}
use event_media_platform.Auth.Rows.{OrgRole, User, PasswordResetToken, OrganizationUser}
use event_media_platform.Auth.Rows
use event_media_platform.Upload.Quota.{OrgPlan}
use event_media_platform.Upload.Quota

pub data OrgStatus : Type 0 where
  active suspended : OrgStatus

pub record Organization : Type 0 where
  pub id : ℕ
  pub name : List ℕ
  pub slug : List ℕ
  pub status : OrgStatus
  pub plan : OrgPlan
  pub storage_limit_bytes : Option ℕ
  pub event_limit : Option ℕ
  pub created_by : ℕ
  pub deleted : Bool

-- The part of the row that the quota service reads.
abbrev pub quota_row : Organization → Quota.Organization
quota_row o = record {
  id = o.id;
  plan = o.plan;
  storage_limit_bytes = o.storage_limit_bytes;
  event_limit = o.event_limit;
  deleted = o.deleted;
}

-- A mail with a reset link: the address and the token of the link.
pub record Mail : Type 0 where
  pub to : ℕ
  pub token : List ℕ

pub data AuditAction : Type 0 where
  limits_changed plan_changed password_reset_admin : AuditAction

pub record AuditRow : Type 0 where
  pub action : AuditAction
  pub org_id : ℕ
  pub user_id : ℕ

-- `queue` holds the organizations whose storage prefix is to be cleaned up.
pub record OrgDb : Type 0 where
  pub rows : Rows.Db
  pub orgs : List Organization
  pub queue : List ℕ
  pub mails : List Mail
  pub audit : List AuditRow

-- getById
unfoldable pub get_by_id : ℕ → List Organization → Option Organization
get_by_id id orgs = find (λ o. o.id == id && not o.deleted) orgs

-- getBySlug
unfoldable pub get_by_slug : List ℕ → List Organization → Option Organization
get_by_slug slug orgs = find (λ o. eq_text o.slug slug && not o.deleted) orgs

-- update and softDelete of the organizations
abbrev pub update_org : ℕ → (Organization → Organization) → List Organization → List Organization
update_org id f orgs = update_by (λ o. o.id) id f orgs

abbrev pub is_row : ℕ → ℕ → OrganizationUser → Bool
is_row org user m = m.org_id == org && m.user_id == user

abbrev pub set_role : ℕ → ℕ → OrgRole → OrganizationUser → OrganizationUser
set_role org user role m = if is_row org user m then record m { role = role } else m

-- addMember: INSERT … ON CONFLICT (org_id, user_id) DO UPDATE SET role
unfoldable pub upsert_member : ℕ → ℕ → OrgRole → List OrganizationUser → List OrganizationUser
upsert_member org user role members =
    if any (is_row org user) members
    then map (set_role org user role) members
    else members ++ (record { org_id = org; user_id = user; role = role } ∷ [])

-- removeMember
unfoldable pub delete_member : ℕ → ℕ → List OrganizationUser → List OrganizationUser
delete_member org user members = filter (λ m. not (is_row org user m)) members

-- The join of listMembers: the user of the row is not deleted.
abbrev pub is_current : ℕ → List User → OrganizationUser → Bool
is_current org users m = m.org_id == org && any (λ u. u.id == m.user_id && not u.deleted) users

-- listMembers
unfoldable pub list_members : ℕ → Rows.Db → List OrganizationUser
list_members org db = filter (is_current org db.users) db.members

-- create of the reset tokens
unfoldable pub create_token : PasswordResetToken → Rows.Db → Rows.Db
create_token t db = record db { reset_tokens = t ∷ db.reset_tokens }
