-- ===== src/Examples/Org.antt =====
-- The theorems about organizations at concrete inputs.
use event_media_platform.Prelude.{
  ◌+◌, ◌≡◌, refl, inl, true, false, not, [], ◌∷◌, none, some, arith, ◌==◌, every, length,
}
use event_media_platform.Prelude.Text.{codes}
use event_media_platform.Prelude.Result.{throws, internal, state_left}
use event_media_platform.Auth.Rows.{OrgRole, User, Session, PasswordResetToken, OrganizationUser}
use event_media_platform.Auth.Rows
use event_media_platform.Auth.Passwords.{reset_password}
use event_media_platform.Upload.Quota.{OrgPlan}
use event_media_platform.Org.Rows.{OrgStatus, Organization, OrgDb}
use event_media_platform.Org.Service.{
  create, add_member, reset_member_password, UpdatePlanDto, password_reset_ttl_ms, remove,
}
use event_media_platform.Org.Members.{has_owner, is_keyed}
use event_media_platform.Org.Owners.{Owned}
use event_media_platform.Org.History.{
  OrgOperation, creates, updates_plan, adds_member, updates_member, removes_member, perform,
  History, start, then_perform, history-Owned,
}
use event_media_platform.Org.Plans.{AllStandard, limits-AllStandard}
use event_media_platform.Org.Lockout.{HasPassword, is_dead_or_new, reset_locks_out}
use event_media_platform.Examples.Auth.{toy_hash, crypto}

abbrev ann : User
ann = record { id = 1; email = 11; password = 300; is_super_admin = false; deleted = false }

abbrev ben : User
ben = record { id = 2; email = 22; password = 400; is_super_admin = false; deleted = false }

abbrev ann_owns : OrganizationUser
ann_owns = record { org_id = 7; user_id = 1; role = OrgRole.owner }

abbrev ben_helps : OrganizationUser
ben_helps = record { org_id = 7; user_id = 2; role = OrgRole.member }

abbrev studio : Organization
studio = record {
  id = 7;
  name = codes "Studio";
  slug = codes "studio";
  status = OrgStatus.active;
  plan = OrgPlan.enterprise;
  storage_limit_bytes = some 5;
  event_limit = none;
  created_by = 1;
  deleted = false;
}

abbrev pub org_db : OrgDb
org_db = record {
  rows = record {
    users = ann ∷ ben ∷ [];
    sessions = record { id = 3; user_id = 1; token = 9; expires_at = none } ∷ [];
    reset_tokens = record { user_id = 1; token = 77; expires_at = 999; used_at = none } ∷ [];
    participants = [];
    events = [];
    members = ann_owns ∷ ben_helps ∷ [];
    next_id = 10;
  };
  orgs = studio ∷ [];
  queue = [];
  mails = [];
  audit = [];
}

org_db-Owned : Owned org_db
unfolding is_keyed
org_db-Owned = (refl, (refl, tt))

-- Ben becomes an owner, Ann leaves, Ann is added again as a member, a second organization is made.
abbrev ben_owns : OrgDb
ben_owns = perform crypto (updates_member 7 2 OrgRole.owner) org_db

abbrev ann_left : OrgDb
ann_left = perform crypto (removes_member 7 1) ben_owns

abbrev ann_back : OrgDb
ann_back = perform crypto (adds_member 7 11 none OrgRole.member) ann_left

abbrev two_orgs : OrgDb
two_orgs =
    perform crypto (creates (codes "Two") (codes "two") 33 (some (codes "secret")) 1) ann_back

changes : History crypto org_db two_orgs
unfolding event_media_platform.Org.Service.resolve_user Rows.get_by_email
    event_media_platform.Org.Service.remove_member Rows.get_membership
    event_media_platform.Org.Service.update_member event_media_platform.Org.Rows.upsert_member
    event_media_platform.Org.Rows.delete_member
changes =
    then_perform org_db ann_back (creates (codes "Two") (codes "two") 33 (some (codes "secret")) 1)
      (then_perform org_db ann_left (adds_member 7 11 none OrgRole.member)
        (then_perform org_db ben_owns (removes_member 7 1)
          (then_perform org_db org_db (updates_member 7 2 OrgRole.owner) (start org_db) refl) refl)
        refl)
      refl

history-Owned_example : Owned two_orgs
history-Owned_example = history-Owned crypto org_db two_orgs org_db-Owned changes

-- Off Enterprise, the custom limit goes.
abbrev to_pro : OrgOperation
to_pro =
    updates_plan 7
      (record { plan = some OrgPlan.pro; storage_limit_bytes = none; event_limit = none }) 1

limits-AllStandard_example : AllStandard (perform crypto to_pro org_db)
limits-AllStandard_example = limits-AllStandard crypto to_pro org_db (inl refl, tt)

abbrev after_reset : Rows.Db
after_reset =
    (reset_member_password crypto 100 false (codes "lock") (codes "link") 7 1 5 org_db).0.rows

reset_locks_out_example :
    (every (λ s. not (s.user_id == 1)) after_reset.sessions ≡ true)
    × (every
          (is_dead_or_new 1 150 77 (toy_hash (codes "link")) (100 + password_reset_ttl_ms))
          after_reset.reset_tokens
        ≡ true)
    × HasPassword crypto
        (codes "new")
        1
        (reset_password crypto 200 (codes "link") (codes "new") after_reset)
unfolding Rows.get_membership Rows.get_user
reset_locks_out_example =
    reset_locks_out crypto 100 150 200 77 false (codes "lock") (codes "link") (codes "new") 7 1 5
      org_db ann_owns ann refl refl (omega arith)

-- addMember makes the only owner a member.
demoted :
    has_owner 7
      (ann ∷ ben ∷ [])
      (state_left (add_member crypto 7 11 none OrgRole.member org_db) org_db).rows.members
    ≡ false
unfolding add_member event_media_platform.Org.Rows.get_by_id
    event_media_platform.Org.Service.resolve_user Rows.get_by_email
    event_media_platform.Org.Rows.upsert_member
demoted = refl

-- The slug of an organization that was removed cannot be used again, and the account of the owner is
-- made all the same.
slug_is_gone :
    let db = state_left (remove 7 org_db) org_db in
    let made = create crypto (codes "New") (codes "studio") 33 (some (codes "secret")) 1 db in
    (made.1 ≡ throws internal) × (length made.0.rows.users ≡ 3)
unfolding create event_media_platform.Org.Rows.get_by_slug remove
    event_media_platform.Org.Rows.get_by_id event_media_platform.Org.Service.resolve_user
    Rows.get_by_email
slug_is_gone = (refl, refl)
