-- ===== src/Org/Owners.antt =====
-- Histories of an organization's operations and what they do to its owners
-- (apps/backend/src/services/organization.service.ts).
use event_media_platform.Prelude.{
  ℕ, ◌≡◌, refl, inl, inr, Bool, true, false, not, ◌&&◌, ◌||◌, arith, filter, Bool-cases,
  Option-cases, All, All-map, All-update_by,
}
use event_media_platform.Prelude.Result.{Holds}
use event_media_platform.Auth.Rows.{OrgRole, get_membership}
use event_media_platform.Upload.Quota.{OrgPlan}
use event_media_platform.Org.Rows.{
  is_row, delete_member, Organization, OrgDb, get_by_id, update_org, is_current, list_members,
}
use event_media_platform.Org.Service.{
  is_number, get, put_member, UpdateOrgDto, apply_update, slug_taken, slug_clashes, update,
  UpdatePlanDto, apply_plan, is_enterprise, given, update_plan, remove, is_owner, is_only,
  ensure_not_last_owner, update_member, remove_member,
}
use event_media_platform.Org.Members.{
  has_owner, is_keyed, is_keyed-filter, is_keyed-upsert, spared_any, has_owner-delete,
  has_owner-upsert, has_owner-upsert_owner,
}

-- Members are keyed, and every organization has an owner whose account exists.
abbrev pub Owned : OrgDb → Type 0
Owned db =
    (is_keyed db.rows.members ≡ true)
    × All (λ o. has_owner o.id db.rows.users db.rows.members ≡ true) db.orgs

-- ensureNotLastOwner's test
abbrev pub is_last_owner : ℕ → ℕ → OrgDb → Bool
is_last_owner org user db =
    is_only user
      (filter (λ m. is_owner m.role) (filter (is_current org db.rows.users) db.rows.members))

pub put-Owned :
    (org user : ℕ) (role : OrgRole) (db : OrgDb)
    → Owned db
    → (is_owner role || not (is_last_owner org user db)) ≡ true
    → Owned (put_member org user role db)
put-Owned org user OrgRole.owner db h g = (
  is_keyed-upsert org user OrgRole.owner db.rows.members h.0,
  All-map (λ o. has_owner-upsert_owner o.id org user db.rows.users db.rows.members) db.orgs h.1,
)
put-Owned org user role db h g =
    let free : is_last_owner org user db ≡ false = ground arith in
    (
      is_keyed-upsert org user role db.rows.members h.0,
      All-map
          (λ o k.
            has_owner-upsert o.id org user role db.rows.users db.rows.members
              (spared_any o.id org user db.rows.users db.rows.members h.0 k free))
          db.orgs h.1,
    )

pub delete-Owned :
    (org user : ℕ) (db : OrgDb)
    → Owned db
    → is_last_owner org user db ≡ false
    → Owned
        (record db { rows = record db.rows { members = delete_member org user db.rows.members } })
unfolding delete_member
delete-Owned org user db h free = (
  is_keyed-filter (λ m. not (is_row org user m)) db.rows.members h.0,
  All-map
      (λ o k.
        has_owner-delete o.id org user db.rows.users db.rows.members
          (spared_any o.id org user db.rows.users db.rows.members h.0 k free))
      db.orgs h.1,
)

pub update_member-Owned :
    (org user : ℕ) (role : OrgRole) (db : OrgDb)
    → Owned db
    → Holds Owned (update_member org user role db)
unfolding update_member ensure_not_last_owner list_members
update_member-Owned org user role db h = elim (Option-cases (get_membership org user db.rows)) [
  | inl m ↦ rw (Holds, m) tt
  | inr (row, m) ↦ elim (Bool-cases (is_owner role)) [
    | inl r ↦ rw (Holds, m, r) (put-Owned org user role db h (rw r refl))
    | inr r ↦ elim (Bool-cases (is_last_owner org user db)) [
      | inl g ↦ rw (Holds, m, r, g) tt
      | inr g ↦ rw (Holds, m, r, g) (put-Owned org user role db h (rw (r, g) refl))
    ]
  ]
]

pub remove_member-Owned :
    (org user : ℕ) (db : OrgDb) → Owned db → Holds Owned (remove_member org user db)
unfolding remove_member ensure_not_last_owner list_members
remove_member-Owned org user db h = elim (Option-cases (get_membership org user db.rows)) [
  | inl m ↦ rw (Holds, m) tt
  | inr (row, m) ↦ elim (Bool-cases (is_last_owner org user db)) [
    | inl g ↦ rw (Holds, m, g) tt
    | inr g ↦ rw (Holds, m, g) (delete-Owned org user db h g)
  ]
]

-- An update of an organization's row that keeps its id.
pub update_org-Owned :
    (org : ℕ) (f : Organization → Organization) (db : OrgDb)
    → ((o : Organization) → (f o).id ≡ o.id)
    → Owned db
    → Owned (record db { orgs = update_org org f db.orgs })
update_org-Owned org f db same h = (
  h.0,
  All-update_by (λ o. has_owner o.id db.rows.users db.rows.members ≡ true) (λ o. o.id) org f db.orgs
      (λ o k. rw (same o) k) h.1,
)

pub update-Owned :
    (org : ℕ) (dto : UpdateOrgDto) (db : OrgDb) → Owned db → Holds Owned (update org dto db)
unfolding update get
update-Owned org dto db h = elim (Option-cases (get_by_id org db.orgs)) [
  | inl e ↦ rw (Holds, e) tt
  | inr (o, e) ↦ elim (Bool-cases (slug_taken org dto.slug db)) [
    | inl t ↦ rw (Holds, e, t) tt
    | inr t ↦ elim (Bool-cases (slug_clashes org dto.slug db)) [
      | inl s ↦ rw (Holds, e, t, s) tt
      | inr s ↦ rw (Holds, e, t, s) (update_org-Owned org (apply_update dto) db (λ o. refl) h)
    ]
  ]
]

pub apply_plan-id :
    (plan : OrgPlan) (dto : UpdatePlanDto) (o : Organization) → (apply_plan plan dto o).id ≡ o.id
unfolding apply_plan
apply_plan-id plan dto o = ground arith

pub update_plan-Owned :
    (org : ℕ) (dto : UpdatePlanDto) (actor : ℕ) (db : OrgDb)
    → Owned db
    → Holds Owned (update_plan org dto actor db)
unfolding update_plan get
update_plan-Owned org dto actor db h = elim (Option-cases (get_by_id org db.orgs)) [
  | inl e ↦ rw (Holds, e) tt
  | inr (o, e) ↦
      let plan = given dto.plan o.plan in
      elim (Bool-cases (
        (is_number dto.storage_limit_bytes || is_number dto.event_limit)
        && not (is_enterprise plan))) [
          | inl t ↦ rw (Holds, e, t) tt
          | inr t ↦
              rw (Holds, e, t)
                (update_org-Owned org (apply_plan plan dto) db (apply_plan-id plan dto) h)
        ]
]

pub remove-Owned : (org : ℕ) (db : OrgDb) → Owned db → Holds Owned (remove org db)
unfolding remove get
remove-Owned org db h = elim (Option-cases (get_by_id org db.orgs)) [
  | inl e ↦ rw (Holds, e) tt
  | inr (o, e) ↦
      rw (Holds, e) (update_org-Owned org (λ o. record o { deleted = true }) db (λ o. refl) h)
]
