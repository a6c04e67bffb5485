-- ===== src/Org/Plans.antt =====
-- Custom limits and the plan of an organization: updatePlan of
-- apps/backend/src/services/organization.service.ts with limitsFor of services/quota.service.ts. The
-- comment on limitsFor speaks of an organization that keeps a custom limit after a downgrade; updatePlan
-- leaves no such row.
use event_media_platform.Prelude.{
  ℕ, ◌≡◌, refl, ◌⊎◌, inl, inr, Bool, true, false, not, ◌&&◌, ◌||◌, List, Option, none, some, ◌==◌,
  any, Bool-cases, Option-cases, All, All-update_by,
}
use event_media_platform.Prelude.Text.{eq_text}
use event_media_platform.Prelude.Result.{◌>>◌, Result, ok, throws, Holds, state_left-Holds}
use event_media_platform.Auth.Rows.{get_by_email, OrgRole, User, get_membership, get_user}
use event_media_platform.Auth.Guard.{Crypto}
use event_media_platform.Upload.Quota.{OrgPlan, plan_limits, limits_for}
use event_media_platform.Org.Rows.{
  delete_member, Organization, OrgDb, quota_row, get_by_id, get_by_slug, update_org,
}
use event_media_platform.Org.Service.{
  get, resolve_user, put_member, create_for, insert_org, create, UpdateOrgDto, apply_update,
  slug_taken, slug_clashes, update, UpdatePlanDto, apply_plan, is_enterprise, is_number, given,
  update_plan, remove, add_member, ensure_not_last_owner, update_member, remove_member, send_link,
  reset_user, reset_member_password,
}
use event_media_platform.Org.History.{
  removes_member, updates_member, adds_member, creates, updates, updates_plan, removes,
  resets_password, OrgOperation, perform,
}

-- Only Enterprise has limits that are not those of its plan.
abbrev pub IsStandard : Organization → Type 0
IsStandard o = (is_enterprise o.plan ≡ true) ⊎ (limits_for (quota_row o) ≡ plan_limits o.plan)

abbrev pub AllStandard : OrgDb → Type 0
AllStandard db = All IsStandard db.orgs

apply_plan-IsStandard :
    (plan : OrgPlan) (dto : UpdatePlanDto) (o : Organization) → IsStandard (apply_plan plan dto o)
unfolding apply_plan limits_for
apply_plan-IsStandard OrgPlan.enterprise dto o = inl refl
apply_plan-IsStandard OrgPlan.starter dto o = inr refl
apply_plan-IsStandard OrgPlan.pro dto o = inr refl

update_org-AllStandard :
    (org : ℕ) (f : Organization → Organization) (db : OrgDb)
    → ((o : Organization) → IsStandard o → IsStandard (f o))
    → AllStandard db
    → All IsStandard (update_org org f db.orgs)
update_org-AllStandard org f db keeps h = All-update_by IsStandard (λ o. o.id) org f db.orgs keeps h

update-AllStandard :
    (org : ℕ) (dto : UpdateOrgDto) (db : OrgDb)
    → AllStandard db
    → Holds AllStandard (update org dto db)
unfolding update get
update-AllStandard org dto db h = elim (Option-cases (get_by_id org db.orgs)) [
  | inl e ↦ rw (Holds, e) tt
  | inr (o, e) ↦ elim (Bool-cases (slug_taken org dto.slug db)) [
    | inl t ↦ rw (Holds, e, t) tt
    | inr t ↦ elim (Bool-cases (slug_clashes org dto.slug db)) [
      | inl s ↦ rw (Holds, e, t, s) tt
      | inr s ↦ rw (Holds, e, t, s) (update_org-AllStandard org (apply_update dto) db (λ o k. k) h)
    ]
  ]
]

update_plan-AllStandard :
    (org : ℕ) (dto : UpdatePlanDto) (actor : ℕ) (db : OrgDb)
    → AllStandard db
    → Holds AllStandard (update_plan org dto actor db)
unfolding update_plan get
update_plan-AllStandard org dto actor db h = elim (Option-cases (get_by_id org db.orgs)) [
  | inl e ↦ rw (Holds, e) tt
  | inr (o, e) ↦
      let plan = given dto.plan o.plan in
      elim (Bool-cases (
        (is_number dto.storage_limit_bytes || is_number dto.event_limit)
        && not (is_enterprise plan))) [
          | inl t ↦ rw (Holds, e, t) tt
          | inr t ↦
              rw (Holds, e, t)
                (update_org-AllStandard org (apply_plan plan dto) db
                  (λ x k. apply_plan-IsStandard plan dto x) h)
        ]
]

remove-AllStandard : (org : ℕ) (db : OrgDb) → AllStandard db → Holds AllStandard (remove org db)
unfolding remove get limits_for
remove-AllStandard org db h = elim (Option-cases (get_by_id org db.orgs)) [
  | inl e ↦ rw (Holds, e) tt
  | inr (o, e) ↦
      rw (Holds, e) (update_org-AllStandard org (λ o. record o { deleted = true }) db (λ o k. k) h)
]

-- What resolveUser returns has the organizations there were.
resolve_user-AllStandard :
    (c : Crypto) (email : ℕ) (password : Option (List ℕ)) (db : OrgDb)
    → AllStandard db
    → Holds (λ found. AllStandard found.1) (resolve_user c email password db)
unfolding resolve_user
resolve_user-AllStandard c email password db h = elim (Option-cases (get_by_email email db.rows)) [
  | inr (user, e) ↦ rw (Holds, e) h
  | inl e ↦ elim (Option-cases password) [
    | inl n ↦ rw (Holds, e, n) tt
    | inr (text, n) ↦ elim (Bool-cases (any (λ u. u.email == email) db.rows.users)) [
      | inl t ↦ rw (Holds, e, n, t) tt
      | inr t ↦ rw (Holds, e, n, t) h
    ]
  ]
]

insert_org-AllStandard :
    (name slug : List ℕ) (creator : ℕ) (db : OrgDb) (r : Result (User × OrgDb))
    → AllStandard db
    → Holds (λ found. AllStandard found.1) r
    → AllStandard (insert_org name slug creator db r).0
unfolding insert_org create_for limits_for
insert_org-AllStandard name slug creator db (throws x) h k = h
insert_org-AllStandard name slug creator db (ok (user, d)) h k =
    elim (Bool-cases (any (λ o. eq_text o.slug slug) d.orgs)) [
      | inl t ↦ rw t k
      | inr t ↦ rw t (inr refl, k)
    ]

create-AllStandard :
    (c : Crypto) (name slug : List ℕ) (email : ℕ) (password : Option (List ℕ)) (creator : ℕ)
    (db : OrgDb)
    → AllStandard db
    → AllStandard (create c name slug email password creator db).0
unfolding create
create-AllStandard c name slug email password creator db h =
    elim (Option-cases (get_by_slug slug db.orgs)) [
      | inr (o, e) ↦ rw (AllStandard, create, e) h
      | inl e ↦
          rw (AllStandard, create, e)
            (insert_org-AllStandard name slug creator db (resolve_user c email password db) h
              (resolve_user-AllStandard c email password db h))
    ]

-- The members are no part of it.
add_member-AllStandard :
    (c : Crypto) (org email : ℕ) (password : Option (List ℕ)) (role : OrgRole) (db : OrgDb)
    → AllStandard db
    → Holds AllStandard (add_member c org email password role db)
unfolding add_member get
add_member-AllStandard c org email password role db h =
    elim (Option-cases (get_by_id org db.orgs)) [
      | inl e ↦ rw (Holds, e) tt
      | inr (o, e) ↦
          rw (Holds, e)
            (go (resolve_user c email password db) (resolve_user-AllStandard c email password db h))
    ]
  where
    go :
        (r : Result (User × OrgDb))
        → Holds (λ found. AllStandard found.1) r
        → Holds AllStandard (elim r [
          | throws x ↦ throws x
          | ok found ↦ ok (put_member org found.0.id role found.1)
        ])
    go (throws x) k = tt
    go (ok (user, d)) k = k

update_member-AllStandard :
    (org user : ℕ) (role : OrgRole) (db : OrgDb)
    → AllStandard db
    → Holds AllStandard (update_member org user role db)
unfolding update_member
update_member-AllStandard org user role db h =
    elim (Option-cases (get_membership org user db.rows)) [
      | inl m ↦ rw (Holds, m) tt
      | inr (row, m) ↦ rw (Holds, m) (go (ensure_not_last_owner org user (some role) db))
    ]
  where
    go : (r : Result (Unit {0})) → Holds AllStandard (r >> ok (put_member org user role db))
    go (throws x) = tt
    go (ok done) = h

remove_member-AllStandard :
    (org user : ℕ) (db : OrgDb) → AllStandard db → Holds AllStandard (remove_member org user db)
unfolding remove_member
remove_member-AllStandard org user db h = elim (Option-cases (get_membership org user db.rows)) [
  | inl m ↦ rw (Holds, m) tt
  | inr (row, m) ↦ rw (Holds, m) (go (ensure_not_last_owner org user none db))
]
  where
    go :
        (r : Result (Unit {0}))
        → Holds AllStandard (
            r
            >> ok (record db {
              rows = record db.rows { members = delete_member org user db.rows.members };
            }))
    go (throws x) = tt
    go (ok done) = h

reset-AllStandard :
    (c : Crypto) (now : ℕ) (sends : Bool) (lock token : List ℕ) (org user actor : ℕ) (db : OrgDb)
    → AllStandard db
    → AllStandard (reset_member_password c now sends lock token org user actor db).0
unfolding reset_member_password reset_user send_link
reset-AllStandard c now sends lock token org user actor db h =
    elim (Option-cases (get_membership org user db.rows)) [
      | inl m ↦ rw (AllStandard, reset_member_password, m) h
      | inr (row, m) ↦ rw (AllStandard, reset_member_password, m) (go sends (get_user user db.rows))
    ]
  where
    go :
        (sends : Bool) (u : Option User)
        → AllStandard (reset_user c now sends lock token org actor db u).0
    go sends none = h
    go true (some u) = h
    go false (some u) = h

-- After any operation, when it is so before it, the limits of an organization that is not on Enterprise
-- are those of its plan: a downgrade clears the custom limits at once.
pub limits-AllStandard :
    (c : Crypto) (op : OrgOperation) (db : OrgDb) → AllStandard db → AllStandard (perform c op db)
limits-AllStandard c (creates name slug email password creator) db h =
    create-AllStandard c name slug email password creator db h
limits-AllStandard c (updates org dto) db h =
    state_left-Holds AllStandard (update org dto db) db h (update-AllStandard org dto db h)
limits-AllStandard c (updates_plan org dto actor) db h =
    state_left-Holds AllStandard (update_plan org dto actor db) db h
      (update_plan-AllStandard org dto actor db h)
limits-AllStandard c (removes org) db h =
    state_left-Holds AllStandard (remove org db) db h (remove-AllStandard org db h)
limits-AllStandard c (adds_member org email password role) db h =
    state_left-Holds AllStandard (add_member c org email password role db) db h
      (add_member-AllStandard c org email password role db h)
limits-AllStandard c (updates_member org user role) db h =
    state_left-Holds AllStandard (update_member org user role db) db h
      (update_member-AllStandard org user role db h)
limits-AllStandard c (removes_member org user) db h =
    state_left-Holds AllStandard (remove_member org user db) db h
      (remove_member-AllStandard org user db h)
limits-AllStandard c (resets_password now sends lock token org user actor) db h =
    reset-AllStandard c now sends lock token org user actor db h
