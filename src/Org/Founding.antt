-- ===== src/Org/Founding.antt =====
-- Owners and the accounts that resolveUser finds or makes, and the reset of an account
-- (apps/backend/src/services/organization.service.ts).
use event_media_platform.Prelude.{
  find_holds, ℕ, ◌≡◌, refl, ◌∙◌, inl, inr, Bool, true, false, not, ◌&&◌, ◌||◌, List, ◌∷◌, Option,
  arith, ◌==◌, ==_refl, find, any, Bool-cases, Option-cases, update_by, All-map, find-any,
  any-update_by,
}
use event_media_platform.Prelude.Text.{eq_text}
use event_media_platform.Prelude.Result.{Result, ok, throws, Holds}
use event_media_platform.Auth.Rows.{
  OrgRole, User, get_user, get_by_email, delete_for_user, invalidate_for_user, set_password,
  get_membership,
}
use event_media_platform.Auth.Guard.{Crypto}
use event_media_platform.Org.Rows.{OrgDb, get_by_id, get_by_slug, create_token}
use event_media_platform.Org.Service.{
  get, resolve_user, put_member, create_for, create, add_member, is_owner, lock_account, send_link,
  reset_member_password, insert_org, reset_user,
}
use event_media_platform.Org.Members.{
  is_keyed-upsert, has_owner-upsert_owner, has_owner-upsert_self, has_owner-users,
}
use event_media_platform.Org.Owners.{put-Owned, Owned, is_last_owner}

-- The user that resolveUser finds or makes exists, and the owners stay.
abbrev Resolved : User × OrgDb → Type 0
Resolved found =
    Owned found.1 × (any (λ u. u.id == found.0.id && not u.deleted) found.1.rows.users ≡ true)

abbrev new_user : Crypto → ℕ → List ℕ → OrgDb → User
new_user c email text db = record {
  id = db.rows.next_id;
  email = email;
  password = c.hash_bcrypt text;
  is_super_admin = false;
  deleted = false;
}

pub resolve_user-Resolved :
    (c : Crypto) (email : ℕ) (password : Option (List ℕ)) (db : OrgDb)
    → Owned db
    → Holds Resolved (resolve_user c email password db)
unfolding resolve_user get_by_email
resolve_user-Resolved c email password db h =
    elim (Option-cases (find (λ u. u.email == email && not u.deleted) db.rows.users)) [
      | inr (user, e) ↦
          let shown = find_holds (λ u. u.email == email && not u.deleted) db.rows.users e in
          rw (Holds, e)
            (
              h,
              find-any (λ u. u.email == email && not u.deleted)
                  (λ u. u.id == user.id && not u.deleted) db.rows.users e (ground arith),
            )
      | inl e ↦ elim (Option-cases password) [
        | inl n ↦ rw (Holds, e, n) tt
        | inr (text, n) ↦ elim (Bool-cases (any (λ u. u.email == email) db.rows.users)) [
          | inl t ↦ rw (Holds, e, n, t) tt
          | inr t ↦
              rw (Holds, e, n, t)
                (
                  (
                    h.0,
                    All-map
                        (λ o k.
                          has_owner-users o.id db.rows.users
                            (new_user c email text db ∷ db.rows.users) db.rows.members
                            (λ k live. ground arith) k)
                        db.orgs h.1,
                  ),
                  rw (==_refl db.rows.next_id) refl,
                )
        ]
      ]
    ]

-- Whether addMember leaves the last owner what it is: the test of ensureNotLastOwner, which addMember
-- does not make.
abbrev pub spares_last_owner : ℕ → OrgRole → Result (User × OrgDb) → Bool
spares_last_owner org role (throws x) = true
spares_last_owner org role (ok (user, db)) = is_owner role || not (is_last_owner org user.id db)

pub add_member-Owned :
    (c : Crypto) (org email : ℕ) (password : Option (List ℕ)) (role : OrgRole) (db : OrgDb)
    → Owned db
    → spares_last_owner org role (resolve_user c email password db) ≡ true
    → Holds Owned (add_member c org email password role db)
unfolding add_member get
add_member-Owned c org email password role db h g = elim (Option-cases (get_by_id org db.orgs)) [
  | inl e ↦ rw (Holds, e) tt
  | inr (o, e) ↦
      rw (Holds, e)
        (go (resolve_user c email password db) (resolve_user-Resolved c email password db h) g)
]
  where
    go :
        (r : Result (User × OrgDb))
        → Holds Resolved r
        → spares_last_owner org role r ≡ true
        → Holds Owned (elim r [
          | throws x ↦ throws x
          | ok found ↦ ok (put_member org found.0.id role found.1)
        ])
    go (throws x) k s = tt
    go (ok (user, d)) k s = put-Owned org user.id role d k.0 s

pub insert_org-Owned :
    (name slug : List ℕ) (creator : ℕ) (db : OrgDb) (r : Result (User × OrgDb))
    → Owned db
    → Holds Resolved r
    → Owned (insert_org name slug creator db r).0
unfolding insert_org create_for
insert_org-Owned name slug creator db (throws x) h k = h
insert_org-Owned name slug creator db (ok (user, d)) h k =
    elim (Bool-cases (any (λ o. eq_text o.slug slug) d.orgs)) [
      | inl t ↦ rw t k.0
      | inr t ↦
          let id = d.rows.next_id in
          let members = d.rows.members in
          rw t (
            is_keyed-upsert id user.id OrgRole.owner members k.0.0,
            (
              has_owner-upsert_self id user.id d.rows.users members k.1,
              All-map (λ o. has_owner-upsert_owner o.id id user.id d.rows.users members) d.orgs
                  k.0.1,
            ),
          )
    ]

pub create-Owned :
    (c : Crypto) (name slug : List ℕ) (email : ℕ) (password : Option (List ℕ)) (creator : ℕ)
    (db : OrgDb)
    → Owned db
    → Owned (create c name slug email password creator db).0
unfolding create
create-Owned c name slug email password creator db h =
    elim (Option-cases (get_by_slug slug db.orgs)) [
      | inr (o, e) ↦ rw (Owned, create, e) h
      | inl e ↦
          rw (Owned, create, e)
            (insert_org-Owned name slug creator db (resolve_user c email password db) h
              (resolve_user-Resolved c email password db h))
    ]

pub send_link-Owned :
    (sends : Bool) (org actor : ℕ) (token : List ℕ) (user : User) (db : OrgDb)
    → Owned db
    → Owned (send_link sends org actor token user db).0
unfolding send_link
send_link-Owned true org actor token user db h = h
send_link-Owned false org actor token user db h = h

-- A new password hides no user.
pub lock-Owned :
    (c : Crypto) (now : ℕ) (lock token : List ℕ) (u : User) (db : OrgDb)
    → Owned db
    → Owned (record db { rows = lock_account c now lock token u db.rows })
unfolding lock_account set_password delete_for_user invalidate_for_user create_token
lock-Owned c now lock token u db h =
    let hash = c.hash_bcrypt lock in
    let users = update_by (λ u. u.id) u.id (λ u. record u { password = hash }) db.rows.users in
    (
      h.0,
      All-map
          (λ o. has_owner-users o.id db.rows.users users db.rows.members (λ k live.
            any-update_by (λ u. u.id == k && not u.deleted) (λ u. u.id) u.id
              (λ u. record u { password = hash }) db.rows.users (λ x. refl)
            ∙ live))
          db.orgs h.1,
    )

pub reset-Owned :
    (c : Crypto) (now : ℕ) (sends : Bool) (lock token : List ℕ) (org user actor : ℕ) (db : OrgDb)
    → Owned db
    → Owned (reset_member_password c now sends lock token org user actor db).0
unfolding reset_member_password reset_user
reset-Owned c now sends lock token org user actor db h =
    elim (Option-cases (get_membership org user db.rows)) [
      | inl m ↦ rw (Owned, reset_member_password, m) h
      | inr (row, m) ↦ elim (Option-cases (get_user user db.rows)) [
        | inl e ↦ rw (Owned, reset_member_password, m, e) h
        | inr (u, e) ↦
            rw (Owned, reset_member_password, m, e)
              (send_link-Owned sends org actor token u
                (record db { rows = lock_account c now lock token u db.rows })
                (lock-Owned c now lock token u db h))
      ]
    ]
