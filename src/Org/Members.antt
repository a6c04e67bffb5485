-- ===== src/Org/Members.antt =====
-- The members of an organization and its owners, over the rows of organization_user
-- (apps/backend/src/repositories/organization.repository.ts).
use event_media_platform.Prelude.{
  ℕ, ◌≡◌, refl, sym, ◌∙◌, inl, inr, Bool, true, false, not, ◌&&◌, List, [], ◌∷◌, ◌++◌, map, arith,
  ◌==◌, ==_refl, filter, any, Bool-cases, All, any-append, any-filter, any-weaken, any-map,
  filter-filter, All-map, filter-All,
}
use event_media_platform.Auth.Rows.{OrgRole, User, OrganizationUser}
use event_media_platform.Org.Rows.{is_row, set_role, is_current, upsert_member, delete_member}
use event_media_platform.Org.Service.{is_owner, is_only}

-- A member that listMembers shows, as an owner.
abbrev pub is_owner_of : ℕ → List User → OrganizationUser → Bool
is_owner_of org users m = is_current org users m && is_owner m.role

abbrev pub has_owner : ℕ → List User → List OrganizationUser → Bool
has_owner org users members = any (is_owner_of org users) members

-- PRIMARY KEY (org_id, user_id)
unfoldable pub is_keyed : List OrganizationUser → Bool
is_keyed [] = true
is_keyed (m ∷ ms) = not (any (is_row m.org_id m.user_id) ms) && is_keyed ms

any-filter-false :
    (p q : OrganizationUser → Bool) (ms : List OrganizationUser)
    → any p ms ≡ false
    → any p (filter q ms) ≡ false
any-filter-false p q [] h = refl
any-filter-false p q (m ∷ ms) h = ground (arith, any-filter-false p q ms)

pub is_keyed-filter :
    (q : OrganizationUser → Bool) (ms : List OrganizationUser)
    → is_keyed ms ≡ true
    → is_keyed (filter q ms) ≡ true
unfolding is_keyed
is_keyed-filter q [] h = refl
is_keyed-filter q (m ∷ ms) h =
    ground (arith, is_keyed-filter q ms, any-filter-false (is_row m.org_id m.user_id) q ms)

any-set_role :
    (a b org user : ℕ) (role : OrgRole) (ms : List OrganizationUser)
    → any (is_row a b) (map (set_role org user role) ms) ≡ any (is_row a b) ms
any-set_role a b org user role [] = refl
any-set_role a b org user role (m ∷ ms) = ground (arith, any-set_role a b org user role ms)

is_keyed-set_role :
    (org user : ℕ) (role : OrgRole) (ms : List OrganizationUser)
    → is_keyed (map (set_role org user role) ms) ≡ is_keyed ms
unfolding is_keyed
is_keyed-set_role org user role [] = refl
is_keyed-set_role org user role (m ∷ ms) =
    ground
      (arith, is_keyed-set_role org user role ms, any-set_role m.org_id m.user_id org user role ms)

is_keyed-append :
    (m : OrganizationUser) (ms : List OrganizationUser)
    → any (is_row m.org_id m.user_id) ms ≡ false
    → is_keyed ms ≡ true
    → is_keyed (ms ++ (m ∷ [])) ≡ true
unfolding is_keyed
is_keyed-append m [] h k = refl
is_keyed-append m (x ∷ ms) h k =
    ground (arith, is_keyed-append m ms, any-append (is_row x.org_id x.user_id) ms (m ∷ []))

pub is_keyed-upsert :
    (org user : ℕ) (role : OrgRole) (ms : List OrganizationUser)
    → is_keyed ms ≡ true
    → is_keyed (upsert_member org user role ms) ≡ true
unfolding upsert_member
is_keyed-upsert org user role ms k = elim (Bool-cases (any (is_row org user) ms)) [
  | inl e ↦ rw (e, is_keyed-set_role org user role ms) k
  | inr e ↦ rw e (is_keyed-append (record { org_id = org; user_id = user; role = role }) ms e k)
]

-- Among the owners of one organization, one that is not the only owner leaves another.
other_in :
    (org user : ℕ) (xs : List OrganizationUser)
    → is_keyed xs ≡ true
    → All (λ m. (m.org_id == org) ≡ true) xs
    → any (λ m. true) xs ≡ true
    → is_only user xs ≡ false
    → any (λ m. not (is_row org user m)) xs ≡ true
unfolding is_keyed
other_in org user [] k o a h = cc
other_in org user (x ∷ []) k o a h = ground arith
other_in org user (x ∷ y ∷ xs) k o a h = ground (arith, o.0, o.1.0)

pub other_owner :
    (org user : ℕ) (users : List User) (ms : List OrganizationUser)
    → is_keyed ms ≡ true
    → has_owner org users ms ≡ true
    → is_only user (filter (λ m. is_owner m.role) (filter (is_current org users) ms)) ≡ false
    → any (λ m. is_owner_of org users m && not (is_row org user m)) ms ≡ true
other_owner org user users ms k h g =
    let p = is_owner_of org users in
    let fused = filter-filter (λ m. is_owner m.role) (is_current org users) ms in
    let all =
      All-map {Q = λ m. (m.org_id == org) ≡ true} (λ m e. ground arith) (filter p ms)
        (filter-All p ms) in
    let some_owner =
      any-filter (λ m. true) p ms ∙ any-weaken p (λ m. p m && true) ms (λ m e. ground arith) h in
    sym (any-filter (λ m. not (is_row org user m)) p ms)
    ∙ other_in org user (filter p ms) (is_keyed-filter p ms k) all some_owner (rw fused at g)

-- An owner that is not in the row that changes stays an owner.
abbrev pub spared_owner : ℕ → ℕ → ℕ → List User → OrganizationUser → Bool
spared_owner id org user users m = is_owner_of id users m && not (is_row org user m)

-- The same in every organization that has an owner.
pub spared_any :
    (id org user : ℕ) (users : List User) (ms : List OrganizationUser)
    → is_keyed ms ≡ true
    → has_owner id users ms ≡ true
    → is_only user (filter (λ m. is_owner m.role) (filter (is_current org users) ms)) ≡ false
    → any (spared_owner id org user users) ms ≡ true
spared_any id org user users ms k h g = elim (Bool-cases (id == org)) [
  | inl e ↦
      let same : id ≡ org = ground arith in
      rw same (other_owner org user users ms k (rw same at h) g)
  | inr e ↦
      any-weaken (is_owner_of id users) (spared_owner id org user users) ms (λ m q. ground arith) h
]

pub has_owner-delete :
    (id org user : ℕ) (users : List User) (ms : List OrganizationUser)
    → any (spared_owner id org user users) ms ≡ true
    → has_owner id users (delete_member org user ms) ≡ true
unfolding delete_member
has_owner-delete id org user users ms h =
    any-filter (is_owner_of id users) (λ m. not (is_row org user m)) ms
    ∙ any-weaken (spared_owner id org user users)
        (λ m. not (is_row org user m) && is_owner_of id users m) ms (λ m q. ground arith) h

pub has_owner-upsert :
    (id org user : ℕ) (role : OrgRole) (users : List User) (ms : List OrganizationUser)
    → any (spared_owner id org user users) ms ≡ true
    → has_owner id users (upsert_member org user role ms) ≡ true
unfolding upsert_member
has_owner-upsert id org user role users ms h = elim (Bool-cases (any (is_row org user) ms)) [
  | inl e ↦ rw e (
      any-map (spared_owner id org user users) (is_owner_of id users) (set_role org user role) ms
        (λ m q. ground arith) h)
  | inr e ↦
      let kept =
        any-weaken (spared_owner id org user users) (is_owner_of id users) ms (λ m q. ground arith)
          h in
      rw
        (
          e,
          any-append (is_owner_of id users) ms
              (record { org_id = org; user_id = user; role = role } ∷ []),
          kept,
        )
        refl
]

-- A new owner takes nothing away.
pub has_owner-upsert_owner :
    (id org user : ℕ) (users : List User) (ms : List OrganizationUser)
    → has_owner id users ms ≡ true
    → has_owner id users (upsert_member org user OrgRole.owner ms) ≡ true
unfolding upsert_member
has_owner-upsert_owner id org user users ms h = elim (Bool-cases (any (is_row org user) ms)) [
  | inl e ↦ rw e (
      any-map (is_owner_of id users) (is_owner_of id users) (set_role org user OrgRole.owner) ms
        (λ m q. ground arith) h)
  | inr e ↦
      rw
        (
          e,
          any-append (is_owner_of id users) ms
              (record { org_id = org; user_id = user; role = OrgRole.owner } ∷ []),
          h,
        )
        refl
]

-- A user that is not deleted owns the organization that it is made the owner of.
pub has_owner-upsert_self :
    (org user : ℕ) (users : List User) (ms : List OrganizationUser)
    → any (λ u. u.id == user && not u.deleted) users ≡ true
    → has_owner org users (upsert_member org user OrgRole.owner ms) ≡ true
unfolding upsert_member
has_owner-upsert_self org user users ms h = elim (Bool-cases (any (is_row org user) ms)) [
  | inl e ↦ rw e (
      any-map (is_row org user) (is_owner_of org users) (set_role org user OrgRole.owner) ms
        (λ m q.
          let same_org : (m.org_id == org) ≡ true = ground arith in
          let same_user : m.user_id ≡ user = ground arith in rw (q, same_org, same_user, h) refl)
        e)
  | inr e ↦
      rw
        (
          e,
          any-append (is_owner_of org users) ms
              (record { org_id = org; user_id = user; role = OrgRole.owner } ∷ []),
          ==_refl org,
          h,
        )
        (ground arith)
]

-- More users show no fewer members.
pub has_owner-users :
    (id : ℕ) (users users' : List User) (ms : List OrganizationUser)
    → ((k : ℕ)
        → any (λ u. u.id == k && not u.deleted) users ≡ true
        → any (λ u. u.id == k && not u.deleted) users' ≡ true)
    → has_owner id users ms ≡ true
    → has_owner id users' ms ≡ true
has_owner-users id users users' ms more h =
    any-weaken (is_owner_of id users) (is_owner_of id users') ms
      (λ m q.
        let live : any (λ u. u.id == m.user_id && not u.deleted) users ≡ true = ground arith in
        ground (arith, more m.user_id live))
      h
