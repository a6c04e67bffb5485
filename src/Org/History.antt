-- ===== src/Org/History.antt =====
-- Histories of the operations of apps/backend/src/services/organization.service.ts.
use event_media_platform.Prelude.{ℕ, ◌≡◌, Bool, true, List, Option}
use event_media_platform.Prelude.Result.{state_left, state_left-Holds}
use event_media_platform.Auth.Rows.{OrgRole}
use event_media_platform.Auth.Guard.{Crypto}
use event_media_platform.Org.Rows.{OrgDb}
use event_media_platform.Org.Service.{
  resolve_user, create, UpdateOrgDto, update, UpdatePlanDto, update_plan, remove, add_member,
  update_member, remove_member, reset_member_password,
}
use event_media_platform.Org.Owners.{
  update_member-Owned, remove_member-Owned, update-Owned, update_plan-Owned, remove-Owned, Owned,
}
use event_media_platform.Org.Founding.{
  add_member-Owned, create-Owned, reset-Owned, spares_last_owner,
}

-- The operations of the service.
pub data OrgOperation : Type 0 where
  creates : List ℕ → List ℕ → ℕ → Option (List ℕ) → ℕ → OrgOperation
  updates : ℕ → UpdateOrgDto → OrgOperation
  updates_plan : ℕ → UpdatePlanDto → ℕ → OrgOperation
  removes : ℕ → OrgOperation
  adds_member : ℕ → ℕ → Option (List ℕ) → OrgRole → OrgOperation
  updates_member : ℕ → ℕ → OrgRole → OrgOperation
  removes_member : ℕ → ℕ → OrgOperation
  resets_password : ℕ → Bool → List ℕ → List ℕ → ℕ → ℕ → ℕ → OrgOperation

-- The rows that an operation leaves, whether or not it throws.
abbrev pub perform : Crypto → OrgOperation → OrgDb → OrgDb
perform c (creates name slug email password creator) db =
    (create c name slug email password creator db).0
perform c (updates org dto) db = state_left (update org dto db) db
perform c (updates_plan org dto actor) db = state_left (update_plan org dto actor db) db
perform c (removes org) db = state_left (remove org db) db
perform c (adds_member org email password role) db =
    state_left (add_member c org email password role db) db
perform c (updates_member org user role) db = state_left (update_member org user role db) db
perform c (removes_member org user) db = state_left (remove_member org user db) db
perform c (resets_password now sends lock token org user actor) db =
    (reset_member_password c now sends lock token org user actor db).0

abbrev pub spares_owner : Crypto → OrgOperation → OrgDb → Bool
spares_owner c (adds_member org email password role) db =
    spares_last_owner org role (resolve_user c email password db)
spares_owner c _ db = true

perform-Owned :
    (c : Crypto) (op : OrgOperation) (db : OrgDb)
    → Owned db
    → spares_owner c op db ≡ true
    → Owned (perform c op db)
perform-Owned c (creates name slug email password creator) db h s =
    create-Owned c name slug email password creator db h
perform-Owned c (updates org dto) db h s =
    state_left-Holds Owned (update org dto db) db h (update-Owned org dto db h)
perform-Owned c (updates_plan org dto actor) db h s =
    state_left-Holds Owned (update_plan org dto actor db) db h
      (update_plan-Owned org dto actor db h)
perform-Owned c (removes org) db h s =
    state_left-Holds Owned (remove org db) db h (remove-Owned org db h)
perform-Owned c (adds_member org email password role) db h s =
    state_left-Holds Owned (add_member c org email password role db) db h
      (add_member-Owned c org email password role db h s)
perform-Owned c (updates_member org user role) db h s =
    state_left-Holds Owned (update_member org user role db) db h
      (update_member-Owned org user role db h)
perform-Owned c (removes_member org user) db h s =
    state_left-Holds Owned (remove_member org user db) db h (remove_member-Owned org user db h)
perform-Owned c (resets_password now sends lock token org user actor) db h s =
    reset-Owned c now sends lock token org user actor db h

-- The histories of operations in which no addMember takes the role of a last owner.
pub data History (c : Crypto) : OrgDb → OrgDb → Type 0 where
  start : (db : OrgDb) → History c db db
  then_perform :
      (db db' : OrgDb) (op : OrgOperation)
      → History c db db'
      → spares_owner c op db' ≡ true
      → History c db (perform c op db')

-- From rows in which every organization has an owner whose account exists, and no member has two rows
-- in one organization, every history of operations leads to such rows again, unless addMember gives
-- the last owner of an organization another role.
pub history-Owned : (c : Crypto) (db db' : OrgDb) → Owned db → History c db db' → Owned db'
history-Owned c db _ h (start _) = h
history-Owned c db _ h (then_perform _ d op earlier s) =
    perform-Owned c op d (history-Owned c db d h earlier) s
