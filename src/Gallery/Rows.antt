-- ===== src/Gallery/Rows.antt =====
-- The photos of events in the order of the list queries (apps/backend/src/repositories/asset.repository.ts):
-- captured_at descending, where Postgres puts the rows without a date first, then id descending.
-- A date is the milliseconds since the earliest moment that a JavaScript Date can be, so that dates
-- before 1970 are among them.

use event_media_platform.Prelude.{
  ℕ, Bool, true, false, not, ◌&&◌, ◌||◌, List, [], ◌∷◌, Option, none, some, ltb, ◌==◌,
  if◌then◌else◌, filter, any, take,
}

pub record Photo : Type 0 where
  pub id : ℕ
  pub event_id : ℕ
  pub org_id : ℕ
  pub captured_at : Option ℕ
  pub deleted : Bool
  pub faces_detected_at : Option ℕ
  pub face_count : ℕ

pub record Event : Type 0 where
  pub id : ℕ
  pub deleted : Bool
  pub purged : Bool

-- Whether the row (c, i) stands before the row (d, j).
abbrev pub before : Option ℕ → ℕ → Option ℕ → ℕ → Bool
before none i none j = ltb j i
before none i (some d) j = true
before (some c) i none j = false
before (some c) i (some d) j = ltb d c || (d == c && ltb j i)

abbrev pub is_before : Photo → Photo → Bool
is_before a b = before a.captured_at a.id b.captured_at b.id

-- `ORDER BY captured_at DESC, id DESC`
unfoldable pub insert_row : Photo → List Photo → List Photo
insert_row a [] = a ∷ []
insert_row a (b ∷ rows) =
    let rest = insert_row a rows in if is_before a b then a ∷ b ∷ rows else b ∷ rest

unfoldable pub order_rows : List Photo → List Photo
unfolding insert_row
order_rows [] = []
order_rows (a ∷ rows) = insert_row a (order_rows rows)

pub data FaceStatus : Type 0 where
  any_status pending found no_faces : FaceStatus

abbrev pub has_date : Option ℕ → Bool
has_date none = false
has_date (some d) = true

-- The switch over faceStatus.
abbrev pub has_status : FaceStatus → Photo → Bool
has_status any_status p = true
has_status pending p = not (has_date p.faces_detected_at)
has_status found p = has_date p.faces_detected_at && ltb 0 p.face_count
has_status no_faces p = has_date p.faces_detected_at && p.face_count == 0

-- `new Date(0)`: 100,000,000 days after the earliest Date.
abbrev pub epoch : ℕ
epoch = 8640000000000000

-- The condition of list on the cursor: a missing date is 1970, and in SQL a row without a date
-- satisfies no comparison.
abbrev pub after_in_event : Option ℕ → ℕ → Photo → Bool
after_in_event date id p = elim p.captured_at [
  | none ↦ false
  | some d ↦
      ltb d (elim date [ none ↦ epoch | some c ↦ c ])
      || (d == elim date [ none ↦ epoch | some c ↦ c ] && ltb p.id id)
]

-- The condition of listForOrg on the cursor.
abbrev pub after_in_org : Option ℕ → ℕ → Photo → Bool
after_in_org none id p = not (has_date p.captured_at) && ltb p.id id
after_in_org (some c) id p = elim p.captured_at [
  | none ↦ false
  | some d ↦ ltb d c || (d == c && ltb p.id id)
]

-- The rows that a query may return, in its order.
unfoldable pub event_rows : ℕ → FaceStatus → List Photo → List Photo
unfolding order_rows
event_rows event status photos =
    filter (λ p. p.event_id == event && (not p.deleted && has_status status p)) (order_rows photos)

unfoldable pub org_rows : ℕ → List Event → List Photo → List Photo
unfolding order_rows
org_rows org events photos =
    filter
      (λ p.
        p.org_id == org
        && (not p.deleted
            && any (λ e. e.id == p.event_id && (not e.deleted && not e.purged)) events))
      (order_rows photos)

abbrev pub from_cursor :
    (Option ℕ → ℕ → Photo → Bool) → Option (Option ℕ × ℕ) → List Photo → List Photo
from_cursor after none rows = rows
from_cursor after (some (date, id)) rows = filter (after date id) rows

-- list
unfoldable pub list_event : ℕ → FaceStatus → ℕ → Option (Option ℕ × ℕ) → List Photo → List Photo
unfolding event_rows
list_event event status limit cursor photos =
    take limit (from_cursor after_in_event cursor (event_rows event status photos))

-- listForOrg
unfoldable pub list_org : ℕ → List Event → ℕ → Option (Option ℕ × ℕ) → List Photo → List Photo
unfolding org_rows
list_org org events limit cursor photos =
    take limit (from_cursor after_in_org cursor (org_rows org events photos))
