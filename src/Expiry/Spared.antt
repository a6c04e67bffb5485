-- ===== src/Expiry/Spared.antt =====
-- What the sweeps of event-expiry.service.ts make of a date that was moved: by `extend` before the
-- event is read again, and by the event's settings (event.service.ts).
use event_media_platform.Prelude.{
  ℕ, ◌≤◌, ◌≡◌, refl, inl, inr, Bool, true, false, not, ◌&&◌, List, [], ◌∷◌, ◌++◌, Option, none,
  some, arith, ◌==◌, ==_refl, find, every, Bool-cases, update_by,
}
use event_media_platform.Prelude.{find_holds}
use event_media_platform.Prelude.Result.{ok}
use event_media_platform.Expiry.Rows.{
  EventRow, Db, is_newly_expired, is_due_for_purge, get_by_id, set_expiry_state, find_due_for_purge,
}
use event_media_platform.Expiry.Service.{
  extend, purge_if_due, purge_all, event_purge_sweep, UpdateEventDto, updated, is_slug_taken,
  update,
}
use event_media_platform.Expiry.Media.{
  IsSpared, HasMedia, purge_if_due-IsSpared, later-IsSpared, earlier-HasMedia, extend-IsSpared,
}

every-append :
    (p : EventRow → Bool) (xs ys : List EventRow)
    → every p (xs ++ ys) ≡ true
    → (every p xs ≡ true) × (every p ys ≡ true)
every-append p [] ys h = (refl, h)
every-append p (x ∷ xs) ys h = ground (arith, every-append p xs ys)

purge_all-append :
    (now : ℕ) (meanwhile : ℕ → Db → Db) (earlier : List EventRow) (e : EventRow)
    (later : List EventRow) (db : Db)
    → purge_all now meanwhile (earlier ++ (e ∷ later)) db
      ≡ purge_all now meanwhile later
          (purge_if_due now e.id (meanwhile e.id (purge_all now meanwhile earlier db)))
unfolding purge_all
purge_all-append now meanwhile [] e later db = refl
purge_all-append now meanwhile (x ∷ earlier) e later db =
    purge_all-append now meanwhile earlier e later (purge_if_due now x.id (meanwhile x.id db))

-- An event that the purge sweep finds due, once, with its media there, and that `extend` moves before
-- the sweep comes to read it again, is spared: it is not expired after the sweep and holds its media,
-- and no deletion of its media is queued, if no other call that comes between the sweep's steps
-- deletes its media or, once it is extended, makes it expire again.
pub extended_event-IsSpared :
    (now org : ℕ) (expires : Option ℕ) (meanwhile : ℕ → Db → Db) (earlier later : List EventRow)
    (e : EventRow) (db : Db)
    → find_due_for_purge now db ≡ earlier ++ (e ∷ later)
    → every (λ x. not (x.id == e.id)) (earlier ++ later) ≡ true
    → HasMedia e.id db
    → ((id : ℕ) (d : Db) → (id == e.id) ≡ false → HasMedia e.id d → HasMedia e.id (meanwhile id d))
    → ((id : ℕ) (d : Db)
        → (id == e.id) ≡ false
        → IsSpared e.id now d
        → IsSpared e.id now (meanwhile id d))
    → extend now org e.id expires (purge_all now meanwhile earlier db)
      ≡ ok (meanwhile e.id (purge_all now meanwhile earlier db))
    → IsSpared e.id now (event_purge_sweep now meanwhile db).0
unfolding event_purge_sweep
extended_event-IsSpared now org expires meanwhile earlier later e db found once h before after
      moved =
    let split = every-append (λ x. not (x.id == e.id)) earlier later once in
    let reached = purge_all now meanwhile earlier db in
    let spared =
      extend-IsSpared e.id now org expires reached
        (earlier-HasMedia e.id now meanwhile earlier db before split.0 h) moved in
    rw (found, purge_all-append now meanwhile earlier e later db)
      (later-IsSpared e.id now meanwhile later _ after split.1
        (purge_if_due-IsSpared e.id now e.id (meanwhile e.id reached) spared))

find-updated :
    (id : ℕ) (dto : UpdateEventDto) (rows : List EventRow) {e : EventRow}
    → find (λ e. e.id == id && not e.deleted) rows ≡ some e
    → find (λ e. e.id == id && not e.deleted) (update_by (λ e. e.id) id (updated dto) rows)
      ≡ some (updated dto e)
find-updated id dto [] h = cc
find-updated id dto (r ∷ rows) {e} h = elim (Bool-cases (r.id == id)) [
  | inr t ↦ ground (arith, find-updated id dto rows {e = e})
  | inl t ↦ ground (arith, find-updated id dto rows {e = e})
]

-- When an event's settings move the date of an event that was told and scheduled, both marks stay:
-- when the new date comes, after the old deadline, the event is due for deletion at once and its owner
-- is not told.
pub moved_date_is_not_announced :
    (org id t p n : ℕ) (db : Db) (e : EventRow)
    → get_by_id id db ≡ some e
    → e.org_id ≡ org
    → e.purge_after ≡ some p
    → e.expiry_notified_at ≡ some n
    → e.purged_at ≡ none
    → p ≤ t
    → (db' : Db) × (e' : EventRow) × (update org id
          (record { slug = none; expires_at = some (some t) })
          db
        ≡ ok db')
      × (get_by_id id db' ≡ some e')
      × (is_newly_expired t e' ≡ false)
      × (is_due_for_purge t e' ≡ true)
unfolding update get_by_id set_expiry_state is_slug_taken is_newly_expired is_due_for_purge
moved_date_is_not_announced org id t p n db e found o a told held le =
    let dto : UpdateEventDto = record { slug = none; expires_at = some (some t) } in
    (
      set_expiry_state id (updated dto) db,
      updated dto e,
      rw (found, update) (rw o (ground (arith, ==_refl org))),
      find-updated id dto db.events {e = e} found,
      ground arith,
      ground (arith, find_holds (λ e. e.id == id && not e.deleted) db.events {x = e} found),
    )
