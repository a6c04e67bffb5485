-- ===== src/Examples/Expiry.antt =====
-- The theorems about the expiry of events at concrete inputs.
use event_media_platform.Prelude.{
  ℕ, ◌≡◌, refl, true, false, [], ◌∷◌, if◌then◌else◌, ◌==◌, Option, none, some, arith,
}
use event_media_platform.Prelude.Result.{ok}
use event_media_platform.Enum.{success}
use event_media_platform.Expiry.Rows.{
  EventRow, Db, send_event_expiry, is_newly_expired, is_due_for_purge, get_by_id,
  find_due_for_purge,
}
use event_media_platform.Expiry.Service.{
  extend, update, event_expiry_sweep, event_purge_sweep, purge_all,
}
use event_media_platform.Expiry.Deadlines.{
  expiry_sweeps, purge_sweeps, extends, purges, run, after, AreTold, run-AreTold,
}
use event_media_platform.Expiry.Notices.{sweep_tells_all}
use event_media_platform.Expiry.Media.{IsSpared}
use event_media_platform.Expiry.Spared.{extended_event-IsSpared, moved_date_is_not_announced}

abbrev event_with : ℕ → Option ℕ → Option ℕ → Option ℕ → EventRow
event_with id expires told purge = record {
  id = id;
  org_id = 9;
  slug = id;
  expires_at = expires;
  expiry_notified_at = told;
  expiry_acknowledged_at = none;
  purge_after = purge;
  purged_at = none;
  deleted = false;
}

abbrev two_events : Db
two_events = record {
  events = event_with 1 (some 100) none none ∷ (event_with 2 (some 300) none none ∷ []);
  queue = [];
}

run-AreTold_example : AreTold (
    run
      (expiry_sweeps 150 1
        ∷ (extends 200 9 1 (some 900) ∷ (purges 400 9 2 ∷ (purge_sweeps 4000000 ∷ []))))
      two_events)
run-AreTold_example =
    run-AreTold
      (expiry_sweeps 150 1
        ∷ (extends 200 9 1 (some 900) ∷ (purges 400 9 2 ∷ (purge_sweeps 4000000 ∷ []))))
      two_events refl

sweep_tells_all_example :
    let db' = (event_expiry_sweep 500 1 two_events).0 in
    (db'.queue ≡ send_event_expiry 1 ∷ (send_event_expiry 2 ∷ []))
    × (event_expiry_sweep 500 1 db' ≡ (db', success))
unfolding is_newly_expired
sweep_tells_all_example = sweep_tells_all 500 1 two_events (omega arith)

-- Events 1 and 2 are due, and event 2 is extended when the sweep comes to read it again.
abbrev late_event : EventRow
late_event = event_with 2 (some 300) (some 310) (some 320)

abbrev due_event : EventRow
due_event = event_with 1 (some 290) (some 310) (some 315)

abbrev due_db : Db
due_db = record { events = late_event ∷ (due_event ∷ []); queue = [] }

abbrev extend_late : ℕ → Db → Db
extend_late id d = if id == 2 then after d (extend 400 9 2 (some 900) d) else d

extended_event-IsSpared_example : IsSpared 2 400 (event_purge_sweep 400 extend_late due_db).0
unfolding is_due_for_purge extend purge_all find_due_for_purge
    event_media_platform.Expiry.Service.get_event get_by_id
    event_media_platform.Expiry.Rows.is_event_purged
    event_media_platform.Expiry.Rows.is_event_expired
    event_media_platform.Expiry.Rows.set_expiry_state
extended_event-IsSpared_example =
    extended_event-IsSpared 400 9 (some 900) extend_late (due_event ∷ []) [] late_event due_db refl
      refl (refl, refl) (λ id d n h. rw n h) (λ id d n h. rw n h) refl

abbrev told_db : Db
told_db = record { events = late_event ∷ []; queue = [] }

moved_date_is_not_announced_example :
    (db' : Db) × (e' : EventRow) × (update 9 2
        (record { slug = none; expires_at = some (some 900) })
        told_db
      ≡ ok db')
    × (get_by_id 2 db' ≡ some e')
    × (is_newly_expired 900 e' ≡ false)
    × (is_due_for_purge 900 e' ≡ true)
unfolding get_by_id
moved_date_is_not_announced_example =
    moved_date_is_not_announced 9 2 900 320 310 told_db late_event refl refl refl refl refl
      (omega arith)
