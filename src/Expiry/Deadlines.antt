-- ===== src/Expiry/Deadlines.antt =====
-- What holds of the deadlines for deletion over any history of the operations on an event's expiry
-- (apps/backend/src/services/event-expiry.service.ts, event.service.ts).
use event_media_platform.Prelude.{
  ℕ, ◌≡◌, refl, inl, inr, Bool, true, false, not, ◌&&◌, ◌||◌, List, [], ◌∷◌, ◌++◌, Option, arith,
  ◌==◌, any, any-append, every, Bool-cases, Option-cases, update_by,
}
use event_media_platform.Prelude.Result.{Result, ok, throws}
use event_media_platform.Expiry.Rows.{
  EventRow, QueuedJob, send_event_expiry, cleanup_prefix, Db, is_null, is_event_expired,
  is_event_purged, get_by_id, set_expiry_state, find_newly_expired, find_due_for_purge,
}
use event_media_platform.Expiry.Service.{
  enqueue, notified, get_event, extend, is_not_future, acknowledge, purge_now, purge,
  event_expiry_sweep, event_purge_sweep, notify_all, purge_if_due, purge_all, UpdateEventDto,
  is_slug_taken, update,
}

-- The calls that write.
pub data Op : Type 0 where
  extends : ℕ → ℕ → ℕ → Option ℕ → Op
  acknowledges purges : ℕ → ℕ → ℕ → Op
  expiry_sweeps : ℕ → ℕ → Op
  purge_sweeps : ℕ → Op
  updates : ℕ → ℕ → UpdateEventDto → Op

abbrev pub after : Db → Result Db → Db
after db (ok db') = db'
after db (throws x) = db

unfoldable pub act : Op → Db → Db
act (extends now org id expires) db = after db (extend now org id expires db)
act (acknowledges now org id) db = after db (acknowledge now org id db)
act (purges now org id) db = after db (purge_now now org id db)
act (expiry_sweeps now hours) db = (event_expiry_sweep now hours db).0
act (purge_sweeps now) db = (event_purge_sweep now (λ id d. d) db).0
act (updates org id dto) db = after db (update org id dto db)

unfoldable pub run : List Op → Db → Db
run [] db = db
run (o ∷ ops) db = run ops (act o db)

abbrev pub is_notice : ℕ → QueuedJob → Bool
is_notice k (send_event_expiry id) = id == k
is_notice k (cleanup_prefix org id) = false

-- A deletion is scheduled only for an event that is marked, and whose notice was queued.
abbrev pub is_told : List QueuedJob → EventRow → Bool
is_told queue e =
    is_null e.purge_after || (not (is_null e.expiry_notified_at) && any (is_notice e.id) queue)

abbrev pub AreTold : Db → Type 0
AreTold db = every (is_told db.queue) db.events ≡ true

any-longer :
    (p : QueuedJob → Bool) (q : List QueuedJob) (job : QueuedJob)
    → any p q ≡ true
    → any p (q ++ (job ∷ [])) ≡ true
any-longer p q job h = ground (arith, any-append p q (job ∷ []))

any-queued :
    (p : QueuedJob → Bool) (q : List QueuedJob) (job : QueuedJob)
    → p job ≡ true
    → any p (q ++ (job ∷ [])) ≡ true
any-queued p q job h = ground (arith, any-append p q (job ∷ []))

-- The queue of this model keeps what was ever queued.
enqueue-AreTold : (job : QueuedJob) (db : Db) → AreTold db → AreTold (enqueue job db)
enqueue-AreTold job db h = rows db.events h
  where
    rows :
        (es : List EventRow)
        → every (is_told db.queue) es ≡ true
        → every (is_told (db.queue ++ (job ∷ []))) es ≡ true
    rows [] h = h
    rows (e ∷ es) h = ground (arith, any-longer (is_notice e.id) db.queue job, rows es)

-- One event of the expiry sweep.
notify-AreTold :
    (now hours : ℕ) (event : EventRow) (db : Db)
    → AreTold db
    → AreTold (
        enqueue
          (send_event_expiry event.id)
          (set_expiry_state event.id (notified now hours event) db))
unfolding set_expiry_state
notify-AreTold now hours event db h = rows db.events h
  where
    rows :
        (es : List EventRow)
        → every (is_told db.queue) es ≡ true
        → every
            (is_told (db.queue ++ (send_event_expiry event.id ∷ [])))
            (update_by (λ e. e.id) event.id (notified now hours event) es)
          ≡ true
    rows [] h = h
    rows (e ∷ es) h = ground (
      arith,
      any-longer (is_notice e.id) db.queue (send_event_expiry event.id),
      any-queued (is_notice e.id) db.queue (send_event_expiry event.id),
      rows es,
    )

set-AreTold :
    (id : ℕ) (f : EventRow → EventRow) (db : Db)
    → ((e : EventRow) → is_told db.queue e ≡ true → is_told db.queue (f e) ≡ true)
    → AreTold db
    → AreTold (set_expiry_state id f db)
unfolding set_expiry_state
set-AreTold id f db p h = rows db.events h
  where
    rows :
        (es : List EventRow)
        → every (is_told db.queue) es ≡ true
        → every (is_told db.queue) (update_by (λ e. e.id) id f es) ≡ true
    rows [] h = h
    rows (e ∷ es) h = ground (arith, p e, rows es)

notify_all-AreTold :
    (now hours : ℕ) (events : List EventRow) (db : Db)
    → AreTold db
    → AreTold (notify_all now hours events db)
unfolding notify_all
notify_all-AreTold now hours [] db h = h
notify_all-AreTold now hours (e ∷ events) db h =
    notify_all-AreTold now hours events _ (notify-AreTold now hours e db h)

purge-AreTold : (e : EventRow) (db : Db) → AreTold db → AreTold (purge e db)
unfolding purge
purge-AreTold e db h = enqueue-AreTold (cleanup_prefix e.org_id e.id) db h

purge_if_due-AreTold : (now id : ℕ) (db : Db) → AreTold db → AreTold (purge_if_due now id db)
unfolding purge_if_due
purge_if_due-AreTold now id db h = elim (Option-cases (get_by_id id db)) [
  | inl e ↦ rw (e, purge_if_due) h
  | inr (r, e) ↦ elim (Bool-cases (is_event_purged r || not (is_event_expired now r))) [
    | inl t ↦ rw (e, purge_if_due) (rw t h)
    | inr t ↦
        rw (e, purge_if_due)
          (rw t (set-AreTold r.id _ (purge r db) (λ r t. ground arith) (purge-AreTold r db h)))
  ]
]

purge_all-AreTold :
    (now : ℕ) (events : List EventRow) (db : Db)
    → AreTold db
    → AreTold (purge_all now (λ id d. d) events db)
unfolding purge_all
purge_all-AreTold now [] db h = h
purge_all-AreTold now (e ∷ events) db h =
    purge_all-AreTold now events _ (purge_if_due-AreTold now e.id db h)

extend-AreTold :
    (now org id : ℕ) (expires : Option ℕ) (db : Db) (r : Result EventRow)
    → get_event org id db ≡ r
    → AreTold db
    → AreTold (after db (extend now org id expires db))
unfolding extend
extend-AreTold now org id expires db (throws x) e h = rw (e, extend) h
extend-AreTold now org id expires db (ok r) e h = elim (Bool-cases (is_event_purged r)) [
  | inl t ↦ rw (e, extend) (rw t h)
  | inr t ↦ elim (Bool-cases (is_not_future now expires)) [
    | inl u ↦ rw (e, extend) (rw (t, u) h)
    | inr u ↦ rw (e, extend) (rw (t, u) (set-AreTold id _ db (λ r t. ground arith) h))
  ]
]

acknowledge-AreTold :
    (now org id : ℕ) (db : Db) (r : Result EventRow)
    → get_event org id db ≡ r
    → AreTold db
    → AreTold (after db (acknowledge now org id db))
unfolding acknowledge
acknowledge-AreTold now org id db (throws x) e h = rw (e, acknowledge) h
acknowledge-AreTold now org id db (ok r) e h = elim (Bool-cases (is_event_expired now r)) [
  | inr t ↦ rw (e, acknowledge) (rw t h)
  | inl t ↦ rw (e, acknowledge) (rw t (set-AreTold id _ db (λ r t. ground arith) h))
]

purge_now-AreTold :
    (now org id : ℕ) (db : Db) (r : Result EventRow)
    → get_event org id db ≡ r
    → AreTold db
    → AreTold (after db (purge_now now org id db))
unfolding purge_now
purge_now-AreTold now org id db (throws x) e h = rw (e, purge_now) h
purge_now-AreTold now org id db (ok r) e h = elim (Bool-cases (is_event_expired now r)) [
  | inr t ↦ rw (e, purge_now) (rw t h)
  | inl t ↦ elim (Bool-cases (is_event_purged r)) [
    | inl u ↦ rw (e, purge_now) (rw (t, u) h)
    | inr u ↦
        rw (e, purge_now)
          (rw (t, u) (set-AreTold id _ (purge r db) (λ r t. ground arith) (purge-AreTold r db h)))
  ]
]

update-AreTold :
    (org id : ℕ) (dto : UpdateEventDto) (db : Db)
    → AreTold db
    → AreTold (after db (update org id dto db))
unfolding update
update-AreTold org id dto db h = elim (Option-cases (get_by_id id db)) [
  | inl e ↦ rw (e, update) h
  | inr (r, e) ↦ elim (Bool-cases (r.org_id == org)) [
    | inr t ↦ rw (e, update) (rw t h)
    | inl t ↦ elim (Bool-cases (is_slug_taken dto.slug r db)) [
      | inl u ↦ rw (e, update) (rw (t, u) h)
      | inr u ↦ rw (e, update) (rw (t, u) (set-AreTold id _ db (λ r t. t) h))
    ]
  ]
]

act-AreTold : (o : Op) (db : Db) → AreTold db → AreTold (act o db)
unfolding act event_expiry_sweep event_purge_sweep
act-AreTold (extends now org id expires) db h = extend-AreTold now org id expires db _ refl h
act-AreTold (acknowledges now org id) db h = acknowledge-AreTold now org id db _ refl h
act-AreTold (purges now org id) db h = purge_now-AreTold now org id db _ refl h
act-AreTold (expiry_sweeps now hours) db h =
    notify_all-AreTold now hours (find_newly_expired now db) db h
act-AreTold (purge_sweeps now) db h = purge_all-AreTold now (find_due_for_purge now db) db h
act-AreTold (updates org id dto) db h = update-AreTold org id dto db h

-- Over any history of extensions, acknowledgements, deletions, updates and sweeps, a deletion is
-- scheduled only for an event that is marked as told and for which a notice to its owner was queued,
-- given that this is so of the first rows, such as rows without a scheduled deletion.
pub run-AreTold : (ops : List Op) (db : Db) → AreTold db → AreTold (run ops db)
unfolding run
run-AreTold [] db h = h
run-AreTold (o ∷ ops) db h = run-AreTold ops (act o db) (act-AreTold o db h)
