-- ===== src/Expiry/Notices.antt =====
-- Whom the expiry sweep of event-expiry.service.ts tells.
use event_media_platform.Prelude.{
  ℕ, zero, suc, ◌≤◌, ◌≡◌, refl, sym, ap, ◌∙◌, inl, inr, Bool, true, not, ◌||◌, List, [], ◌∷◌, ◌++◌,
  map, arith, ◌==◌, ==_refl, filter, any, every, length, Bool-cases, update_by,
}
use mathlib.Core.List.{append_assoc, append-nil}
use event_media_platform.Enum.{success}
use event_media_platform.Prelude.{sort_by, take, any-sort, length-sort}
use event_media_platform.Expiry.Rows.{
  EventRow, send_event_expiry, Db, is_newly_expired, find_newly_expired, set_expiry_state, time_of,
}
use event_media_platform.Expiry.Service.{enqueue, notified, notify_all, event_expiry_sweep}

take_all : (n : ℕ) (xs : List EventRow) → length xs ≤ n → take n xs ≡ xs
take_all zero [] h = refl
take_all zero (x ∷ xs) h = elim h [ ]
take_all (suc n) [] h = refl
take_all (suc n) (x ∷ xs) h = ap (λ ys. x ∷ ys) (take_all n xs (omega arith))

filter_none :
    (p : EventRow → Bool) (xs : List EventRow) → every (λ x. not (p x)) xs ≡ true → filter p xs ≡ []
filter_none p [] h = refl
filter_none p (x ∷ xs) h = ground (arith, filter_none p xs)

module _ (now : ℕ) where
  -- Every row that is to be told about is among the events.
  abbrev among : List EventRow → EventRow → Bool
  among events r = not (is_newly_expired now r) || any (λ e. r.id == e.id) events

  every-among :
      (rows events : List EventRow)
      → ((q : EventRow → Bool)
          → any q (filter (is_newly_expired now) rows) ≡ true
          → any q events ≡ true)
      → every (among events) rows ≡ true
  every-among [] events m = refl
  every-among (r ∷ rows) events m = elim (Bool-cases (is_newly_expired now r)) [
    | inr t ↦ ground (arith, every-among rows events (λ q h. m q (rw t h)))
    | inl t ↦
        let rest = every-among rows events (λ q h. m q (rw t (ground arith))) in
        ground (arith, m (λ e. r.id == e.id) (rw t (ground (arith, ==_refl r.id))))
  ]

  every-notified :
      (hours : ℕ) (event : EventRow) (events rows : List EventRow)
      → every (among (event ∷ events)) rows ≡ true
      → every (among events) (update_by (λ e. e.id) event.id (notified now hours event) rows) ≡ true
  unfolding is_newly_expired
  every-notified hours event events [] h = refl
  every-notified hours event events (r ∷ rows) h = elim (Bool-cases (r.id == event.id)) [
    | inl t ↦ ground (arith, every-notified hours event events rows)
    | inr t ↦ ground (arith, every-notified hours event events rows)
  ]

  notify_all-tells :
      (hours : ℕ) (events : List EventRow) (db : Db)
      → every (among events) db.events ≡ true
      → every (among []) (notify_all now hours events db).events ≡ true
  unfolding notify_all set_expiry_state
  notify_all-tells hours [] db h = h
  notify_all-tells hours (e ∷ events) db h =
      notify_all-tells hours events _ (every-notified hours e events db.events h)

  -- The sweep queues a notice for every event that it found.
  notify_all-queue :
      (hours : ℕ) (events : List EventRow) (db : Db)
      → (notify_all now hours events db).queue
        ≡ db.queue ++ map (λ e. send_event_expiry e.id) events
  unfolding notify_all set_expiry_state
  notify_all-queue hours [] db = sym (append-nil db.queue)
  notify_all-queue hours (e ∷ events) db =
      notify_all-queue hours events
        (enqueue (send_event_expiry e.id) (set_expiry_state e.id (notified now hours e) db))
      ∙ append_assoc db.queue (send_event_expiry e.id ∷ [])
          (map (λ e. send_event_expiry e.id) events)

  not-among :
      (rows : List EventRow)
      → every (among []) rows ≡ true
      → every (λ r. not (is_newly_expired now r)) rows ≡ true
  not-among [] h = h
  not-among (r ∷ rows) h = ground (arith, not-among rows)

  -- When at most 100 events have newly expired, a sweep queues one notice for each of them, in the order
  -- of their expiry, and queues nothing else; and it marks them all: a second sweep at the same moment
  -- changes nothing, so it queues no notice again.
  pub sweep_tells_all :
      (hours : ℕ) (db : Db)
      → length (filter (is_newly_expired now) db.events) ≤ 100
      → let db' = (event_expiry_sweep now hours db).0 in
        (db'.queue
          ≡ db.queue
            ++ map
                (λ e. send_event_expiry e.id)
                (sort_by (λ e. time_of e.expires_at) (filter (is_newly_expired now) db.events)))
        × (event_expiry_sweep now hours db' ≡ (db', success))
  unfolding find_newly_expired event_expiry_sweep notify_all
  sweep_tells_all hours db h =
      let news = filter (is_newly_expired now) db.events in
      let all : take 100 (sort_by (λ e. time_of e.expires_at) news)
          ≡ sort_by (λ e. time_of e.expires_at) news =
        take_all 100 _ (omega (arith, length-sort (λ e. time_of e.expires_at) news)) in
      let told = notify_all-tells hours (take 100 (sort_by (λ e. time_of e.expires_at) news)) db (
        every-among db.events _
          (λ q m. rw all (any-sort (λ e. time_of e.expires_at) q news ∙ m))) in
      let db' = notify_all now hours (take 100 (sort_by (λ e. time_of e.expires_at) news)) db in
      (
        notify_all-queue hours _ db
            ∙ ap (λ events. db.queue ++ map (λ e. send_event_expiry e.id) events) all,
        ap
            (λ rows. (
              notify_all now hours (take 100 (sort_by (λ e. time_of e.expires_at) rows)) db',
              success,
            ))
            (filter_none (is_newly_expired now) db'.events (not-among db'.events told)),
      )
