-- ===== src/Expiry/Media.antt =====
-- The media of one event over the steps of the purge sweep and over `extend`
-- (event-expiry.service.ts).
use event_media_platform.Prelude.{
  ℕ, ◌≡◌, refl, inl, inr, Bool, true, false, not, ◌&&◌, ◌||◌, List, [], ◌∷◌, ◌++◌, Option, none,
  some, arith, ◌==◌, find, any, every, Bool-cases, Option-cases, update_by,
}
use event_media_platform.Prelude.{find_holds}
use mathlib.Core.Path.{subst}
use event_media_platform.Prelude.Result.{Result, ok, throws}
use event_media_platform.Expiry.Rows.{
  EventRow, QueuedJob, send_event_expiry, cleanup_prefix, Db, is_null, is_event_expired,
  is_event_purged, get_by_id, set_expiry_state,
}
use event_media_platform.Expiry.Service.{
  get_event, extended, is_not_future, extend, purge, purge_if_due, purge_all,
}

abbrev pub is_cleanup : ℕ → QueuedJob → Bool
is_cleanup k (send_event_expiry id) = false
is_cleanup k (cleanup_prefix org id) = id == k

-- Event k is not expired and holds its media, and no deletion of its media is queued.
abbrev pub IsSpared : ℕ → ℕ → Db → Type 0
IsSpared k now db =
    (every (λ e. not (e.id == k) || (not (is_event_expired now e) && is_null e.purged_at)) db.events
      ≡ true)
    × (any (is_cleanup k) db.queue ≡ false)

-- Event k holds its media, and no deletion of its media is queued.
abbrev pub HasMedia : ℕ → Db → Type 0
HasMedia k db =
    (every (λ e. not (e.id == k) || is_null e.purged_at) db.events ≡ true)
    × (any (is_cleanup k) db.queue ≡ false)

ok_injective : {x y : Db} → ok x ≡ ok y → x ≡ y
ok_injective h = cc

module _ (k now : ℕ) where
  find-spared :
      (id : ℕ) (rows : List EventRow) {e : EventRow}
      → every (λ e. not (e.id == k) || (not (is_event_expired now e) && is_null e.purged_at)) rows
        ≡ true
      → find (λ e. e.id == id && not e.deleted) rows ≡ some e
      → is_event_expired now e ≡ true
      → (e.id == k) ≡ false
  find-spared id [] h f x = cc
  find-spared id (r ∷ rows) {e} h f x = elim (Bool-cases (r.id == id && not r.deleted)) [
    | inl t ↦ ground arith
    | inr t ↦ find-spared id rows {e = e} (ground arith) (ground arith) x
  ]

  every-update :
      (id : ℕ) (f : EventRow → EventRow) (rows : List EventRow)
      → (id == k) ≡ false
      → every (λ e. not (e.id == k) || (not (is_event_expired now e) && is_null e.purged_at)) rows
        ≡ true
      → ((e : EventRow) → (f e).id ≡ e.id)
      → every
          (λ e. not (e.id == k) || (not (is_event_expired now e) && is_null e.purged_at))
          (update_by (λ e. e.id) id f rows)
        ≡ true
  every-update id f [] n h p = h
  every-update id f (r ∷ rows) n h p = ground (arith, p r, every-update id f rows n)

  any-snoc :
      (job : QueuedJob) (q : List QueuedJob)
      → any (is_cleanup k) q ≡ false
      → is_cleanup k job ≡ false
      → any (is_cleanup k) (q ++ (job ∷ [])) ≡ false
  any-snoc job [] h j = ground arith
  any-snoc job (x ∷ q) h j = ground (arith, any-snoc job q)

  pub purge_if_due-IsSpared :
      (id : ℕ) (db : Db) → IsSpared k now db → IsSpared k now (purge_if_due now id db)
  unfolding purge_if_due purge set_expiry_state get_by_id
  purge_if_due-IsSpared id db (h, j) = elim (Option-cases (get_by_id id db)) [
    | inl e ↦ rw (e, purge_if_due) (h, j)
    | inr (r, e) ↦ elim (Bool-cases (is_event_purged r || not (is_event_expired now r))) [
      | inl t ↦ rw (e, purge_if_due) (rw t (h, j))
      | inr t ↦
          let other : (r.id == k) ≡ false = find-spared id db.events {e = r} h e (ground arith) in
          rw (e, purge_if_due)
            (rw t (every-update r.id _ db.events other h (λ e. refl), any-snoc _ db.queue j other))
    ]
  ]

  -- The events that the sweep reads again after one that is spared.
  pub later-IsSpared :
      (meanwhile : ℕ → Db → Db) (found : List EventRow) (db : Db)
      → ((id : ℕ) (d : Db) → (id == k) ≡ false → IsSpared k now d → IsSpared k now (meanwhile id d))
      → every (λ e. not (e.id == k)) found ≡ true
      → IsSpared k now db
      → IsSpared k now (purge_all now meanwhile found db)
  unfolding purge_all
  later-IsSpared meanwhile [] db m n h = h
  later-IsSpared meanwhile (e ∷ found) db m n h =
      later-IsSpared meanwhile found _ m (ground arith)
        (purge_if_due-IsSpared e.id (meanwhile e.id db) (m e.id db (ground arith) h))

  has_media-update :
      (id : ℕ) (f : EventRow → EventRow) (rows : List EventRow)
      → (id == k) ≡ false
      → every (λ e. not (e.id == k) || is_null e.purged_at) rows ≡ true
      → ((e : EventRow) → (f e).id ≡ e.id)
      → every (λ e. not (e.id == k) || is_null e.purged_at) (update_by (λ e. e.id) id f rows) ≡ true
  has_media-update id f [] n h p = h
  has_media-update id f (r ∷ rows) n h p = ground (arith, p r, has_media-update id f rows n)

  purge_if_due-HasMedia :
      (id : ℕ) (db : Db) → (id == k) ≡ false → HasMedia k db → HasMedia k (purge_if_due now id db)
  unfolding purge_if_due purge set_expiry_state get_by_id
  purge_if_due-HasMedia id db n (h, j) = elim (Option-cases (get_by_id id db)) [
    | inl e ↦ rw (e, purge_if_due) (h, j)
    | inr (r, e) ↦ elim (Bool-cases (is_event_purged r || not (is_event_expired now r))) [
      | inl t ↦ rw (e, purge_if_due) (rw t (h, j))
      | inr t ↦
          let found = find_holds (λ e. e.id == id && not e.deleted) db.events {x = r} e in
          let other : (r.id == k) ≡ false = ground arith in
          rw (e, purge_if_due)
            (rw t
              (has_media-update r.id _ db.events other h (λ e. refl), any-snoc _ db.queue j other))
    ]
  ]

  -- The events that it reads again before.
  pub earlier-HasMedia :
      (meanwhile : ℕ → Db → Db) (found : List EventRow) (db : Db)
      → ((id : ℕ) (d : Db) → (id == k) ≡ false → HasMedia k d → HasMedia k (meanwhile id d))
      → every (λ e. not (e.id == k)) found ≡ true
      → HasMedia k db
      → HasMedia k (purge_all now meanwhile found db)
  unfolding purge_all
  earlier-HasMedia meanwhile [] db m n h = h
  earlier-HasMedia meanwhile (e ∷ found) db m n h =
      earlier-HasMedia meanwhile found _ m (ground arith)
        (purge_if_due-HasMedia e.id (meanwhile e.id db) (ground arith) (m e.id db (ground arith) h))

  extended_rows :
      (expires : Option ℕ) (rows : List EventRow)
      → is_not_future now expires ≡ false
      → every (λ e. not (e.id == k) || is_null e.purged_at) rows ≡ true
      → every
          (λ e. not (e.id == k) || (not (is_event_expired now e) && is_null e.purged_at))
          (update_by (λ e. e.id) k (extended expires) rows)
        ≡ true
  unfolding is_event_expired
  extended_rows none [] f h = refl
  extended_rows (some t) [] f h = refl
  extended_rows none (r ∷ rows) f h = elim (Bool-cases (r.id == k)) [
    | inl e ↦ ground (arith, extended_rows none rows f)
    | inr e ↦ ground (arith, extended_rows none rows f)
  ]
  extended_rows (some t) (r ∷ rows) f h = elim (Bool-cases (r.id == k)) [
    | inl e ↦ ground (arith, extended_rows (some t) rows f)
    | inr e ↦ ground (arith, extended_rows (some t) rows f)
  ]

  -- An extension that is answered spares an event that has its media.
  pub extend-IsSpared :
      (org : ℕ) (expires : Option ℕ) (db : Db) {db' : Db}
      → HasMedia k db
      → extend now org k expires db ≡ ok db'
      → IsSpared k now db'
  unfolding extend set_expiry_state
  extend-IsSpared org expires db {db'} (h, j) e = go (get_event org k db) refl
    where
      go : (r : Result EventRow) → get_event org k db ≡ r → IsSpared k now db'
      go (throws x) g = cc (rw (extend, g) at e)
      go (ok r) g = elim (Bool-cases (is_event_purged r)) [
        | inl t ↦ cc (rw (extend, g, t) at e)
        | inr t ↦ elim (Bool-cases (is_not_future now expires)) [
          | inl f ↦ cc (rw (extend, g, t, f) at e)
          | inr f ↦
              subst (IsSpared k now) (ok_injective (rw (extend, g, t, f) at e))
                (extended_rows expires db.events f h, j)
        ]
      ]
