-- ===== src/Gallery/Order.antt =====
-- The order of the list queries (apps/backend/src/repositories/asset.repository.ts).
use event_media_platform.Prelude.{
  ℕ, ◌≡◌, refl, ap, inl, inr, Bool, true, false, List, [], ◌∷◌, ◌++◌, Option, none, some, arith,
  ◌==◌, filter, Bool-cases, All, All-filter, All-map,
}
use event_media_platform.Gallery.Rows.{Photo, before, is_before, insert_row, order_rows}

pub before_trans :
    (c : Option ℕ) (i : ℕ) (d : Option ℕ) (j : ℕ) (e : Option ℕ) (k : ℕ)
    → before c i d j ≡ true
    → before d j e k ≡ true
    → before c i e k ≡ true
before_trans none i none j none k p q = ground arith
before_trans none i none j (some e) k p q = refl
before_trans none i (some d) j none k p q = cc
before_trans none i (some d) j (some e) k p q = refl
before_trans (some c) i none j e k p q = cc
before_trans (some c) i (some d) j none k p q = cc
before_trans (some c) i (some d) j (some e) k p q = ground arith

-- Two rows with different ids stand in one order.
pub before-total :
    (c : Option ℕ) (i : ℕ) (d : Option ℕ) (j : ℕ)
    → (i == j) ≡ false
    → before c i d j ≡ false
    → before d j c i ≡ true
before-total none i none j n p = ground arith
before-total none i (some d) j n p = cc
before-total (some c) i none j n p = refl
before-total (some c) i (some d) j n p = ground arith

pub before-asym :
    (c : Option ℕ) (i : ℕ) (d : Option ℕ) (j : ℕ) → before c i d j ≡ true → before d j c i ≡ false
before-asym none i none j p = ground arith
before-asym none i (some d) j p = refl
before-asym (some c) i none j p = cc
before-asym (some c) i (some d) j p = ground arith

pub before_irrefl : (c : Option ℕ) (i : ℕ) → before c i c i ≡ false
before_irrefl none i = ground arith
before_irrefl (some c) i = ground arith

-- PRIMARY KEY (id)
abbrev pub HasIds : List Photo → Type 0
HasIds [] = Unit
HasIds (p ∷ ps) = All (λ q. (p.id == q.id) ≡ false) ps × HasIds ps

abbrev pub IsOrdered : List Photo → Type 0
IsOrdered [] = Unit
IsOrdered (p ∷ ps) = All (λ q. is_before p q ≡ true) ps × IsOrdered ps

All-insert :
    (P : Photo → Type 0) (p : Photo) (ps : List Photo) → P p → All P ps → All P (insert_row p ps)
unfolding insert_row
All-insert P p [] h k = (h, tt)
All-insert P p (q ∷ ps) h k = elim (Bool-cases (is_before p q)) [
  | inl e ↦ rw e (h, k)
  | inr e ↦ rw e (k.0, All-insert P p ps h k.1)
]

pub All-order : (P : Photo → Type 0) (ps : List Photo) → All P ps → All P (order_rows ps)
unfolding order_rows
All-order P [] h = tt
All-order P (p ∷ ps) h = All-insert P p (order_rows ps) h.0 (All-order P ps h.1)

insert-IsOrdered :
    (p : Photo) (ps : List Photo)
    → All (λ q. (p.id == q.id) ≡ false) ps
    → IsOrdered ps
    → IsOrdered (insert_row p ps)
unfolding insert_row
insert-IsOrdered p [] n h = (tt, tt)
insert-IsOrdered p (q ∷ ps) n h = elim (Bool-cases (is_before p q)) [
  | inl e ↦ rw e (
    (
      e,
      All-map (λ r k. before_trans p.captured_at p.id q.captured_at q.id r.captured_at r.id e k) ps
          h.0,
    ),
    h,
  )
  | inr e ↦ rw e (
    All-insert (λ r. is_before q r ≡ true) p ps
        (before-total p.captured_at p.id q.captured_at q.id n.0 e) h.0,
    insert-IsOrdered p ps n.1 h.1,
  )
]

pub order-IsOrdered : (ps : List Photo) → HasIds ps → IsOrdered (order_rows ps)
unfolding order_rows
order-IsOrdered [] h = tt
order-IsOrdered (p ∷ ps) h =
    insert-IsOrdered p (order_rows ps) (All-order (λ q. (p.id == q.id) ≡ false) ps h.0)
      (order-IsOrdered ps h.1)

pub filter-IsOrdered : (t : Photo → Bool) (ps : List Photo) → IsOrdered ps → IsOrdered (filter t ps)
filter-IsOrdered t [] h = tt
filter-IsOrdered t (p ∷ ps) h = elim (Bool-cases (t p)) [
  | inl e ↦
      rw (e, filter) (All-filter (λ q. is_before p q ≡ true) t ps h.0, filter-IsOrdered t ps h.1)
  | inr e ↦ rw (e, filter) (filter-IsOrdered t ps h.1)
]

-- What stands behind a row of an ordered list is what the row is before.
pub filter-before :
    (earlier : List Photo) (z : Photo) (later : List Photo)
    → IsOrdered (earlier ++ (z ∷ later))
    → filter (is_before z) (earlier ++ (z ∷ later)) ≡ later
filter-before [] z later h = rw (before_irrefl z.captured_at z.id, filter) (filter-all later h.0)
  where
    filter-all :
        (ps : List Photo) → All (λ q. is_before z q ≡ true) ps → filter (is_before z) ps ≡ ps
    filter-all [] h = refl
    filter-all (p ∷ ps) h = rw (h.0, filter) (ap (λ rest. p ∷ rest) (filter-all ps h.1))
filter-before (p ∷ earlier) z later h =
    rw (before-asym p.captured_at p.id z.captured_at z.id (last_of earlier h.0), filter)
      (filter-before earlier z later h.1)
  where
    last_of :
        (ps : List Photo)
        → All (λ q. is_before p q ≡ true) (ps ++ (z ∷ later))
        → is_before p z ≡ true
    last_of [] k = k.0
    last_of (q ∷ ps) k = last_of ps k.1
