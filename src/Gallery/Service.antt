-- ===== src/Gallery/Service.antt =====
-- list and listForOrg of apps/backend/src/services/asset.service.ts, with the cursors that they hand
-- out and take.
use event_media_platform.Prelude.{
  ℕ, zero, suc, ◌≡◌, Bool, true, false, List, [], ◌++◌, Option, none, some, ltb, if◌then◌else◌,
  length, take, last?,
}
use event_media_platform.Prelude.Result.{Result, ok, throws, bad_request}
use event_media_platform.Auth.Guard.{is_empty}
use event_media_platform.Gallery.Rows.{Photo, Event, FaceStatus, list_event, list_org}

-- JSON and base64url, with Date's ISO text.
pub record Codec : Type 0 where
  pub stringify : Option ℕ → ℕ → List ℕ
  pub parse : List ℕ → Option (Option ℕ × ℕ)
  pub to_base64url : List ℕ → List ℕ
  pub from_base64url : List ℕ → List ℕ

-- What a client relies on: a text that was written is read back, and is not empty.
abbrev pub IsCodec : Codec → Type 0
IsCodec c =
    ((date : Option ℕ) (id : ℕ) → c.parse (c.stringify date id) ≡ some (date, id))
    × ((text : List ℕ) → c.from_base64url (c.to_base64url text) ≡ text)
    × ((date : Option ℕ) (id : ℕ) → is_empty (c.to_base64url (c.stringify date id)) ≡ false)

unfoldable pub encode_cursor : Codec → Option ℕ → ℕ → List ℕ
encode_cursor c date id = c.to_base64url (c.stringify date id)

-- decodeCursor
unfoldable pub decode_cursor : Codec → List ℕ → Result (Option ℕ × ℕ)
decode_cursor c cursor = elim (c.parse (c.from_base64url cursor)) [
  | none ↦ throws bad_request
  | some p ↦ ok p
]

pub record Page : Type 0 where
  pub assets : List Photo
  pub next_cursor : Option (List ℕ)

abbrev pub next_of : Codec → Bool → Option Photo → Option (List ℕ)
next_of c true (some last) = some (encode_cursor c last.captured_at last.id)
next_of c _ _ = none

-- The page of the rows that were fetched, one more than the limit.
unfoldable pub page_of : Codec → ℕ → List Photo → Page
unfolding encode_cursor
page_of c limit rows =
    let has_more = ltb limit (length rows) in
    let page = if has_more then take limit rows else rows in
    record { assets = page; next_cursor = next_of c has_more (last? page) }

-- `cursor ? this.decodeCursor(cursor) : undefined`
unfoldable pub decode_given : Codec → Option (List ℕ) → Result (Option (Option ℕ × ℕ))
unfolding decode_cursor
decode_given c none = ok none
decode_given c (some cursor) =
    if is_empty cursor
    then ok none
    else elim (decode_cursor c cursor) [ throws x ↦ throws x | ok p ↦ ok (some p) ]

-- list and listForOrg, by the query.
unfoldable pub page_with :
    Codec → (ℕ → Option (Option ℕ × ℕ) → List Photo) → ℕ → Option (List ℕ) → Result Page
unfolding decode_given page_of
page_with c query limit cursor = elim (decode_given c cursor) [
  | throws x ↦ throws x
  | ok decoded ↦ ok (page_of c limit (query (suc limit) decoded))
]

unfoldable pub list : Codec → ℕ → FaceStatus → List Photo → ℕ → Option (List ℕ) → Result Page
unfolding page_with
list c event status photos limit cursor =
    page_with c (λ n decoded. list_event event status n decoded photos) limit cursor

unfoldable pub list_for_org :
    Codec → ℕ → List Event → List Photo → ℕ → Option (List ℕ) → Result Page
unfolding page_with
list_for_org c org events photos limit cursor =
    page_with c (λ n decoded. list_org org events n decoded photos) limit cursor

abbrev pub more_of : Option (List ℕ) → (Option (List ℕ) → List Photo) → List Photo
more_of none more = []
more_of (some cursor) more = more (some cursor)

-- A client that follows the cursors, for at most so many requests: the photos that it is sent.
unfoldable pub follow : (Option (List ℕ) → Result Page) → ℕ → Option (List ℕ) → List Photo
follow fetch zero cursor = []
follow fetch (suc fuel) cursor = elim (fetch cursor) [
  | throws x ↦ []
  | ok page ↦ page.assets ++ more_of page.next_cursor (follow fetch fuel)
]
