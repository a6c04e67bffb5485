-- ===== src/Examples/Gallery.antt =====
-- The theorems about lists of photos at concrete inputs.
use event_media_platform.Prelude.{
  ℕ, ◌+◌, ◌≡◌, refl, false, List, [], ◌∷◌, map, Option, none, some, arith,
}
use event_media_platform.Auth.Guard.{is_empty}
use event_media_platform.Prelude.Result.{ok}
use event_media_platform.Gallery.Rows.{
  epoch, Photo, Event, FaceStatus, any_status, event_rows, org_rows, order_rows, insert_row,
}
use event_media_platform.Gallery.Service.{Codec, IsCodec, list, list_for_org, follow, encode_cursor}
use event_media_platform.Gallery.Order.{HasIds}
use event_media_platform.Gallery.Pages.{
  event_pages_cover, org_pages_cover, undated_cursor_ends_list,
}

-- A cursor is the date, if there is one, and the id.
abbrev write : Option ℕ → ℕ → List ℕ
write none id = 0 ∷ id ∷ []
write (some date) id = 1 ∷ date ∷ id ∷ []

abbrev read : List ℕ → Option (Option ℕ × ℕ)
read (a ∷ id ∷ []) = some (none, id)
read (a ∷ date ∷ id ∷ []) = some (some date, id)
read _ = none

abbrev codec : Codec
codec = record {
  stringify = write;
  parse = read;
  to_base64url = λ text. text;
  from_base64url = λ text. text;
}

codec-IsCodec : IsCodec codec
codec-IsCodec = (read-write, λ text. refl, written)
  where
    read-write : (date : Option ℕ) (id : ℕ) → read (write date id) ≡ some (date, id)
    read-write none id = refl
    read-write (some date) id = refl

    written : (date : Option ℕ) (id : ℕ) → is_empty (write date id) ≡ false
    written none id = refl
    written (some date) id = refl

abbrev photo : ℕ → Option ℕ → Photo
photo id date = record {
  id = id;
  event_id = 4;
  org_id = 7;
  captured_at = date;
  deleted = false;
  faces_detected_at = none;
  face_count = 0;
}

abbrev photos : List Photo
photos = photo 1 (some 50) ∷ photo 2 none ∷ photo 3 (some 90) ∷ photo 5 (some 50) ∷ []

photos-HasIds : HasIds photos
photos-HasIds = ((refl, (refl, (refl, tt))), ((refl, (refl, tt)), ((refl, tt), (tt, tt))))

event_pages_cover_example :
    follow (list codec 4 any_status photos 2) 4 none ≡ event_rows 4 any_status photos
unfolding event_rows
event_pages_cover_example =
    event_pages_cover codec 4 any_status photos 1 4 codec-IsCodec photos-HasIds (omega arith)
      (omega arith)

abbrev wedding : Event
wedding = record { id = 4; deleted = false; purged = false }

org_pages_cover_example :
    follow (list_for_org codec 7 (wedding ∷ []) photos 2) 4 none ≡ org_rows 7 (wedding ∷ []) photos
unfolding org_rows
org_pages_cover_example =
    org_pages_cover codec 7 (wedding ∷ []) photos 1 4 codec-IsCodec photos-HasIds (omega arith)
      (omega arith)

-- With two photos to a page and three without a date, the client never sees the one that has a date.
abbrev scans : List Photo
scans = photo 1 none ∷ photo 2 none ∷ photo 3 none ∷ photo 5 (some (epoch + 50)) ∷ []

undated_cursor_ends_list_example :
    list codec 4 any_status scans 2 (some (encode_cursor codec none 2))
    ≡ ok (record { assets = []; next_cursor = none })
unfolding event_rows
undated_cursor_ends_list_example =
    undated_cursor_ends_list codec 4 any_status scans 2 2 codec-IsCodec refl

lost_in_event : map (λ p. p.id) (follow (list codec 4 any_status scans 2) 9 none) ≡ 3 ∷ 2 ∷ []
unfolding follow list event_media_platform.Gallery.Rows.list_event
lost_in_event = refl

lost_in_org :
    map (λ p. p.id) (follow (list_for_org codec 7 (wedding ∷ []) scans 2) 9 none) ≡ 3 ∷ 2 ∷ 1 ∷ []
unfolding follow list_for_org event_media_platform.Gallery.Rows.list_org
lost_in_org = refl
