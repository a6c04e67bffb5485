-- ===== src/Examples/Cleanup.antt =====
-- The theorem about the nightly sweep at a concrete input.
use event_media_platform.Prelude.{arith, false, ℕ, ◌≡◌, refl, true, [], ◌∷◌, none, some, every}
use event_media_platform.Cleanup.Rows.{StorageKey, Db}
use event_media_platform.Cleanup.Service.{run_jobs, handle_storage_reconcile}
use event_media_platform.Prelude.Text.{codes}
use event_media_platform.Auth.Rows.{OrgRole, redeem}
use event_media_platform.Auth.Rows
use event_media_platform.Auth.Guard.{AuthenticateRequest, authenticate}
use event_media_platform.Cleanup.Sessions.{cleanup_changes_no_answer}
use event_media_platform.Cleanup.Service.{handle_session_cleanup}
use event_media_platform.Examples.Auth.{toy_hash, crypto}
use event_media_platform.Examples.Org.{org_db}
use event_media_platform.Cleanup.Orphans.{is_named}
use event_media_platform.Cleanup.Sweep.{sweep_leaves_no_orphan}

abbrev key : ℕ → ℕ → StorageKey
key event path = record { org_id = 7; event_id = event; path = path }

-- Event 1 is past the grace period, and in event 2 the first photo is.
abbrev swept_db : Db
swept_db = record {
  events =
      record { id = 1; org_id = 7; deleted_at = some 5 }
      ∷ record { id = 2; org_id = 7; deleted_at = none }
      ∷ [];
  assets =
      record { id = 10; event_id = 1; storage_key = key 1 1; deleted_at = none }
      ∷ record { id = 11; event_id = 2; storage_key = key 2 1; deleted_at = some 5 }
      ∷ record { id = 12; event_id = 2; storage_key = key 2 3; deleted_at = none }
      ∷ [];
  files = record { asset_id = 11; storage_key = key 2 2 } ∷ [];
  participants = [];
  queue = [];
  bucket = key 1 1 ∷ key 2 1 ∷ key 2 2 ∷ key 2 3 ∷ [];
}

abbrev after_sweep : Db
after_sweep = (handle_storage_reconcile 700000000 swept_db).0

sweep_leaves_no_orphan_example :
    every (is_named after_sweep) (run_jobs after_sweep.queue after_sweep.bucket) ≡ true
sweep_leaves_no_orphan_example = sweep_leaves_no_orphan 700000000 swept_db refl refl

left_in_bucket : run_jobs after_sweep.queue after_sweep.bucket ≡ key 2 3 ∷ []
unfolding run_jobs handle_storage_reconcile
left_in_bucket = refl

-- At 500 the session of Ann that ended at 400 goes; the request of 600 comes with the other one.
abbrev signed_in : Rows.Db
signed_in = record org_db.rows {
  sessions =
      record { id = 3; user_id = 1; token = 9; expires_at = some 400 }
      ∷ record { id = 4; user_id = 1; token = toy_hash (codes "tok"); expires_at = some 900 }
      ∷ [];
}

abbrev request : AuthenticateRequest
request = record {
  authorization = codes "Bearer tok";
  cookie = [];
  gallery_token_header = [];
  gallery_token_query = [];
  org_id = 7;
  event_id = 0;
  options = record {
    super_admin = false;
    org_role = some OrgRole.owner;
    participant = false;
    allow_super_admin = false;
  };
}

cleanup_changes_no_answer_example :
    let db' = (handle_session_cleanup 500 signed_in).0 in
    (authenticate crypto 600 request db' ≡ authenticate crypto 600 request signed_in)
    × ((redeem 600 77 db').1 ≡ (redeem 600 77 signed_in).1)
cleanup_changes_no_answer_example =
    cleanup_changes_no_answer crypto 500 600 77 request signed_in (omega arith)
