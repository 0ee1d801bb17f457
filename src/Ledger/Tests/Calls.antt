-- ===== src/Ledger/Tests/Calls.antt =====
-- Single calls of app/projection_store.py on concrete ledgers.
use plt_converter.Prelude.{
  ℕ, ◌≡◌, ◌≢◌, false, true, some, none, [], ◌∷◌, ◌++◌, refl, Bool, arith, find_row,
}
use plt_converter.Ledger.Rows.{Lease, Ledger, Host, Meta, Pid, Result, ok, err, lease_id}
use plt_converter.Ledger.Policy.{db_bytes, system_bytes, render_pool_bytes}
use plt_converter.Ledger.Process.{process_alive}
use plt_converter.Ledger.Disk.{budgets, bucket_of, charge, disk_accounting, check_capacity}
use plt_converter.Ledger.Disk.Promises.{HasKeys}
use plt_converter.Ledger.Expiry.{
  retire, is_reclaimable, drop_scenes, expire_scenes, mark_overdue, reclaim, expire,
}
use plt_converter.Ledger.Admission.{
  owner_documents, owner_source, admit_upload, reserve_upload, reserve_derived, revoke_lease,
  select_session,
}
use plt_converter.Ledger.Leases.{
  Turn, parse_turn, begin_parse, release, release_all, lease_is_valid,
}
use plt_converter.Ledger.Sessions.{
  read_metadata, write_metadata, complete_upload, delete, delete_all,
}
use plt_converter.Ledger.Updates.{
  check_expected, apply_replacement, apply_guard, store_meta, edit_row, update, update_analysis,
  merge,
}
use plt_converter.Ledger.Updates.Compare.{update_analysis-declines}
use plt_converter.Ledger.Superseded.{superseded, reserve_upload-supersedes}
use plt_converter.Ledger.Endings.{IsGone, delete-ends, delete_all-ends}
use plt_converter.Ledger.Parsing.{begin_parse-answers}
use plt_converter.Ledger.Living.{IsLiving, reconcile-keeps_living}
use plt_converter.Ledger.Reconcile.{Marker, reconcile}
use plt_converter.Ledger.Tests.{
  small, host_at, waiting_lease, stored, tables, tile_lease, analyzing_sheet, analyzing_session,
  queued_analysis, start,
}

abbrev newer_lease : Lease
newer_lease = record waiting_lease { id = 2; created = 30 }

abbrev after_newer : Ledger
after_newer = tables [] (revoke_lease waiting_lease ∷ newer_lease ∷ [])

second_upload :
    reserve_upload (host_at 30) small 1 2 7 (tables [] (waiting_lease ∷ [])) ≡ ok after_newer
unfolding reserve_upload admit_upload owner_documents owner_source check_capacity disk_accounting
    budgets charge bucket_of db_bytes system_bytes render_pool_bytes expire mark_overdue
    expire_scenes drop_scenes reclaim
second_upload = refl

older_upload_superseded :
    ((late : Bool) → parse_turn small late 1 after_newer ≡ Turn.refused superseded)
    × ((h2 : Host) (l2 : Ledger) → reserve_derived h2 small 1 after_newer ≢ ok l2)
    × ((h2 : Host) (current2 document size : ℕ) (m : Meta)
        → complete_upload h2 current2 1 7 document size m after_newer ≡ err superseded)
older_upload_superseded =
    reserve_upload-supersedes (host_at 30) small 1 2 7 1 (tables [] (waiting_lease ∷ []))
      after_newer (revoke_lease waiting_lease) second_upload refl refl refl (λ e. omega arith)

abbrev busy : Ledger
busy = tables (stored ∷ []) (tile_lease ∷ [])

busy-HasKeys : HasKeys busy
busy-HasKeys = record { session_keys = (refl, tt); lease_keys = (refl, tt) }

deleted : delete (host_at 40) 1 9 7 busy ≡ (true, tables (retire stored ∷ []) (tile_lease ∷ []))
unfolding delete select_session release_all release expire mark_overdue expire_scenes drop_scenes
    reclaim is_reclaimable
deleted = refl

deleted_run :
    ((x : ℕ) → IsGone 9 x (tables (retire stored ∷ []) (tile_lease ∷ [])))
    × (lease_is_valid (tables (retire stored ∷ []) (tile_lease ∷ [])) tile_lease ≡ false)
deleted_run = delete-ends (host_at 40) 1 9 7 busy _ tile_lease busy-HasKeys deleted refl refl

cleared_run : IsGone 9 7 (delete_all (host_at 40) 1 7 busy).1
cleared_run = delete_all-ends (host_at 40) 1 7 9 busy

abbrev analyzing_ledger : Ledger
analyzing_ledger = tables (analyzing_session ∷ []) []

abbrev started_ledger : Ledger
started_ledger =
    tables
      (record analyzing_session {
        meta = some (record analyzing_sheet { analysis = some (merge start queued_analysis) });
      }
        ∷ [])
      []

started_update :
    update_analysis (host_at 50) 1 9 7 21 0 start false analyzing_ledger ≡ ok (true, started_ledger)
unfolding update_analysis update edit_row check_expected apply_replacement apply_guard store_meta
    read_metadata write_metadata select_session expire mark_overdue expire_scenes drop_scenes
    reclaim is_reclaimable
started_update = refl

-- The same update, asked at a generation that is gone.
stale_update :
    update_analysis (host_at 50) 1 9 7 21 4 start false analyzing_ledger
    ≡ ok (false, analyzing_ledger)
unfolding update_analysis update select_session expire mark_overdue expire_scenes drop_scenes
    reclaim is_reclaimable
stale_update = refl

declined_run : analyzing_ledger ≡ expire (host_at 50) 1 analyzing_ledger
declined_run =
    update_analysis-declines (host_at 50) 1 9 7 21 4 start false analyzing_ledger analyzing_ledger
      stale_update

abbrev no_marker : ℕ → Marker
no_marker token = record { pid = Pid.absent; identity = none }

tile_alive : process_alive (host_at 60) tile_lease.pid tile_lease.identity ≡ true
unfolding process_alive
tile_alive = refl

living_run : find_row lease_id 3 (reconcile (host_at 60) 1 no_marker busy).leases ≡ some tile_lease
living_run =
    reconcile-keeps_living (host_at 60) 1 no_marker 3 tile_lease (IsLiving.child refl tile_alive)
      busy busy-HasKeys refl

answered_run :
    (r : Result Ledger) × (begin_parse small 1
        (((false, busy) ∷ []) ++ (true, tables [] (waiting_lease ∷ [])) ∷ [])
      ≡ some r)
answered_run = begin_parse-answers small 1 ((false, busy) ∷ []) (tables [] (waiting_lease ∷ []))
