-- ===== src/Ledger/Tests/Runs.antt =====
-- An upload to app/projection_store.py that is reserved, parsed and finished.
use plt_converter.Prelude.{count, ◌≤◌, ◌+◌, false, [], ◌∷◌, ◌≡◌, refl}
use plt_converter.Ledger.Rows.{Kind, ok}
use plt_converter.Ledger.Policy.{
  allocation, db_bytes, system_bytes, render_pool_bytes, upload_bytes,
}
use plt_converter.Ledger.Disk.{budgets, bucket_of, charge, disk_accounting, check_capacity}
use plt_converter.Ledger.Disk.Accounting.{bytes_of, used-eq-walk_unwritten}
use plt_converter.Ledger.Expiry.{
  drop_scenes, expire_scenes, is_reclaimable, mark_overdue, reclaim, expire,
}
use plt_converter.Ledger.Admission.{
  owner_documents, owner_source, parsers, admit_upload, reserve_upload,
}
use plt_converter.Ledger.Leases.{Turn, take_parser, parse_turn, release, release_all}
use plt_converter.Ledger.Sessions.{
  is_active_of, write_metadata, reject_superseded, retire_where, promote, complete_upload,
}
use plt_converter.Ledger.Runs.{empty, IsWithin, Step, Reach, reachable-IsWithin}
use plt_converter.Ledger.Disk.Promises.{HasKeys, promised, check_capacity_fits}
use plt_converter.Ledger.Single.Calls.{Call, Calls, reachable_single}
use plt_converter.Ledger.Tests.{
  small, small-accepted, host_at, sheet, waiting_lease, parsing_lease, done_lease, stored, tables,
}

pub uploaded : reserve_upload (host_at 10) small 1 1 7 empty ≡ ok (tables [] (waiting_lease ∷ []))
unfolding reserve_upload admit_upload owner_documents owner_source check_capacity disk_accounting
    budgets charge bucket_of db_bytes system_bytes render_pool_bytes expire mark_overdue
    expire_scenes drop_scenes reclaim
uploaded = refl

pub parsed :
    parse_turn small false 1 (tables [] (waiting_lease ∷ []))
    ≡ Turn.admitted (tables [] (parsing_lease ∷ []))
unfolding parse_turn take_parser parsers
parsed = refl

pub completed :
    complete_upload (host_at 20) 1 1 7 9 5000 sheet (tables [] (parsing_lease ∷ []))
    ≡ ok (tables (stored ∷ []) (done_lease ∷ []), [])
unfolding complete_upload promote reject_superseded write_metadata retire_where release_all release
    allocation expire mark_overdue expire_scenes drop_scenes reclaim is_reclaimable
completed = refl

pub run : Reach small 1 empty (tables (stored ∷ []) (done_lease ∷ []))
run =
    Reach.next
      (Reach.next (Reach.next Reach.here (Step.uploads (host_at 10) 1 7 _ _ uploaded))
        (Step.parses false 1 _ _ parsed))
      (Step.completes (host_at 20) 1 7 9 5000 sheet _ _ parsing_lease [] refl refl completed)

finished_run-IsWithin : IsWithin small (tables (stored ∷ []) (done_lease ∷ []))
finished_run-IsWithin =
    reachable-IsWithin small 1 (tables (stored ∷ []) (done_lease ∷ [])) small-accepted run

accounted_run :
    (disk_accounting (host_at 20) small (tables (stored ∷ []) (done_lease ∷ []))).0
    ≡ bytes_of (host_at 20).walk
      + (disk_accounting (host_at 20) small (tables (stored ∷ []) (done_lease ∷ []))).1
accounted_run = used-eq-walk_unwritten (host_at 20) small (tables (stored ∷ []) (done_lease ∷ []))

single_run : count (is_active_of 7) (tables (stored ∷ []) (done_lease ∷ [])).sessions ≤ 1
single_run = reachable_single small 1 7 (tables (stored ∷ []) (done_lease ∷ [])) (
    Calls.next
      (Calls.next
        (Calls.next Calls.here (Call.step _ _ (Step.uploads (host_at 10) 1 7 _ _ uploaded)))
        (Call.step _ _ (Step.parses false 1 _ _ parsed)))
      (Call.completes (host_at 20) 1 7 9 5000 sheet _ _ [] completed))

empty-HasKeys : HasKeys empty
empty-HasKeys = record { session_keys = tt; lease_keys = tt }

granted : check_capacity (host_at 10) small empty upload_bytes Kind.upload ≡ ok tt
unfolding check_capacity disk_accounting budgets charge bucket_of db_bytes system_bytes
    render_pool_bytes
granted = refl

fitting_run :
    (promised small empty + upload_bytes ≤ small.global_disk_bytes)
    × (small.free_floor_bytes + (disk_accounting (host_at 10) small empty).1 + upload_bytes
        ≤ (host_at 10).free)
fitting_run =
    check_capacity_fits (host_at 10) small empty upload_bytes Kind.upload empty-HasKeys granted
