-- ===== src/Jobs/Sources.antt =====
-- The temporary source files of app/job_queue.py: store_source_upload, read_source_upload,
-- remove_source_upload and cleanup_expired_job_files.
use plt_converter.Prelude.{
  ℕ, suc, zero, ◌+◌, ◌*◌, max, Bool, true, false, not, ◌&&◌, ◌||◌, Option, none, some, List, [],
  ◌∷◌, ◌==◌, ltb, leb, if◌then◌else◌, delete_where, select_where, find_row, first_where,
}
use plt_converter.Jobs.Results.{Options, Output, layout_status, is_underway}
use plt_converter.Jobs.Rows.{
  JobType, same_type, output_version_of, UserKey, same_user, JobStatus, is_active, Job,
}
use plt_converter.Jobs.Desk.{Settings, Ticket, Desk, load_job, save_job, retention_of}
pub mod Roundtrip
pub mod Cleanup

-- A folder under `jobs/`, by the id that it is named after: its age and the input file in it.
pub record Folder : Type 0 where
  pub job : ℕ
  pub modified : ℕ
  pub source : Option ℕ

-- source_upload_slot_key, with the id that is kept under it.
pub record Upload : Type 0 where
  pub job_type : JobType
  pub user : UserKey
  pub job : ℕ

pub record Shelf : Type 0 where
  pub desk : Desk
  pub uploads : List Upload
  pub folders : List Folder

abbrev pub find_folder : ℕ → List Folder → Option Folder
find_folder id fs = find_row (λ (f : Folder). f.job) id fs

abbrev pub source_of : Option Folder → Option ℕ
source_of none = none
source_of (some f) = f.source

abbrev pub drop_folder : ℕ → List Folder → List Folder
drop_folder id fs = delete_where (λ (f : Folder). f.job == id) fs

abbrev pub drop_job : ℕ → Desk → Desk
drop_job id d = record d { jobs = delete_where (λ (j : Job). j.id == id) d.jobs }

-- `>= cutoff`; the clock counts milliseconds.
abbrev pub is_recent : Settings → ℕ → ℕ → Bool
is_recent c now t = leb now (t + 1000 * retention_of c)

abbrev pub last_change : Job → ℕ
last_change j = elim j.finished_at [ none ↦ j.updated_at | some t ↦ max t j.updated_at ]

-- `retained_from and retained_from >= cutoff`
abbrev pub is_kept_record : Settings → ℕ → Option Job → Bool
is_kept_record c now none = false
is_kept_record c now (some j) =
    if is_active j.status || is_underway (layout_status j.result)
    then true
    else ltb 0 (last_change j) && is_recent c now (last_change j)

abbrev pub is_kept_folder : Settings → ℕ → Desk → Folder → Bool
is_kept_folder c now d f = is_recent c now f.modified || is_kept_record c now (load_job f.job d)

-- cleanup_expired_job_files
unfoldable pub cleanup : Settings → ℕ → Shelf → Shelf
cleanup c now s = record s { folders = select_where (is_kept_folder c now s.desk) s.folders }

pub data Read : Type 0 where
  found : Job → ℕ → Read
  missing forbidden : Read
  rejected : ℕ → Read

abbrev pub read_file : Job → Option ℕ → Read
read_file j none = Read.missing
read_file j (some source) = Read.found j source

abbrev pub read_record : JobType → UserKey → Shelf → Option Job → Read
read_record t u s none = Read.missing
read_record t u s (some j) =
    if not (same_type j.job_type t)
    then Read.missing
    else if not (same_user j.user u)
    then Read.forbidden
    else read_file j (source_of (find_folder j.id s.folders))

-- read_source_upload; `locked` is whether the job's lock was had.
unfoldable pub read_source : Bool → ℕ → JobType → UserKey → Shelf → Read
read_source locked id t u s =
    if locked then read_record t u s (load_job id s.desk) else Read.rejected 2

abbrev pub remove_record : ℕ → JobType → UserKey → Shelf → Option Job → Bool × Shelf
remove_record id t u s none = (false, s)
remove_record id t u s (some j) =
    if not (same_type j.job_type t) || not (same_user j.user u)
    then (false, s)
    else (true, record s { desk = drop_job id s.desk; folders = drop_folder id s.folders })

-- remove_source_upload, `none` where the lock was not had.
unfoldable pub remove_source : Bool → ℕ → JobType → UserKey → Shelf → Option Bool × Shelf
remove_source locked id t u s =
    let r = remove_record id t u s (load_job id s.desk) in
    if locked then (some r.0, r.1) else (none, s)

-- The arguments of store_source_upload, and what it finds: its locks, the clock and the id that uuid4
-- gives. `result` is `dict(options)` as a result is read.
pub record SourceFile : Type 0 where
  pub job_type : JobType
  pub source : ℕ
  pub filename : ℕ
  pub options : Options
  pub result : Output
  pub user : UserKey

pub record SourceIntake : Type 0 where
  pub settings : Settings
  pub locked : Bool
  pub previous_locked : Bool
  pub now : ℕ
  pub fresh : ℕ

abbrev pub source_job : SourceIntake → SourceFile → Job
source_job i f = record {
  id = i.fresh;
  job_type = f.job_type;
  output_version = output_version_of f.job_type;
  fingerprint = none;
  user = f.user;
  status = JobStatus.done;
  progress = 100;
  filename = f.filename;
  options = f.options;
  result_path = none;
  result = some f.result;
  error = none;
  created_at = i.now;
  updated_at = i.now;
  started_at = some i.now;
  finished_at = some i.now;
  duration = none;
  deduplicated = false;
  retry_count = 0;
  rq_attempt = none;
  billing_request = none;
  access = none;
  billing_confirmed = false;
  cancel_requested = false;
  billing_released = none;
  release_completed = false;
}

abbrev pub is_upload : JobType → UserKey → Upload → Bool
is_upload t u x = same_type x.job_type t && same_user x.user u

abbrev pub uploaded_job : JobType → UserKey → List Upload → Option Upload
uploaded_job t u xs = first_where (is_upload t u) xs

-- The file in its folder, the record and the slot.
abbrev pub put_source : SourceIntake → SourceFile → Shelf → Shelf
put_source i f s = record {
  desk = save_job (source_job i f) s.desk;
  uploads =
      record { job_type = f.job_type; user = f.user; job = i.fresh }
      ∷ delete_where (is_upload f.job_type f.user) s.uploads;
  folders =
      record { job = i.fresh; modified = i.now; source = some f.source }
      ∷ drop_folder i.fresh s.folders;
}

pub data Stored : Type 0 where
  stores : Job → Stored
  rejected : ℕ → Stored

abbrev pub stored_answer : Job → Option Bool × Shelf → Stored × Shelf
stored_answer j (none, s) = (Stored.rejected 2, s)
stored_answer j (some b, s) = (Stored.stores j, s)

-- The upload that the slot named before.
abbrev pub supersede : SourceIntake → SourceFile → Shelf → Option Upload → Stored × Shelf
supersede i f s none = (Stored.stores (source_job i f), s)
supersede i f s (some x) =
    if x.job == i.fresh
    then (Stored.stores (source_job i f), s)
    else stored_answer (source_job i f) (remove_source i.previous_locked x.job f.job_type f.user s)

-- store_source_upload
unfoldable pub store_source : SourceIntake → SourceFile → Shelf → Stored × Shelf
unfolding cleanup remove_source
store_source i f s =
    let swept = cleanup i.settings i.now s in
    if i.locked
    then supersede i f (put_source i f swept) (uploaded_job f.job_type f.user swept.uploads)
    else (Stored.rejected 2, swept)
