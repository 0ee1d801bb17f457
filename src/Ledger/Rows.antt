-- ===== src/Ledger/Rows.antt =====
-- The tables of app/projection_store.py and app/projection_scene_store.py, the metadata that a
-- session's row points at, what the ledger asks of its host, and its refusals.
use plt_converter.Prelude.{
  ℕ, Bool, true, false, Option, none, some, List, ◌==◌, ◌≡◌, refl, ◌⊎◌, inl, inr,
}

-- `kind` of a lease.
pub data Kind : Type 0 where
  upload upload_parse upload_done parse tile scene scene_download analysis : Kind

-- `row['kind'].startswith('upload')`
abbrev pub is_upload : Kind → Bool
is_upload Kind.upload = true
is_upload Kind.upload_parse = true
is_upload Kind.upload_done = true
is_upload _ = false

-- `kind IN ('upload','upload-parse')`
abbrev pub is_uploading : Kind → Bool
is_uploading Kind.upload = true
is_uploading Kind.upload_parse = true
is_uploading _ = false

-- `kind IN ('parse','upload-parse')`
abbrev pub is_parsing : Kind → Bool
is_parsing Kind.parse = true
is_parsing Kind.upload_parse = true
is_parsing _ = false

-- `kind IN ('tile','scene','scene-download')`
abbrev pub is_rendering : Kind → Bool
is_rendering Kind.tile = true
is_rendering Kind.scene = true
is_rendering Kind.scene_download = true
is_rendering _ = false

abbrev pub is_tile : Kind → Bool
is_tile Kind.tile = true
is_tile _ = false

-- `generation` of a lease: NULL, -1, or the session's generation that it was taken at.
pub data Stamp : Type 0 where
  unset revoked : Stamp
  at : ℕ → Stamp

-- `generation == -1`
abbrev pub is_revoked : Stamp → Bool
is_revoked Stamp.revoked = true
is_revoked _ = false

abbrev pub is_at : ℕ → Stamp → Bool
is_at g (Stamp.at n) = g == n
is_at g _ = false

-- `pid` of a lease: NULL, -1 (a claimed launch), or a process.
pub data Pid : Type 0 where
  absent claimed : Pid
  process : ℕ → Pid

pub record Lease : Type 0 where
  pub id : ℕ
  pub owner : ℕ
  pub kind : Kind
  pub document : Option ℕ
  pub generation : Stamp
  pub budget : ℕ
  pub source_budget : ℕ
  pub derived_budget : ℕ
  pub pid : Pid
  pub identity : Option ℕ
  pub supervisor : ℕ
  pub supervisor_identity : Option ℕ
  pub created : ℕ
  pub scene_revision : Option ℕ

pub data Status : Type 0 where
  analyzing ready insufficient_evidence failed : Status

abbrev pub is_analyzing : Status → Bool
is_analyzing Status.analyzing = true
is_analyzing _ = false

-- `phase` of an analysis; `started` is the text "analyzing".
pub data Phase : Type 0 where
  queued started : Phase

-- `meta['analysis']`; `outcome` stands for its other keys (mode, suggestion, reason, error).
pub record Analysis : Type 0 where
  pub analysis_id : ℕ
  pub status : Status
  pub phase : Option Phase
  pub lease : Option ℕ
  pub outcome : ℕ

-- The JSON of a metadata file; `content` stands for the keys that the ledger only copies.
pub record Meta : Type 0 where
  pub plt : Bool
  pub expires_at : ℕ
  pub reserved_at : Option ℕ
  pub reserved_by : Option ℕ
  pub analysis : Option Analysis
  pub content : ℕ

-- `meta` is what the metadata file that the row names holds, `none` when it cannot be read.
pub record Session : Type 0 where
  pub id : ℕ
  pub owner : ℕ
  pub expires : ℕ
  pub generation : ℕ
  pub active : Bool
  pub source_bytes : ℕ
  pub meta : Option Meta
  pub budget : ℕ
  pub derived_bytes : ℕ

pub data Readiness : Type 0 where
  pending ready invalid : Readiness

abbrev pub is_pending : Readiness → Bool
is_pending Readiness.pending = true
is_pending _ = false

-- A row of `scene_bundles`; the first four columns are its primary key.
pub record Scene : Type 0 where
  pub document : ℕ
  pub generation : ℕ
  pub variant : ℕ
  pub pipeline : ℕ
  pub readiness : Readiness
  pub revision : Option ℕ
  pub lease : Option ℕ
  pub budget : ℕ
  pub derived_bytes : ℕ

pub record Ledger : Type 0 where
  pub sessions : List Session
  pub leases : List Lease
  pub scenes : List Scene

abbrev pub session_id : Session → ℕ
session_id s = s.id

abbrev pub lease_id : Lease → ℕ
lease_id l = l.id

abbrev pub is_some_of : ℕ → Option ℕ → Bool
is_some_of n none = false
is_some_of n (some m) = n == m

-- Where a path under the store's root lies, by the names that the store gives its files.
pub data Place : Type 0 where
  base database : Place
  source_file metadata_file : ℕ → Place
  work_file : ℕ → Place
  elsewhere : Place

-- `os.kill(pid, 0)`
pub data Signal : Type 0 where
  delivered no_process denied : Signal

-- What a call reads from the clock, the kernel and the file system.
pub record Host : Type 0 where
  pub now : ℕ
  pub self : ℕ
  pub start_ticks : ℕ → Option ℕ
  pub signal : ℕ → Signal
  pub walk : List (Place × ℕ)
  pub free : ℕ
  pub removes : ℕ → Bool
  pub removes_bundle : ℕ → ℕ → Bool
  pub encoded : Meta → ℕ

pub data Code : Type 0 where
  owner_capacity not_found result_stale renderer_busy capacity disk_floor limiter_capacity : Code
  rate_limited plt_unconfigured upload_superseded owner_derived_capacity upload_lost : Code
  parser_busy lease_lost metadata_budget source_too_large derived_too_large scene_corrupt : Code
  scene_unconfigured scene_failed bad_setting file_error duplicate_key : Code

-- `ProjectionRejected`; `bad_setting` is a `ValueError`, `file_error` an `OSError`,
-- `duplicate_key` an `sqlite3.IntegrityError`.
pub record Rejected : Type 0 where
  pub code : Code
  pub status : ℕ
  pub retry_after : ℕ

abbrev pub rejected : Code → ℕ → ℕ → Rejected
rejected c s r = record { code = c; status = s; retry_after = r }

-- What a call comes to.
pub data Result {ℓ} (A : Type ℓ) : Type ℓ where
  err : Rejected → Result A
  ok : A → Result A

abbrev pub or_raise {ℓ} : {A : Type ℓ} → Option A → Rejected → Result A
or_raise none refusal = err refusal
or_raise (some a) refusal = ok a

-- `if b: raise refusal`
abbrev pub raise_if : Bool → Rejected → Result (Unit {0})
raise_if false refusal = ok tt
raise_if true refusal = err refusal

-- The next statement of a `with self.transaction()` block; an exception leaves the block.
infixl 5 ◌>>=◌
abbrev pub ◌>>=◌ {ℓ κ} : {A : Type ℓ} → Result A → {B : Type κ} → (A → Result B) → Result B
err refusal >>= rest = err refusal
ok value >>= rest = rest value

infixl 5 ◌>>◌
abbrev pub ◌>>◌ {κ} : Result (Unit {0}) → {B : Type κ} → Result B → Result B
checked >> rest = checked >>= λ done. rest

pub Result-cases {ℓ} :
    {A : Type ℓ} (r : Result A) → ((e : Rejected) × (r ≡ err e)) ⊎ ((a : A) × (r ≡ ok a))
Result-cases (err e) = inl (e, refl)
Result-cases (ok a) = inr (a, refl)
