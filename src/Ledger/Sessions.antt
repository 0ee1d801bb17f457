-- ===== src/Ledger/Sessions.antt =====
-- complete_upload, load, renew, delete and delete_all of app/projection_store.py, with their
-- helpers.
use plt_converter.Prelude.{
  ℕ, ◌+◌, ◌*◌, Bool, true, false, Option, none, some, List, [], ◌∷◌, ◌++◌, ◌==◌, ◌&&◌, ◌||◌, not,
  ltb, if◌then◌else◌, map, find_row, update_row, update_where, select_where, exists_where,
}
use plt_converter.Ledger.Rows.{
  Kind, is_uploading, is_revoked, Lease, Session, Ledger, Meta, is_analyzing, session_id, lease_id,
  is_some_of, Host, Code, rejected, Result, ok, err, ◌>>=◌, ◌>>◌, raise_if, or_raise,
}
use plt_converter.Ledger.Policy.{max_source, meta_bound, allocation, second}
use plt_converter.Ledger.Expiry.{expire, retire}
use plt_converter.Ledger.Admission.{select_session}
use plt_converter.Ledger.Leases.{is_absent, release_all}

-- `{**json.loads(raw), 'expires_at': row['expires']}`
unfoldable pub read_metadata : Host → Session → Result Meta
read_metadata h row = do
  m ← or_raise row.meta (rejected Code.file_error 0 0)
  raise_if (ltb meta_bound (h.encoded m)) (rejected Code.metadata_budget 503 1)
  ok (record m { expires_at = row.expires })

-- _write_metadata: the file that the row will name, if it fits.
unfoldable pub write_metadata : Host → Meta → Result (Unit {0})
write_metadata h m = raise_if (ltb meta_bound (h.encoded m)) (rejected Code.metadata_budget 503 1)

-- _analyzing_analysis_id
unfoldable pub analyzing_id : Option Meta → Option ℕ
analyzing_id none = none
analyzing_id (some m) = elim m.analysis [
  | none ↦ none
  | some a ↦ if is_analyzing a.status then some a.analysis_id else none
]

-- A later (time, token), where a missing token is not later.
abbrev pub is_later : ℕ → ℕ → ℕ → Option ℕ → Bool
is_later created token at none = ltb created at
is_later created token at (some by) = ltb created at || at == created && ltb token by

-- An in-flight upload of the owner that was reserved after (created, token).
abbrev pub is_newer_upload : ℕ → ℕ → ℕ → Lease → Bool
is_newer_upload o token created r =
    r.owner == o
    && is_uploading r.kind
    && not (r.id == token)
    && is_later created token r.created (some r.id)

-- _session_reservation, compared with (created, token).
abbrev pub reserved_later : ℕ → ℕ → Option Meta → Bool
reserved_later created token none = false
reserved_later created token (some m) = elim m.reserved_at [
  | none ↦ false
  | some at ↦ is_later created token at m.reserved_by
]

abbrev pub is_newer_session : ℕ → ℕ → ℕ → Session → Bool
is_newer_session o token created s = s.owner == o && s.active && reserved_later created token s.meta

-- _reject_superseded
unfoldable pub reject_superseded : ℕ → Lease → Ledger → Result (Unit {0})
reject_superseded o row l = do
  raise_if (is_revoked row.generation) (rejected Code.upload_superseded 409 0)
  raise_if
      (exists_where (is_newer_upload o row.id row.created) l.leases
        || exists_where (is_newer_session o row.id row.created) l.sessions)
      (rejected Code.upload_superseded 409 0)

abbrev pub is_idle_on : ℕ → Lease → Bool
is_idle_on document r = is_some_of document r.document && is_absent r.pid

-- SELECT id FROM leases WHERE document=? AND pid IS NULL
abbrev pub idle_leases : ℕ → Ledger → List ℕ
idle_leases document l = map lease_id (select_where (is_idle_on document) l.leases)

abbrev pub all_idle : List Session → Ledger → List ℕ
all_idle [] l = []
all_idle (s ∷ ss) l = idle_leases s.id l ++ all_idle ss l

abbrev pub analyzing_ids : List Session → List ℕ
analyzing_ids [] = []
analyzing_ids (s ∷ ss) =
    let rest = analyzing_ids ss in elim (analyzing_id s.meta) [ none ↦ rest | some i ↦ i ∷ rest ]

-- WHERE owner=? AND state='active'
abbrev pub is_active_of : ℕ → Session → Bool
is_active_of o s = s.owner == o && s.active

-- WHERE owner=? AND state='active' AND id!=?
abbrev pub is_active_other : ℕ → ℕ → Session → Bool
is_active_other o document s = s.owner == o && s.active && not (s.id == document)

-- What a retirement leaves: the ledger, the idle leases to release, the analyses to drop.
pub record Retired : Type 0 where
  pub ledger : Ledger
  pub pending : List ℕ
  pub discarded : List ℕ

-- The loop of _retire_others and of delete_all, and the `_expire` after it.
unfoldable pub retire_where : Host → ℕ → (Session → Bool) → Ledger → Retired
retire_where h current which l =
    let rows = select_where which l.sessions in
    record {
      ledger = expire h current (record l { sessions = update_where which retire l.sessions });
      pending = all_idle rows l;
      discarded = analyzing_ids rows;
    }

-- The session of a promoted upload.
abbrev pub promoted : Host → ℕ → ℕ → ℕ → Meta → Session
promoted h document o size m = record {
  id = document;
  owner = o;
  expires = m.expires_at;
  generation = 0;
  active = true;
  source_bytes = if m.plt then 0 else size;
  meta = some m;
  budget = allocation size + 2 * meta_bound;
  derived_bytes = if m.plt then size else 0;
}

-- UPDATE leases SET kind='upload_done', budget=?, source_budget=0, derived_budget=0
abbrev pub finish_upload : Lease → Lease
finish_upload r = record r {
  kind = Kind.upload_done;
  budget = 2 * meta_bound + 65536;
  source_budget = 0;
  derived_budget = 0;
}

-- INSERT INTO sessions: the id is the primary key.
abbrev pub insert_session : Session → Ledger → Result Ledger
insert_session s l =
    if exists_where (λ x. session_id x == s.id) l.sessions
    then err (rejected Code.duplicate_key 0 0)
    else ok (record l { sessions = l.sessions ++ s ∷ [] })

-- `SELECT * FROM leases WHERE id=? AND owner=?`
abbrev pub find_owned : ℕ → ℕ → List Lease → Option Lease
find_owned token o ls = elim (find_row lease_id token ls) [
  | none ↦ none
  | some r ↦ if r.owner == o then some r else none
]

abbrev pub size_limit : Meta → Lease → ℕ
size_limit m row = if m.plt then row.derived_budget else max_source

abbrev pub size_code : Meta → Code
size_code m = if m.plt then Code.derived_too_large else Code.source_too_large

-- The transaction of complete_upload up to the insertion of the session. `size` is the size of the
-- source file, `document` the new token, `client` whether `discarded` is given.
unfoldable pub promote : Host → Bool → ℕ → ℕ → ℕ → ℕ → Meta → Ledger → Result Ledger
unfolding reject_superseded write_metadata
promote h client token o document size m l = do
  row ← or_raise (find_owned token o l.leases) (rejected Code.upload_lost 503 1)
  (if client then reject_superseded o row l else ok tt)
  raise_if (ltb (size_limit m row) size) (rejected (size_code m) 413 1)
  let m' = record m { reserved_at = some row.created; reserved_by = some token }
  write_metadata h m'
  l1 ← insert_session (promoted h document o size m') l
  ok (record l1 { leases = update_row lease_id token finish_upload l1.leases })

-- complete_upload(lease, owner, source, meta, discarded): the ledger and the discarded analyses.
unfoldable pub complete_upload : Host → ℕ → ℕ → ℕ → ℕ → ℕ → Meta → Ledger → Result (Ledger × List ℕ)
unfolding promote retire_where
complete_upload h current token o document size m l = do
  l1 ← promote h true token o document size m l
  let r = retire_where h current (is_active_other o document) l1
  ok (release_all h current r.pending r.ledger, r.discarded)

-- load: the metadata and the generation, `none` for no such session.
unfoldable pub load : Host → ℕ → ℕ → ℕ → Ledger → Result (Option (Meta × ℕ) × Ledger)
unfolding read_metadata
load h current document o l =
    let l1 = expire h current l in
    elim (select_session document o l1) [
      | none ↦ ok (none, l1)
      | some row ↦ (do m ← read_metadata h row; ok (some (m, row.generation), l1))
    ]

abbrev pub extend : ℕ → Session → Session
extend now s = record s { expires = now + 3600 * second }

unfoldable pub renew : Host → ℕ → ℕ → ℕ → Ledger → Bool × Ledger
renew h current document o l =
    let l1 = expire h current l in
    elim (select_session document o l1) [
      | none ↦ (false, l1)
      | some row ↦
          (true, record l1 { sessions = update_row session_id document (extend h.now) l1.sessions })
    ]

unfoldable pub delete : Host → ℕ → ℕ → ℕ → Ledger → Bool × Ledger
delete h current document o l =
    let l1 = expire h current l in
    elim (select_session document o l1) [
      | none ↦ (false, l1)
      | some row ↦ (
        true,
        release_all h current (idle_leases document l1) (
            expire h current
              (record l1 { sessions = update_row session_id document retire l1.sessions })),
      )
    ]

-- delete_all: the ledger and the analyses that were still queued.
unfoldable pub delete_all : Host → ℕ → ℕ → Ledger → List ℕ × Ledger
unfolding retire_where
delete_all h current o l =
    let r = retire_where h current (is_active_of o) (expire h current l) in
    (r.discarded, release_all h current r.pending r.ledger)

abbrev is_busy_other : ℕ → Option ℕ → Session → Bool
is_busy_other o exclude s =
    s.owner == o
    && s.active
    && not (is_some_of s.id exclude)
    && (elim (analyzing_id s.meta) [ none ↦ false | some i ↦ true ])

-- analyzing_documents
unfoldable pub analyzing_documents : ℕ → Option ℕ → Ledger → List ℕ
analyzing_documents o exclude l = map session_id (select_where (is_busy_other o exclude) l.sessions)
