-- ===== src/Ledger/Admission.antt =====
-- reserve and reserve_derived of app/projection_store.py.
use plt_converter.Prelude.{
  ℕ, ◌+◌, Bool, Option, none, some, [], ◌∷◌, ◌++◌, ◌==◌, ◌&&◌, ◌||◌, not, ltb, leb, if◌then◌else◌,
  find_row, update_row, update_where, total_where, count, exists_where,
}
use plt_converter.Ledger.Rows.{
  Kind, is_uploading, is_parsing, is_rendering, is_tile, Stamp, is_revoked, Pid, Lease, Session,
  Ledger, session_id, lease_id, Host, Code, rejected, Result, ok, err, ◌>>=◌, ◌>>◌, raise_if,
  or_raise,
}
use plt_converter.Ledger.Policy.{Policy, max_source, upload_bytes, operation_bytes, allocation}
use plt_converter.Ledger.Disk.{check_capacity}
use plt_converter.Ledger.Expiry.{expire}

abbrev pub owns : ℕ → Session → Bool
owns o s = s.owner == o

abbrev pub holds : ℕ → Lease → Bool
holds o l = l.owner == o

-- WHERE owner=? AND kind IN ('upload','upload-parse') AND COALESCE(generation,0)!=-1
abbrev pub is_live_upload : ℕ → Lease → Bool
is_live_upload o l = l.owner == o && is_uploading l.kind && not (is_revoked l.generation)

-- WHERE owner=? AND generation=-1 AND kind IN ('upload','upload-parse')
abbrev pub is_superseded_upload : ℕ → Lease → Bool
is_superseded_upload o l = l.owner == o && is_revoked l.generation && is_uploading l.kind

-- SELECT * FROM sessions WHERE id=? AND owner=? AND state='active'
unfoldable pub select_session : ℕ → ℕ → Ledger → Option Session
select_session document o l = elim (find_row session_id document l.sessions) [
  | none ↦ none
  | some s ↦ if s.owner == o && s.active then some s else none
]

unfoldable pub owner_documents : ℕ → Ledger → ℕ
owner_documents o l = count (owns o) l.sessions + count (is_live_upload o) l.leases

unfoldable pub owner_source : ℕ → Ledger → ℕ
owner_source o l =
    total_where (owns o) (λ s. s.source_bytes) l.sessions
    + total_where (is_live_upload o) (λ r. r.source_budget) l.leases

unfoldable pub renderers : Ledger → ℕ
renderers l = count (λ r. is_rendering r.kind) l.leases

unfoldable pub owner_renderers_used : ℕ → Ledger → ℕ
owner_renderers_used o l = count (λ r. is_rendering r.kind && r.owner == o) l.leases

unfoldable pub parsers : Ledger → ℕ
parsers l = count (λ r. is_parsing r.kind) l.leases

abbrev pub with_lease : Lease → Ledger → Ledger
with_lease r l = record l { leases = l.leases ++ r ∷ [] }

-- INSERT INTO leases: the id is the primary key.
abbrev pub insert_lease : Lease → Ledger → Result Ledger
insert_lease r l =
    if exists_where (λ x. lease_id x == r.id) l.leases
    then err (rejected Code.duplicate_key 0 0)
    else ok (with_lease r l)

abbrev pub revoke_lease : Lease → Lease
revoke_lease r = record r { generation = Stamp.revoked }

-- The row that `reserve` inserts; `token` is secrets.token_hex(32).
abbrev pub new_lease : Host → ℕ → ℕ → Kind → Option ℕ → Stamp → ℕ → ℕ → Lease
new_lease h token o kind document stamp budget source_budget = record {
  id = token;
  owner = o;
  kind = kind;
  document = document;
  generation = stamp;
  budget = budget;
  source_budget = source_budget;
  derived_budget = 0;
  pid = Pid.absent;
  identity = none;
  supervisor = h.self;
  supervisor_identity = h.start_ticks h.self;
  created = h.now;
  scene_revision = none;
}

-- The branch `kind == 'upload'` of `reserve`, on the ledger after `_expire`.
unfoldable pub admit_upload : Policy → ℕ → Ledger → Result (Unit {0})
unfolding owner_documents owner_source
admit_upload p o l = do
  raise_if
      (leb p.owner_max_documents (owner_documents o l)
        || ltb p.owner_source_bytes (owner_source o l + max_source))
      (rejected Code.owner_capacity 429 1)
  raise_if (leb p.owner_max_documents (count (is_superseded_upload o) l.leases))
      (rejected Code.owner_capacity 429 1)

-- The other branch: a lease on a document at a generation.
unfoldable pub admit_operation : Policy → ℕ → Kind → ℕ → ℕ → Ledger → Result (Unit {0})
unfolding select_session renderers owner_renderers_used
admit_operation p o kind document generation l = do
  session ← or_raise (select_session document o l) (rejected Code.not_found 404 0)
  raise_if (not (session.generation == generation)) (rejected Code.result_stale 409 0)
  raise_if
      (is_tile kind
        && (leb p.global_renderers (renderers l)
            || leb p.owner_renderers (owner_renderers_used o l)))
      (rejected Code.renderer_busy 429 1)

-- WHERE owner=? AND id!=? AND kind IN ('upload','upload-parse')
abbrev pub is_other_upload : ℕ → ℕ → Lease → Bool
is_other_upload o token r = r.owner == o && not (r.id == token) && is_uploading r.kind

abbrev pub supersede_others : ℕ → ℕ → Ledger → Ledger
supersede_others o token l = record l {
  leases = update_where (is_other_upload o token) revoke_lease l.leases;
}

-- reserve(owner, 'upload')
unfoldable pub reserve_upload : Host → Policy → ℕ → ℕ → ℕ → Ledger → Result Ledger
unfolding admit_upload
reserve_upload h p current token o l =
    let l1 = expire h current l in
    do
      admit_upload p o l1
      check_capacity h p l1 upload_bytes Kind.upload
      l2 ←
          insert_lease (new_lease h token o Kind.upload none Stamp.unset upload_bytes max_source) l1
      ok (supersede_others o token l2)

-- reserve(owner, kind, document, generation), for the kinds 'tile' and 'analysis'
unfoldable pub reserve_operation : Host → Policy → ℕ → ℕ → ℕ → Kind → ℕ → ℕ → Ledger → Result Ledger
unfolding admit_operation
reserve_operation h p current token o kind document generation l =
    let l1 = expire h current l in
    do
      admit_operation p o kind document generation l1
      check_capacity h p l1 operation_bytes kind
      insert_lease
          (new_lease h token o kind (some document) (Stamp.at generation) operation_bytes 0) l1

unfoldable pub owner_derived : ℕ → Ledger → ℕ
owner_derived o l =
    total_where (owns o) (λ s. s.derived_bytes) l.sessions
    + total_where (holds o) (λ r. r.derived_budget) l.leases

-- UPDATE leases SET derived_budget=?, budget=budget+?
abbrev pub charge_derived : ℕ → Lease → Lease
charge_derived maximum r = record r {
  derived_budget = maximum;
  budget = r.budget + allocation maximum;
}

unfoldable pub derive_for : Host → Policy → ℕ → Ledger → Lease → Result Ledger
unfolding owner_derived
derive_for h p token l row =
    if is_revoked row.generation
    then err (rejected Code.upload_superseded 409 0)
    else if not (row.derived_budget == 0)
    then ok l
    else (do
      raise_if (ltb p.owner_derived_bytes (owner_derived row.owner l + p.derived_max_bytes))
          (rejected Code.owner_derived_capacity 429 1)
      check_capacity h p l (allocation p.derived_max_bytes) Kind.upload
      ok (record l {
        leases = update_row lease_id token (charge_derived p.derived_max_bytes) l.leases;
      }))

unfoldable pub reserve_derived : Host → Policy → ℕ → Ledger → Result Ledger
unfolding derive_for
reserve_derived h p token l = do
  raise_if (p.derived_max_bytes == 0 || p.owner_derived_bytes == 0)
      (rejected Code.plt_unconfigured 503 1)
  row ← or_raise (find_row lease_id token l.leases) (rejected Code.upload_superseded 409 0)
  derive_for h p token l row
