-- ===== src/Ledger/Updates.antt =====
-- update, update_analysis and replace_analysis of app/projection_store.py.
pub mod Keeps
pub mod Compare
use plt_converter.Prelude.{
  ℕ, ◌+◌, Bool, true, false, Option, none, some, ◌==◌, ◌&&◌, ◌||◌, not, if◌then◌else◌, update_row,
  update_where,
}
use plt_converter.Ledger.Rows.{
  Kind, Lease, Session, Ledger, Meta, Analysis, Status, is_analyzing, Phase, session_id, is_some_of,
  Host, Code, rejected, Result, ok, ◌>>=◌, ◌>>◌, or_raise,
}
use plt_converter.Ledger.Expiry.{expire, expire_scenes}
use plt_converter.Ledger.Admission.{select_session, revoke_lease}
use plt_converter.Ledger.Sessions.{read_metadata, write_metadata}

-- The keys of `change`: those that are given overwrite the analysis.
pub record Change : Type 0 where
  pub status : Option Status
  pub phase : Option Phase
  pub outcome : Option ℕ

abbrev pub override {ℓ} : {A : Type ℓ} → Option A → A → A
override none a = a
override (some b) a = b

abbrev pub override_phase : Option Phase → Option Phase → Option Phase
override_phase none p = p
override_phase (some q) p = some q

-- {**current, **change}
abbrev pub merge : Change → Analysis → Analysis
merge c a = record a {
  status = override c.status a.status;
  phase = override_phase c.phase a.phase;
  outcome = override c.outcome a.outcome;
}

-- (meta.get('analysis') or {}).get('analysis_id')
abbrev pub current_id : Meta → Option ℕ
current_id m = elim m.analysis [ none ↦ none | some a ↦ some a.analysis_id ]

abbrev pub same_id : Option ℕ → Option ℕ → Bool
same_id none none = true
same_id (some a) (some b) = a == b
same_id _ _ = false

abbrev pub is_phase_queued : Option Phase → Bool
is_phase_queued (some Phase.queued) = true
is_phase_queued _ = false

abbrev pub is_phase_started : Option Phase → Bool
is_phase_started (some Phase.started) = true
is_phase_started _ = false

-- The arguments of `update` behind `generation`; `expected` is none where it is not given.
pub record Edit : Type 0 where
  pub meta : Option Meta
  pub invalidate : Bool
  pub guard : Option (ℕ × Change)
  pub replacement : Option (Option ℕ × Analysis)
  pub expected : Option (Option ℕ)

-- A stage of the transaction returns False, or goes on with the metadata to write.
pub data Stage : Type 0 where
  stop : Ledger → Stage
  go : Option Meta → Ledger → Stage

-- `if expected_analysis_id is not _UNSET_ANALYSIS`
unfoldable pub check_expected :
    Host → Session → Option (Option ℕ) → Option Meta → Ledger → Result Stage
unfolding read_metadata
check_expected h row none meta l = ok (go meta l)
check_expected h row (some e) meta l = do
  latest ← read_metadata h row
  ok (if same_id (current_id latest) e then go meta l else stop l)

abbrev pub prior_lease : Meta → Option ℕ
prior_lease m = elim m.analysis [ none ↦ none | some a ↦ a.lease ]

abbrev pub is_analysis : Kind → Bool
is_analysis Kind.analysis = true
is_analysis _ = false

-- WHERE id=? AND owner=? AND document=? AND kind='analysis'
abbrev pub is_prior : ℕ → ℕ → ℕ → Lease → Bool
is_prior prior o document r =
    r.id == prior && r.owner == o && is_some_of document r.document && is_analysis r.kind

-- `if prior_lease and prior_lease != analysis.get('lease')`: revoke it.
abbrev pub revoke_prior : Option ℕ → Option ℕ → ℕ → ℕ → Ledger → Ledger
revoke_prior none new o document l = l
revoke_prior (some p) new o document l =
    if same_id (some p) new
    then l
    else record l { leases = update_where (is_prior p o document) revoke_lease l.leases }

-- `if analysis_replacement is not None`
unfoldable pub apply_replacement :
    Host → Session → Option (Option ℕ × Analysis) → Option Meta → Ledger → Result Stage
unfolding read_metadata
apply_replacement h row none meta l = ok (go meta l)
apply_replacement h row (some (e, a)) meta l = do
  latest ← read_metadata h row
  ok (
      if same_id (current_id latest) e
      then go (some (record latest { analysis = some a }))
          (revoke_prior (prior_lease latest) a.lease row.owner row.id l)
      else stop l)

abbrev pub guarded : ℕ → Change → Meta → Ledger → Option Analysis → Stage
guarded i change latest l none = stop l
guarded i change latest l (some a) =
    if not (a.analysis_id == i)
      || not (is_analyzing a.status)
      || is_phase_queued change.phase && is_phase_started a.phase
    then stop l
    else go (some (record latest { analysis = some (merge change a) })) l

-- `if analysis_guard is not None`
unfoldable pub apply_guard :
    Host → Session → Option (ℕ × Change) → Option Meta → Ledger → Result Stage
unfolding read_metadata
apply_guard h row none meta l = ok (go meta l)
apply_guard h row (some (i, change)) meta l = do
  latest ← read_metadata h row
  ok (guarded i change latest l latest.analysis)

abbrev pub continue :
    Stage → (Option Meta → Ledger → Result (Bool × Ledger)) → Result (Bool × Ledger)
continue (stop l) f = ok (false, l)
continue (go m l) f = f m l

-- UPDATE sessions SET meta=?, generation=generation+?
abbrev pub set_meta : Meta → Bool → Session → Session
set_meta m invalidate s = record s {
  meta = some m;
  generation = if invalidate then s.generation + 1 else s.generation;
}

-- The write at the end of the transaction. Metadata that is None has no `items`.
unfoldable pub store_meta :
    Host → ℕ → Session → Bool → Option Meta → Ledger → Result (Bool × Ledger)
unfolding write_metadata
store_meta h current row invalidate meta l = do
  m ← or_raise meta (rejected Code.file_error 0 0)
  let clean = record m { expires_at = row.expires }
  write_metadata h clean
  let l1 = record l {
    sessions = update_row session_id row.id (set_meta clean invalidate) l.sessions;
  }
  ok (true, if invalidate then expire_scenes h current l1 else l1)

unfoldable pub edit_row : Host → ℕ → Session → Edit → Ledger → Result (Bool × Ledger)
unfolding check_expected apply_replacement apply_guard store_meta
edit_row h current row e l = do
  first ← check_expected h row e.expected e.meta l
  continue first λ m1 l1. do
    second ← apply_replacement h row e.replacement m1 l1
    continue second λ m2 l2. do
      third ← apply_guard h row e.guard m2 l2
      continue third λ m3 l3. store_meta h current row e.invalidate m3 l3

unfoldable pub update : Host → ℕ → ℕ → ℕ → ℕ → Edit → Ledger → Result (Bool × Ledger)
update h current document o generation e l =
    let l1 = expire h current l in
    elim (select_session document o l1) [
      | none ↦ ok (false, l1)
      | some row ↦
          if row.generation == generation then edit_row h current row e l1 else ok (false, l1)
    ]

abbrev pub guard_edit : ℕ → Change → Bool → Edit
guard_edit i change invalidate = record {
  meta = none;
  invalidate = invalidate;
  guard = some (i, change);
  replacement = none;
  expected = none;
}

abbrev pub replacement_edit : Option ℕ → Analysis → Edit
replacement_edit expected a = record {
  meta = none;
  invalidate = false;
  guard = none;
  replacement = some (expected, a);
  expected = none;
}

unfoldable pub update_analysis :
    Host → ℕ → ℕ → ℕ → ℕ → ℕ → Change → Bool → Ledger → Result (Bool × Ledger)
unfolding update
update_analysis h current document o analysis_id generation change invalidate l =
    update h current document o generation (guard_edit analysis_id change invalidate) l

unfoldable pub replace_analysis :
    Host → ℕ → ℕ → ℕ → Analysis → ℕ → Option ℕ → Ledger → Result (Bool × Ledger)
unfolding update
replace_analysis h current document o a generation expected l =
    update h current document o generation (replacement_edit expected a) l
