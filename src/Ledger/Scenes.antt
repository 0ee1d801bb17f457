-- ===== src/Ledger/Scenes.antt =====
-- scene_begin, scene_snapshot, scene_failed and scene_close of app/projection_scene_store.py.
pub mod Begin
pub mod Publish
pub mod Bundles
use plt_converter.Prelude.{
  ℕ, ◌+◌, Bool, true, false, Option, none, some, [], ◌∷◌, ◌++◌, ◌==◌, ◌&&◌, ◌||◌, not, ltb, leb,
  if◌then◌else◌, update_row, delete_where, first_where,
}
use plt_converter.Ledger.Rows.{
  Kind, Stamp, Pid, Lease, Scene, Readiness, is_pending, Ledger, lease_id, is_some_of, Host, Code,
  rejected, Result, ok, err, ◌>>=◌, ◌>>◌, raise_if, or_raise,
}
use plt_converter.Ledger.Policy.{Policy, operation_bytes, allocation}
use plt_converter.Ledger.Disk.{check_capacity}
use plt_converter.Ledger.Expiry.{expire, is_download}
use plt_converter.Ledger.Admission.{
  select_session, renderers, owner_renderers_used, owner_derived, new_lease, insert_lease,
}
use plt_converter.Ledger.Leases.{release}

-- WHERE document=? AND generation=? AND variant=? AND pipeline=?
abbrev pub is_scene_of : ℕ → ℕ → ℕ → ℕ → Scene → Bool
is_scene_of document generation variant current c =
    c.document == document
    && c.generation == generation
    && c.variant == variant
    && c.pipeline == current

abbrev pub is_invalid : Readiness → Bool
is_invalid Readiness.invalid = true
is_invalid _ = false

-- _scene_slots
unfoldable pub scene_slots : Policy → ℕ → Ledger → Result (Unit {0})
unfolding renderers owner_renderers_used
scene_slots p o l =
    raise_if
      (leb p.global_renderers (renderers l) || leb p.owner_renderers (owner_renderers_used o l))
      (rejected Code.renderer_busy 429 1)

-- The lease and the row that scene_begin inserts.
abbrev pub scene_lease : Host → Policy → ℕ → ℕ → ℕ → ℕ → Lease
scene_lease h p token o document generation =
    record (new_lease h token o Kind.scene (some document) (Stamp.at generation)
      (operation_bytes + allocation p.derived_max_bytes) 0) { derived_budget = p.derived_max_bytes }

abbrev pub pending_scene : ℕ → ℕ → ℕ → ℕ → ℕ → Scene
pending_scene token document generation variant current = record {
  document = document;
  generation = generation;
  variant = variant;
  pipeline = current;
  readiness = Readiness.pending;
  revision = none;
  lease = some token;
  budget = 0;
  derived_bytes = 0;
}

-- The row found or begun, whether it was begun, and the ledger.
pub record Begun : Type 0 where
  pub scene : Scene
  pub created : Bool
  pub ledger : Ledger

-- scene_begin where no row was found, on the ledger after `_expire`.
unfoldable pub begin_new : Host → Policy → ℕ → ℕ → ℕ → ℕ → ℕ → ℕ → Ledger → Result Begun
unfolding scene_slots owner_derived
begin_new h p current token document o generation variant l = do
  raise_if (p.derived_max_bytes == 0 || p.owner_derived_bytes == 0)
      (rejected Code.scene_unconfigured 503 1)
  scene_slots p o l
  raise_if (ltb p.owner_derived_bytes (owner_derived o l + p.derived_max_bytes))
      (rejected Code.owner_derived_capacity 429 1)
  check_capacity h p l (operation_bytes + allocation p.derived_max_bytes) Kind.scene
  l1 ← insert_lease (scene_lease h p token o document generation) l
  let c = pending_scene token document generation variant current
  ok (record { scene = c; created = true; ledger = record l1 { scenes = l1.scenes ++ c ∷ [] } })

abbrev pub found_or_new : Option Scene → Ledger → Result Begun → Result Begun
found_or_new none l new = new
found_or_new (some c) l new =
    if is_invalid c.readiness
    then err (rejected Code.scene_corrupt 503 1)
    else ok (record { scene = c; created = false; ledger = l })

unfoldable pub scene_begin : Host → Policy → ℕ → ℕ → ℕ → ℕ → ℕ → ℕ → Ledger → Result Begun
unfolding begin_new
scene_begin h p current token document o generation variant l =
    let l1 = expire h current l in
    do
      session ← or_raise (select_session document o l1) (rejected Code.not_found 404 0)
      raise_if (not (session.generation == generation)) (rejected Code.result_stale 409 0)
      found_or_new (first_where (is_scene_of document generation variant current) l1.scenes) l1
          (begin_new h p current token document o generation variant l1)

-- scene_snapshot: the row.
unfoldable pub scene_snapshot : Host → ℕ → ℕ → ℕ → ℕ → ℕ → Ledger → Result (Scene × Ledger)
scene_snapshot h current document o generation variant l =
    let l1 = expire h current l in
    do
      session ← or_raise (select_session document o l1) (rejected Code.not_found 404 0)
      raise_if (not (session.generation == generation)) (rejected Code.result_stale 409 0)
      c ←
          or_raise (first_where (is_scene_of document generation variant current) l1.scenes)
            (rejected Code.scene_failed 503 1)
      raise_if (is_invalid c.readiness) (rejected Code.scene_corrupt 503 1)
      ok (c, l1)

-- WHERE document=? AND generation=? AND variant=? AND state='pending' AND lease=?
abbrev pub is_pending_of : ℕ → ℕ → ℕ → ℕ → Scene → Bool
is_pending_of document generation variant token c =
    c.document == document
    && c.generation == generation
    && c.variant == variant
    && is_pending c.readiness
    && is_some_of token c.lease

unfoldable pub scene_failed : ℕ → ℕ → ℕ → ℕ → Ledger → Ledger
scene_failed document generation variant token l = record l {
  scenes = delete_where (is_pending_of document generation variant token) l.scenes;
}

-- UPDATE leases SET pid=NULL,identity=NULL, for a lease of kind 'scene-download'
abbrev pub close_download : Lease → Lease
close_download r = if is_download r.kind then record r { pid = Pid.absent; identity = none } else r

unfoldable pub scene_close : Host → ℕ → ℕ → Ledger → Ledger
scene_close h current token l =
    release h current token
      (record l { leases = update_row lease_id token close_download l.leases })
