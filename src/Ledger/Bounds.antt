-- ===== src/Ledger/Bounds.antt =====
-- The limits of class Policy of app/projection_store.py as a predicate on the ledger.
pub mod Upkeep
pub mod Admission
pub mod Operations
pub mod Uploads
pub mod Promotions
pub mod Updates
use plt_converter.Prelude.{
  ℕ, ◌+◌, ◌≤◌, ◌≡◌, refl, true, List, All, arith, update_where, update_row, delete_row,
  All-update_where, All-update_row, All-delete_row, select_where, [], ◌∷◌,
}
use plt_converter.Ledger.Rows.{Lease, Session, Scene, Ledger, Host, is_uploading, lease_id, ok}
use plt_converter.Ledger.Policy.{Policy, max_source, upload_bytes, allocation}
use plt_converter.Ledger.Expiry.{
  mark_overdue, drop_scene, drop_scenes, is_stale_scene, expire_scenes, reclaim, expire,
}
use plt_converter.Ledger.Disk.Promises.{HasKeys, promised}
use plt_converter.Ledger.Quota.{Quota, charged, IsLawful}
use plt_converter.Ledger.Quota.Limits.{
  disk, documents, source, derived, parsing, rendering, owner_rendering, disk-IsLawful,
  documents-IsLawful, source-IsLawful, derived-IsLawful, parsing-IsLawful, rendering-IsLawful,
  owner_rendering-IsLawful, promised-eq-charged,
}

-- The lease of an upload holds enough to become a session.
abbrev pub IsFunded : Lease → Type 0
IsFunded r =
    is_uploading r.kind ≡ true
    → (upload_bytes + allocation r.derived_budget ≤ r.budget) × (max_source ≤ r.source_budget)

pub record IsBounded (p : Policy) (l : Ledger) : Type 0 where
  pub keys : HasKeys l
  pub funded : All IsFunded l.leases
  pub disk_limit : promised p l ≤ p.global_disk_bytes
  pub document_limit : (o : ℕ) → charged (documents o) l ≤ p.owner_max_documents
  pub source_limit : (o : ℕ) → charged (source o) l ≤ p.owner_source_bytes
  pub derived_limit : (o : ℕ) → charged (derived o) l ≤ p.owner_derived_bytes
  pub parser_limit : charged parsing l ≤ p.global_parsers
  pub renderer_limit : charged rendering l ≤ p.global_renderers
  pub owner_renderer_limit : (o : ℕ) → charged (owner_rendering o) l ≤ p.owner_renderers

-- An operation that takes nothing more of any quota keeps the limits.
pub IsBounded-shrink :
    (p : Policy) (l l' : Ledger)
    → HasKeys l'
    → All IsFunded l'.leases
    → ((q : Quota) → IsLawful q → charged q l' ≤ charged q l)
    → IsBounded p l
    → IsBounded p l'
IsBounded-shrink p l l' k f s b = record {
  keys = k;
  funded = f;
  disk_limit = omega (
    arith,
    s disk disk-IsLawful,
    b.disk_limit,
    promised-eq-charged p l,
    promised-eq-charged p l',
  );
  document_limit = λ o. omega (arith, s (documents o) (documents-IsLawful o), b.document_limit o);
  source_limit = λ o. omega (arith, s (source o) (source-IsLawful o), b.source_limit o);
  derived_limit = λ o. omega (arith, s (derived o) (derived-IsLawful o), b.derived_limit o);
  parser_limit = omega (arith, s parsing parsing-IsLawful, b.parser_limit);
  renderer_limit = omega (arith, s rendering rendering-IsLawful, b.renderer_limit);
  owner_renderer_limit = λ o.
      omega (arith, s (owner_rendering o) (owner_rendering-IsLawful o), b.owner_renderer_limit o);
}

leases-drop_scene : (h : Host) (c : Scene) (l : Ledger) → (drop_scene h c l).leases ≡ l.leases
unfolding drop_scene
leases-drop_scene h c l = ground arith

leases-drop_scenes :
    (h : Host) (cs : List Scene) (l : Ledger) → (drop_scenes h cs l).leases ≡ l.leases
unfolding drop_scenes
leases-drop_scenes h [] l = refl
leases-drop_scenes h (c ∷ cs) l =
    ground (arith, leases-drop_scenes h cs (drop_scene h c l), leases-drop_scene h c l)

pub leases-expire_scenes :
    (h : Host) (current : ℕ) (l : Ledger) → (expire_scenes h current l).leases ≡ l.leases
unfolding expire_scenes
leases-expire_scenes h current l =
    leases-drop_scenes h (select_where (is_stale_scene current l) l.scenes) l

-- Expiry ends no lease.
pub leases-expire : (h : Host) (current : ℕ) (l : Ledger) → (expire h current l).leases ≡ l.leases
unfolding expire reclaim mark_overdue
leases-expire h current l = leases-expire_scenes h current (mark_overdue h l)
