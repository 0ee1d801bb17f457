-- ===== src/Ledger/Runs.antt =====
-- The calls on the store of app/projection_store.py and app/projection_scene_store.py as one step
-- relation.
use plt_converter.Prelude.{ℕ, ◌≡◌, ◌≤◌, Bool, some, List, [], arith, find_row}
use plt_converter.Ledger.Rows.{Scene, Kind, Lease, Ledger, Host, Meta, lease_id, ok}
use plt_converter.Ledger.Policy.{Policy, validate}
use plt_converter.Ledger.Expiry.{expire}
use plt_converter.Ledger.Admission.{
  owner_documents, owner_source, owner_derived, parsers, renderers, owner_renderers_used,
  reserve_upload, reserve_operation, reserve_derived,
}
use plt_converter.Ledger.Leases.{Turn, parse_turn, claim, attach, revoke, release}
use plt_converter.Ledger.Sessions.{complete_upload, renew, delete, delete_all}
use plt_converter.Ledger.Updates.{Edit, update}
use plt_converter.Ledger.Scenes.{scene_begin, scene_failed, scene_close}
use plt_converter.Ledger.Scenes.Publish.{Bundle, scene_publish, scene_open}
use plt_converter.Ledger.Scenes.Bundles.{IsReserved, scene_publish-IsBounded, scene_open-IsBounded}
use plt_converter.Ledger.Scenes.Begin.{
  scene_begin-IsBounded, scene_failed-IsBounded, scene_close-IsBounded,
}
use plt_converter.Ledger.Reconcile.{Marker, reconcile, reconcile-IsBounded}
use plt_converter.Ledger.Quota.{charged}
use plt_converter.Ledger.Disk.Promises.{promised}
use plt_converter.Ledger.Quota.Limits.{documents-eq-charged, source-eq-charged, derived-eq-charged}
use plt_converter.Ledger.Bounds.{IsBounded}
use plt_converter.Ledger.Bounds.Upkeep.{
  expire-IsBounded, claim-IsBounded, attach-IsBounded, revoke-IsBounded, release-IsBounded,
  renew-IsBounded, delete-IsBounded, delete_all-IsBounded,
}
use plt_converter.Ledger.Bounds.Admission.{reserve_upload-IsBounded}
use plt_converter.Ledger.Bounds.Operations.{
  parsers-eq-charged, renderers-eq-charged, owner_renderers-eq-charged, reserve_tile-IsBounded,
  reserve_analysis-IsBounded,
}
use plt_converter.Ledger.Bounds.Uploads.{reserve_derived-IsBounded, parse_turn-IsBounded}
use plt_converter.Ledger.Bounds.Promotions.{complete_upload-IsBounded}
use plt_converter.Ledger.Bounds.Updates.{update-IsBounded}

abbrev pub empty : Ledger
empty = record { sessions = []; leases = []; scenes = [] }

-- One committed call; each sees its own host. A call that raises, and one that only reads, leaves what
-- `_expire` leaves or nothing. Two calls are taken as their callers make them, which the code of the
-- store does not ask for: complete_upload with a list for discarded analyses and on a lease that
-- begin_parse admitted, and scene_publish on the scene lease of the owner that still holds what
-- scene_begin reserved, for a bundle that fits it.
pub data Step (p : Policy) (current : ℕ) : Ledger → Ledger → Type 0 where
  expires : (h : Host) (l : Ledger) → Step p current l (expire h current l)
  uploads :
      (h : Host) (token o : ℕ) (l l' : Ledger)
      → reserve_upload h p current token o l ≡ ok l'
      → Step p current l l'
  renders :
      (h : Host) (token o document generation : ℕ) (l l' : Ledger)
      → reserve_operation h p current token o Kind.tile document generation l ≡ ok l'
      → Step p current l l'
  analyses :
      (h : Host) (token o document generation : ℕ) (l l' : Ledger)
      → reserve_operation h p current token o Kind.analysis document generation l ≡ ok l'
      → Step p current l l'
  derives :
      (h : Host) (token : ℕ) (l l' : Ledger)
      → reserve_derived h p token l ≡ ok l'
      → Step p current l l'
  parses :
      (late : Bool) (token : ℕ) (l l' : Ledger)
      → parse_turn p late token l ≡ Turn.admitted l'
      → Step p current l l'
  claims : (h : Host) (token : ℕ) (l l' : Ledger) → claim h token l ≡ ok l' → Step p current l l'
  attaches : (h : Host) (token pid : ℕ) (l : Ledger) → Step p current l (attach h token pid l)
  revokes : (token : ℕ) (l : Ledger) → Step p current l (revoke token l)
  releases : (h : Host) (token : ℕ) (l : Ledger) → Step p current l (release h current token l)
  completes :
      (h : Host) (token o document size : ℕ) (m : Meta) (l l' : Ledger) (row : Lease)
      (dropped : List ℕ)
      → find_row lease_id token l.leases ≡ some row
      → row.kind ≡ Kind.upload_parse
      → complete_upload h current token o document size m l ≡ ok (l', dropped)
      → Step p current l l'
  renews :
      (h : Host) (document o : ℕ) (l : Ledger) → Step p current l (renew h current document o l).1
  deletes :
      (h : Host) (document o : ℕ) (l : Ledger) → Step p current l (delete h current document o l).1
  clears : (h : Host) (o : ℕ) (l : Ledger) → Step p current l (delete_all h current o l).1
  updates :
      (h : Host) (document o generation : ℕ) (e : Edit) (l l' : Ledger) (done : Bool)
      → update h current document o generation e l ≡ ok (done, l')
      → Step p current l l'
  reconciles :
      (h : Host) (marker : ℕ → Marker) (l : Ledger)
      → Step p current l (reconcile h current marker l)
  begins :
      (h : Host) (token document o generation variant : ℕ) (l : Ledger) (c : Scene) (made : Bool)
      (l' : Ledger)
      → scene_begin h p current token document o generation variant l
        ≡ ok (record { scene = c; created = made; ledger = l' })
      → Step p current l l'
  publishes :
      (h : Host) (token document o generation variant : ℕ) (bundle : Bundle) (moves : Bool)
      (size : ℕ) (row : Lease) (l l' : Ledger)
      → bundle.size ≡ some size
      → find_row lease_id token l.leases ≡ some row
      → IsReserved o size row
      → scene_publish h current token document o generation variant bundle moves l ≡ ok l'
      → Step p current l l'
  opens :
      (h : Host) (token document o revision : ℕ) (found : Bool) (l l' : Ledger)
      → scene_open h p current token document o revision found l ≡ ok l'
      → Step p current l l'
  fails :
      (document generation variant token : ℕ) (l : Ledger)
      → Step p current l (scene_failed document generation variant token l)
  closes : (h : Host) (token : ℕ) (l : Ledger) → Step p current l (scene_close h current token l)

pub data Reach (p : Policy) (current : ℕ) (l : Ledger) : Ledger → Type 0 where
  here : Reach p current l l
  next : {m n : Ledger} → Reach p current l m → Step p current m n → Reach p current l n

module _ (p : Policy) (current : ℕ) where
  pub Step-IsBounded : {l l' : Ledger} → Step p current l l' → IsBounded p l → IsBounded p l'
  Step-IsBounded (expires h l) b = expire-IsBounded h p current l b
  Step-IsBounded (uploads h token o l l' e) b =
      reserve_upload-IsBounded h p current token o l l' b e
  Step-IsBounded (renders h token o document generation l l' e) b =
      reserve_tile-IsBounded h p current token o document generation l l' b e
  Step-IsBounded (analyses h token o document generation l l' e) b =
      reserve_analysis-IsBounded h p current token o document generation l l' b e
  Step-IsBounded (derives h token l l' e) b = reserve_derived-IsBounded h p token l l' e b
  Step-IsBounded (parses late token l l' e) b = parse_turn-IsBounded p late token l l' e b
  Step-IsBounded (claims h token l l' e) b = claim-IsBounded h p token l l' b e
  Step-IsBounded (attaches h token pid l) b = attach-IsBounded h p token pid l b
  Step-IsBounded (revokes token l) b = revoke-IsBounded p token l b
  Step-IsBounded (releases h token l) b = release-IsBounded h p current token l b
  Step-IsBounded (completes h token o document size m l l' row dropped found parsed e) b =
      complete_upload-IsBounded h p current token o document size m l l' row dropped b found
        (ground (arith, parsed)) e
  Step-IsBounded (renews h document o l) b = renew-IsBounded h p current document o l b
  Step-IsBounded (deletes h document o l) b = delete-IsBounded h p current document o l b
  Step-IsBounded (clears h o l) b = delete_all-IsBounded h p current o l b
  Step-IsBounded (updates h document o generation e l l' done eq) b =
      update-IsBounded p h current document o generation e l l' done eq b
  Step-IsBounded (reconciles h marker l) b = reconcile-IsBounded h p current marker l b
  Step-IsBounded (begins h token document o generation variant l c made l' e) b =
      scene_begin-IsBounded h p current token document o generation variant l c made l' e b
  Step-IsBounded
        (publishes h token document o generation variant bundle moves size row l l' checked found
          reserved e)
        b =
      scene_publish-IsBounded h p current token document o generation variant bundle moves size row
        l l' checked found reserved e b
  Step-IsBounded (opens h token document o revision found l l' e) b =
      scene_open-IsBounded h p current token document o revision found l l' e b
  Step-IsBounded (fails document generation variant token l) b =
      scene_failed-IsBounded p document generation variant token l b
  Step-IsBounded (closes h token l) b = scene_close-IsBounded h p current token l b

  -- A policy that `Policy` accepts has room for the fixed parts.
  empty-IsBounded : validate p ≡ ok p → IsBounded p empty
  unfolding validate charged
  empty-IsBounded v = record {
    keys = record { session_keys = tt; lease_keys = tt };
    funded = tt;
    disk_limit = ground arith;
    document_limit = λ o. omega arith;
    source_limit = λ o. omega arith;
    derived_limit = λ o. omega arith;
    parser_limit = omega arith;
    renderer_limit = omega arith;
    owner_renderer_limit = λ o. omega arith;
  }

  Reach-IsBounded : {l l' : Ledger} → Reach p current l l' → IsBounded p l → IsBounded p l'
  Reach-IsBounded here b = b
  Reach-IsBounded (next r s) b = Step-IsBounded s (Reach-IsBounded r b)

-- The limits of the policy, as `reserve`, `reserve_derived`, `begin_parse` and `_capacity` count.
pub record IsWithin (p : Policy) (l : Ledger) : Type 0 where
  pub disk : promised p l ≤ p.global_disk_bytes
  pub documents : (o : ℕ) → owner_documents o l ≤ p.owner_max_documents
  pub source : (o : ℕ) → owner_source o l ≤ p.owner_source_bytes
  pub derived : (o : ℕ) → owner_derived o l ≤ p.owner_derived_bytes
  pub parser : parsers l ≤ p.global_parsers
  pub renderer : renderers l ≤ p.global_renderers
  pub owner_renderer : (o : ℕ) → owner_renderers_used o l ≤ p.owner_renderers

bounded-IsWithin : (p : Policy) (l : Ledger) → IsBounded p l → IsWithin p l
bounded-IsWithin p l b = record {
  disk = b.disk_limit;
  documents = λ o. omega (arith, documents-eq-charged o l, b.document_limit o);
  source = λ o. omega (arith, source-eq-charged o l, b.source_limit o);
  derived = λ o. omega (arith, derived-eq-charged o l, b.derived_limit o);
  parser = omega (arith, parsers-eq-charged l, b.parser_limit);
  renderer = omega (arith, renderers-eq-charged l, b.renderer_limit);
  owner_renderer = λ o. omega (arith, owner_renderers-eq-charged o l, b.owner_renderer_limit o);
}

-- Under an accepted policy, after any calls in any order from the empty ledger, with any hosts, where
-- complete_upload is called with a list for discarded analyses and on a lease that begin_parse admitted,
-- and scene_publish on the owner's scene lease that still holds the reservation for the bundle: the
-- fixed parts, the sessions and the leases other than tiles' are promised no more bytes than the global
-- budget; no owner has more documents and live uploads, source bytes or derived bytes than the policy
-- gives; no more parsers and renderers are taken than there are, in all and by one owner.
pub reachable-IsWithin :
    (p : Policy) (current : ℕ) (l : Ledger)
    → validate p ≡ ok p
    → Reach p current empty l
    → IsWithin p l
reachable-IsWithin p current l v r =
    bounded-IsWithin p l (Reach-IsBounded p current r (empty-IsBounded p current v))
