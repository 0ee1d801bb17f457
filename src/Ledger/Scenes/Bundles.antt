-- ===== src/Ledger/Scenes/Bundles.antt =====
-- scene_publish and scene_open of app/projection_scene_store.py under the limits.
use plt_converter.Prelude.{
  ℕ, ◌+◌, ◌≤◌, ◌<◌, ◌≡◌, Bool, false, some, List, [], ◌∷◌, ◌==◌, arith, refl, update_row, find_row,
  first_where, exists_where, Option-cases, inl, inr, Bool-cases, total-update_row, total-snoc, All,
  All-snoc,
}
use plt_converter.Ledger.Rows.{Kind, Lease, Session, Ledger, Host, session_id, lease_id, ok}
use plt_converter.Ledger.Policy.{Policy, operation_bytes, allocation}
use plt_converter.Ledger.Expiry.{expire}
use plt_converter.Ledger.Disk.{check_capacity}
use plt_converter.Ledger.Disk.Promises.{HasKeys, check_capacity_fits}
use plt_converter.Ledger.Admission.{select_session, with_lease, renderers, owner_renderers_used}
use plt_converter.Ledger.Quota.{Quota, charged}
use plt_converter.Ledger.Quota.Limits.{
  disk, documents, source, derived, parsing, rendering, owner_rendering, promised-eq-charged,
}
use plt_converter.Ledger.Keys.{update_lease-HasKeys, update_session-HasKeys}
use plt_converter.Ledger.Bounds.{IsFunded, IsBounded, leases-expire}
use plt_converter.Ledger.Bounds.Upkeep.{expire-IsBounded}
use plt_converter.Ledger.Bounds.Admission.{with_lease-HasKeys, owner_room}
use plt_converter.Ledger.Bounds.Operations.{renderers-eq-charged, owner_renderers-eq-charged}
use plt_converter.Ledger.Scenes.{scene_slots}
use plt_converter.Ledger.Scenes.Publish.{
  Bundle, charge_bundle, settle_lease, published, scene_publish, is_open_scene, download_lease,
  scene_open,
}

All-update_found :
    (P : Lease → Type 0) (k : ℕ) (f : Lease → Lease) (xs : List Lease) (x : Lease)
    → find_row lease_id k xs ≡ some x
    → P (f x)
    → All P xs
    → All P (update_row lease_id k f xs)
All-update_found P k f [] x e p h = tt
All-update_found P k f (y ∷ xs) x e p h = elim (Bool-cases (lease_id y == k)) [
  | inl same ↦ let q : y ≡ x = ground arith in rw same (rw q p, h.1)
  | inr other ↦ rw other (h.0, All-update_found P k f xs x (rw other at e) p h.1)
]

-- The lease still holds what scene_begin reserved for the bundle.
pub record IsReserved (o size : ℕ) (r : Lease) : Type 0 where
  pub kind : r.kind ≡ Kind.scene
  pub owner : r.owner ≡ o
  pub disk_room : operation_bytes + allocation size ≤ r.budget
  pub derived_room : size ≤ r.derived_budget

selected-found :
    (document o : ℕ) (l : Ledger) (s : Session)
    → select_session document o l ≡ some s
    → (find_row session_id document l.sessions ≡ some s) × (s.owner ≡ o)
unfolding select_session
selected-found document o l s e = elim (Option-cases (find_row session_id document l.sessions)) [
  | inl gone ↦ absurd (ground arith)
  | inr (t, found) ↦ (ground arith, ground arith)
]

module _ (p : Policy) (current token document o generation variant revision size : ℕ) (l : Ledger)
    (s : Session) (r : Lease) (b : IsBounded p l)
    (stored : find_row session_id document l.sessions ≡ some s) (owned : s.owner ≡ o)
    (found : find_row lease_id token l.leases ≡ some r) (reserved : IsReserved o size r) where
  abbrev after : Ledger
  after = published current token document generation variant revision size l

  -- What the session takes over, the lease gives up.
  published-within :
      (q : Quota) (limit : ℕ)
      → q.per_session (charge_bundle size s) + q.per_lease (settle_lease r)
        ≤ q.per_session s + q.per_lease r
      → charged q l ≤ limit
      → charged q after ≤ limit
  unfolding charged
  published-within q limit moved room = omega (
    arith,
    moved,
    room,
    total-update_row session_id q.per_session document (charge_bundle size) l.sessions s stored,
    total-update_row lease_id q.per_lease token settle_lease l.leases r found,
  )

  published-IsBounded : IsBounded p after
  published-IsBounded =
      let kind = reserved.kind in
      let owner = reserved.owner in
      let room = reserved.disk_room in
      let fits = reserved.derived_room in
      let k = update_session-HasKeys document (charge_bundle size) (λ t. refl) l b.keys in
      let k1 = update_lease-HasKeys token settle_lease (λ t. refl) l b.keys in
      record {
        keys = record { session_keys = k.session_keys; lease_keys = k1.lease_keys };
        funded =
            All-update_found IsFunded token settle_lease l.leases r found
              (λ u. absurd (ground (arith, kind, u))) b.funded;
        disk_limit = omega (
          arith,
          published-within disk (charged disk l) (ground (arith, kind, room)) (omega arith),
          b.disk_limit,
          promised-eq-charged p l,
          promised-eq-charged p after,
        );
        document_limit =
            λ x. published-within (documents x) _ (ground (arith, kind)) (b.document_limit x);
        source_limit = λ x. published-within (source x) _ (ground (arith, kind)) (b.source_limit x);
        derived_limit = λ x.
            published-within (derived x) _ (ground (arith, owner, owned, fits)) (b.derived_limit x);
        parser_limit = published-within parsing _ (omega arith) b.parser_limit;
        renderer_limit = published-within rendering _ (omega arith) b.renderer_limit;
        owner_renderer_limit =
            λ x. published-within (owner_rendering x) _ (omega arith) (b.owner_renderer_limit x);
      }

pub scene_publish-IsBounded :
    (h : Host) (p : Policy) (current token document o generation variant : ℕ) (bundle : Bundle)
    (moves : Bool) (size : ℕ) (row : Lease) (l l' : Ledger)
    → bundle.size ≡ some size
    → find_row lease_id token l.leases ≡ some row
    → IsReserved o size row
    → scene_publish h current token document o generation variant bundle moves l ≡ ok l'
    → IsBounded p l
    → IsBounded p l'
unfolding scene_publish
scene_publish-IsBounded h p current token document o generation variant bundle moves size row l l'
      checked found reserved e b =
    let l1 = expire h current l in
    elim (Option-cases (select_session document o l1)) [
      | inl gone ↦ absurd (ground arith)
      | inr (session, selected) ↦
          let made : l'
              ≡ published current token document generation variant bundle.revision size l1 =
            ground arith in
          let q = selected-found document o l1 session selected in
          rw made (
            published-IsBounded p current token document o generation variant bundle.revision size
              l1 session row (expire-IsBounded h p current l b) q.0 q.1 (rw leases-expire found)
              reserved)
    ]

-- What scene_open checked before it took a slot.
record OpenRoom (h : Host) (p : Policy) (token document o revision : ℕ) (l l' : Ledger)
    : Type 0 where
  generation : ℕ
  all_room : renderers l < p.global_renderers
  own_room : owner_renderers_used o l < p.owner_renderers
  disk_room : check_capacity h p l operation_bytes Kind.scene_download ≡ ok tt
  fresh : exists_where (λ x. lease_id x == token) l.leases ≡ false
  result : l' ≡ with_lease (download_lease h token o document generation revision) l

scene_open-checked :
    (h : Host) (p : Policy) (current token document o revision : ℕ) (opens : Bool) (l l' : Ledger)
    → scene_open h p current token document o revision opens l ≡ ok l'
    → OpenRoom h p token document o revision (expire h current l) l'
unfolding scene_open scene_slots
scene_open-checked h p current token document o revision opens l l' e =
    let l1 = expire h current l in
    elim (Option-cases (select_session document o l1)) [
      | inl gone ↦ absurd (ground arith)
      | inr (session, selected) ↦
          elim (Option-cases (first_where (is_open_scene document revision current) l1.scenes)) [
            | inl missing ↦ absurd (ground arith)
            | inr (c, there) ↦ record {
              generation = c.generation;
              all_room = ground arith;
              own_room = ground arith;
              disk_room = ground arith;
              fresh = ground arith;
              result = ground arith;
            }
          ]
    ]

module _ (h : Host) (p : Policy) (token document o revision : ℕ) (l l' : Ledger) (b : IsBounded p l)
    (r : OpenRoom h p token document o revision l l') where
  abbrev download : Lease
  download = download_lease h token o document r.generation revision

  open-within :
      (q : Quota) (limit : ℕ) → charged q l + q.per_lease download ≤ limit → charged q l' ≤ limit
  unfolding charged
  open-within q limit room = rw (r.result) (omega (arith, total-snoc q.per_lease l.leases download))

  open-HasKeys : HasKeys l'
  open-HasKeys = rw (r.result) (with_lease-HasKeys download l r.fresh b.keys)

  open-IsFunded : All IsFunded l'.leases
  open-IsFunded =
      rw (r.result) (All-snoc IsFunded l.leases download b.funded (λ u. absurd (ground arith)))

  room-IsBounded : IsBounded p l'
  room-IsBounded =
      let (disk_room, free_room) =
        check_capacity_fits h p l operation_bytes Kind.scene_download b.keys r.disk_room in
      record {
        keys = open-HasKeys;
        funded = open-IsFunded;
        disk_limit = omega (
          arith,
          open-within disk (charged disk l + operation_bytes) (omega arith),
          disk_room,
          promised-eq-charged p l,
          promised-eq-charged p l',
        );
        document_limit = λ x. open-within (documents x) _ (ground (arith, b.document_limit x));
        source_limit = λ x. open-within (source x) _ (ground (arith, b.source_limit x));
        derived_limit = λ x. open-within (derived x) _ (ground (arith, b.derived_limit x));
        parser_limit = open-within parsing _ (omega (arith, b.parser_limit));
        renderer_limit =
            open-within rendering _ (omega (arith, r.all_room, renderers-eq-charged l));
        owner_renderer_limit = λ x. open-within (owner_rendering x) _ (
            owner_room (λ y. charged (owner_rendering y) l) o x _ 1 _ (ground arith)
              (omega (arith, r.own_room, owner_renderers-eq-charged o l))
              (b.owner_renderer_limit x));
      }

pub scene_open-IsBounded :
    (h : Host) (p : Policy) (current token document o revision : ℕ) (opens : Bool) (l l' : Ledger)
    → scene_open h p current token document o revision opens l ≡ ok l'
    → IsBounded p l
    → IsBounded p l'
scene_open-IsBounded h p current token document o revision opens l l' e b =
    room-IsBounded h p token document o revision (expire h current l) l'
      (expire-IsBounded h p current l b)
      (scene_open-checked h p current token document o revision opens l l' e)
