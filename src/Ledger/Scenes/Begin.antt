-- ===== src/Ledger/Scenes/Begin.antt =====
-- scene_begin, scene_failed and scene_close of app/projection_scene_store.py under the limits.
use plt_converter.Prelude.{
  All, total-snoc, All-update_row, update_row, ℕ, ◌+◌, ◌≤◌, ◌<◌, ◌≡◌, ◌⊎◌, Bool, false, none, [],
  ◌∷◌, ◌++◌, arith, inl, inr, ◌==◌, Option-cases, first_where, exists_where, All-snoc,
}
use plt_converter.Ledger.Rows.{Pid, Kind, Lease, Scene, Ledger, Host, lease_id, ok}
use plt_converter.Ledger.Policy.{Policy, operation_bytes, allocation}
use plt_converter.Ledger.Expiry.{expire}
use plt_converter.Ledger.Disk.{check_capacity}
use plt_converter.Ledger.Disk.Promises.{HasKeys, check_capacity_fits}
use plt_converter.Ledger.Admission.{
  select_session, with_lease, owner_derived, renderers, owner_renderers_used,
}
use plt_converter.Ledger.Quota.{Quota, charged, IsLawful}
use plt_converter.Ledger.Keys.{update_lease-HasKeys}
use plt_converter.Ledger.Quota.Upkeep.{expire-le, release-le, update_lease-le}
use plt_converter.Ledger.Quota.Limits.{
  disk, documents, source, derived, parsing, rendering, owner_rendering, promised-eq-charged,
  derived-eq-charged,
}
use plt_converter.Ledger.Bounds.{IsFunded, IsBounded, IsBounded-shrink}
use plt_converter.Ledger.Bounds.Upkeep.{expire-IsBounded, release-IsBounded}
use plt_converter.Ledger.Bounds.Admission.{with_lease-HasKeys, owner_room}
use plt_converter.Ledger.Bounds.Operations.{renderers-eq-charged, owner_renderers-eq-charged}
use plt_converter.Ledger.Scenes.{
  scene_failed, close_download, scene_close, is_scene_of, scene_slots, scene_lease, pending_scene,
  begin_new, scene_begin,
}

-- What scene_begin checked before it began a new bundle.
pub record SceneRoom (h : Host) (p : Policy) (current token document o generation variant : ℕ)
    (l l' : Ledger) : Type 0 where
  pub all_room : renderers l < p.global_renderers
  pub own_room : owner_renderers_used o l < p.owner_renderers
  pub derived_room : owner_derived o l + p.derived_max_bytes ≤ p.owner_derived_bytes
  pub disk_room :
      check_capacity h p l (operation_bytes + allocation p.derived_max_bytes) Kind.scene ≡ ok tt
  pub fresh : exists_where (λ x. lease_id x == token) l.leases ≡ false
  pub result : l' ≡ record (with_lease (scene_lease h p token o document generation) l) {
    scenes = l.scenes ++ pending_scene token document generation variant current ∷ [];
  }

begin_new-checked :
    (h : Host) (p : Policy) (current token document o generation variant : ℕ) (l : Ledger)
    (c : Scene) (made : Bool) (l' : Ledger)
    → begin_new h p current token document o generation variant l
      ≡ ok (record { scene = c; created = made; ledger = l' })
    → SceneRoom h p current token document o generation variant l l'
unfolding begin_new scene_slots
begin_new-checked h p current token document o generation variant l c made l' e = record {
  all_room = ground arith;
  own_room = ground arith;
  derived_room = ground arith;
  disk_room = ground arith;
  fresh = ground arith;
  result = ground arith;
}

pub scene_begin-checked :
    (h : Host) (p : Policy) (current token document o generation variant : ℕ) (l : Ledger)
    (c : Scene) (made : Bool) (l' : Ledger)
    → scene_begin h p current token document o generation variant l
      ≡ ok (record { scene = c; created = made; ledger = l' })
    → (l' ≡ expire h current l)
      ⊎ SceneRoom h p current token document o generation variant (expire h current l) l'
unfolding scene_begin
scene_begin-checked h p current token document o generation variant l c made l' e =
    elim (Option-cases (select_session document o (expire h current l))) [
      | inl gone ↦ inl (absurd (ground arith))
      | inr (session, selected) ↦
          elim (Option-cases (
            first_where (is_scene_of document generation variant current)
              (expire h current l).scenes)) [
                | inl new ↦ inr (
                    begin_new-checked h p current token document o generation variant
                      (expire h current l) c made l' (ground arith))
                | inr (old, found) ↦ inl (ground arith)
              ]
    ]

module _ (h : Host) (p : Policy) (current token document o generation variant : ℕ) (l l' : Ledger)
    (b : IsBounded p l) (r : SceneRoom h p current token document o generation variant l l') where
  scene_within :
      (q : Quota) (limit : ℕ)
      → charged q l + q.per_lease (scene_lease h p token o document generation) ≤ limit
      → charged q l' ≤ limit
  unfolding charged
  scene_within q limit room =
      rw (r.result) (
        omega
          (arith, total-snoc q.per_lease l.leases (scene_lease h p token o document generation)))

  scene_keys : HasKeys l'
  scene_keys =
      let with_row =
        with_lease-HasKeys (scene_lease h p token o document generation) l r.fresh b.keys in
      rw (r.result)
        (record { session_keys = with_row.session_keys; lease_keys = with_row.lease_keys })

  scene-Funded : All IsFunded l'.leases
  scene-Funded = rw (r.result) (
      All-snoc IsFunded l.leases (scene_lease h p token o document generation) b.funded
        (λ u. absurd (ground arith)))

  room-IsBounded : IsBounded p l'
  room-IsBounded =
      let (disk_room, free_room) =
        check_capacity_fits h p l (operation_bytes + allocation p.derived_max_bytes) Kind.scene
          b.keys r.disk_room in
      record {
        keys = scene_keys;
        funded = scene-Funded;
        disk_limit = omega (
          arith,
          scene_within disk (charged disk l + (operation_bytes + allocation p.derived_max_bytes))
              (omega arith),
          disk_room,
          promised-eq-charged p l,
          promised-eq-charged p l',
        );
        document_limit = λ x. scene_within (documents x) _ (ground (arith, b.document_limit x));
        source_limit = λ x. scene_within (source x) _ (ground (arith, b.source_limit x));
        derived_limit = λ x. scene_within (derived x) _ (
            owner_room (λ y. charged (derived y) l) o x _ p.derived_max_bytes _ (ground arith)
              (omega (arith, r.derived_room, derived-eq-charged o l)) (b.derived_limit x));
        parser_limit = scene_within parsing _ (omega (arith, b.parser_limit));
        renderer_limit =
            scene_within rendering _ (omega (arith, r.all_room, renderers-eq-charged l));
        owner_renderer_limit = λ x. scene_within (owner_rendering x) _ (
            owner_room (λ y. charged (owner_rendering y) l) o x _ 1 _ (ground arith)
              (omega (arith, r.own_room, owner_renderers-eq-charged o l))
              (b.owner_renderer_limit x));
      }

pub scene_begin-IsBounded :
    (h : Host) (p : Policy) (current token document o generation variant : ℕ) (l : Ledger)
    (c : Scene) (made : Bool) (l' : Ledger)
    → scene_begin h p current token document o generation variant l
      ≡ ok (record { scene = c; created = made; ledger = l' })
    → IsBounded p l
    → IsBounded p l'
scene_begin-IsBounded h p current token document o generation variant l c made l' e b =
    let b1 : IsBounded p (expire h current l) = expire-IsBounded h p current l b in
    elim (scene_begin-checked h p current token document o generation variant l c made l' e) [
      | inl same ↦ rw same b1
      | inr room ↦
          room-IsBounded h p current token document o generation variant (expire h current l) l' b1
            room
    ]

pub scene_failed-IsBounded :
    (p : Policy) (document generation variant token : ℕ) (l : Ledger)
    → IsBounded p l
    → IsBounded p (scene_failed document generation variant token l)
unfolding scene_failed
scene_failed-IsBounded p document generation variant token l b =
    IsBounded-shrink p l _
      (record { session_keys = b.keys.session_keys; lease_keys = b.keys.lease_keys }) b.funded
      (λ q w. unfold charged in omega arith) b

pub scene_close-IsBounded :
    (h : Host) (p : Policy) (current token : ℕ) (l : Ledger)
    → IsBounded p l
    → IsBounded p (scene_close h current token l)
unfolding scene_close
scene_close-IsBounded h p current token l b =
    release-IsBounded h p current token
      (record l { leases = update_row lease_id token close_download l.leases })
      (IsBounded-shrink p l
        (record l { leases = update_row lease_id token close_download l.leases })
        (update_lease-HasKeys token close_download (λ r. ground arith) l b.keys)
        (All-update_row IsFunded lease_id token close_download (λ r f. ground (arith, f)) l.leases
          b.funded)
        (λ q w.
          update_lease-le q token close_download
            (λ r. ground (arith, w.launched r Pid.absent none r.supervisor r.supervisor_identity))
            l)
        b)

-- scene_begin charges nothing but its lease.
pub scene_begin-le :
    (q : Quota)
    → ((r : Lease) → q.per_lease r ≡ 0)
    → IsLawful q
    → (h : Host) (p : Policy) (current token document o generation variant : ℕ) (l : Ledger)
      (c : Scene) (made : Bool) (l' : Ledger)
    → scene_begin h p current token document o generation variant l
      ≡ ok (record { scene = c; created = made; ledger = l' })
    → charged q l' ≤ charged q l
unfolding charged
scene_begin-le q free w h p current token document o generation variant l c made l' e =
    elim (scene_begin-checked h p current token document o generation variant l c made l' e) [
      | inl same ↦ rw same (expire-le q w h current l)
      | inr room ↦ rw (room.result) (
          omega (
            arith,
            total-snoc q.per_lease (expire h current l).leases
                (scene_lease h p token o document generation),
            free (scene_lease h p token o document generation),
            expire-le q w h current l,
          ))
    ]

pub scene_failed-le :
    (q : Quota) (document generation variant token : ℕ) (l : Ledger)
    → charged q (scene_failed document generation variant token l) ≤ charged q l
unfolding scene_failed charged
scene_failed-le q document generation variant token l = omega arith

pub scene_close-le :
    (q : Quota)
    → IsLawful q
    → (h : Host) (current token : ℕ) (l : Ledger)
    → charged q (scene_close h current token l) ≤ charged q l
unfolding scene_close
scene_close-le q w h current token l =
    let l1 : Ledger = record l { leases = update_row lease_id token close_download l.leases } in
    omega (
      arith,
      release-le q w h current token l1,
      update_lease-le q token close_download
          (λ r. ground (arith, w.launched r Pid.absent none r.supervisor r.supervisor_identity)) l,
    )
