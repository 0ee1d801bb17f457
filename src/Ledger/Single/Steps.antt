-- ===== src/Ledger/Single/Steps.antt =====
-- The steps of Ledger.Runs and the active sessions of an owner.
use plt_converter.Prelude.{
  refl, [], ◌∷◌, ℕ, ◌≤◌, ◌≡◌, Bool, List, arith, inl, inr, update_row, total-update_where-le,
}
use plt_converter.Ledger.Rows.{Kind, Pid, Lease, Ledger, Host, lease_id, ok}
use plt_converter.Ledger.Policy.{Policy}
use plt_converter.Ledger.Admission.{revoke_lease, reserve_derived, charge_derived}
use plt_converter.Ledger.Leases.{Turn, parse_turn}
use plt_converter.Ledger.Updates.{set_meta, is_prior}
use plt_converter.Ledger.Updates.Keeps.{IsKept, update-keeps}
use plt_converter.Ledger.Quota.{charged}
use plt_converter.Ledger.Quota.Upkeep.{
  expire-le, expire_scenes-le, claim-le, attach-le, revoke-le, release-le, update_session-le,
  update_lease-le, renew-le, delete-le, delete_all-le,
}
use plt_converter.Ledger.Quota.Reservations.{
  reserve_upload-le, reserve_operation-charged, update_lease-charged, reserve_derived-checked,
}
use plt_converter.Ledger.Quota.Promotions.{parse_turn-checked, set_parsing-charged}
use plt_converter.Ledger.Reconcile.{
  Marker, clear_process, release_dead, reconcile_row, reconcile_rows, reconcile,
}
use plt_converter.Ledger.Scenes.Publish.{scene_publish-le, scene_open-le}
use plt_converter.Ledger.Scenes.Begin.{scene_begin-le, scene_failed-le, scene_close-le}
use plt_converter.Ledger.Runs.{Step}
use plt_converter.Ledger.Single.{activity, activity-IsLawful, complete_upload-single}

-- At most one active session of the owner.
abbrev pub AtMostOne : ℕ → Ledger → Type 0
AtMostOne x l = charged (activity x) l ≤ 1

module _ (x : ℕ) where
  update_kept : IsKept (AtMostOne x)
  update_kept = record {
    prior_revoked = λ i o document l b.
        unfold charged in
        omega (
          arith,
          b,
          total-update_where-le (activity x).per_lease (is_prior i o document) revoke_lease
              (λ r. omega arith) l.leases,
        );
    meta_set = λ document m invalidate l b. omega (
      arith,
      b,
      update_session-le (activity x) (activity-IsLawful x) document (set_meta m invalidate)
          (λ s. omega arith) l,
    );
    scenes_expired = λ h current l b.
        omega (arith, b, expire_scenes-le (activity x) (activity-IsLawful x) h current l);
    expired =
        λ h current l b. omega (arith, b, expire-le (activity x) (activity-IsLawful x) h current l);
  }

  clear-le :
      (token : ℕ) (l : Ledger)
      → charged
          (activity x)
          (record l { leases = update_row lease_id token clear_process l.leases })
        ≤ charged (activity x) l
  clear-le token l = update_lease-le (activity x) token clear_process (λ r. omega arith) l

  release_dead-le :
      (h : Host) (current : ℕ) (r : Lease) (pid : Pid) (l : Ledger)
      → charged (activity x) (release_dead h current r pid l) ≤ charged (activity x) l
  unfolding release_dead
  release_dead-le h current r pid l =
      ground (arith, release-le (activity x) (activity-IsLawful x) h current r.id l)

  reconcile_row-le :
      (h : Host) (current : ℕ) (marker : ℕ → Marker) (r : Lease) (l : Ledger)
      → charged (activity x) (reconcile_row h current marker r l) ≤ charged (activity x) l
  unfolding reconcile_row
  reconcile_row-le h current marker r l =
      let l1 : Ledger = record l { leases = update_row lease_id r.id clear_process l.leases } in
      ground (
        arith,
        release-le (activity x) (activity-IsLawful x) h current r.id l,
        release_dead-le h current r r.pid l,
        release_dead-le h current r Pid.absent l1,
        clear-le r.id l,
      )

  reconcile_rows-le :
      (h : Host) (current : ℕ) (marker : ℕ → Marker) (rs : List Lease) (l : Ledger)
      → charged (activity x) (reconcile_rows h current marker rs l) ≤ charged (activity x) l
  unfolding reconcile_rows
  reconcile_rows-le h current marker [] l = omega arith
  reconcile_rows-le h current marker (r ∷ rs) l = omega (
    arith,
    reconcile_rows-le h current marker rs (reconcile_row h current marker r l),
    reconcile_row-le h current marker r l,
  )

  reconcile-le :
      (h : Host) (current : ℕ) (marker : ℕ → Marker) (l : Ledger)
      → charged (activity x) (reconcile h current marker l) ≤ charged (activity x) l
  unfolding reconcile
  reconcile-le h current marker l = omega (
    arith,
    expire-le (activity x) (activity-IsLawful x) h current
        (reconcile_rows h current marker l.leases l),
    reconcile_rows-le h current marker l.leases l,
  )

  derived-le :
      (h : Host) (p : Policy) (token : ℕ) (l l' : Ledger)
      → reserve_derived h p token l ≡ ok l'
      → charged (activity x) l' ≤ charged (activity x) l
  derived-le h p token l l' e = elim (reserve_derived-checked h p token l l' e) [
    | inl same ↦ rw same (omega arith)
    | inr (row, room) ↦ rw (room.result) (
        omega (
          arith,
          update_lease-charged (activity x) token (charge_derived p.derived_max_bytes) l row
              room.found,
        ))
  ]

  parse-le :
      (p : Policy) (late : Bool) (token : ℕ) (l l' : Ledger)
      → parse_turn p late token l ≡ Turn.admitted l'
      → charged (activity x) l' ≤ charged (activity x) l
  parse-le p late token l l' e = elim (parse_turn-checked p late token l l' e) [
    | inl same ↦ rw same (omega arith)
    | inr (row, room) ↦ omega (arith, set_parsing-charged (activity x) p token l l' row room)
  ]

  pub Step-AtMostOne :
      {p : Policy} {current : ℕ} {l l' : Ledger}
      → Step p current l l'
      → AtMostOne x l
      → AtMostOne x l'
  Step-AtMostOne (Step.expires h l) b = update_kept.expired h _ l b
  Step-AtMostOne {p = p} {current = current} (Step.uploads h token o l l' e) b = omega (
    arith,
    b,
    reserve_upload-le (activity x) (activity-IsLawful x) h p current token o l l' e,
    update_kept.expired h current l b,
  )
  Step-AtMostOne {p = p} {current = current} (Step.renders h token o d g l l' e) b = omega (
    arith,
    b,
    reserve_operation-charged (activity x) h p current token o Kind.tile d g l l' e,
    update_kept.expired h current l b,
  )
  Step-AtMostOne {p = p} {current = current} (Step.analyses h token o d g l l' e) b = omega (
    arith,
    b,
    reserve_operation-charged (activity x) h p current token o Kind.analysis d g l l' e,
    update_kept.expired h current l b,
  )
  Step-AtMostOne {p = p} (Step.derives h token l l' e) b =
      omega (arith, b, derived-le h p token l l' e)
  Step-AtMostOne {p = p} (Step.parses late token l l' e) b =
      omega (arith, b, parse-le p late token l l' e)
  Step-AtMostOne (Step.claims h token l l' e) b =
      omega (arith, b, claim-le (activity x) (activity-IsLawful x) h token l l' e)
  Step-AtMostOne (Step.attaches h token pid l) b =
      omega (arith, b, attach-le (activity x) (activity-IsLawful x) h token pid l)
  Step-AtMostOne (Step.revokes token l) b =
      omega (arith, b, revoke-le (activity x) (activity-IsLawful x) token l)
  Step-AtMostOne {current = current} (Step.releases h token l) b =
      omega (arith, b, release-le (activity x) (activity-IsLawful x) h current token l)
  Step-AtMostOne {current = current} (Step.completes h token o d size m l l' row dropped f k e) b =
      complete_upload-single h current token o d size m l l' dropped x e b
  Step-AtMostOne {current = current} (Step.renews h d o l) b =
      omega (arith, b, renew-le (activity x) (activity-IsLawful x) h current d o l)
  Step-AtMostOne {current = current} (Step.deletes h d o l) b =
      omega (arith, b, delete-le (activity x) (activity-IsLawful x) h current d o l)
  Step-AtMostOne {current = current} (Step.clears h o l) b =
      omega (arith, b, delete_all-le (activity x) (activity-IsLawful x) h current o l)
  Step-AtMostOne {current = current} (Step.updates h d o g e l l' done eq) b =
      update-keeps (AtMostOne x) update_kept h current d o g e l l' done eq b
  Step-AtMostOne {current = current} (Step.reconciles h marker l) b =
      omega (arith, b, reconcile-le h current marker l)
  Step-AtMostOne {p = p} {current = current} (Step.begins h token d o g v l c made l' e) b = omega (
    arith,
    b,
    scene_begin-le (activity x) (λ r. refl) (activity-IsLawful x) h p current token d o g v l c made
        l' e,
  )
  Step-AtMostOne {current = current}
        (Step.publishes h token d o g v bundle moves size row l l' checked found reserved e) b =
      omega (
        arith,
        b,
        scene_publish-le (activity x) (activity-IsLawful x) (λ r. refl) (λ size s. omega arith) h
            current token d o g v bundle moves l l' e,
      )
  Step-AtMostOne {p = p} {current = current} (Step.opens h token d o revision found l l' e) b =
      omega (
        arith,
        b,
        scene_open-le (activity x) (activity-IsLawful x) (λ r. refl) (λ size s. omega arith) h p
            current token d o revision found l l' e,
      )
  Step-AtMostOne (Step.fails d g v token l) b =
      omega (arith, b, scene_failed-le (activity x) d g v token l)
  Step-AtMostOne {current = current} (Step.closes h token l) b =
      omega (arith, b, scene_close-le (activity x) (activity-IsLawful x) h current token l)
