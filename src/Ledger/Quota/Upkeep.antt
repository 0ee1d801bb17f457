-- ===== src/Ledger/Quota/Upkeep.antt =====
-- _expire, renew, delete, delete_all, claim, attach, revoke and release of app/projection_store.py
-- under one quota.
use plt_converter.Prelude.{
  ℕ, ◌≤◌, List, [], ◌∷◌, Bool, arith, Option-cases, inl, inr, ◌≡◌, delete_row, update_row,
  update_where, select_where, total-delete_where-le, total-update_where-le, total-update_row-le,
  total-delete_row-le,
}
use plt_converter.Ledger.Rows.{Session, Lease, Scene, Ledger, Host, session_id, lease_id, ok}
use plt_converter.Ledger.Expiry.{
  retire, uncharge, is_overdue, mark_overdue, drop_scene, drop_scenes, is_stale_scene,
  expire_scenes, is_reclaimable, reclaim, expire,
}
use plt_converter.Ledger.Admission.{select_session}
use plt_converter.Ledger.Leases.{
  set_claimed, set_process, revoke_operation, claim, attach, revoke, release, release_all,
}
use plt_converter.Ledger.Sessions.{
  extend, idle_leases, is_active_of, retire_where, renew, delete, delete_all,
}
use plt_converter.Ledger.Quota.{Quota, charged, IsLawful}

module _ (q : Quota) where
  pub update_lease-le :
      (token : ℕ) (f : Lease → Lease)
      → ((r : Lease) → q.per_lease (f r) ≤ q.per_lease r)
      → (l : Ledger)
      → charged q (record l { leases = update_row lease_id token f l.leases }) ≤ charged q l
  unfolding charged
  update_lease-le token f h l =
      omega (arith, total-update_row-le lease_id q.per_lease token f h l.leases)

module _ (q : Quota) (lawful : IsLawful q) where
  retire_le : (s : Session) → q.per_session (retire s) ≤ q.per_session s
  retire_le s = lawful.retired s

  extend_le : (now : ℕ) (s : Session) → q.per_session (extend now s) ≤ q.per_session s
  extend_le now s = lawful.reset s (extend now s).expires s.generation s.meta

  mark_overdue-le : (h : Host) (l : Ledger) → charged q (mark_overdue h l) ≤ charged q l
  unfolding charged mark_overdue
  mark_overdue-le h l =
      omega
        (arith, total-update_where-le q.per_session (is_overdue h.now) retire retire_le l.sessions)

  drop_scene-le : (h : Host) (c : Scene) (l : Ledger) → charged q (drop_scene h c l) ≤ charged q l
  unfolding charged drop_scene
  drop_scene-le h c l = ground (
    arith,
    total-update_row-le session_id q.per_session c.document (uncharge c) (lawful.uncharged c)
        l.sessions,
  )

  drop_scenes-le :
      (h : Host) (cs : List Scene) (l : Ledger) → charged q (drop_scenes h cs l) ≤ charged q l
  unfolding drop_scenes
  drop_scenes-le h [] l = omega arith
  drop_scenes-le h (c ∷ cs) l =
      omega (arith, drop_scenes-le h cs (drop_scene h c l), drop_scene-le h c l)

  pub expire_scenes-le :
      (h : Host) (current : ℕ) (l : Ledger) → charged q (expire_scenes h current l) ≤ charged q l
  unfolding expire_scenes
  expire_scenes-le h current l =
      drop_scenes-le h (select_where (is_stale_scene current l) l.scenes) l

  reclaim-le : (h : Host) (l : Ledger) → charged q (reclaim h l) ≤ charged q l
  unfolding charged reclaim
  reclaim-le h l =
      omega (arith, total-delete_where-le q.per_session (is_reclaimable h l) l.sessions)

  pub expire-le :
      (h : Host) (current : ℕ) (l : Ledger) → charged q (expire h current l) ≤ charged q l
  unfolding expire
  expire-le h current l = omega (
    arith,
    reclaim-le h (expire_scenes h current (mark_overdue h l)),
    expire_scenes-le h current (mark_overdue h l),
    mark_overdue-le h l,
  )

  delete_lease-le :
      (token : ℕ) (l : Ledger)
      → charged q (record l { leases = delete_row lease_id token l.leases }) ≤ charged q l
  unfolding charged
  delete_lease-le token l = omega (arith, total-delete_row-le lease_id q.per_lease token l.leases)

  claim_row-le : (h : Host) (r : Lease) → q.per_lease (set_claimed h r) ≤ q.per_lease r
  claim_row-le h r =
      lawful.launched r (set_claimed h r).pid r.identity (set_claimed h r).supervisor
        (set_claimed h r).supervisor_identity

  attach_row-le :
      (h : Host) (pid : ℕ) (r : Lease) → q.per_lease (set_process h pid r) ≤ q.per_lease r
  attach_row-le h pid r =
      lawful.launched r (set_process h pid r).pid (set_process h pid r).identity r.supervisor
        r.supervisor_identity

  revoke_row-le : (r : Lease) → q.per_lease (revoke_operation r) ≤ q.per_lease r
  revoke_row-le r = ground (arith, lawful.revoked r)

  pub claim-le :
      (h : Host) (token : ℕ) (l l' : Ledger) → claim h token l ≡ ok l' → charged q l' ≤ charged q l
  unfolding charged claim
  claim-le h token l l' e = ground (
    arith,
    total-update_row-le lease_id q.per_lease token (set_claimed h) (claim_row-le h) l.leases,
  )

  pub attach-le :
      (h : Host) (token pid : ℕ) (l : Ledger) → charged q (attach h token pid l) ≤ charged q l
  unfolding charged attach
  attach-le h token pid l = omega (
    arith,
    total-update_row-le lease_id q.per_lease token (set_process h pid) (attach_row-le h pid)
        l.leases,
  )

  pub revoke-le : (token : ℕ) (l : Ledger) → charged q (revoke token l) ≤ charged q l
  unfolding charged revoke
  revoke-le token l = omega (
    arith,
    total-update_row-le lease_id q.per_lease token revoke_operation revoke_row-le l.leases,
  )

  pub release-le :
      (h : Host) (current token : ℕ) (l : Ledger)
      → charged q (release h current token l) ≤ charged q l
  unfolding release
  release-le h current token l = ground (
    arith,
    expire-le h current (record l { leases = delete_row lease_id token l.leases }),
    delete_lease-le token l,
  )

  pub release_all-le :
      (h : Host) (current : ℕ) (ts : List ℕ) (l : Ledger)
      → charged q (release_all h current ts l) ≤ charged q l
  unfolding release_all
  release_all-le h current [] l = omega arith
  release_all-le h current (t ∷ ts) l =
      omega (arith, release_all-le h current ts (release h current t l), release-le h current t l)

  pub update_session-le :
      (document : ℕ) (f : Session → Session)
      → ((s : Session) → q.per_session (f s) ≤ q.per_session s)
      → (l : Ledger)
      → charged q (record l { sessions = update_row session_id document f l.sessions })
        ≤ charged q l
  unfolding charged
  update_session-le document f h l =
      omega (arith, total-update_row-le session_id q.per_session document f h l.sessions)

  pub renew-le :
      (h : Host) (current document o : ℕ) (l : Ledger)
      → charged q (renew h current document o l).1 ≤ charged q l
  unfolding renew
  renew-le h current document o l = ground (
    arith,
    expire-le h current l,
    update_session-le document (extend h.now) (extend_le h.now) (expire h current l),
  )

  retire_sessions-le :
      (which : Session → Bool) (l : Ledger)
      → charged q (record l { sessions = update_where which retire l.sessions }) ≤ charged q l
  unfolding charged
  retire_sessions-le which l =
      omega (arith, total-update_where-le q.per_session which retire retire_le l.sessions)

  pub retire_where-le :
      (h : Host) (current : ℕ) (which : Session → Bool) (l : Ledger)
      → charged q (retire_where h current which l).ledger ≤ charged q l
  unfolding retire_where
  retire_where-le h current which l = omega (
    arith,
    expire-le h current (record l { sessions = update_where which retire l.sessions }),
    retire_sessions-le which l,
  )

  pub delete-le :
      (h : Host) (current document o : ℕ) (l : Ledger)
      → charged q (delete h current document o l).1 ≤ charged q l
  unfolding delete
  delete-le h current document o l =
      elim (Option-cases (select_session document o (expire h current l))) [
        | inl gone ↦ rw (gone, delete) (expire-le h current l)
        | inr (row, found) ↦
            rw (found, delete)
              (let l1 = expire h current l in
                let l2 = record l1 {
                  sessions = update_row session_id document retire l1.sessions;
                } in
                omega (
                  arith,
                  release_all-le h current (idle_leases document l1) (expire h current l2),
                  expire-le h current l2,
                  update_session-le document retire retire_le l1,
                  expire-le h current l,
                ))
      ]

  pub delete_all-le :
      (h : Host) (current o : ℕ) (l : Ledger) → charged q (delete_all h current o l).1 ≤ charged q l
  unfolding delete_all
  delete_all-le h current o l =
      let r = retire_where h current (is_active_of o) (expire h current l) in
      omega (
        arith,
        release_all-le h current r.pending r.ledger,
        retire_where-le h current (is_active_of o) (expire h current l),
        expire-le h current l,
      )
