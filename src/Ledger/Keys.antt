-- ===== src/Ledger/Keys.antt =====
-- The operations of app/projection_store.py and the primary keys of its tables.
use plt_converter.Prelude.{
  ℕ, ◌≡◌, refl, Bool, List, [], ◌∷◌, arith, inl, inr, Option-cases, select_where, update_row,
  update_where, delete_row, update_where-Distinct, update_row-Distinct, delete_where-Distinct,
  delete_row-Distinct,
}
use plt_converter.Ledger.Rows.{Lease, Session, Scene, Ledger, session_id, lease_id, Host, ok}
use plt_converter.Ledger.Expiry.{
  retire, uncharge, is_overdue, mark_overdue, drop_scene, drop_scenes, is_stale_scene,
  expire_scenes, is_reclaimable, reclaim, expire,
}
use plt_converter.Ledger.Disk.Promises.{HasKeys}
use plt_converter.Ledger.Admission.{select_session}
use plt_converter.Ledger.Leases.{
  revoke_operation, set_claimed, set_process, claim, attach, revoke, release, release_all,
}
use plt_converter.Ledger.Sessions.{
  extend, idle_leases, is_active_of, retire_where, renew, delete, delete_all,
}

pub update_session-HasKeys :
    (document : ℕ) (f : Session → Session)
    → ((s : Session) → session_id (f s) ≡ session_id s)
    → (l : Ledger) → HasKeys l
    → HasKeys (record l { sessions = update_row session_id document f l.sessions })
update_session-HasKeys document f h l k = record {
  session_keys = update_row-Distinct session_id document f h l.sessions k.session_keys;
  lease_keys = k.lease_keys;
}

pub update_sessions-HasKeys :
    (which : Session → Bool) (f : Session → Session)
    → ((s : Session) → session_id (f s) ≡ session_id s)
    → (l : Ledger) → HasKeys l
    → HasKeys (record l { sessions = update_where which f l.sessions })
update_sessions-HasKeys which f h l k = record {
  session_keys = update_where-Distinct session_id which f h l.sessions k.session_keys;
  lease_keys = k.lease_keys;
}

pub update_lease-HasKeys :
    (token : ℕ) (f : Lease → Lease)
    → ((r : Lease) → lease_id (f r) ≡ lease_id r)
    → (l : Ledger) → HasKeys l
    → HasKeys (record l { leases = update_row lease_id token f l.leases })
update_lease-HasKeys token f h l k = record {
  session_keys = k.session_keys;
  lease_keys = update_row-Distinct lease_id token f h l.leases k.lease_keys;
}

pub update_leases-HasKeys :
    (which : Lease → Bool) (f : Lease → Lease)
    → ((r : Lease) → lease_id (f r) ≡ lease_id r)
    → (l : Ledger) → HasKeys l
    → HasKeys (record l { leases = update_where which f l.leases })
update_leases-HasKeys which f h l k = record {
  session_keys = k.session_keys;
  lease_keys = update_where-Distinct lease_id which f h l.leases k.lease_keys;
}

drop_scene-HasKeys : (h : Host) (c : Scene) (l : Ledger) → HasKeys l → HasKeys (drop_scene h c l)
unfolding drop_scene
drop_scene-HasKeys h c l k = ground (
  arith,
  update_row-Distinct session_id c.document (uncharge c) (λ s. refl) l.sessions k.session_keys,
)

drop_scenes-HasKeys :
    (h : Host) (cs : List Scene) (l : Ledger) → HasKeys l → HasKeys (drop_scenes h cs l)
unfolding drop_scenes
drop_scenes-HasKeys h [] l k = k
drop_scenes-HasKeys h (c ∷ cs) l k =
    drop_scenes-HasKeys h cs (drop_scene h c l) (drop_scene-HasKeys h c l k)

pub expire_scenes-HasKeys :
    (h : Host) (current : ℕ) (l : Ledger) → HasKeys l → HasKeys (expire_scenes h current l)
unfolding expire_scenes
expire_scenes-HasKeys h current l k =
    drop_scenes-HasKeys h (select_where (is_stale_scene current l) l.scenes) l k

pub expire-HasKeys :
    (h : Host) (current : ℕ) (l : Ledger) → HasKeys l → HasKeys (expire h current l)
unfolding expire mark_overdue reclaim
expire-HasKeys h current l k =
    let l1 = mark_overdue h l in
    let l2 = expire_scenes h current l1 in
    let k2 : HasKeys l2 =
      expire_scenes-HasKeys h current l1
        (update_sessions-HasKeys (is_overdue h.now) retire (λ s. refl) l k) in
    record {
      session_keys =
          delete_where-Distinct session_id (is_reclaimable h l2) l2.sessions k2.session_keys;
      lease_keys = k2.lease_keys;
    }

revoke_operation-id : (r : Lease) → lease_id (revoke_operation r) ≡ lease_id r
revoke_operation-id r = ground arith

pub claim-HasKeys :
    (h : Host) (token : ℕ) (l l' : Ledger) → HasKeys l → claim h token l ≡ ok l' → HasKeys l'
unfolding claim
claim-HasKeys h token l l' k e =
    ground (arith, update_lease-HasKeys token (set_claimed h) (λ r. refl) l k)

pub attach-HasKeys :
    (h : Host) (token pid : ℕ) (l : Ledger) → HasKeys l → HasKeys (attach h token pid l)
unfolding attach
attach-HasKeys h token pid l k = update_lease-HasKeys token (set_process h pid) (λ r. refl) l k

pub revoke-HasKeys : (token : ℕ) (l : Ledger) → HasKeys l → HasKeys (revoke token l)
unfolding revoke
revoke-HasKeys token l k = update_lease-HasKeys token revoke_operation revoke_operation-id l k

pub release-HasKeys :
    (h : Host) (current token : ℕ) (l : Ledger) → HasKeys l → HasKeys (release h current token l)
unfolding release
release-HasKeys h current token l k = ground (
  arith,
  expire-HasKeys h current (record l { leases = delete_row lease_id token l.leases }),
  delete_row-Distinct lease_id token l.leases k.lease_keys,
)

pub release_all-HasKeys :
    (h : Host) (current : ℕ) (ts : List ℕ) (l : Ledger)
    → HasKeys l
    → HasKeys (release_all h current ts l)
unfolding release_all
release_all-HasKeys h current [] l k = k
release_all-HasKeys h current (t ∷ ts) l k =
    release_all-HasKeys h current ts (release h current t l) (release-HasKeys h current t l k)

pub renew-HasKeys :
    (h : Host) (current document o : ℕ) (l : Ledger)
    → HasKeys l
    → HasKeys (renew h current document o l).1
unfolding renew
renew-HasKeys h current document o l k = ground (
  arith,
  expire-HasKeys h current l k,
  update_session-HasKeys document (extend h.now) (λ s. refl) (expire h current l),
)

pub retire_where-HasKeys :
    (h : Host) (current : ℕ) (which : Session → Bool) (l : Ledger)
    → HasKeys l
    → HasKeys (retire_where h current which l).ledger
unfolding retire_where
retire_where-HasKeys h current which l k =
    expire-HasKeys h current _ (update_sessions-HasKeys which retire (λ s. refl) l k)

pub delete-HasKeys :
    (h : Host) (current document o : ℕ) (l : Ledger)
    → HasKeys l
    → HasKeys (delete h current document o l).1
unfolding delete
delete-HasKeys h current document o l k =
    let l1 = expire h current l in
    let k1 : HasKeys l1 = expire-HasKeys h current l k in
    elim (Option-cases (select_session document o l1)) [
      | inl gone ↦ rw (gone, delete) k1
      | inr (row, found) ↦
          rw (found, delete)
            (release_all-HasKeys h current (idle_leases document l1) _ (
              expire-HasKeys h current _
                (update_session-HasKeys document retire (λ s. refl) l1 k1)))
    ]

pub delete_all-HasKeys :
    (h : Host) (current o : ℕ) (l : Ledger) → HasKeys l → HasKeys (delete_all h current o l).1
unfolding delete_all
delete_all-HasKeys h current o l k =
    release_all-HasKeys h current _ _
      (retire_where-HasKeys h current (is_active_of o) _ (expire-HasKeys h current l k))
