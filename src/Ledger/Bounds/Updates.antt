-- ===== src/Ledger/Bounds/Updates.antt =====
-- update of app/projection_store.py under the limits.
use plt_converter.Prelude.{
  ℕ, ◌≡◌, refl, Bool, some, arith, update_where, All-update_where, total-update_where-le,
}
use plt_converter.Ledger.Rows.{Ledger, Host, ok}
use plt_converter.Ledger.Policy.{Policy}
use plt_converter.Ledger.Admission.{revoke_lease}
use plt_converter.Ledger.Updates.{Edit, is_prior, set_meta, update}
use plt_converter.Ledger.Keys.{update_session-HasKeys, update_leases-HasKeys, expire_scenes-HasKeys}
use plt_converter.Ledger.Quota.{charged}
use plt_converter.Ledger.Quota.Upkeep.{update_session-le, expire_scenes-le}
use plt_converter.Ledger.Bounds.{IsFunded, IsBounded, IsBounded-shrink, leases-expire_scenes}
use plt_converter.Ledger.Bounds.Upkeep.{revoke_lease-IsFunded, expire-IsBounded}
use plt_converter.Ledger.Updates.Keeps.{IsKept, update-keeps}

update_kept : (p : Policy) → IsKept (IsBounded p)
update_kept p = record {
  prior_revoked = λ i o document l b.
      IsBounded-shrink p l
        (record l { leases = update_where (is_prior i o document) revoke_lease l.leases })
        (update_leases-HasKeys (is_prior i o document) revoke_lease (λ r. refl) l b.keys)
        (All-update_where IsFunded (is_prior i o document) revoke_lease revoke_lease-IsFunded
          l.leases b.funded)
        (λ q w.
          unfold charged in
          omega (
            arith,
            total-update_where-le q.per_lease (is_prior i o document) revoke_lease w.revoked
                l.leases,
          ))
        b;
  meta_set = λ document m invalidate l b.
      IsBounded-shrink p l _
        (update_session-HasKeys document (set_meta m invalidate) (λ s. refl) l b.keys) b.funded
        (λ q w.
          update_session-le q w document (set_meta m invalidate)
            (λ s. w.reset s s.expires (set_meta m invalidate s).generation (some m)) l)
        b;
  scenes_expired = λ h current l b.
      IsBounded-shrink p l _ (expire_scenes-HasKeys h current l b.keys)
        (rw leases-expire_scenes b.funded) (λ q w. expire_scenes-le q w h current l) b;
  expired = λ h current l b. expire-IsBounded h p current l b;
}

pub update-IsBounded :
    (p : Policy) (h : Host) (current document o generation : ℕ) (e : Edit) (l l' : Ledger)
    (done : Bool)
    → update h current document o generation e l ≡ ok (done, l')
    → IsBounded p l
    → IsBounded p l'
update-IsBounded p h current document o generation e l l' done eq b =
    update-keeps (IsBounded p) (update_kept p) h current document o generation e l l' done eq b
