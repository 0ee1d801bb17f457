-- ===== src/Ledger/Bounds/Promotions.antt =====
-- complete_upload of app/projection_store.py under the limits.
use plt_converter.Prelude.{
  ℕ, ◌+◌, ◌*◌, ◌≤◌, ◌≡◌, refl, true, Bool, some, List, arith, inl, inr, Bool-cases, find_row,
  All-update_row, All-find_row, update_row-Distinct, snoc-Distinct,
}
use plt_converter.Ledger.Rows.{
  Lease, Session, Ledger, Host, session_id, lease_id, Meta, ok, is_uploading, Result-cases,
}
use plt_converter.Ledger.Policy.{Policy, max_source, meta_bound, allocation}
use plt_converter.Ledger.Disk.Promises.{HasKeys}
use plt_converter.Ledger.Leases.{release_all}
use plt_converter.Ledger.Sessions.{
  promote, promoted, finish_upload, retire_where, is_active_other, complete_upload,
}
use plt_converter.Ledger.Quota.{Quota, charged}
use plt_converter.Ledger.Quota.Limits.{
  disk, documents, source, derived, parsing, rendering, owner_rendering, promised-eq-charged,
}
use plt_converter.Ledger.Quota.Promotions.{
  Promotion, promote-checked, promote-charged, with_reservation,
}
use plt_converter.Ledger.Bounds.{IsFunded, IsBounded}
use plt_converter.Ledger.Bounds.Upkeep.{Funded, retire_where-IsBounded, release_all-IsBounded}

allocation_mono : (m n : ℕ) → m ≤ n → allocation m ≤ allocation n
unfolding allocation
allocation_mono m n h = omega arith

allocation_zero : allocation 0 ≡ 0
unfolding allocation
allocation_zero = refl

-- A source of the largest size takes whole blocks.
allocation-max_source : allocation max_source ≡ max_source
unfolding allocation
allocation-max_source = refl

-- The session of a promoted upload and what is left to its lease fit into what the lease held.
promoted_fits :
    (h : Host) (p : Policy) (token o document size : ℕ) (m : Meta) (l l' : Ledger) (row : Lease)
    (r : Promotion h token o document size m l l' row)
    → IsFunded row
    → is_uploading row.kind ≡ true
    → let s = promoted h document o size (with_reservation row token m) in
      (allocation size + 2 * meta_bound + (2 * meta_bound + 65536) ≤ row.budget)
      × (s.source_bytes ≤ row.source_budget)
      × (s.derived_bytes ≤ row.derived_budget)
promoted_fits h p token o document size m l l' row r f u = elim (Bool-cases m.plt) [
  | inl plt ↦ ground (arith, f u, r.fits, allocation_mono size row.derived_budget)
  | inr pdf ↦ ground (arith, f u, r.fits, allocation_mono size max_source, allocation-max_source)
]

module _ (h : Host) (p : Policy) (token o document size : ℕ) (m : Meta) (l l' : Ledger)
    (b : IsBounded p l) (row : Lease) (r : Promotion h token o document size m l l' row)
    (uploading : is_uploading row.kind ≡ true) where
  IsFunded-row : IsFunded row
  IsFunded-row = All-find_row IsFunded lease_id token l.leases row b.funded r.found

  -- What the session and the lease weigh is no more than what the lease weighed.
  promote_within :
      (q : Quota) (limit : ℕ)
      → q.per_session (promoted h document o size (with_reservation row token m))
          + q.per_lease (finish_upload row)
        ≤ q.per_lease row
      → charged q l ≤ limit
      → charged q l' ≤ limit
  promote_within q limit less h2 =
      omega (arith, promote-charged q h token o document size m l l' row r)

  promote_keys : HasKeys l'
  promote_keys = rw (r.result) (record {
    session_keys = snoc-Distinct session_id l.sessions _ r.fresh b.keys.session_keys;
    lease_keys =
        update_row-Distinct lease_id token finish_upload (λ x. refl) l.leases b.keys.lease_keys;
  })

  promote-Funded : Funded l'
  promote-Funded = rw (r.result) (
      All-update_row IsFunded lease_id token finish_upload (λ x f u. absurd (ground arith)) l.leases
        b.funded)

  promote-IsBounded : IsBounded p l'
  promote-IsBounded =
      let (disk_fits, source_fits, derived_fits) =
        promoted_fits h p token o document size m l l' row r IsFunded-row uploading in
      record {
        keys = promote_keys;
        funded = promote-Funded;
        disk_limit = omega (
          arith,
          promote_within disk (charged disk l) (ground (arith, disk_fits, uploading)) (omega arith),
          b.disk_limit,
          promised-eq-charged p l,
          promised-eq-charged p l',
        );
        document_limit = λ x.
            promote_within (documents x) _ (ground (arith, r.owned, r.live)) (b.document_limit x);
        source_limit = λ x.
            promote_within (source x) _ (ground (arith, r.owned, r.live, source_fits))
              (b.source_limit x);
        derived_limit = λ x.
            promote_within (derived x) _ (ground (arith, r.owned, derived_fits))
              (b.derived_limit x);
        parser_limit = promote_within parsing _ (omega arith) b.parser_limit;
        renderer_limit = promote_within rendering _ (omega arith) b.renderer_limit;
        owner_renderer_limit =
            λ x. promote_within (owner_rendering x) _ (omega arith) (b.owner_renderer_limit x);
      }

-- A finished upload of a live lease keeps the limits, the retirement of the owner's other documents
-- and the releases that it brings included.
pub complete_upload-IsBounded :
    (h : Host) (p : Policy) (current token o document size : ℕ) (m : Meta) (l l' : Ledger)
    (row : Lease) (dropped : List ℕ)
    → IsBounded p l
    → find_row lease_id token l.leases ≡ some row
    → is_uploading row.kind ≡ true
    → complete_upload h current token o document size m l ≡ ok (l', dropped)
    → IsBounded p l'
unfolding complete_upload
complete_upload-IsBounded h p current token o document size m l l' row dropped b f u e =
    elim (Result-cases (promote h true token o document size m l)) [
      | inl (why, refused) ↦ absurd (ground arith)
      | inr (l1, done) ↦
          let (row', promotion) = promote-checked h token o document size m l l1 done in
          let same : row' ≡ row = ground (arith, promotion.found) in
          let uploading : is_uploading row'.kind ≡ true = cc in
          let which : Session → Bool = is_active_other o document in
          let final : l'
              ≡ release_all h current (retire_where h current which l1).pending
                  (retire_where h current which l1).ledger =
            ground arith in
          rw final (
            release_all-IsBounded h p current (retire_where h current which l1).pending _ (
              retire_where-IsBounded h p current which l1
                (promote-IsBounded h p token o document size m l l1 b row' promotion uploading)))
    ]
