-- ===== src/Ledger/Bounds/Admission.antt =====
-- reserve of app/projection_store.py, for uploads, under the limits.
use plt_converter.Prelude.{
  ℕ, ◌+◌, ◌≤◌, ◌≡◌, refl, false, arith, inl, inr, Bool-cases, All-update_where, All-snoc,
  snoc-Distinct, ◌==◌, when, has_key,
}
use plt_converter.Ledger.Rows.{Kind, Lease, Ledger, Host, lease_id, ok}
use plt_converter.Ledger.Policy.{Policy, max_source, upload_bytes, allocation}
use plt_converter.Ledger.Expiry.{expire}
use plt_converter.Ledger.Disk.Promises.{HasKeys, check_capacity_fits}
use plt_converter.Ledger.Admission.{reserve_upload, is_other_upload, revoke_lease, with_lease}
use plt_converter.Ledger.Keys.{expire-HasKeys, update_leases-HasKeys}
use plt_converter.Ledger.Quota.{Quota, charged, IsLawful}
use plt_converter.Ledger.Quota.Limits.{
  disk, documents, source, derived, parsing, rendering, owner_rendering, disk-IsLawful,
  documents-IsLawful, source-IsLawful, derived-IsLawful, parsing-IsLawful, rendering-IsLawful,
  owner_rendering-IsLawful, promised-eq-charged, documents-eq-charged, source-eq-charged,
}
use plt_converter.Ledger.Quota.Reservations.{
  upload_lease, reserve_upload-checked, admit_upload_room, reserve_upload-le,
}
use plt_converter.Ledger.Bounds.{IsFunded, IsBounded}
use plt_converter.Ledger.Bounds.Upkeep.{
  Funded, expire-Funded, expire-IsBounded, revoke_lease-IsFunded,
}

allocation_zero : allocation 0 ≡ 0
unfolding allocation
allocation_zero = refl

-- A charge on one owner's account leaves the other accounts alone.
pub owner_room :
    (c : ℕ → ℕ) (o x w n limit : ℕ)
    → w ≡ when (o == x) n
    → c o + n ≤ limit
    → c x ≤ limit
    → c x + w ≤ limit
owner_room c o x w n limit weight room h = elim (Bool-cases (o == x)) [
  | inl same ↦ let e : o ≡ x = ground arith in rw (weight, same, ← e) (omega arith)
  | inr other ↦ rw (weight, other) (omega arith)
]

pub with_lease-HasKeys :
    (r : Lease) (l : Ledger)
    → has_key lease_id r.id l.leases ≡ false
    → HasKeys l
    → HasKeys (with_lease r l)
with_lease-HasKeys r l fresh k = record {
  session_keys = k.session_keys;
  lease_keys = snoc-Distinct lease_id l.leases r fresh k.lease_keys;
}

module _ (h : Host) (p : Policy) (current token o : ℕ) (l l' : Ledger) (b : IsBounded p l)
    (e : reserve_upload h p current token o l ≡ ok l') where
  upload_within :
      (q : Quota) (limit : ℕ)
      → IsLawful q
      → charged q (expire h current l) + q.per_lease (upload_lease h token o) ≤ limit
      → charged q l' ≤ limit
  upload_within q limit w room = omega (arith, reserve_upload-le q w h p current token o l l' e)

  upload_keys : HasKeys l'
  upload_keys =
      let (admit, room, final, fresh) = reserve_upload-checked h p current token o l l' e in
      rw final (
        update_leases-HasKeys (is_other_upload o token) revoke_lease (λ r. refl) _
          (with_lease-HasKeys (upload_lease h token o) (expire h current l) fresh
            (expire-HasKeys h current l b.keys)))

  upload-Funded : Funded l'
  upload-Funded =
      let (admit, room, final, fresh) = reserve_upload-checked h p current token o l l' e in
      rw final (
        All-update_where IsFunded (is_other_upload o token) revoke_lease revoke_lease-IsFunded _ (
          All-snoc IsFunded (expire h current l).leases (upload_lease h token o)
            (expire-Funded h current l b.funded) (λ _. omega (arith, allocation_zero))))

  -- A new upload keeps every limit.
  pub reserve_upload-IsBounded : IsBounded p l'
  reserve_upload-IsBounded =
      let l1 = expire h current l in
      let b1 : IsBounded p l1 = expire-IsBounded h p current l b in
      let (admit, room, final, fresh) = reserve_upload-checked h p current token o l l' e in
      let (documents_room, source_room) = admit_upload_room p o l1 admit in
      let (disk_room, free_room) =
        check_capacity_fits h p l1 upload_bytes Kind.upload b1.keys room in
      record {
        keys = upload_keys;
        funded = upload-Funded;
        disk_limit = omega (
          arith,
          reserve_upload-le disk disk-IsLawful h p current token o l l' e,
          promised-eq-charged p l1,
          promised-eq-charged p l',
        );
        document_limit = λ x. upload_within (documents x) _ (documents-IsLawful x) (
            owner_room (λ y. charged (documents y) l1) o x _ 1 _ (ground arith)
              (omega (arith, documents-eq-charged o l1)) (b1.document_limit x));
        source_limit = λ x. upload_within (source x) _ (source-IsLawful x) (
            owner_room (λ y. charged (source y) l1) o x _ max_source _ (ground arith)
              (omega (arith, source-eq-charged o l1)) (b1.source_limit x));
        derived_limit = λ x. upload_within (derived x) _ (derived-IsLawful x) (
            owner_room (λ y. charged (derived y) l1) o x _ 0 _ (ground arith)
              (omega (arith, b1.derived_limit o)) (b1.derived_limit x));
        parser_limit = upload_within parsing _ parsing-IsLawful (omega (arith, b1.parser_limit));
        renderer_limit =
            upload_within rendering _ rendering-IsLawful (omega (arith, b1.renderer_limit));
        owner_renderer_limit = λ x.
            upload_within (owner_rendering x) _ (owner_rendering-IsLawful x)
              (omega (arith, b1.owner_renderer_limit x));
      }
