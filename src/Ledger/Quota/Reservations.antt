-- ===== src/Ledger/Quota/Reservations.antt =====
-- reserve and reserve_derived of app/projection_store.py under one quota.
use plt_converter.Prelude.{
  ℕ, ◌+◌, ◌≤◌, ◌<◌, ◌≡◌, ◌⊎◌, false, none, some, arith, ◌==◌, inl, inr, Option-cases, Bool-cases,
  exists_where, update_row, find_row, total-snoc, total-update_where-le, total-update_row,
}
use plt_converter.Ledger.Rows.{Kind, Stamp, Lease, Ledger, lease_id, Host, ok}
use plt_converter.Ledger.Policy.{Policy, max_source, upload_bytes, operation_bytes, allocation}
use plt_converter.Ledger.Expiry.{expire}
use plt_converter.Ledger.Disk.{check_capacity}
use plt_converter.Ledger.Admission.{
  with_lease, new_lease, supersede_others, is_other_upload, revoke_lease, admit_upload,
  admit_operation, reserve_upload, reserve_operation, charge_derived, derive_for, reserve_derived,
  owner_documents, owner_source, owner_derived, renderers, owner_renderers_used,
}
use plt_converter.Ledger.Quota.{Quota, charged, IsLawful}

abbrev pub upload_lease : Host → ℕ → ℕ → Lease
upload_lease h token o = new_lease h token o Kind.upload none Stamp.unset upload_bytes max_source

abbrev pub operation_lease : Host → ℕ → ℕ → Kind → ℕ → ℕ → Lease
operation_lease h token o kind document generation =
    new_lease h token o kind (some document) (Stamp.at generation) operation_bytes 0

pub reserve_upload-checked :
    (h : Host) (p : Policy) (current token o : ℕ) (l l' : Ledger)
    → reserve_upload h p current token o l ≡ ok l'
    → (admit_upload p o (expire h current l) ≡ ok tt)
      × (check_capacity h p (expire h current l) upload_bytes Kind.upload ≡ ok tt)
      × (l' ≡ supersede_others o token (with_lease (upload_lease h token o) (expire h current l)))
      × (exists_where (λ x. lease_id x == token) (expire h current l).leases ≡ false)
unfolding reserve_upload
reserve_upload-checked h p current token o l l' e = ground arith

pub reserve_operation-checked :
    (h : Host) (p : Policy) (current token o : ℕ) (kind : Kind) (document generation : ℕ)
    (l l' : Ledger)
    → reserve_operation h p current token o kind document generation l ≡ ok l'
    → (admit_operation p o kind document generation (expire h current l) ≡ ok tt)
      × (check_capacity h p (expire h current l) operation_bytes kind ≡ ok tt)
      × (l' ≡ with_lease (operation_lease h token o kind document generation) (expire h current l))
      × (exists_where (λ x. lease_id x == token) (expire h current l).leases ≡ false)
unfolding reserve_operation
reserve_operation-checked h p current token o kind document generation l l' e = ground arith

pub admit_upload_room :
    (p : Policy) (o : ℕ) (l : Ledger)
    → admit_upload p o l ≡ ok tt
    → (owner_documents o l < p.owner_max_documents)
      × (owner_source o l + max_source ≤ p.owner_source_bytes)
unfolding admit_upload
admit_upload_room p o l e = ground arith

pub admit_tile_room :
    (p : Policy) (o document generation : ℕ) (l : Ledger)
    → admit_operation p o Kind.tile document generation l ≡ ok tt
    → (renderers l < p.global_renderers) × (owner_renderers_used o l < p.owner_renderers)
unfolding admit_operation
admit_tile_room p o document generation l e = ground arith

module _ (q : Quota) where
  with_lease-charged :
      (r : Lease) (l : Ledger) → charged q (with_lease r l) ≡ charged q l + q.per_lease r
  unfolding charged
  with_lease-charged r l = omega (arith, total-snoc q.per_lease l.leases r)

  pub reserve_upload-le :
      IsLawful q
      → (h : Host) (p : Policy) (current token o : ℕ) (l l' : Ledger)
      → reserve_upload h p current token o l ≡ ok l'
      → charged q l' ≤ charged q (expire h current l) + q.per_lease (upload_lease h token o)
  unfolding charged
  reserve_upload-le lawful h p current token o l l' e =
      let (admit, room, final, fresh) = reserve_upload-checked h p current token o l l' e in
      let r = upload_lease h token o in
      let l1 = expire h current l in
      rw final (
        omega (
          arith,
          total-update_where-le q.per_lease (is_other_upload o token) revoke_lease lawful.revoked
              (with_lease r l1).leases,
          with_lease-charged r l1,
        ))

  pub reserve_operation-charged :
      (h : Host) (p : Policy) (current token o : ℕ) (kind : Kind) (document generation : ℕ)
      (l l' : Ledger)
      → reserve_operation h p current token o kind document generation l ≡ ok l'
      → charged q l'
        ≡ charged q (expire h current l)
          + q.per_lease (operation_lease h token o kind document generation)
  reserve_operation-charged h p current token o kind document generation l l' e =
      let (admit, room, final, fresh) =
        reserve_operation-checked h p current token o kind document generation l l' e in
      rw final (
        with_lease-charged (operation_lease h token o kind document generation)
          (expire h current l))

  pub update_lease-charged :
      (token : ℕ) (f : Lease → Lease) (l : Ledger) (r : Lease)
      → find_row lease_id token l.leases ≡ some r
      → charged q (record l { leases = update_row lease_id token f l.leases }) + q.per_lease r
        ≡ charged q l + q.per_lease (f r)
  unfolding charged
  update_lease-charged token f l r e =
      omega (arith, total-update_row lease_id q.per_lease token f l.leases r e)

-- What `reserve_derived` found, where it changed the ledger.
pub record DerivedRoom (h : Host) (p : Policy) (token : ℕ) (l l' : Ledger) (row : Lease)
    : Type 0 where
  pub found : find_row lease_id token l.leases ≡ some row
  pub uncharged : row.derived_budget ≡ 0
  pub owner_room : owner_derived row.owner l + p.derived_max_bytes ≤ p.owner_derived_bytes
  pub disk_room : check_capacity h p l (allocation p.derived_max_bytes) Kind.upload ≡ ok tt
  pub result : l' ≡ record l {
    leases = update_row lease_id token (charge_derived p.derived_max_bytes) l.leases;
  }

derive_for-checked :
    (h : Host) (p : Policy) (token : ℕ) (l l' : Ledger) (row : Lease)
    → find_row lease_id token l.leases ≡ some row
    → derive_for h p token l row ≡ ok l'
    → (l' ≡ l) ⊎ DerivedRoom h p token l l' row
unfolding derive_for
derive_for-checked h p token l l' row f e = elim (Bool-cases (row.derived_budget == 0)) [
  | inl free ↦ inr (record {
    found = f;
    uncharged = ground arith;
    owner_room = ground arith;
    disk_room = ground arith;
    result = ground arith;
  })
  | inr held ↦ inl (ground arith)
]

pub reserve_derived-checked :
    (h : Host) (p : Policy) (token : ℕ) (l l' : Ledger)
    → reserve_derived h p token l ≡ ok l'
    → (l' ≡ l) ⊎ ((row : Lease) × DerivedRoom h p token l l' row)
unfolding reserve_derived
reserve_derived-checked h p token l l' e = elim (Option-cases (find_row lease_id token l.leases)) [
  | inl gone ↦ inl (ground arith)
  | inr (row, f) ↦ elim (derive_for-checked h p token l l' row f (ground arith)) [
    | inl same ↦ inl same
    | inr room ↦ inr (row, room)
  ]
]
