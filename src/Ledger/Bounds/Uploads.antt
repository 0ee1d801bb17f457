-- ===== src/Ledger/Bounds/Uploads.antt =====
-- reserve_derived and begin_parse of app/projection_store.py under the limits.
use plt_converter.Prelude.{
  ℕ, ◌+◌, ◌≤◌, ◌≡◌, refl, Bool, some, arith, inl, inr, ◌==◌, Bool-cases, update_row, find_row,
  All-update_row, All-find_row, All-update_found,
}
use plt_converter.Ledger.Rows.{Kind, Lease, Ledger, Host, lease_id, ok}
use plt_converter.Ledger.Policy.{Policy, allocation}
use plt_converter.Ledger.Disk.Promises.{check_capacity_fits}
use plt_converter.Ledger.Admission.{reserve_derived, charge_derived, owner_derived}
use plt_converter.Ledger.Leases.{set_parsing, parse_turn, Turn}
use plt_converter.Ledger.Keys.{update_lease-HasKeys}
use plt_converter.Ledger.Quota.{Quota, charged}
use plt_converter.Ledger.Quota.Limits.{
  disk, documents, source, derived, parsing, rendering, owner_rendering, promised-eq-charged,
  derived-eq-charged,
}
use plt_converter.Ledger.Quota.Reservations.{
  DerivedRoom, reserve_derived-checked, update_lease-charged,
}
use plt_converter.Ledger.Quota.Promotions.{ParserRoom, parse_turn-checked}
use plt_converter.Ledger.Bounds.{IsFunded, IsBounded}
use plt_converter.Ledger.Bounds.Operations.{parsers-eq-charged}

module _ (p : Policy) (token : ℕ) (f : Lease → Lease) (l : Ledger) (row : Lease)
    (found : find_row lease_id token l.leases ≡ some row) where
  abbrev changed : Ledger
  changed = record l { leases = update_row lease_id token f l.leases }

  same_or_less :
      (q : Quota) (limit : ℕ)
      → q.per_lease (f row) ≤ q.per_lease row
      → charged q l ≤ limit
      → charged q changed ≤ limit
  same_or_less q limit less h = omega (arith, update_lease-charged q token f l row found)

charge_derived-IsFunded : (n : ℕ) (r : Lease) → IsFunded r → IsFunded (charge_derived n r)
charge_derived-IsFunded n r f u = omega (arith, f u)

derived_room :
    (h : Host) (p : Policy) (token : ℕ) (l l' : Ledger) (row : Lease)
    → DerivedRoom h p token l l' row
    → IsBounded p l
    → (x : ℕ)
    → charged (derived x) (record l {
      leases = update_row lease_id token (charge_derived p.derived_max_bytes) l.leases;
    })
      ≤ p.owner_derived_bytes
derived_room h p token l l' row r b x = elim (Bool-cases (row.owner == x)) [
  | inl mine ↦
      let e : row.owner ≡ x = ground arith in
      let room : owner_derived x l + p.derived_max_bytes ≤ p.owner_derived_bytes =
        rw (← e) (r.owner_room) in
      ground (
        arith,
        update_lease-charged (derived x) token (charge_derived p.derived_max_bytes) l row r.found,
        derived-eq-charged x l,
      )
  | inr other ↦ ground (
    arith,
    update_lease-charged (derived x) token (charge_derived p.derived_max_bytes) l row r.found,
    b.derived_limit x,
  )
]

derived_IsBounded :
    (h : Host) (p : Policy) (token : ℕ) (l l' : Ledger) (row : Lease)
    → DerivedRoom h p token l l' row
    → IsBounded p l
    → IsBounded p l'
derived_IsBounded h p token l l' row r b =
    let f : Lease → Lease = charge_derived p.derived_max_bytes in
    let (disk_room, free_room) =
      check_capacity_fits h p l (allocation p.derived_max_bytes) Kind.upload b.keys r.disk_room in
    rw (r.result) (record {
      keys = update_lease-HasKeys token f (λ x. refl) l b.keys;
      funded =
          All-update_row IsFunded lease_id token f (charge_derived-IsFunded _) l.leases b.funded;
      disk_limit = ground (
        arith,
        update_lease-charged disk token f l row r.found,
        promised-eq-charged p l,
        promised-eq-charged p (changed p token f l row r.found),
      );
      document_limit = λ x.
          same_or_less p token f l row r.found (documents x) _ (omega arith) (b.document_limit x);
      source_limit =
          λ x. same_or_less p token f l row r.found (source x) _ (omega arith) (b.source_limit x);
      derived_limit = λ x. derived_room h p token l l' row r b x;
      parser_limit = same_or_less p token f l row r.found parsing _ (omega arith) b.parser_limit;
      renderer_limit =
          same_or_less p token f l row r.found rendering _ (omega arith) b.renderer_limit;
      owner_renderer_limit = λ x.
          same_or_less p token f l row r.found (owner_rendering x) _ (omega arith)
            (b.owner_renderer_limit x);
    })

pub parse_turn-IsBounded :
    (p : Policy) (late : Bool) (token : ℕ) (l l' : Ledger)
    → parse_turn p late token l ≡ Turn.admitted l'
    → IsBounded p l
    → IsBounded p l'
parse_turn-IsBounded p late token l l' e b = elim (parse_turn-checked p late token l l' e) [
  | inl same ↦ rw same b
  | inr (row, r) ↦ parsing_IsBounded row r
]
  where
    parsing_IsBounded : (row : Lease) → ParserRoom p token l l' row → IsBounded p l'
    parsing_IsBounded row r = rw (r.result) (record {
      keys = update_lease-HasKeys token set_parsing (λ x. refl) l b.keys;
      funded =
          All-update_found IsFunded lease_id token set_parsing l.leases row r.found
            (λ u.
              All-find_row IsFunded lease_id token l.leases row b.funded r.found
                (ground (arith, r.waiting)))
            b.funded;
      disk_limit = ground (
        arith,
        r.waiting,
        update_lease-charged disk token set_parsing l row r.found,
        promised-eq-charged p l,
        promised-eq-charged p (changed p token set_parsing l row r.found),
        b.disk_limit,
      );
      document_limit = λ x.
          same_or_less p token set_parsing l row r.found (documents x) _ (ground (arith, r.waiting))
            (b.document_limit x);
      source_limit = λ x.
          same_or_less p token set_parsing l row r.found (source x) _ (ground (arith, r.waiting))
            (b.source_limit x);
      derived_limit = λ x.
          same_or_less p token set_parsing l row r.found (derived x) _ (omega arith)
            (b.derived_limit x);
      parser_limit = ground (
        arith,
        r.waiting,
        r.room,
        update_lease-charged parsing token set_parsing l row r.found,
        parsers-eq-charged l,
      );
      renderer_limit =
          same_or_less p token set_parsing l row r.found rendering _ (omega arith) b.renderer_limit;
      owner_renderer_limit = λ x.
          same_or_less p token set_parsing l row r.found (owner_rendering x) _ (omega arith)
            (b.owner_renderer_limit x);
    })

pub reserve_derived-IsBounded :
    (h : Host) (p : Policy) (token : ℕ) (l l' : Ledger)
    → reserve_derived h p token l ≡ ok l'
    → IsBounded p l
    → IsBounded p l'
reserve_derived-IsBounded h p token l l' e b = elim (reserve_derived-checked h p token l l' e) [
  | inl same ↦ rw same b
  | inr (row, r) ↦ derived_IsBounded h p token l l' row r b
]
