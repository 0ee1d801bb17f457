-- ===== src/Ledger/Bounds/Operations.antt =====
-- reserve of app/projection_store.py, for tiles and analyses, under the limits.
use plt_converter.Prelude.{ℕ, ◌+◌, ◌≤◌, ◌≡◌, refl, List, [], ◌∷◌, arith, total, All-snoc, false}
use plt_converter.Ledger.Rows.{Kind, Session, Ledger, Host, ok, is_uploading}
use plt_converter.Ledger.Policy.{Policy, operation_bytes}
use plt_converter.Ledger.Expiry.{expire}
use plt_converter.Ledger.Disk.Promises.{HasKeys, check_capacity_fits}
use plt_converter.Ledger.Admission.{reserve_operation, renderers, owner_renderers_used, parsers}
use plt_converter.Ledger.Keys.{expire-HasKeys}
use plt_converter.Ledger.Quota.{Quota, charged}
use plt_converter.Ledger.Quota.Limits.{
  disk, documents, source, derived, parsing, rendering, owner_rendering, promised-eq-charged,
}
use plt_converter.Ledger.Quota.Reservations.{
  operation_lease, reserve_operation-checked, admit_tile_room, reserve_operation-charged,
}
use plt_converter.Ledger.Bounds.{IsFunded, IsBounded}
use plt_converter.Ledger.Bounds.Upkeep.{Funded, expire-Funded, expire-IsBounded}
use plt_converter.Ledger.Bounds.Admission.{with_lease-HasKeys, owner_room}

total_zero : (ss : List Session) → total (λ s. 0) ss ≡ 0
total_zero [] = refl
total_zero (s ∷ ss) = omega (arith, total_zero ss)

pub renderers-eq-charged : (l : Ledger) → renderers l ≡ charged rendering l
unfolding charged renderers
renderers-eq-charged l = omega (arith, total_zero l.sessions)

pub owner_renderers-eq-charged :
    (o : ℕ) (l : Ledger) → owner_renderers_used o l ≡ charged (owner_rendering o) l
unfolding charged owner_renderers_used
owner_renderers-eq-charged o l = omega (arith, total_zero l.sessions)

pub parsers-eq-charged : (l : Ledger) → parsers l ≡ charged parsing l
unfolding charged parsers
parsers-eq-charged l = omega (arith, total_zero l.sessions)

module _ (h : Host) (p : Policy) (current token o document generation : ℕ) (l l' : Ledger)
    (b : IsBounded p l) where
  module _ (kind : Kind)
      (e : reserve_operation h p current token o kind document generation l ≡ ok l') where
    operation_within :
        (q : Quota) (limit : ℕ)
        → charged q (expire h current l)
            + q.per_lease (operation_lease h token o kind document generation)
          ≤ limit
        → charged q l' ≤ limit
    operation_within q limit room =
        omega
          (arith, reserve_operation-charged q h p current token o kind document generation l l' e)

    operation_keys : HasKeys l'
    operation_keys =
        let (admit, room, final, fresh) =
          reserve_operation-checked h p current token o kind document generation l l' e in
        rw final (
          with_lease-HasKeys (operation_lease h token o kind document generation)
            (expire h current l) fresh (expire-HasKeys h current l b.keys))

    operation-Funded : is_uploading kind ≡ false → Funded l'
    operation-Funded other =
        let (admit, room, final, fresh) =
          reserve_operation-checked h p current token o kind document generation l l' e in
        rw final (
          All-snoc IsFunded (expire h current l).leases
            (operation_lease h token o kind document generation)
            (expire-Funded h current l b.funded) (λ u. absurd (ground arith)))

  -- A tile's lease takes a renderer slot and keeps every limit.
  pub reserve_tile-IsBounded :
      reserve_operation h p current token o Kind.tile document generation l ≡ ok l' → IsBounded p l'
  reserve_tile-IsBounded e =
      let l1 = expire h current l in
      let b1 : IsBounded p l1 = expire-IsBounded h p current l b in
      let (admit, room, final, fresh) =
        reserve_operation-checked h p current token o Kind.tile document generation l l' e in
      let (all_room, own_room) = admit_tile_room p o document generation l1 admit in
      record {
        keys = operation_keys Kind.tile e;
        funded = operation-Funded Kind.tile e refl;
        disk_limit = omega (
          arith,
          operation_within Kind.tile e disk (charged disk l1) (omega arith),
          b1.disk_limit,
          promised-eq-charged p l1,
          promised-eq-charged p l',
        );
        document_limit =
            λ x. operation_within Kind.tile e (documents x) _ (ground (arith, b1.document_limit x));
        source_limit =
            λ x. operation_within Kind.tile e (source x) _ (ground (arith, b1.source_limit x));
        derived_limit =
            λ x. operation_within Kind.tile e (derived x) _ (ground (arith, b1.derived_limit x));
        parser_limit = operation_within Kind.tile e parsing _ (omega (arith, b1.parser_limit));
        renderer_limit =
            operation_within Kind.tile e rendering _ (omega (arith, renderers-eq-charged l1));
        owner_renderer_limit = λ x. operation_within Kind.tile e (owner_rendering x) _ (
            owner_room (λ y. charged (owner_rendering y) l1) o x _ 1 _ (ground arith)
              (omega (arith, owner_renderers-eq-charged o l1)) (b1.owner_renderer_limit x));
      }

  -- An analysis' lease keeps every limit.
  pub reserve_analysis-IsBounded :
      reserve_operation h p current token o Kind.analysis document generation l ≡ ok l'
      → IsBounded p l'
  reserve_analysis-IsBounded e =
      let l1 = expire h current l in
      let b1 : IsBounded p l1 = expire-IsBounded h p current l b in
      let (admit, room, final, fresh) =
        reserve_operation-checked h p current token o Kind.analysis document generation l l' e in
      let (disk_room, free_room) =
        check_capacity_fits h p l1 operation_bytes Kind.analysis b1.keys room in
      record {
        keys = operation_keys Kind.analysis e;
        funded = operation-Funded Kind.analysis e refl;
        disk_limit = omega (
          arith,
          operation_within Kind.analysis e disk (charged disk l1 + operation_bytes) (omega arith),
          promised-eq-charged p l1,
          promised-eq-charged p l',
        );
        document_limit = λ x.
            operation_within Kind.analysis e (documents x) _ (ground (arith, b1.document_limit x));
        source_limit =
            λ x. operation_within Kind.analysis e (source x) _ (ground (arith, b1.source_limit x));
        derived_limit = λ x.
            operation_within Kind.analysis e (derived x) _ (ground (arith, b1.derived_limit x));
        parser_limit = operation_within Kind.analysis e parsing _ (omega (arith, b1.parser_limit));
        renderer_limit =
            operation_within Kind.analysis e rendering _ (omega (arith, b1.renderer_limit));
        owner_renderer_limit = λ x.
            operation_within Kind.analysis e (owner_rendering x) _
              (omega (arith, b1.owner_renderer_limit x));
      }
