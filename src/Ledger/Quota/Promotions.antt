-- ===== src/Ledger/Quota/Promotions.antt =====
-- begin_parse and complete_upload of app/projection_store.py under one quota.
use plt_converter.Prelude.{
  ℕ, ◌+◌, ◌≤◌, ◌<◌, ◌≡◌, refl, ◌⊎◌, Bool, true, false, some, List, [], ◌∷◌, ◌++◌, arith, ◌==◌, inl,
  inr, Option-cases, exists_where, update_row, find_row, total-snoc, total-update_row,
}
use plt_converter.Ledger.Rows.{
  Kind, is_revoked, Lease, Ledger, Meta, session_id, lease_id, Host, ok,
}
use plt_converter.Ledger.Policy.{Policy}
use plt_converter.Ledger.Admission.{parsers}
use plt_converter.Ledger.Leases.{Turn, parse_turn, set_parsing}
use plt_converter.Ledger.Sessions.{
  promote, promoted, finish_upload, find_owned, size_limit, reject_superseded,
}
use plt_converter.Ledger.Quota.{Quota, charged}

-- What `begin_parse` found, where it changed the ledger.
pub record ParserRoom (p : Policy) (token : ℕ) (l l' : Ledger) (row : Lease) : Type 0 where
  pub found : find_row lease_id token l.leases ≡ some row
  pub waiting : row.kind ≡ Kind.upload
  pub live : is_revoked row.generation ≡ false
  pub room : parsers l < p.global_parsers
  pub result : l' ≡ record l { leases = update_row lease_id token set_parsing l.leases }

pub parse_turn-checked :
    (p : Policy) (late : Bool) (token : ℕ) (l l' : Ledger)
    → parse_turn p late token l ≡ Turn.admitted l'
    → (l' ≡ l) ⊎ ((row : Lease) × ParserRoom p token l l' row)
unfolding parse_turn
parse_turn-checked p late token l l' e = elim (Option-cases (find_row lease_id token l.leases)) [
  | inl gone ↦ inl (ground arith)
  | inr (row, f) ↦ kind_cases row f row.kind refl
]
  where
    kind_cases :
        (row : Lease)
        → find_row lease_id token l.leases ≡ some row
        → (k : Kind) → row.kind ≡ k
        → (l' ≡ l) ⊎ ((row : Lease) × ParserRoom p token l l' row)
    kind_cases row f Kind.upload k = inr (
      row,
      record {
        found = f;
        waiting = k;
        live = ground arith;
        room = ground arith;
        result = ground arith;
      },
    )
    kind_cases row f _ k = inl (ground arith)

abbrev pub with_reservation : Lease → ℕ → Meta → Meta
with_reservation row token m = record m { reserved_at = some row.created; reserved_by = some token }

-- What `complete_upload` found before it inserted the session.
pub record Promotion (h : Host) (token o document size : ℕ) (m : Meta) (l l' : Ledger) (row : Lease)
    : Type 0 where
  pub found : find_row lease_id token l.leases ≡ some row
  pub owned : row.owner ≡ o
  pub live : is_revoked row.generation ≡ false
  pub newest : reject_superseded o row l ≡ ok tt
  pub fits : size ≤ size_limit m row
  pub fresh : exists_where (λ x. session_id x == document) l.sessions ≡ false
  pub result : l' ≡ record l {
    sessions = l.sessions ++ promoted h document o size (with_reservation row token m) ∷ [];
    leases = update_row lease_id token finish_upload l.leases;
  }

reject_superseded-live :
    (o : ℕ) (row : Lease) (l : Ledger)
    → reject_superseded o row l ≡ ok tt
    → is_revoked row.generation ≡ false
unfolding reject_superseded
reject_superseded-live o row l e = ground arith

find_owned-found :
    (token o : ℕ) (ls : List Lease) (row : Lease)
    → find_owned token o ls ≡ some row
    → (find_row lease_id token ls ≡ some row) × (row.owner ≡ o)
find_owned-found token o ls row e = ground arith

pub promote-checked :
    (h : Host) (token o document size : ℕ) (m : Meta) (l l' : Ledger)
    → promote h true token o document size m l ≡ ok l'
    → (row : Lease) × Promotion h token o document size m l l' row
unfolding promote
promote-checked h token o document size m l l' e =
    elim (Option-cases (find_owned token o l.leases)) [
      | inl gone ↦ absurd (ground arith)
      | inr (row, f) ↦
          let newest : reject_superseded o row l ≡ ok tt = ground arith in
          (
            row,
            record {
              found = (find_owned-found token o l.leases row f).0;
              owned = (find_owned-found token o l.leases row f).1;
              live = reject_superseded-live o row l newest;
              newest = newest;
              fits = ground arith;
              fresh = ground arith;
              result = ground arith;
            },
          )
    ]

module _ (q : Quota) where
  pub set_parsing-charged :
      (p : Policy) (token : ℕ) (l l' : Ledger) (row : Lease)
      → ParserRoom p token l l' row
      → charged q l' + q.per_lease row ≡ charged q l + q.per_lease (set_parsing row)
  unfolding charged
  set_parsing-charged p token l l' row r =
      rw (r.result) (
        omega (arith, total-update_row lease_id q.per_lease token set_parsing l.leases row r.found))

  pub promote-charged :
      (h : Host) (token o document size : ℕ) (m : Meta) (l l' : Ledger) (row : Lease)
      → Promotion h token o document size m l l' row
      → charged q l' + q.per_lease row
        ≡ charged q l
          + q.per_session (promoted h document o size (with_reservation row token m))
          + q.per_lease (finish_upload row)
  unfolding charged
  promote-charged h token o document size m l l' row r = rw (r.result) (
      omega (
        arith,
        total-update_row lease_id q.per_lease token finish_upload l.leases row r.found,
        total-snoc q.per_session l.sessions
            (promoted h document o size (with_reservation row token m)),
      ))
