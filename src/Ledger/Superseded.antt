-- ===== src/Ledger/Superseded.antt =====
-- reserve of app/projection_store.py and the uploads that a new one of their owner replaces.
use plt_converter.Prelude.{
  ℕ, ◌≡◌, ◌≢◌, refl, Bool, true, some, List, [], ◌∷◌, arith, inl, inr, Bool-cases, update_where,
  find_row, find_row-key, All, All-find_row,
}
use plt_converter.Ledger.Rows.{
  is_uploading, is_revoked, Lease, Ledger, Host, Meta, Code, Rejected, rejected, lease_id, ok, err,
}
use plt_converter.Ledger.Policy.{Policy}
use plt_converter.Ledger.Expiry.{expire}
use plt_converter.Ledger.Admission.{
  is_other_upload, revoke_lease, with_lease, reserve_upload, derive_for, reserve_derived,
}
use plt_converter.Ledger.Leases.{Turn, parse_turn}
use plt_converter.Ledger.Sessions.{reject_superseded, promote, complete_upload}
use plt_converter.Ledger.Quota.Reservations.{upload_lease, reserve_upload-checked}

abbrev IsMarked : ℕ → ℕ → Lease → Type 0
IsMarked o token r = is_other_upload o token r ≡ true → is_revoked r.generation ≡ true

All-IsMarked :
    (o token : ℕ) (rs : List Lease)
    → All (IsMarked o token) (update_where (is_other_upload o token) revoke_lease rs)
All-IsMarked o token [] = tt
All-IsMarked o token (r ∷ rs) = elim (Bool-cases (is_other_upload o token r)) [
  | inl older ↦ rw older ((λ h. refl), All-IsMarked o token rs)
  | inr other ↦ rw other ((λ h. absurd (ground arith)), All-IsMarked o token rs)
]

abbrev pub superseded : Rejected
superseded = rejected Code.upload_superseded 409 0

module _ (h : Host) (p : Policy) (current token o other : ℕ) (l l' : Ledger) (row : Lease)
    (done : reserve_upload h p current token o l ≡ ok l')
    (found : find_row lease_id other l'.leases ≡ some row) (owned : row.owner ≡ o)
    (uploading : is_uploading row.kind ≡ true) (distinct : other ≢ token) where
  row_revoked : is_revoked row.generation ≡ true
  row_revoked =
      let (admit, room, final, fresh) = reserve_upload-checked h p current token o l l' done in
      let marked : All (IsMarked o token) l'.leases =
        rw final (
          All-IsMarked o token (with_lease (upload_lease h token o) (expire h current l)).leases) in
      let same : row.id ≡ other = find_row-key lease_id other l'.leases row found in
      All-find_row (IsMarked o token) lease_id other l'.leases row marked found (ground arith)

  -- Once a reservation of the same owner is granted, an upload that was in flight is refused at
  -- every later turn on that ledger: for a parser, however long it waited; for a derived budget;
  -- and for its session, whatever it uploaded.
  pub reserve_upload-supersedes :
      ((late : Bool) → parse_turn p late other l' ≡ Turn.refused superseded)
      × ((h2 : Host) (l2 : Ledger) → reserve_derived h2 p other l' ≢ ok l2)
      × ((h2 : Host) (current2 document size : ℕ) (m : Meta)
          → complete_upload h2 current2 other o document size m l' ≡ err superseded)
  unfolding parse_turn reserve_derived derive_for complete_upload promote reject_superseded
  reserve_upload-supersedes = (
    λ late. ground (arith, row_revoked, found),
    λ h2 l2 granted. ground (arith, row_revoked, found, granted),
    λ h2 current2 document size m. ground (arith, row_revoked, found, owned),
  )
