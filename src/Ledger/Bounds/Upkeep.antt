-- ===== src/Ledger/Bounds/Upkeep.antt =====
-- _expire, claim, attach, revoke, release, renew, delete and delete_all of app/projection_store.py
-- under the limits.
use plt_converter.Prelude.{
  ℕ, ◌≡◌, Bool, List, [], ◌∷◌, arith, All, inl, inr, Option-cases, Bool-cases, find_row, update_row,
  update_where, delete_row, All-update_row, All-delete_row,
}
use plt_converter.Ledger.Rows.{Lease, Session, Ledger, Host, is_upload, session_id, lease_id, ok}
use plt_converter.Ledger.Policy.{Policy}
use plt_converter.Ledger.Process.{process_alive}
use plt_converter.Ledger.Expiry.{retire, expire}
use plt_converter.Ledger.Admission.{select_session, revoke_lease}
use plt_converter.Ledger.Leases.{
  revoke_operation, set_claimed, set_process, claim, attach, revoke, release, release_all,
}
use plt_converter.Ledger.Sessions.{
  idle_leases, is_active_of, retire_where, renew, delete, delete_all,
}
use plt_converter.Ledger.Keys.{
  expire-HasKeys, claim-HasKeys, attach-HasKeys, revoke-HasKeys, release-HasKeys, renew-HasKeys,
  retire_where-HasKeys, delete-HasKeys,
}
use plt_converter.Ledger.Quota.Upkeep.{
  expire-le, claim-le, attach-le, revoke-le, release-le, renew-le, retire_where-le, delete-le,
}
use plt_converter.Ledger.Bounds.{IsFunded, IsBounded, IsBounded-shrink, leases-expire}

abbrev pub Funded : Ledger → Type 0
Funded l = All IsFunded l.leases

pub expire-Funded : (h : Host) (current : ℕ) (l : Ledger) → Funded l → Funded (expire h current l)
expire-Funded h current l f = rw leases-expire f

pub revoke_lease-IsFunded : (r : Lease) → IsFunded r → IsFunded (revoke_lease r)
revoke_lease-IsFunded r f = f

revoke_operation-IsFunded : (r : Lease) → IsFunded r → IsFunded (revoke_operation r)
revoke_operation-IsFunded r f = elim (Bool-cases (is_upload r.kind)) [
  | inl u ↦ rw (u, revoke_operation) f
  | inr u ↦ rw (u, revoke_operation) f
]

release-Funded :
    (h : Host) (current token : ℕ) (l : Ledger) → Funded l → Funded (release h current token l)
unfolding release
release-Funded h current token l f = elim (Option-cases (find_row lease_id token l.leases)) [
  | inl gone ↦ rw (gone, release) f
  | inr (row, found) ↦ elim (Bool-cases (process_alive h row.pid row.identity)) [
    | inl alive ↦ rw (found, alive, release) f
    | inr dead ↦
        rw (found, dead, release)
          (expire-Funded h current (record l { leases = delete_row lease_id token l.leases })
            (All-delete_row IsFunded lease_id token l.leases f))
  ]
]

release_all-Funded :
    (h : Host) (current : ℕ) (ts : List ℕ) (l : Ledger)
    → Funded l
    → Funded (release_all h current ts l)
unfolding release_all
release_all-Funded h current [] l f = f
release_all-Funded h current (t ∷ ts) l f =
    release_all-Funded h current ts (release h current t l) (release-Funded h current t l f)

pub expire-IsBounded :
    (h : Host) (p : Policy) (current : ℕ) (l : Ledger)
    → IsBounded p l
    → IsBounded p (expire h current l)
expire-IsBounded h p current l b =
    IsBounded-shrink p l (expire h current l) (expire-HasKeys h current l b.keys)
      (expire-Funded h current l b.funded) (λ q w. expire-le q w h current l) b

claim_result :
    (h : Host) (token : ℕ) (l l' : Ledger)
    → claim h token l ≡ ok l'
    → l' ≡ record l { leases = update_row lease_id token (set_claimed h) l.leases }
unfolding claim
claim_result h token l l' e = ground arith

pub claim-IsBounded :
    (h : Host) (p : Policy) (token : ℕ) (l l' : Ledger)
    → IsBounded p l
    → claim h token l ≡ ok l'
    → IsBounded p l'
claim-IsBounded h p token l l' b e =
    IsBounded-shrink p l l' (claim-HasKeys h token l l' b.keys e)
      (rw (claim_result h token l l' e)
        (All-update_row IsFunded lease_id token (set_claimed h) (λ r f. f) l.leases b.funded))
      (λ q w. claim-le q w h token l l' e) b

pub attach-IsBounded :
    (h : Host) (p : Policy) (token pid : ℕ) (l : Ledger)
    → IsBounded p l
    → IsBounded p (attach h token pid l)
unfolding attach
attach-IsBounded h p token pid l b =
    IsBounded-shrink p l (attach h token pid l) (attach-HasKeys h token pid l b.keys)
      (All-update_row IsFunded lease_id token (set_process h pid) (λ r f. f) l.leases b.funded)
      (λ q w. attach-le q w h token pid l) b

pub revoke-IsBounded :
    (p : Policy) (token : ℕ) (l : Ledger) → IsBounded p l → IsBounded p (revoke token l)
unfolding revoke
revoke-IsBounded p token l b =
    IsBounded-shrink p l (revoke token l) (revoke-HasKeys token l b.keys)
      (All-update_row IsFunded lease_id token revoke_operation revoke_operation-IsFunded l.leases
        b.funded)
      (λ q w. revoke-le q w token l) b

pub release-IsBounded :
    (h : Host) (p : Policy) (current token : ℕ) (l : Ledger)
    → IsBounded p l
    → IsBounded p (release h current token l)
release-IsBounded h p current token l b =
    IsBounded-shrink p l (release h current token l) (release-HasKeys h current token l b.keys)
      (release-Funded h current token l b.funded) (λ q w. release-le q w h current token l) b

pub release_all-IsBounded :
    (h : Host) (p : Policy) (current : ℕ) (ts : List ℕ) (l : Ledger)
    → IsBounded p l
    → IsBounded p (release_all h current ts l)
unfolding release_all
release_all-IsBounded h p current [] l b = b
release_all-IsBounded h p current (t ∷ ts) l b =
    release_all-IsBounded h p current ts (release h current t l)
      (release-IsBounded h p current t l b)

renew-Funded :
    (h : Host) (current document o : ℕ) (l : Ledger)
    → Funded l
    → Funded (renew h current document o l).1
unfolding renew
renew-Funded h current document o l f =
    elim (Option-cases (select_session document o (expire h current l))) [
      | inl gone ↦ rw (gone, renew) (expire-Funded h current l f)
      | inr (row, found) ↦ rw (found, renew) (expire-Funded h current l f)
    ]

pub renew-IsBounded :
    (h : Host) (p : Policy) (current document o : ℕ) (l : Ledger)
    → IsBounded p l
    → IsBounded p (renew h current document o l).1
renew-IsBounded h p current document o l b =
    IsBounded-shrink p l (renew h current document o l).1
      (renew-HasKeys h current document o l b.keys) (renew-Funded h current document o l b.funded)
      (λ q w. renew-le q w h current document o l) b

delete-Funded :
    (h : Host) (current document o : ℕ) (l : Ledger)
    → Funded l
    → Funded (delete h current document o l).1
unfolding delete
delete-Funded h current document o l f =
    let l1 = expire h current l in
    elim (Option-cases (select_session document o l1)) [
      | inl gone ↦ rw (gone, delete) (expire-Funded h current l f)
      | inr (row, found) ↦
          rw (found, delete)
            (release_all-Funded h current (idle_leases document l1) _ (
              expire-Funded h current
                (record l1 { sessions = update_row session_id document retire l1.sessions })
                (expire-Funded h current l f)))
    ]

pub delete-IsBounded :
    (h : Host) (p : Policy) (current document o : ℕ) (l : Ledger)
    → IsBounded p l
    → IsBounded p (delete h current document o l).1
delete-IsBounded h p current document o l b =
    IsBounded-shrink p l (delete h current document o l).1
      (delete-HasKeys h current document o l b.keys) (delete-Funded h current document o l b.funded)
      (λ q w. delete-le q w h current document o l) b

retire_where-Funded :
    (h : Host) (current : ℕ) (which : Session → Bool) (l : Ledger)
    → Funded l
    → Funded (retire_where h current which l).ledger
unfolding retire_where
retire_where-Funded h current which l f =
    expire-Funded h current (record l { sessions = update_where which retire l.sessions }) f

pub retire_where-IsBounded :
    (h : Host) (p : Policy) (current : ℕ) (which : Session → Bool) (l : Ledger)
    → IsBounded p l
    → IsBounded p (retire_where h current which l).ledger
retire_where-IsBounded h p current which l b =
    IsBounded-shrink p l (retire_where h current which l).ledger
      (retire_where-HasKeys h current which l b.keys)
      (retire_where-Funded h current which l b.funded)
      (λ q w. retire_where-le q w h current which l) b

pub delete_all-IsBounded :
    (h : Host) (p : Policy) (current o : ℕ) (l : Ledger)
    → IsBounded p l
    → IsBounded p (delete_all h current o l).1
unfolding delete_all
delete_all-IsBounded h p current o l b =
    release_all-IsBounded h p current _ _
      (retire_where-IsBounded h p current (is_active_of o) _ (expire-IsBounded h p current l b))
