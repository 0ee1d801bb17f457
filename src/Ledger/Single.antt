-- ===== src/Ledger/Single.antt =====
-- complete_upload of app/projection_store.py and the active sessions of an owner.
pub mod Steps
pub mod Calls
use plt_converter.Prelude.{
  ℕ, ◌+◌, ◌≤◌, ◌≡◌, refl, Bool, true, false, List, [], ◌∷◌, ◌++◌, arith, ◌==◌, ◌&&◌, not, inl, inr,
  Bool-cases, total, count, one_if, update_where, update_row, exists_where, total-snoc,
  total-update_where-le, find_row,
}
use plt_converter.Ledger.Rows.{Session, Lease, Ledger, Host, Meta, session_id, Result-cases, ok}
use plt_converter.Ledger.Policy.{Policy}
use plt_converter.Ledger.Expiry.{expire, retire}
use plt_converter.Ledger.Sessions.{
  is_active_of, is_active_other, promoted, promote, retire_where, complete_upload,
}
use plt_converter.Ledger.Leases.{release_all}
use plt_converter.Ledger.Quota.{Quota, charged, IsLawful}
use plt_converter.Ledger.Quota.Upkeep.{expire-le, release_all-le}
use plt_converter.Ledger.Quota.Promotions.{with_reservation, Promotion, promote-checked}

-- The active sessions of an owner.
abbrev pub activity : ℕ → Quota
activity o = record { per_session = λ s. one_if (is_active_of o s); per_lease = λ r. 0 }

pub activity-IsLawful : (o : ℕ) → IsLawful (activity o)
activity-IsLawful o = record {
  reset = λ s e g m. omega arith;
  retired = λ s. ground arith;
  uncharged = λ c s. omega arith;
  revoked = λ r. omega arith;
  launched = λ r p i v b. omega arith;
}

-- Only the new session, which comes last, can be left active for the owner.
others_retired :
    (o document : ℕ) (new : Session) (ss : List Session)
    → exists_where (λ x. session_id x == document) ss ≡ false
    → count (is_active_of o) (update_where (is_active_other o document) retire (ss ++ new ∷ [])) ≤ 1
others_retired o document new [] fresh = ground arith
others_retired o document new (s ∷ ss) fresh = ground (arith, others_retired o document new ss)

retired-le :
    (x o document : ℕ) (ss : List Session)
    → count (is_active_of x) (update_where (is_active_other o document) retire ss)
      ≤ count (is_active_of x) ss
retired-le x o document ss =
    total-update_where-le (λ s. one_if (is_active_of x s)) (is_active_other o document) retire
      (λ s. ground arith) ss

promoted_single :
    (h : Host) (token o document size : ℕ) (m : Meta) (l l1 : Ledger) (row : Lease) (x : ℕ)
    → Promotion h token o document size m l l1 row
    → charged (activity x) l ≤ 1
    → count (is_active_of x) (update_where (is_active_other o document) retire l1.sessions) ≤ 1
unfolding charged
promoted_single h token o document size m l l1 row x r b =
    let new = promoted h document o size (with_reservation row token m) in
    elim (Bool-cases (x == o)) [
      | inl same ↦
          let q : x ≡ o = ground arith in
          rw (r.result, q) (others_retired o document new l.sessions r.fresh)
      | inr other ↦ rw (r.result) (
          ground (
            arith,
            other,
            retired-le x o document (l.sessions ++ new ∷ []),
            total-snoc (λ s. one_if (is_active_of x s)) l.sessions new,
          ))
    ]

total-none : (rs : List Lease) → total (λ r. 0) rs ≡ 0
total-none [] = refl
total-none (r ∷ rs) = omega (arith, total-none rs)

retired_single :
    (h : Host) (current token o document size : ℕ) (m : Meta) (l l1 : Ledger) (row : Lease) (x : ℕ)
    → Promotion h token o document size m l l1 row
    → charged (activity x) l ≤ 1
    → charged (activity x) (retire_where h current (is_active_other o document) l1).ledger ≤ 1
unfolding charged retire_where
retired_single h current token o document size m l l1 row x r b =
    let l2 : Ledger = record l1 {
      sessions = update_where (is_active_other o document) retire l1.sessions;
    } in
    omega (
      arith,
      expire-le (activity x) (activity-IsLawful x) h current l2,
      promoted_single h token o document size m l l1 row x r b,
      total-none l1.leases,
    )

-- However many documents the owner had, the finished upload is the only one left.
pub complete_upload-single :
    (h : Host) (current token o document size : ℕ) (m : Meta) (l l' : Ledger) (dropped : List ℕ)
    (x : ℕ)
    → complete_upload h current token o document size m l ≡ ok (l', dropped)
    → charged (activity x) l ≤ 1
    → charged (activity x) l' ≤ 1
unfolding complete_upload
complete_upload-single h current token o document size m l l' dropped x e b =
    elim (Result-cases (promote h true token o document size m l)) [
      | inl (why, refused) ↦ absurd (ground arith)
      | inr (l1, done) ↦
          let (row, promotion) = promote-checked h token o document size m l l1 done in
          let r = retire_where h current (is_active_other o document) l1 in
          let final : l' ≡ release_all h current r.pending r.ledger = ground arith in
          rw final (
            omega (
              arith,
              release_all-le (activity x) (activity-IsLawful x) h current r.pending r.ledger,
              retired_single h current token o document size m l l1 row x promotion b,
            ))
    ]
