-- ===== src/Ledger/Rates/Rows.antt =====
-- The size of the limiter's table.
use plt_converter.Prelude.{
  ℕ, ◌+◌, ◌≤◌, ◌≡◌, refl, subst, Bool, false, ◌&&◌, List, [], ◌∷◌, ◌++◌, ◌==◌, arith, leb, ltb,
  Bool-cases, inl, inr, length, delete_where,
}
use plt_converter.Ledger.Policy.{Policy, rate_rows}
use plt_converter.Ledger.Rates.{
  Traffic, Meter, RateRow, Meterage, Rated, one_token, meterages, balance, put, put_all, find_rate,
  is_missing, spent, charge, unexpired, rate,
}
use plt_converter.Ledger.Rates.Windows.{Over}
use plt_converter.Ledger.Rates.Uploads.{put_all-snoc}

length-delete : (q : RateRow → Bool) (rs : List RateRow) → length (delete_where q rs) ≤ length rs
length-delete q [] = omega arith
length-delete q (r ∷ rs) = let n = length-delete q rs in ground (arith, n)

-- A row that replaces another.
length-put_found :
    (r : RateRow) (rs : List RateRow)
    → is_missing (find_rate r.key rs) ≡ false
    → length (put r rs) ≤ length rs
length-put_found r [] h = absurd (ground arith)
length-put_found r (q ∷ rs) h = elim (Bool-cases (q.key == r.key)) [
  | inl same ↦
      let n = length-delete (λ (x : RateRow). x.key == r.key) rs in rw same (omega (arith, n))
  | inr apart ↦ let n = length-put_found r rs (simp apart at h) in rw apart (omega (arith, n))
]

found-delete :
    (k : ℕ) (r : RateRow) (rs : List RateRow)
    → (r.key == k) ≡ false
    → is_missing (find_rate k rs) ≡ false
    → is_missing (find_rate k (delete_where (λ (x : RateRow). x.key == r.key) rs)) ≡ false
found-delete k r [] h f = f
found-delete k r (q ∷ rs) h f = elim (Bool-cases (q.key == r.key)) [
  | inl same ↦
      let other : (q.key == k) ≡ false = ground arith in
      rw same (found-delete k r rs h (simp other at f))
  | inr apart ↦ elim (Bool-cases (q.key == k)) [
    | inl own ↦ rw (apart, own) refl
    | inr other ↦ rw (apart, other) (found-delete k r rs h (simp other at f))
  ]
]

found-put :
    (k : ℕ) (r : RateRow) (rs : List RateRow)
    → is_missing (find_rate k rs) ≡ false
    → is_missing (find_rate k (put r rs)) ≡ false
found-put k r rs f = elim (Bool-cases (r.key == k)) [
  | inl own ↦ rw own refl
  | inr other ↦ rw other (found-delete k r rs other f)
]

found-put_all :
    (k : ℕ) (us rs : List RateRow)
    → is_missing (find_rate k rs) ≡ false
    → is_missing (find_rate k (put_all us rs)) ≡ false
found-put_all k [] rs f = f
found-put_all k (u ∷ us) rs f = found-put_all k us (put u rs) (found-put k u rs f)

length-put : (r : RateRow) (rs : List RateRow) → length (put r rs) ≤ length rs + 1
length-put r rs = let n = length-delete (λ (x : RateRow). x.key == r.key) rs in omega (arith, n)

length-snoc : (us : List RateRow) (r : RateRow) → length (us ++ r ∷ []) ≡ length us + 1
length-snoc [] r = refl
length-snoc (u ∷ us) r = let n = length-snoc us r in omega (arith, n)

module _ (p : Policy) (digest : Meter → ℕ) where
  charge-length :
      (t : Traffic) (now : ℕ) (rs updates : List RateRow) (ms : List Meterage)
      → length (put_all updates rs) ≤ rate_rows p
      → length (put_all updates rs) ≤ length rs + length updates
      → Over (λ new. length new ≤ rate_rows p) (charge p digest t now rs updates ms)
  charge-length t now rs updates [] h g = h
  charge-length t now rs updates (m ∷ ms) h g =
      let k = digest m.meter in
      let r = spent k (balance t now m (find_rate k rs)) in
      let more : length (put_all (updates ++ r ∷ []) rs) ≤ length (put_all updates rs) + 1 =
        rw (put_all-snoc updates r rs) (length-put r (put_all updates rs)) in
      let n = length-snoc updates r in
      elim (Bool-cases
        (is_missing (find_rate k rs) && leb (rate_rows p) (length rs + length updates))) [
          | inl full ↦ rw full tt
          | inr room ↦ elim (Bool-cases (ltb (balance t now m (find_rate k rs)).tokens one_token)) [
            | inl empty ↦ rw (room, empty) tt
            | inr some_left ↦
                rw (room, some_left)
                  (charge-length t now rs (updates ++ r ∷ []) ms
                    (elim (Bool-cases (is_missing (find_rate k rs))) [
                      | inl missing ↦
                          let less : (leb (rate_rows p) (length rs + length updates)) ≡ false =
                            simp missing at room in
                          ground (arith, more, g)
                      | inr found ↦
                          let same =
                            length-put_found r (put_all updates rs)
                              (found-put_all k updates rs found) in
                          rw (put_all-snoc updates r rs) (omega (arith, same, h))
                    ])
                    (omega (arith, more, g, n)))
          ]
        ]

  -- From a table within rate_rows rows, a call that is admitted leaves one within them.
  pub rate-length :
      (t : Traffic) (now caller ip : ℕ) (rs new : List RateRow)
      → length rs ≤ rate_rows p
      → rate p digest t now caller ip rs ≡ Rated.admitted new
      → length new ≤ rate_rows p
  unfolding rate
  rate-length t now caller ip rs new h e =
      let n = length-delete (λ (r : RateRow). leb r.expires now) rs in
      subst (Over (λ new. length new ≤ rate_rows p)) e (
        charge-length t now (unexpired p digest now rs) [] (meterages p t caller ip)
          (omega (arith, n, h)) (omega arith))
