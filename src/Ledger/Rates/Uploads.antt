-- ===== src/Ledger/Rates/Uploads.antt =====
-- The charges on other keys than an owner's.
use plt_converter.Prelude.{
  ℕ, ◌+◌, ◌≡◌, ◌∙◌, sym, ap, refl, subst, false, ◌&&◌, List, [], ◌∷◌, ◌++◌, ◌==◌, arith, All, leb,
  ltb, Bool-cases, inl, inr, length,
}
use plt_converter.Ledger.Policy.{Policy, rate_rows}
use plt_converter.Ledger.Rates.{
  Traffic, Meter, RateRow, Meterage, Rated, one_token, balance, put, put_all, find_rate, is_missing,
  spent, charge,
}
use plt_converter.Ledger.Rates.Windows.{Over, IsKept, left, left-put, put-IsKept}

pub put_all-snoc :
    (us : List RateRow) (r : RateRow) (rs : List RateRow)
    → put_all (us ++ r ∷ []) rs ≡ put r (put_all us rs)
put_all-snoc [] r rs = refl
put_all-snoc (u ∷ us) r rs = put_all-snoc us r (put u rs)

pub Over-imp {ℓ κ} :
    (P : List RateRow → Type ℓ) (Q : List RateRow → Type κ) (a : Rated)
    → ((rs : List RateRow) → P rs → Q rs)
    → Over P a
    → Over Q a
Over-imp P Q (Rated.admitted rs) f h = f rs h
Over-imp P Q Rated.limiter_full f h = tt
Over-imp P Q (Rated.too_fast n) f h = tt

module _ (p : Policy) (digest : Meter → ℕ) (k w limit : ℕ) where
  -- The rows of other keys leave the owner's tokens alone.
  pub charge-left :
      (t : Traffic) (now : ℕ) (rs updates : List RateRow) (ms : List Meterage)
      → All (λ (m : Meterage). (digest m.meter == k) ≡ false) ms
      → All (IsKept k w limit) (put_all updates rs)
      → Over
          (λ new.
            (left k w limit new ≡ left k w limit (put_all updates rs)) × All (IsKept k w limit) new)
          (charge p digest t now rs updates ms)
  charge-left t now rs updates [] f h = (refl, h)
  charge-left t now rs updates (m ∷ ms) f h =
      let b = balance t now m (find_rate (digest m.meter) rs) in
      let r = spent (digest m.meter) b in
      let same = put_all-snoc updates r rs in
      let kept : IsKept k w limit r = λ e _. absurd (ground arith) in
      elim (Bool-cases (
        is_missing (find_rate (digest m.meter) rs)
        && leb (rate_rows p) (length rs + length updates))) [
          | inl full ↦ rw full tt
          | inr room ↦ elim (Bool-cases (ltb b.tokens one_token)) [
            | inl empty ↦ rw (room, empty) tt
            | inr some_left ↦
                rw (room, some_left)
                  (Over-imp
                    (λ new.
                      (left k w limit new ≡ left k w limit (put_all (updates ++ r ∷ []) rs))
                      × All (IsKept k w limit) new)
                    _ (charge p digest t now rs (updates ++ r ∷ []) ms)
                    (λ new e. (
                      e.0
                          ∙ ap (left k w limit) same
                          ∙ left-put k w limit r (put_all updates rs) f.0,
                      e.1,
                    ))
                    (charge-left t now rs (updates ++ r ∷ []) ms f.1 (
                      subst (All (IsKept k w limit)) (sym same)
                        (put-IsKept k w limit r (put_all updates rs) kept h))))
          ]
        ]
