-- ===== src/Ledger/Rates/Windows.antt =====
-- The uploads of an owner within one minute.
use plt_converter.Prelude.{
  ℕ, ◌+◌, ◌*◌, ◌≤◌, ◌≡◌, refl, Bool, true, false, ◌&&◌, List, [], ◌∷◌, ◌==◌, arith, All, leb,
  Bool-cases, inl, inr, delete_where, one_if,
}
use plt_converter.Ledger.Policy.{Policy, second}
use plt_converter.Ledger.Rates.{
  Traffic, Meter, RateRow, Rated, one_token, window_tokens, put, find_rate, unexpired, rate,
}

pub record Call : Type 0 where
  pub traffic : Traffic
  pub now : ℕ
  pub who : ℕ
  pub ip : ℕ

abbrev pub is_uploading : Traffic → Bool
is_uploading Traffic.tile = false
is_uploading Traffic.upload = true

abbrev pub after : Rated → List RateRow → List RateRow
after (Rated.admitted rs) old = rs
after Rated.limiter_full old = old
after (Rated.too_fast n) old = old

abbrev pub is_admitted : Rated → Bool
is_admitted (Rated.admitted rs) = true
is_admitted Rated.limiter_full = false
is_admitted (Rated.too_fast n) = false

-- How many of the calls, made one after the other, are admitted uploads of the owner.
abbrev pub admitted_uploads : Policy → (Meter → ℕ) → ℕ → List RateRow → List Call → ℕ
admitted_uploads p digest who rs [] = 0
admitted_uploads p digest who rs (c ∷ cs) =
    let answer = rate p digest c.traffic c.now c.who c.ip rs in
    one_if (is_admitted answer && is_uploading c.traffic && c.who == who)
    + admitted_uploads p digest who (after answer rs) cs

abbrev pub Over {ℓ} : (List RateRow → Type ℓ) → Rated → Type ℓ
Over P (Rated.admitted rs) = P rs
Over P Rated.limiter_full = Unit
Over P (Rated.too_fast n) = Unit

module _ (k w limit : ℕ) where
  -- A row of the key that is of this minute lasts for another one and has no more than the limit.
  abbrev pub IsKept : RateRow → Type 0
  IsKept r =
      r.key ≡ k → r.updated ≡ w → (r.expires ≡ w + 120 * second) × (r.tokens ≤ limit * one_token)

  abbrev pub left : List RateRow → ℕ
  left rs = window_tokens w limit (find_rate k rs)

  pub delete_where-IsKept :
      (q : RateRow → Bool) (rs : List RateRow) → All IsKept rs → All IsKept (delete_where q rs)
  delete_where-IsKept q [] h = tt
  delete_where-IsKept q (r ∷ rs) h = elim (Bool-cases (q r)) [
    | inl out ↦ rw out (delete_where-IsKept q rs h.1)
    | inr stays ↦ rw stays (h.0, delete_where-IsKept q rs h.1)
  ]

  pub left-le : (rs : List RateRow) → All IsKept rs → left rs ≤ limit * one_token
  left-le [] h = omega arith
  left-le (r ∷ rs) h = elim (Bool-cases (r.key == k)) [
    | inr other ↦ rw other (left-le rs h.1)
    | inl own ↦ elim (Bool-cases (r.updated == w)) [
      | inl fresh ↦ rw (own, fresh) ((h.0 (ground arith) (ground arith)).1)
      | inr stale ↦ rw (own, stale) (omega arith)
    ]
  ]

  left-delete_other :
      (r : RateRow) (rs : List RateRow)
      → (r.key == k) ≡ false
      → left (delete_where (λ (q : RateRow). q.key == r.key) rs) ≡ left rs
  left-delete_other r [] h = refl
  left-delete_other r (q ∷ rs) h = elim (Bool-cases (q.key == r.key)) [
    | inl same ↦
        let other : (q.key == k) ≡ false = ground arith in
        rw (same, other) (left-delete_other r rs h)
    | inr apart ↦ elim (Bool-cases (q.key == k)) [
      | inl own ↦ rw (apart, own) refl
      | inr other ↦ rw (apart, other) (left-delete_other r rs h)
    ]
  ]

  pub left-put :
      (r : RateRow) (rs : List RateRow) → (r.key == k) ≡ false → left (put r rs) ≡ left rs
  left-put r rs h = rw h (left-delete_other r rs h)

  pub put-IsKept :
      (r : RateRow) (rs : List RateRow) → IsKept r → All IsKept rs → All IsKept (put r rs)
  put-IsKept r rs h hs = (h, delete_where-IsKept (λ (q : RateRow). q.key == r.key) rs hs)

  pub left-unexpired :
      (p : Policy) (digest : Meter → ℕ) (now : ℕ) (rs : List RateRow)
      → now ≤ w + 60 * second
      → All IsKept rs
      → left (unexpired p digest now rs) ≤ left rs
  left-unexpired p digest now [] soon h = omega arith
  left-unexpired p digest now (r ∷ rs) soon h = elim (Bool-cases (leb r.expires now)) [
    | inl out ↦ elim (Bool-cases (r.key == k)) [
      | inr other ↦ rw (out, other) (left-unexpired p digest now rs soon h.1)
      | inl own ↦ elim (Bool-cases (r.updated == w)) [
        | inl fresh ↦ let lasts = (h.0 (ground arith) (ground arith)).0 in absurd (ground arith)
        | inr stale ↦
            rw (out, own, stale)
              (left-le (unexpired p digest now rs)
                (delete_where-IsKept (λ (q : RateRow). leb q.expires now) rs h.1))
      ]
    ]
    | inr stays ↦ elim (Bool-cases (r.key == k)) [
      | inr other ↦ rw (stays, other) (left-unexpired p digest now rs soon h.1)
      | inl own ↦ rw (stays, own) (omega arith)
    ]
  ]
