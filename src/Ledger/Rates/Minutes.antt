-- ===== src/Ledger/Rates/Minutes.antt =====
-- What rate admits of an owner's uploads within one minute.
use plt_converter.Prelude.{
  ℕ, ◌+◌, ◌-◌, ◌*◌, ◌≤◌, ◌≡◌, sym, refl, subst, true, false, ◌&&◌, List, [], ◌∷◌, ◌==◌, arith, All,
  leb, ltb, Bool-cases, inl, inr, length, one_if,
}
use plt_converter.Ledger.Policy.{Policy, second, rate_rows}
use plt_converter.Ledger.Rates.{
  Traffic, Meter, RateRow, Meterage, Rated, one_token, window, meterages, balance, put, find_rate,
  is_missing, spent, charge, unexpired, rate,
}
use plt_converter.Ledger.Rates.Windows.{
  Call, is_uploading, after, is_admitted, admitted_uploads, Over, IsKept, left, left-le, put-IsKept,
  left-unexpired, delete_where-IsKept,
}
use plt_converter.Ledger.Rates.Uploads.{Over-imp, charge-left}

-- The digests of different texts differ.
abbrev pub IsInjective : (Meter → ℕ) → Type 0
IsInjective digest = (m n : Meter) → digest m ≡ digest n → m ≡ n

module _ (p : Policy) (digest : Meter → ℕ) (who w : ℕ) (injective : IsInjective digest) where
  abbrev own : ℕ
  own = digest (Meter.owner Traffic.upload who)

  abbrev Stays : List RateRow → Type 0
  Stays rs = All (IsKept own w p.upload_owner_rate) rs

  abbrev rest : List RateRow → ℕ
  rest rs = left own w p.upload_owner_rate rs

  foreign : (m : Meter) → (m ≡ Meter.owner Traffic.upload who → ⊥) → (digest m == own) ≡ false
  foreign m h = elim (Bool-cases (digest m == own)) [
    | inr other ↦ other
    | inl same ↦ absurd (h (injective m (Meter.owner Traffic.upload who) (ground arith)))
  ]

  -- The owner's own upload takes a token.
  upload-left :
      (now ip : ℕ) (rs : List RateRow)
      → window now ≡ w
      → Stays rs
      → Over
          (λ new. (one_token + rest new ≤ rest rs) × Stays new)
          (charge p digest Traffic.upload now rs [] (meterages p Traffic.upload who ip))
  upload-left now ip rs e h =
      let m : Meterage = record {
        meter = Meter.owner Traffic.upload who;
        rate = p.upload_owner_rate;
        burst = p.upload_owner_rate;
      } in
      let n : Meterage = record {
        meter = Meter.address ip;
        rate = p.upload_ip_rate;
        burst = p.upload_ip_rate;
      } in
      let b = balance Traffic.upload now m (find_rate own rs) in
      let r = spent own b in
      let bound = left-le own w p.upload_owner_rate rs h in
      let tokens : b.tokens ≡ rest rs = rw e refl in
      let kept : IsKept own w p.upload_owner_rate r =
        λ _ _. (rw e refl, omega (arith, tokens, bound)) in
      let mine : (own == own) ≡ true = ground arith in
      let put_left : rest (put r rs) ≡ b.tokens - one_token = rw (mine, e) (ground arith) in
      elim (Bool-cases (is_missing (find_rate own rs) && leb (rate_rows p) (length rs + 0))) [
        | inl full ↦ rw full tt
        | inr room ↦ elim (Bool-cases (ltb b.tokens one_token)) [
          | inl empty ↦ rw (room, empty) tt
          | inr some_left ↦
              rw (room, some_left)
                (Over-imp (λ new. (rest new ≡ rest (put r rs)) × Stays new) _
                  (charge p digest Traffic.upload now rs (r ∷ []) (n ∷ []))
                  (λ new g.
                    let same = g.0 in
                    let enough : one_token ≤ b.tokens = ground arith in
                    (omega (arith, same, put_left, tokens, enough), g.1))
                  (charge-left p digest own w p.upload_owner_rate Traffic.upload now rs (r ∷ [])
                    (n ∷ []) (foreign (Meter.address ip) (λ a. ground arith), tt)
                    (put-IsKept own w p.upload_owner_rate r rs kept h)))
        ]
      ]

  soon : (now : ℕ) → window now ≡ w → now ≤ w + 60 * second
  unfolding window
  soon now e = omega (arith, e)

  -- A call that does not upload for the owner.
  others :
      (t : Traffic) (now caller ip : ℕ) (rs : List RateRow) (n : ℕ)
      → n ≡ 0
      → rest (unexpired p digest now rs) ≤ rest rs
      → Stays (unexpired p digest now rs)
      → All (λ (m : Meterage). (digest m.meter == own) ≡ false) (meterages p t caller ip)
      → Over
          (λ new. (n * one_token + rest new ≤ rest rs) × Stays new)
          (charge p digest t now (unexpired p digest now rs) [] (meterages p t caller ip))
  others t now caller ip rs n z fewer kept f =
      Over-imp (λ new. (rest new ≡ rest (unexpired p digest now rs)) × Stays new) _
        (charge p digest t now (unexpired p digest now rs) [] (meterages p t caller ip))
        (λ new g. let s = g.0 in (omega (arith, s, z, fewer), g.1))
        (charge-left p digest own w p.upload_owner_rate t now (unexpired p digest now rs) []
          (meterages p t caller ip) f kept)

  own_upload :
      (now ip : ℕ) (rs : List RateRow)
      → window now ≡ w
      → rest (unexpired p digest now rs) ≤ rest rs
      → Stays (unexpired p digest now rs)
      → Over
          (λ new. (one_if (who == who) * one_token + rest new ≤ rest rs) × Stays new)
          (charge p digest Traffic.upload now
            (unexpired p digest now rs)
            []
            (meterages p Traffic.upload who ip))
  own_upload now ip rs e fewer kept =
      let same : (who == who) ≡ true = ground arith in
      Over-imp (λ new. (one_token + rest new ≤ rest (unexpired p digest now rs)) × Stays new)
        (λ new. (one_if (who == who) * one_token + rest new ≤ rest rs) × Stays new)
        (charge p digest Traffic.upload now (unexpired p digest now rs) []
          (meterages p Traffic.upload who ip))
        (λ new g. let n = g.0 in (rw same (omega (arith, n, fewer)), g.1))
        (upload-left now ip (unexpired p digest now rs) e kept)

  -- A call of this minute.
  rate-left :
      (t : Traffic) (now caller ip : ℕ) (rs : List RateRow)
      → window now ≡ w
      → Stays rs
      → Over
          (λ new.
            (one_if (is_uploading t && caller == who) * one_token + rest new ≤ rest rs) × Stays new)
          (rate p digest t now caller ip rs)
  unfolding rate
  rate-left t now caller ip rs e h =
      let kept =
        delete_where-IsKept own w p.upload_owner_rate (λ (r : RateRow). leb r.expires now) rs h in
      let fewer = left-unexpired own w p.upload_owner_rate p digest now rs (soon now e) h in
      elim t
        as (λ t.
          Over
            (λ new.
              (one_if (is_uploading t && caller == who) * one_token + rest new ≤ rest rs)
              × Stays new)
            (charge p digest t now (unexpired p digest now rs) [] (meterages p t caller ip))) [
              | Traffic.tile ↦
                  others Traffic.tile now caller ip rs 0 (omega arith) fewer kept
                    (foreign (Meter.owner Traffic.tile caller) (λ a. ground arith), tt)
              | Traffic.upload ↦ elim (Bool-cases (caller == who)) [
                | inr other ↦ rw other (
                    others Traffic.upload now caller ip rs 0 (omega arith) fewer kept (
                      foreign (Meter.owner Traffic.upload caller) (λ a. ground arith),
                      (foreign (Meter.address ip) (λ a. ground arith), tt),
                    ))
                | inl same ↦
                    let equal : caller ≡ who = ground arith in
                    subst
                      (λ x.
                        Over
                          (λ new. (one_if (x == who) * one_token + rest new ≤ rest rs) × Stays new)
                          (charge p digest Traffic.upload now (unexpired p digest now rs) []
                            (meterages p Traffic.upload x ip)))
                      (sym equal) (own_upload now ip rs e fewer kept)
              ]
            ]

  spend-le :
      (rs : List RateRow) (cs : List Call)
      → All (λ (c : Call). window c.now ≡ w) cs
      → Stays rs
      → admitted_uploads p digest who rs cs * one_token ≤ rest rs
  spend-le rs [] e h = omega arith
  spend-le rs (c ∷ cs) e h =
      next (rate p digest c.traffic c.now c.who c.ip rs)
        (rate-left c.traffic c.now c.who c.ip rs e.0 h) (λ new k. spend-le new cs e.1 k)
        (spend-le rs cs e.1 h)
    where
      next :
          (a : Rated)
          → Over
              (λ new.
                (one_if (is_uploading c.traffic && c.who == who) * one_token + rest new ≤ rest rs)
                × Stays new)
              a
          → ((new : List RateRow)
              → Stays new
              → admitted_uploads p digest who new cs * one_token ≤ rest new)
          → admitted_uploads p digest who rs cs * one_token ≤ rest rs
          → (one_if (is_admitted a && is_uploading c.traffic && c.who == who)
                + admitted_uploads p digest who (after a rs) cs)
              * one_token
            ≤ rest rs
      next (Rated.admitted new) g f h0 = let a = g.0 in let b = f new g.1 in omega (arith, a, b)
      next Rated.limiter_full g f h0 = omega (arith, h0)
      next (Rated.too_fast n) g f h0 = omega (arith, h0)

  -- Where digests of different texts differ: of any sequence of calls within one minute, uploads and
  -- tiles of all owners, at most upload_owner_rate uploads of one owner are admitted, from any table
  -- whose rows of this owner and minute last for another minute and have no more than that rate.
  pub admitted_uploads-le :
      (rs : List RateRow) (cs : List Call)
      → All (λ (c : Call). window c.now ≡ w) cs
      → All (IsKept (digest (Meter.owner Traffic.upload who)) w p.upload_owner_rate) rs
      → admitted_uploads p digest who rs cs ≤ p.upload_owner_rate
  admitted_uploads-le rs cs e h =
      let a = spend-le rs cs e h in
      let b = left-le own w p.upload_owner_rate rs h in omega (arith, a, b)
