-- ===== src/Ledger/Rates.antt =====
-- rate of ProjectionLedger in app/projection_store.py: how often an owner and an address may call.
use plt_converter.Prelude.{
  ℕ, ◌+◌, ◌-◌, ◌*◌, ◌/◌, min, max, Bool, true, false, ◌&&◌, Option, none, some, List, [], ◌∷◌, ◌++◌,
  ◌==◌, leb, ltb, if◌then◌else◌, length, first_where, delete_where,
}
use plt_converter.Ledger.Policy.{Policy, second, rate_rows}
pub mod Windows
pub mod Uploads
pub mod Minutes
pub mod Rows

pub data Traffic : Type 0 where
  tile upload : Traffic

-- What is metered: the text whose digest is the key of a row.
pub data Meter : Type 0 where
  owner : Traffic → ℕ → Meter
  address : ℕ → Meter

-- A row of the table `rates`; the tokens in millionths.
pub record RateRow : Type 0 where
  pub key : ℕ
  pub tokens : ℕ
  pub updated : ℕ
  pub expires : ℕ

pub record Meterage : Type 0 where
  pub meter : Meter
  pub rate : ℕ
  pub burst : ℕ

pub data Rated : Type 0 where
  admitted : List RateRow → Rated
  limiter_full : Rated
  too_fast : ℕ → Rated

abbrev pub one_token : ℕ
one_token = 1000000

-- The start of the minute.
unfoldable pub window : ℕ → ℕ
window now = now / (60 * second) * (60 * second)

abbrev pub meterages : Policy → Traffic → ℕ → ℕ → List Meterage
meterages p Traffic.tile who ip =
    record { meter = Meter.owner Traffic.tile who; rate = p.tile_rate; burst = p.tile_burst } ∷ []
meterages p Traffic.upload who ip =
    record {
      meter = Meter.owner Traffic.upload who;
      rate = p.upload_owner_rate;
      burst = p.upload_owner_rate;
    }
    ∷ record { meter = Meter.address ip; rate = p.upload_ip_rate; burst = p.upload_ip_rate }
    ∷ []

-- The tokens that are left, the seconds to wait, and the times of the new row.
pub record Balance : Type 0 where
  pub tokens : ℕ
  pub retry : ℕ
  pub updated : ℕ
  pub expires : ℕ

-- ceil(m / n)
abbrev pub ceil_div : ℕ → ℕ → ℕ
ceil_div m n = (m + n - 1) / n

abbrev pub window_tokens : ℕ → ℕ → Option RateRow → ℕ
window_tokens w burst none = burst * one_token
window_tokens w burst (some r) = if r.updated == w then r.tokens else burst * one_token

abbrev pub bucket_tokens : ℕ → Meterage → Option RateRow → ℕ
bucket_tokens now m none = m.burst * one_token
bucket_tokens now m (some r) = min (m.burst * one_token) (r.tokens + (now - r.updated) * m.rate)

abbrev pub balance : Traffic → ℕ → Meterage → Option RateRow → Balance
balance Traffic.upload now m row = record {
  tokens = window_tokens (window now) m.burst row;
  retry = max 1 (ceil_div (window now + 60 * second - now) second);
  updated = window now;
  expires = window now + 120 * second;
}
balance Traffic.tile now m row = record {
  tokens = bucket_tokens now m row;
  retry = max 1 (ceil_div (one_token - bucket_tokens now m row) (one_token * m.rate));
  updated = now;
  expires = now + 2 * second;
}

-- INSERT OR REPLACE INTO rates
abbrev pub put : RateRow → List RateRow → List RateRow
put r rs = r ∷ delete_where (λ (q : RateRow). q.key == r.key) rs

abbrev pub put_all : List RateRow → List RateRow → List RateRow
put_all [] rs = rs
put_all (u ∷ us) rs = put_all us (put u rs)

abbrev pub find_rate : ℕ → List RateRow → Option RateRow
find_rate k rs = first_where (λ (r : RateRow). r.key == k) rs

abbrev pub is_missing : Option RateRow → Bool
is_missing none = true
is_missing (some r) = false

abbrev pub spent : ℕ → Balance → RateRow
spent k b = record {
  key = k;
  tokens = b.tokens - one_token;
  updated = b.updated;
  expires = b.expires;
}

module _ (p : Policy) (digest : Meter → ℕ) where
  -- The loop over the meters, with the rows that are to be written.
  abbrev pub charge : Traffic → ℕ → List RateRow → List RateRow → List Meterage → Rated
  charge t now rs updates [] = Rated.admitted (put_all updates rs)
  charge t now rs updates (m ∷ ms) =
      let k = digest m.meter in
      let b = balance t now m (find_rate k rs) in
      if is_missing (find_rate k rs) && leb (rate_rows p) (length rs + length updates)
      then Rated.limiter_full
      else if ltb b.tokens one_token
      then Rated.too_fast b.retry
      else charge t now rs (updates ++ spent k b ∷ []) ms

  abbrev pub unexpired : ℕ → List RateRow → List RateRow
  unexpired now rs = delete_where (λ (r : RateRow). leb r.expires now) rs

  -- rate
  unfoldable pub rate : Traffic → ℕ → ℕ → ℕ → List RateRow → Rated
  rate t now who ip rs = charge t now (unexpired now rs) [] (meterages p t who ip)
