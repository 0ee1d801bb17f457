-- ===== src/Ledger/Tests/Rates.antt =====
-- Calls of two owners within a minute.
use plt_converter.Prelude.{ℕ, ◌+◌, ◌*◌, ◌≤◌, ◌≡◌, ap, refl, arith, List, [], ◌∷◌, length}
use plt_converter.Ledger.Tests.{small}
use plt_converter.Ledger.Policy.{second, rate_rows, db_bytes}
use plt_converter.Ledger.Rates.{Traffic, Meter, RateRow, Rated, window, rate}
use plt_converter.Ledger.Rates.Windows.{Call, admitted_uploads}
use plt_converter.Ledger.Rates.Rows.{rate-length}
use plt_converter.Ledger.Rates.Minutes.{IsInjective, admitted_uploads-le}

abbrev numbered : Meter → ℕ
numbered (Meter.owner Traffic.tile n) = 3 * n
numbered (Meter.owner Traffic.upload n) = 3 * n + 1
numbered (Meter.address n) = 3 * n + 2

numbered-IsInjective : IsInjective numbered
numbered-IsInjective (Meter.owner Traffic.tile m) (Meter.owner Traffic.tile n) e =
    ap (λ k. Meter.owner Traffic.tile k) (omega (arith, e))
numbered-IsInjective (Meter.owner Traffic.tile m) (Meter.owner Traffic.upload n) e =
    absurd (omega (arith, e))
numbered-IsInjective (Meter.owner Traffic.tile m) (Meter.address n) e = absurd (omega (arith, e))
numbered-IsInjective (Meter.owner Traffic.upload m) (Meter.owner Traffic.tile n) e =
    absurd (omega (arith, e))
numbered-IsInjective (Meter.owner Traffic.upload m) (Meter.owner Traffic.upload n) e =
    ap (λ k. Meter.owner Traffic.upload k) (omega (arith, e))
numbered-IsInjective (Meter.owner Traffic.upload m) (Meter.address n) e = absurd (omega (arith, e))
numbered-IsInjective (Meter.address m) (Meter.owner Traffic.tile n) e = absurd (omega (arith, e))
numbered-IsInjective (Meter.address m) (Meter.owner Traffic.upload n) e = absurd (omega (arith, e))
numbered-IsInjective (Meter.address m) (Meter.address n) e =
    ap (λ k. Meter.address k) (omega (arith, e))

abbrev call : Traffic → ℕ → ℕ → Call
call t who seconds = record { traffic = t; now = seconds * second; who = who; ip = 9 }

abbrev calls : List Call
calls =
    call Traffic.upload 4 61
    ∷ call Traffic.tile 4 62
    ∷ call Traffic.upload 5 63
    ∷ call Traffic.upload 4 119
    ∷ []

two_uploads : admitted_uploads small numbered 4 [] calls ≡ 2
unfolding rate rate_rows db_bytes window
two_uploads = refl

uploads_run : admitted_uploads small numbered 4 [] calls ≤ 10
unfolding window
uploads_run =
    admitted_uploads-le small numbered 4 (60 * second) numbered-IsInjective [] calls
      (refl, (refl, (refl, (refl, tt)))) tt

abbrev two_rows : List RateRow
two_rows =
    record { key = 29; tokens = 19000000; updated = 60 * second; expires = 180 * second }
    ∷ record { key = 13; tokens = 9000000; updated = 60 * second; expires = 180 * second }
    ∷ []

first_upload : rate small numbered Traffic.upload (61 * second) 4 9 [] ≡ Rated.admitted two_rows
unfolding rate rate_rows db_bytes window
first_upload = refl

rows_run : length two_rows ≤ rate_rows small
rows_run =
    rate-length small numbered Traffic.upload (61 * second) 4 9 [] two_rows (omega arith)
      first_upload
