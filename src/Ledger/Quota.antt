-- ===== src/Ledger/Quota.antt =====
-- What the ledger of app/projection_store.py charges against one limit: a weight for each session
-- and each lease.
pub mod Upkeep
pub mod Limits
pub mod Reservations
pub mod Promotions
use plt_converter.Prelude.{ℕ, ◌+◌, ◌≤◌, Option, Bool, total}
use plt_converter.Ledger.Rows.{Session, Lease, Scene, Ledger, Host, Meta, Stamp, Pid}
use plt_converter.Ledger.Expiry.{retire, uncharge}
use plt_converter.Ledger.Admission.{revoke_lease}
use plt_converter.Ledger.Leases.{set_claimed, set_process}

pub record Quota : Type 0 where
  pub per_session : Session → ℕ
  pub per_lease : Lease → ℕ

unfoldable pub charged : Quota → Ledger → ℕ
charged q l = total q.per_session l.sessions + total q.per_lease l.leases

-- The weights that no routine change of a row raises.
pub record IsLawful (q : Quota) : Type 0 where
  pub reset :
      (s : Session) (expires generation : ℕ) (meta : Option Meta)
      → q.per_session (record s { expires = expires; generation = generation; meta = meta })
        ≤ q.per_session s
  pub retired : (s : Session) → q.per_session (retire s) ≤ q.per_session s
  pub uncharged : (c : Scene) (s : Session) → q.per_session (uncharge c s) ≤ q.per_session s
  pub revoked : (r : Lease) → q.per_lease (revoke_lease r) ≤ q.per_lease r
  pub launched :
      (r : Lease) (pid : Pid) (identity : Option ℕ) (supervisor : ℕ) (by : Option ℕ)
      → q.per_lease (record r {
        pid = pid;
        identity = identity;
        supervisor = supervisor;
        supervisor_identity = by;
      })
        ≤ q.per_lease r
