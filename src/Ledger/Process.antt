-- ===== src/Ledger/Process.antt =====
-- process_identity and process_alive of app/projection_store.py.
use plt_converter.Prelude.{ℕ, zero, suc, Bool, true, false, Option, none, some, ◌==◌}
use plt_converter.Ledger.Rows.{Pid, Signal, Host}

-- `os.kill(pid, 0)` in the last `try`.
abbrev pub answers : Signal → Bool
answers Signal.delivered = true
answers Signal.no_process = false
answers Signal.denied = true

-- `actual == identity`, where the recorded identity may be NULL.
abbrev pub same_identity : ℕ → Option ℕ → Bool
same_identity n none = false
same_identity n (some m) = n == m

-- With no start ticks: a recorded identity (a non-empty text) means that the process is gone.
abbrev alive_unseen : Host → ℕ → Option ℕ → Bool
alive_unseen h n none = answers (h.signal n)
alive_unseen h n (some m) = false

abbrev alive_actual : Host → ℕ → Option ℕ → Option ℕ → Bool
alive_actual h n identity (some actual) = same_identity actual identity
alive_actual h n identity none = alive_unseen h n identity

-- A NULL pid and pid 0 are falsy.
unfoldable pub process_alive : Host → Pid → Option ℕ → Bool
process_alive h Pid.claimed identity = true
process_alive h Pid.absent identity = false
process_alive h (Pid.process zero) identity = false
process_alive h (Pid.process (suc n)) identity =
    alive_actual h (suc n) identity (h.start_ticks (suc n))
