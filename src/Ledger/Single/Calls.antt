-- ===== src/Ledger/Single/Calls.antt =====
-- All calls on the store, also as the callers that Ledger.Runs describes do not make them.
use plt_converter.Prelude.{ℕ, ◌≤◌, ◌≡◌, refl, Bool, List, arith, count}
use plt_converter.Ledger.Rows.{Ledger, Host, Meta, ok}
use plt_converter.Ledger.Policy.{Policy}
use plt_converter.Ledger.Sessions.{is_active_of, complete_upload}
use plt_converter.Ledger.Scenes.Publish.{Bundle, scene_publish, scene_publish-le}
use plt_converter.Ledger.Quota.{charged}
use plt_converter.Ledger.Runs.{empty, Step}
use plt_converter.Ledger.Single.{activity, activity-IsLawful, complete_upload-single}
use plt_converter.Ledger.Single.Steps.{AtMostOne, Step-AtMostOne}

-- A step of Ledger.Runs, an upload that is completed on any lease, with a list for discarded analyses,
-- and a bundle that is published under any lease.
pub data Call (p : Policy) (current : ℕ) : Ledger → Ledger → Type 0 where
  step : (l l' : Ledger) → Step p current l l' → Call p current l l'
  completes :
      (h : Host) (token o document size : ℕ) (m : Meta) (l l' : Ledger) (dropped : List ℕ)
      → complete_upload h current token o document size m l ≡ ok (l', dropped)
      → Call p current l l'
  publishes :
      (h : Host) (token document o generation variant : ℕ) (bundle : Bundle) (moves : Bool)
      (l l' : Ledger)
      → scene_publish h current token document o generation variant bundle moves l ≡ ok l'
      → Call p current l l'

pub data Calls (p : Policy) (current : ℕ) (l : Ledger) : Ledger → Type 0 where
  here : Calls p current l l
  next : {m n : Ledger} → Calls p current l m → Call p current m n → Calls p current l n

module _ (x : ℕ) where
  Call-AtMostOne :
      {p : Policy} {current : ℕ} {l l' : Ledger}
      → Call p current l l'
      → AtMostOne x l
      → AtMostOne x l'
  Call-AtMostOne (Call.step l l' s) b = Step-AtMostOne x s b
  Call-AtMostOne {current = current} (Call.completes h token o d size m l l' dropped e) b =
      complete_upload-single h current token o d size m l l' dropped x e b
  Call-AtMostOne {current = current} (Call.publishes h token d o g v bundle moves l l' e) b =
      omega (
        arith,
        b,
        scene_publish-le (activity x) (activity-IsLawful x) (λ r. refl) (λ size s. omega arith) h
            current token d o g v bundle moves l l' e,
      )

  Calls-AtMostOne :
      {p : Policy} {current : ℕ} {l l' : Ledger}
      → Calls p current l l'
      → AtMostOne x l
      → AtMostOne x l'
  Calls-AtMostOne Calls.here b = b
  Calls-AtMostOne (Calls.next r s) b = Call-AtMostOne s (Calls-AtMostOne r b)

-- After any calls in any order on a store that starts empty, where complete_upload is called with a
-- list for discarded analyses, no owner has two active sessions, even when several uploads of the owner
-- raced.
pub reachable_single :
    (p : Policy) (current x : ℕ) (l : Ledger)
    → Calls p current empty l
    → count (is_active_of x) l.sessions ≤ 1
unfolding charged
reachable_single p current x l r =
    let b : charged (activity x) l ≤ 1 = Calls-AtMostOne x r (omega arith) in omega (arith, b)
