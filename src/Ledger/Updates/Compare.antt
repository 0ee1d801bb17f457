-- ===== src/Ledger/Updates/Compare.antt =====
-- update_analysis of app/projection_store.py: an update that is declined.
use plt_converter.Prelude.{
  ℕ, ◌≡◌, ◌≢◌, refl, Bool, false, Option, arith, ◌==◌, inl, inr, Bool-cases, Option-cases,
}
use plt_converter.Ledger.Rows.{Session, Ledger, Meta, Host, ok, Result-cases}
use plt_converter.Ledger.Expiry.{expire}
use plt_converter.Ledger.Admission.{select_session}
use plt_converter.Ledger.Sessions.{read_metadata}
use plt_converter.Ledger.Updates.{
  Change, Stage, stop, go, check_expected, apply_replacement, apply_guard, guarded, guard_edit,
  store_meta, edit_row, update, update_analysis,
}

guarded-stop :
    (id : ℕ) (change : Change) (latest : Meta) (l l0 : Ledger)
    → guarded id change latest l latest.analysis ≡ stop l0
    → l0 ≡ l
guarded-stop id change latest l l0 e = elim (Option-cases latest.analysis) [
  | inl gone ↦ ground arith
  | inr (a, f) ↦ ground arith
]

store_meta-done :
    (h : Host) (current : ℕ) (row : Session) (invalidate : Bool) (m : Option Meta) (l l' : Ledger)
    → store_meta h current row invalidate m l ≢ ok (false, l')
unfolding store_meta
store_meta-done h current row invalidate m l l' e = ground arith

edit_row-declined :
    (h : Host) (current : ℕ) (row : Session) (id : ℕ) (change : Change) (invalidate : Bool)
    (l l' : Ledger)
    → edit_row h current row (guard_edit id change invalidate) l ≡ ok (false, l')
    → l' ≡ l
unfolding edit_row check_expected apply_replacement apply_guard
edit_row-declined h current row id change invalidate l l' e =
    elim (Result-cases (read_metadata h row)) [
      | inl (why, bad) ↦ absurd (ground arith)
      | inr (latest, read) ↦
          stage_cases latest read (guarded id change latest l latest.analysis) refl
    ]
  where
    stage_cases :
        (latest : Meta)
        → read_metadata h row ≡ ok latest
        → (s : Stage) → guarded id change latest l latest.analysis ≡ s
        → l' ≡ l
    stage_cases latest read (stop l0) q =
        ground (arith, read, q, e, guarded-stop id change latest l l0 q)
    stage_cases latest read (go m l1) q =
        absurd (store_meta-done h current row invalidate m l1 l' (ground (arith, read, q, e)))

-- An update of an analysis that returns False changed nothing but what had expired.
pub update_analysis-declines :
    (h : Host) (current document o id generation : ℕ) (change : Change) (invalidate : Bool)
    (l l' : Ledger)
    → update_analysis h current document o id generation change invalidate l ≡ ok (false, l')
    → l' ≡ expire h current l
unfolding update_analysis update
update_analysis-declines h current document o id generation change invalidate l l' e =
    elim (Option-cases (select_session document o (expire h current l))) [
      | inl gone ↦ ground arith
      | inr (row, found) ↦ elim (Bool-cases (row.generation == generation)) [
        | inl now ↦
            edit_row-declined h current row id change invalidate (expire h current l) l'
              (ground arith)
        | inr stale ↦ ground arith
      ]
    ]
