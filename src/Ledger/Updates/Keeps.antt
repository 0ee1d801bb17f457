-- ===== src/Ledger/Updates/Keeps.antt =====
-- update of app/projection_store.py and a predicate on the ledger that its four changes of the
-- tables keep.
use plt_converter.Prelude.{
  ℕ, Bool, true, false, Option, none, some, ◌==◌, ◌≡◌, refl, inl, inr, arith, Bool-cases,
  Option-cases, update_row, update_where,
}
use plt_converter.Ledger.Rows.{
  Session, Ledger, Meta, Analysis, session_id, Host, Result, ok, err, ◌>>=◌, Result-cases,
}
use plt_converter.Ledger.Expiry.{expire, expire_scenes}
use plt_converter.Ledger.Admission.{select_session, revoke_lease}
use plt_converter.Ledger.Sessions.{read_metadata}
use plt_converter.Ledger.Updates.{
  Change, current_id, same_id, prior_lease, is_prior, revoke_prior, Edit, Stage, stop, go,
  check_expected, apply_replacement, apply_guard, set_meta, store_meta, continue, edit_row, update,
}

abbrev ledger_of : Stage → Ledger
ledger_of (stop l) = l
ledger_of (go m l) = l

pub record IsKept (I : Ledger → Type 0) : Type 0 where
  pub prior_revoked :
      (prior o document : ℕ) (l : Ledger)
      → I l
      → I (record l { leases = update_where (is_prior prior o document) revoke_lease l.leases })
  pub meta_set :
      (document : ℕ) (m : Meta) (invalidate : Bool) (l : Ledger)
      → I l
      → I (record l {
        sessions = update_row session_id document (set_meta m invalidate) l.sessions;
      })
  pub scenes_expired : (h : Host) (current : ℕ) (l : Ledger) → I l → I (expire_scenes h current l)
  pub expired : (h : Host) (current : ℕ) (l : Ledger) → I l → I (expire h current l)

module _ (I : Ledger → Type 0) (kept : IsKept I) where
  prior-keeps :
      (prior new : Option ℕ) (o document : ℕ) (l : Ledger)
      → I l
      → I (revoke_prior prior new o document l)
  prior-keeps none new o document l b = b
  prior-keeps (some i) new o document l b = elim (Bool-cases (same_id (some i) new)) [
    | inl same ↦ rw (same, revoke_prior) b
    | inr other ↦ rw (other, revoke_prior) (kept.prior_revoked i o document l b)
  ]

  expected-keeps :
      (h : Host) (row : Session) (e : Option (Option ℕ)) (m : Option Meta) (l : Ledger) (s : Stage)
      → check_expected h row e m l ≡ ok s
      → I l
      → I (ledger_of s)
  unfolding check_expected
  expected-keeps h row e m l s eq b = let same : ledger_of s ≡ l = ground arith in rw same b

  replacement-keeps :
      (h : Host) (row : Session) (e : Option (Option ℕ × Analysis)) (m : Option Meta) (l : Ledger)
      (s : Stage)
      → apply_replacement h row e m l ≡ ok s
      → I l
      → I (ledger_of s)
  unfolding apply_replacement
  replacement-keeps h row none m l s eq b = let same : ledger_of s ≡ l = ground arith in rw same b
  replacement-keeps h row (some (e, a)) m l s eq b = elim (Result-cases (read_metadata h row)) [
    | inl (why, bad) ↦ absurd (ground arith)
    | inr (latest, read) ↦ elim (Bool-cases (same_id (current_id latest) e)) [
      | inl same ↦
          let final : ledger_of s ≡ revoke_prior (prior_lease latest) a.lease row.owner row.id l =
            ground arith in
          rw final (prior-keeps (prior_lease latest) a.lease row.owner row.id l b)
      | inr other ↦ let final : ledger_of s ≡ l = ground arith in rw final b
    ]
  ]

  guard-keeps :
      (h : Host) (row : Session) (e : Option (ℕ × Change)) (m : Option Meta) (l : Ledger)
      (s : Stage)
      → apply_guard h row e m l ≡ ok s
      → I l
      → I (ledger_of s)
  unfolding apply_guard
  guard-keeps h row e m l s eq b = let same : ledger_of s ≡ l = ground arith in rw same b

  store-keeps :
      (h : Host) (current : ℕ) (row : Session) (invalidate : Bool) (m : Option Meta) (l l' : Ledger)
      (done : Bool)
      → store_meta h current row invalidate m l ≡ ok (done, l')
      → I l
      → I l'
  unfolding store_meta
  store-keeps h current row invalidate none l l' done eq b = absurd (ground arith)
  store-keeps h current row true (some m) l l' done eq b =
      let m' : Meta = record m { expires_at = row.expires } in
      let l1 : Ledger = record l {
        sessions = update_row session_id row.id (set_meta m' true) l.sessions;
      } in
      let final : l' ≡ expire_scenes h current l1 = ground arith in
      rw final (kept.scenes_expired h current l1 (kept.meta_set row.id m' true l b))
  store-keeps h current row false (some m) l l' done eq b =
      let m' : Meta = record m { expires_at = row.expires } in
      let l1 : Ledger = record l {
        sessions = update_row session_id row.id (set_meta m' false) l.sessions;
      } in
      let final : l' ≡ l1 = ground arith in rw final (kept.meta_set row.id m' false l b)

  -- The rest of the transaction after a stage.
  continue-keeps :
      (s : Stage) (f : Option Meta → Ledger → Result (Bool × Ledger)) (l' : Ledger) (done : Bool)
      → ((m : Option Meta) (l : Ledger) → f m l ≡ ok (done, l') → I l → I l')
      → continue s f ≡ ok (done, l')
      → I (ledger_of s)
      → I l'
  continue-keeps (stop l) f l' done k eq b = let final : l' ≡ l = ground arith in rw final b
  continue-keeps (go m l) f l' done k eq b = k m l eq b

  stage-keeps :
      (r : Result Stage) (f : Option Meta → Ledger → Result (Bool × Ledger)) (l' : Ledger)
      (done : Bool)
      → ((s : Stage) → r ≡ ok s → I (ledger_of s))
      → ((m : Option Meta) (l : Ledger) → f m l ≡ ok (done, l') → I l → I l')
      → (r >>= λ s. continue s f) ≡ ok (done, l')
      → I l'
  stage-keeps (ok s) f l' done here rest eq = continue-keeps s f l' done rest eq (here s refl)
  stage-keeps (err x) f l' done here rest eq = absurd (ground arith)

  edit_row-keeps :
      (h : Host) (current : ℕ) (row : Session) (e : Edit) (l l' : Ledger) (done : Bool)
      → edit_row h current row e l ≡ ok (done, l')
      → I l
      → I l'
  unfolding edit_row
  edit_row-keeps h current row e l l' done eq b =
      stage-keeps (check_expected h row e.expected e.meta l) _ l' done
        (λ s q. expected-keeps h row e.expected e.meta l s q b)
        (λ m1 l1 eq1 b1.
          stage-keeps (apply_replacement h row e.replacement m1 l1) _ l' done
            (λ s q. replacement-keeps h row e.replacement m1 l1 s q b1)
            (λ m2 l2 eq2 b2.
              stage-keeps (apply_guard h row e.guard m2 l2) _ l' done
                (λ s q. guard-keeps h row e.guard m2 l2 s q b2)
                (λ m3 l3 eq3 b3. store-keeps h current row e.invalidate m3 l3 l' done eq3 b3) eq2)
            eq1)
        eq

  pub update-keeps :
      (h : Host) (current document o generation : ℕ) (e : Edit) (l l' : Ledger) (done : Bool)
      → update h current document o generation e l ≡ ok (done, l')
      → I l
      → I l'
  unfolding update
  update-keeps h current document o generation e l l' done eq b =
      let l1 : Ledger = expire h current l in
      let b1 : I l1 = kept.expired h current l b in
      elim (Option-cases (select_session document o l1)) [
        | inl gone ↦ let final : l' ≡ l1 = ground arith in rw final b1
        | inr (row, found) ↦ elim (Bool-cases (row.generation == generation)) [
          | inl now ↦ edit_row-keeps h current row e l1 l' done (ground arith) b1
          | inr stale ↦ let final : l' ≡ l1 = ground arith in rw final b1
        ]
      ]
