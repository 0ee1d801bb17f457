-- ===== src/Ledger/Scenes/Publish.antt =====
-- scene_publish and scene_open of app/projection_scene_store.py: the transactions.
use plt_converter.Prelude.{
  ℕ, ◌+◌, ◌≤◌, ◌≡◌, Bool, true, false, Option, none, some, [], ◌∷◌, ◌++◌, ◌==◌, ◌&&◌, ◌||◌, not,
  arith, update_row, update_where, find_row, first_where, exists_where, Option-cases, inl, inr,
  total-update_row-le, total-snoc,
}
use plt_converter.Ledger.Rows.{
  Kind, Stamp, is_at, Pid, Lease, Session, Scene, Readiness, is_pending, Ledger, session_id,
  lease_id, is_some_of, Host, Code, rejected, Result, ok, ◌>>=◌, ◌>>◌, raise_if, or_raise,
}
use plt_converter.Ledger.Policy.{Policy, operation_bytes, allocation}
use plt_converter.Ledger.Disk.{check_capacity}
use plt_converter.Ledger.Expiry.{expire}
use plt_converter.Ledger.Admission.{select_session, new_lease, insert_lease}
use plt_converter.Ledger.Scenes.{is_scene_of, scene_slots}
use plt_converter.Ledger.Quota.{Quota, charged, IsLawful}
use plt_converter.Ledger.Quota.Upkeep.{expire-le}

-- The bundle as it was checked outside the transaction: its size, `none` where a check failed, and the
-- digest that names it.
pub record Bundle : Type 0 where
  pub size : Option ℕ
  pub revision : ℕ

-- WHERE document=? AND ... AND pipeline=? AND lease=?
abbrev pub is_scene_under : ℕ → ℕ → ℕ → ℕ → ℕ → Scene → Bool
is_scene_under document generation variant current token c =
    is_scene_of document generation variant current c && is_some_of token c.lease

abbrev pub is_lease_at : ℕ → Option Lease → Bool
is_lease_at generation none = false
is_lease_at generation (some r) = is_at generation r.generation

abbrev pub charge_bundle : ℕ → Session → Session
charge_bundle size s = record s {
  budget = s.budget + allocation size;
  derived_bytes = s.derived_bytes + size;
}

abbrev pub publish_scene : ℕ → ℕ → Scene → Scene
publish_scene revision size c = record c {
  readiness = Readiness.ready;
  revision = some revision;
  budget = allocation size;
  derived_bytes = size;
}

abbrev pub settle_lease : Lease → Lease
settle_lease r = record r { budget = operation_bytes; derived_budget = 0 }

abbrev pub published : ℕ → ℕ → ℕ → ℕ → ℕ → ℕ → ℕ → Ledger → Ledger
published current token document generation variant revision size l = record {
  sessions = update_row session_id document (charge_bundle size) l.sessions;
  scenes =
      update_where (is_scene_under document generation variant current token)
        (publish_scene revision size) l.scenes;
  leases = update_row lease_id token settle_lease l.leases;
}

-- scene_publish; `moves` is whether os.replace succeeds.
unfoldable pub scene_publish : Host → ℕ → ℕ → ℕ → ℕ → ℕ → ℕ → Bundle → Bool → Ledger → Result Ledger
unfolding select_session
scene_publish h current token document o generation variant bundle moves l =
    let l1 = expire h current l in
    do
      size ← or_raise bundle.size (rejected Code.scene_corrupt 503 1)
      session ← or_raise (select_session document o l1) (rejected Code.result_stale 409 0)
      raise_if
          (not (session.generation == generation)
            || not (
                exists_where
                  (λ c.
                    is_scene_under document generation variant current token c
                    && is_pending c.readiness)
                  l1.scenes)
            || not (is_lease_at generation (find_row lease_id token l1.leases)))
          (rejected Code.result_stale 409 0)
      raise_if (not moves) (rejected Code.file_error 0 0)
      ok (published current token document generation variant bundle.revision size l1)

-- WHERE document=? AND revision=? AND pipeline=? AND state='ready'
abbrev pub is_published : Readiness → Bool
is_published Readiness.ready = true
is_published _ = false

abbrev pub is_open_scene : ℕ → ℕ → ℕ → Scene → Bool
is_open_scene document revision current c =
    c.document == document
    && is_some_of revision c.revision
    && c.pipeline == current
    && is_published c.readiness

abbrev pub download_lease : Host → ℕ → ℕ → ℕ → ℕ → ℕ → Lease
download_lease h token o document generation revision =
    record (new_lease h token o Kind.scene_download (some document) (Stamp.at generation)
      operation_bytes 0) {
        pid = Pid.process h.self;
        identity = h.start_ticks h.self;
        scene_revision = some revision;
      }

-- The transaction of scene_open; `opens` is whether the file can be opened. What follows it checks the
-- file's digest and valid_lease, or else calls scene_close.
unfoldable pub scene_open : Host → Policy → ℕ → ℕ → ℕ → ℕ → ℕ → Bool → Ledger → Result Ledger
unfolding scene_slots select_session
scene_open h p current token document o revision opens l =
    let l1 = expire h current l in
    do
      session ← or_raise (select_session document o l1) (rejected Code.not_found 404 0)
      c ←
          or_raise (first_where (is_open_scene document revision current) l1.scenes)
            (rejected Code.not_found 404 0)
      raise_if (not (session.generation == c.generation)) (rejected Code.not_found 404 0)
      scene_slots p o l1
      raise_if (not opens) (rejected Code.file_error 0 0)
      check_capacity h p l1 operation_bytes Kind.scene_download
      insert_lease (download_lease h token o document c.generation revision) l1

-- What a session and a lease are charged with leaves them as they were.
module _ (q : Quota) (w : IsLawful q) (free : (r : Lease) → q.per_lease r ≡ 0)
    (same : (size : ℕ) (s : Session) → q.per_session (charge_bundle size s) ≤ q.per_session s) where
  published-le :
      (current token document generation variant revision size : ℕ) (l : Ledger)
      → charged q (published current token document generation variant revision size l)
        ≤ charged q l
  unfolding charged
  published-le current token document generation variant revision size l = omega (
    arith,
    total-update_row-le session_id q.per_session document (charge_bundle size) (same size)
        l.sessions,
    total-update_row-le lease_id q.per_lease token settle_lease
        (λ r. let a = free (settle_lease r) in let b = free r in omega (arith, a, b)) l.leases,
  )

  pub scene_publish-le :
      (h : Host) (current token document o generation variant : ℕ) (bundle : Bundle) (moves : Bool)
      (l l' : Ledger)
      → scene_publish h current token document o generation variant bundle moves l ≡ ok l'
      → charged q l' ≤ charged q l
  unfolding scene_publish
  scene_publish-le h current token document o generation variant bundle moves l l' e =
      elim (Option-cases bundle.size) [
        | inl bad ↦ absurd (ground arith)
        | inr (size, checked) ↦
            elim (Option-cases (select_session document o (expire h current l))) [
              | inl gone ↦ absurd (ground arith)
              | inr (session, found) ↦
                  let l1 = expire h current l in
                  let made : l'
                      ≡ published current token document generation variant bundle.revision size
                          l1 =
                    ground arith in
                  rw made (
                    let a =
                      published-le current token document generation variant bundle.revision size
                        l1 in
                    let b = expire-le q w h current l in omega (arith, a, b))
            ]
      ]

  pub scene_open-le :
      (h : Host) (p : Policy) (current token document o revision : ℕ) (opens : Bool) (l l' : Ledger)
      → scene_open h p current token document o revision opens l ≡ ok l'
      → charged q l' ≤ charged q l
  unfolding scene_open charged scene_slots
  scene_open-le h p current token document o revision opens l l' e =
      let l1 = expire h current l in
      elim (Option-cases (select_session document o l1)) [
        | inl gone ↦ absurd (ground arith)
        | inr (session, found) ↦
            elim (Option-cases (first_where (is_open_scene document revision current) l1.scenes)) [
              | inl missing ↦ absurd (ground arith)
              | inr (c, there) ↦
                  let r = download_lease h token o document c.generation revision in
                  let made : l' ≡ record l1 { leases = l1.leases ++ r ∷ [] } = ground arith in
                  rw made (
                    let a = total-snoc q.per_lease l1.leases r in
                    let b = free r in let x = expire-le q w h current l in omega (arith, a, b, x))
            ]
      ]
