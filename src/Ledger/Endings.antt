-- ===== src/Ledger/Endings.antt =====
-- What delete and delete_all of app/projection_store.py leave of a session.
use plt_converter.Prelude.{
  find_row-key, ℕ, ◌≡◌, refl, subst, has_key, Distinct, ==_refl, Bool, true, false, none, some,
  List, [], ◌∷◌, arith, ◌==◌, inl, inr, Bool-cases, Option-cases, update_where, delete_where,
  update_row, delete_row, find_row, select_where, All, All-find_row, All-update_where,
  All-update_row,
}
use plt_converter.Ledger.Rows.{is_upload, Lease, Session, Scene, Ledger, Host, session_id, lease_id}
use plt_converter.Ledger.Expiry.{
  retire, is_overdue, uncharge, mark_overdue, drop_scene, drop_scenes, is_stale_scene,
  expire_scenes, is_reclaimable, reclaim, expire,
}
use plt_converter.Ledger.Admission.{select_session}
use plt_converter.Ledger.Leases.{lease_is_valid, release, release_all}
use plt_converter.Ledger.Disk.Promises.{HasKeys}
use plt_converter.Ledger.Keys.{expire-HasKeys}
use plt_converter.Ledger.Sessions.{
  idle_leases, is_active_of, retire_where, renew, delete, delete_all,
}

All-delete_where {ℓ κ} :
    {A : Type ℓ} (P : A → Type κ) (p : A → Bool) (xs : List A)
    → All P xs
    → All P (delete_where p xs)
All-delete_where P p [] h = tt
All-delete_where P p (x ∷ xs) h = ground (arith, All-delete_where P p xs h.1)

-- Upkeep only retires, uncharges and removes sessions.
module _ (P : Session → Type 0) (retired : (s : Session) → P s → P (retire s))
    (uncharged : (c : Scene) (s : Session) → P s → P (uncharge c s)) where
  drop_scenes-All :
      (h : Host) (cs : List Scene) (l : Ledger)
      → All P l.sessions
      → All P (drop_scenes h cs l).sessions
  unfolding drop_scenes drop_scene
  drop_scenes-All h [] l a = a
  drop_scenes-All h (c ∷ cs) l a = drop_scenes-All h cs (drop_scene h c l) (
      ground
        (arith, a, All-update_row P session_id c.document (uncharge c) (uncharged c) l.sessions a))

  expire-All :
      (h : Host) (current : ℕ) (l : Ledger) → All P l.sessions → All P (expire h current l).sessions
  unfolding expire reclaim expire_scenes mark_overdue
  expire-All h current l a =
      let l1 = mark_overdue h l in
      let l2 = expire_scenes h current l1 in
      All-delete_where P (is_reclaimable h l2) l2.sessions (
        drop_scenes-All h (select_where (is_stale_scene current l1) l1.scenes) l1
          (All-update_where P (is_overdue h.now) retire retired l.sessions a))

  release-All :
      (h : Host) (current token : ℕ) (l : Ledger)
      → All P l.sessions
      → All P (release h current token l).sessions
  unfolding release
  release-All h current token l a =
      ground (
        arith,
        a,
        expire-All h current (record l { leases = delete_row lease_id token l.leases }) a,
      )

  release_all-All :
      (h : Host) (current : ℕ) (ts : List ℕ) (l : Ledger)
      → All P l.sessions
      → All P (release_all h current ts l).sessions
  unfolding release_all
  release_all-All h current [] l a = a
  release_all-All h current (t ∷ ts) l a =
      release_all-All h current ts (release h current t l) (release-All h current t l a)

-- The session has ended, if it is still there.
abbrev HasEnded : ℕ → Session → Type 0
HasEnded document s = s.id ≡ document → s.active ≡ false

absent-HasEnded :
    (document : ℕ) (ss : List Session)
    → has_key session_id document ss ≡ false
    → All (HasEnded document) ss
absent-HasEnded document [] k = tt
absent-HasEnded document (s ∷ ss) k = (
  (λ same. absurd (ground (arith, ==_refl document))),
  absent-HasEnded document ss (ground arith),
)

retire-HasEnded :
    (document : ℕ) (ss : List Session)
    → Distinct session_id ss
    → All (HasEnded document) (update_row session_id document retire ss)
retire-HasEnded document [] k = tt
retire-HasEnded document (s ∷ ss) k = elim (Bool-cases (session_id s == document)) [
  | inl same ↦
      let q : s.id ≡ document = ground arith in
      rw same (
        (λ e. refl),
        absent-HasEnded document ss (subst (λ i. has_key session_id i ss ≡ false) q k.0),
      )
  | inr other ↦
      rw other ((λ e. absurd (ground (arith, ==_refl document))), retire-HasEnded document ss k.1)
]

module _ (document : ℕ) (l : Ledger) (ended : All (HasEnded document) l.sessions) where
  select_session_ended : (x : ℕ) → select_session document x l ≡ none
  unfolding select_session
  select_session_ended x = elim (Option-cases (find_row session_id document l.sessions)) [
    | inl gone ↦ ground arith
    | inr (s, found) ↦
        let off : s.active ≡ false =
          All-find_row (HasEnded document) session_id document l.sessions s ended found
            (find_row-key session_id document l.sessions s found) in
        ground arith
  ]

  lease_is_valid_ended :
      (r : Lease)
      → r.document ≡ some document
      → is_upload r.kind ≡ false
      → lease_is_valid l r ≡ false
  unfolding lease_is_valid
  lease_is_valid_ended r on operation =
      elim (Option-cases (find_row session_id document l.sessions)) [
        | inl gone ↦ ground arith
        | inr (s, found) ↦
            let off : s.active ≡ false =
              All-find_row (HasEnded document) session_id document l.sessions s ended found
                (find_row-key session_id document l.sessions s found) in
            ground arith
      ]

  expire_ended : (h : Host) (current : ℕ) → All (HasEnded document) (expire h current l).sessions
  expire_ended h current =
      expire-All (HasEnded document) (λ s e q. refl) (λ c s e. e) h current l ended

-- No call of the owner `x` finds a document that has ended for it.
abbrev pub IsGone : ℕ → ℕ → Ledger → Type 0
IsGone document x l =
    (h : Host) (current : ℕ)
    → (select_session document x (expire h current l) ≡ none)
      × ((renew h current document x l).0 ≡ false)
      × ((delete h current document x l).0 ≡ false)

unselected-IsGone :
    (document x : ℕ) (l : Ledger)
    → ((h : Host) (current : ℕ) → select_session document x (expire h current l) ≡ none)
    → IsGone document x l
unfolding renew delete
unselected-IsGone document x l none_left h current =
    (none_left h current, ground (arith, none_left h current), ground (arith, none_left h current))

ended-IsGone :
    (document x : ℕ) (l : Ledger) → All (HasEnded document) l.sessions → IsGone document x l
ended-IsGone document x l ended = unselected-IsGone document x l (λ h current.
    select_session_ended document (expire h current l) (expire_ended document l ended h current) x)

delete-HasEnded :
    (h : Host) (current document o : ℕ) (l l' : Ledger)
    → HasKeys l
    → delete h current document o l ≡ (true, l')
    → All (HasEnded document) l'.sessions
unfolding delete
delete-HasEnded h current document o l l' k e =
    let l1 : Ledger = expire h current l in
    elim (Option-cases (select_session document o l1)) [
      | inl gone ↦ absurd (ground arith)
      | inr (row, found) ↦
          let l2 : Ledger = record l1 {
            sessions = update_row session_id document retire l1.sessions;
          } in
          let l3 : Ledger = expire h current l2 in
          let final : l' ≡ release_all h current (idle_leases document l1) l3 = ground arith in
          let a2 : All (HasEnded document) l2.sessions =
            retire-HasEnded document l1.sessions (expire-HasKeys h current l k).session_keys in
          let a3 : All (HasEnded document) l3.sessions = expire_ended document l2 a2 h current in
          rw final (
            release_all-All (HasEnded document) (λ s p. λ q. refl) (λ c s p. p) h current
              (idle_leases document l1) l3 a3)
    ]

-- On tables with primary keys, a delete that finds its document ends it for everyone: afterwards
-- nobody can load, renew or delete it, and no operation's lease on it is valid.
pub delete-ends :
    (h : Host) (current document o : ℕ) (l l' : Ledger) (r : Lease)
    → HasKeys l
    → delete h current document o l ≡ (true, l')
    → r.document ≡ some document
    → is_upload r.kind ≡ false
    → ((x : ℕ) → IsGone document x l') × (lease_is_valid l' r ≡ false)
delete-ends h current document o l l' r k e on operation =
    let ended : All (HasEnded document) l'.sessions =
      delete-HasEnded h current document o l l' k e in
    (λ x. ended-IsGone document x l' ended, lease_is_valid_ended document l' ended r on operation)

abbrev IsIdle : ℕ → Session → Type 0
IsIdle o s = s.owner ≡ o → s.active ≡ false

retire-IsIdle :
    (o : ℕ) (ss : List Session) → All (IsIdle o) (update_where (is_active_of o) retire ss)
retire-IsIdle o [] = tt
retire-IsIdle o (s ∷ ss) = elim (Bool-cases (is_active_of o s)) [
  | inl active ↦ rw active ((λ e. refl), retire-IsIdle o ss)
  | inr other ↦ rw other ((λ e. ground (arith, ==_refl o)), retire-IsIdle o ss)
]

idle_unselected :
    (o document : ℕ) (l : Ledger) → All (IsIdle o) l.sessions → select_session document o l ≡ none
unfolding select_session
idle_unselected o document l idle = elim (Option-cases (find_row session_id document l.sessions)) [
  | inl gone ↦ ground arith
  | inr (s, found) ↦
      let off : s.owner ≡ o → s.active ≡ false =
        All-find_row (IsIdle o) session_id document l.sessions s idle found in
      ground arith
]

delete_all-IsIdle :
    (h : Host) (current o : ℕ) (l : Ledger) → All (IsIdle o) (delete_all h current o l).1.sessions
unfolding delete_all retire_where
delete_all-IsIdle h current o l =
    let l1 : Ledger = expire h current l in
    let l2 : Ledger = record l1 { sessions = update_where (is_active_of o) retire l1.sessions } in
    release_all-All (IsIdle o) (λ s p. λ q. refl) (λ c s p. p) h current _ (expire h current l2)
      (expire-All (IsIdle o) (λ s p. λ q. refl) (λ c s p. p) h current l2
        (retire-IsIdle o l1.sessions))

-- delete_all leaves its owner no document to load, renew or delete.
pub delete_all-ends :
    (h : Host) (current o document : ℕ) (l : Ledger)
    → IsGone document o (delete_all h current o l).1
delete_all-ends h current o document l =
    unselected-IsGone document o (delete_all h current o l).1 (λ h2 current2.
      idle_unselected o document _ (
        expire-All (IsIdle o) (λ s p. λ q. refl) (λ c s p. p) h2 current2
          (delete_all h current o l).1 (delete_all-IsIdle h current o l)))
