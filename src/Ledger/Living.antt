-- ===== src/Ledger/Living.antt =====
-- reconcile of app/projection_store.py: the leases of living processes.
use plt_converter.Prelude.{
  Distinct, has_key, ==_refl, subst, ◌∙◌, ℕ, ◌≡◌, ◌≢◌, refl, true, false, Option, some, List, [],
  ◌∷◌, arith, ◌==◌, inl, inr, Bool-cases, update_row, delete_row, find_row, All,
}
use plt_converter.Ledger.Rows.{Pid, Lease, Ledger, lease_id, Host}
use plt_converter.Ledger.Disk.Promises.{HasKeys}
use plt_converter.Ledger.Process.{process_alive}
use plt_converter.Ledger.Leases.{is_absent, release}
use plt_converter.Ledger.Bounds.{leases-expire}
use plt_converter.Ledger.Reconcile.{
  Marker, is_claimed, clear_process, supervised, release_dead, reconcile_row, reconcile_rows,
  reconcile,
}

find-delete_other :
    (j k : ℕ) (rs : List Lease)
    → j ≢ k
    → find_row lease_id k (delete_row lease_id j rs) ≡ find_row lease_id k rs
find-delete_other j k [] n = refl
find-delete_other j k (r ∷ rs) n = ground (arith, find-delete_other j k rs n)

find-update_other :
    (j k : ℕ) (f : Lease → Lease) (rs : List Lease)
    → j ≢ k
    → ((r : Lease) → (f r).id ≡ r.id)
    → find_row lease_id k (update_row lease_id j f rs) ≡ find_row lease_id k rs
find-update_other j k f [] n h = refl
find-update_other j k f (r ∷ rs) n h = ground (arith, h r, find-update_other j k f rs n h)

release_other :
    (h : Host) (current j k : ℕ) (l : Ledger)
    → j ≢ k
    → find_row lease_id k (release h current j l).leases ≡ find_row lease_id k l.leases
unfolding release
release_other h current j k l n = ground (
  arith,
  find-delete_other j k l.leases n,
  leases-expire h current (record l { leases = delete_row lease_id j l.leases }),
)

absent_rows :
    (token : ℕ) (row : Lease) (rs : List Lease)
    → has_key lease_id token rs ≡ false
    → All (λ r. r.id ≡ token → r ≡ row) rs
absent_rows token row [] k = tt
absent_rows token row (r ∷ rs) k =
    ((λ same. absurd (ground (arith, ==_refl token))), absent_rows token row rs (ground arith))

-- The rows of the snapshot under the lease's key are the lease.
only_row :
    (token : ℕ) (row : Lease) (rs : List Lease)
    → Distinct lease_id rs
    → find_row lease_id token rs ≡ some row
    → All (λ r. r.id ≡ token → r ≡ row) rs
only_row token row [] d f = tt
only_row token row (r ∷ rs) d f = elim (Bool-cases (lease_id r == token)) [
  | inl same ↦
      let q : r.id ≡ token = ground arith in
      (
        (λ e. ground arith),
        absent_rows token row rs (subst (λ i. has_key lease_id i rs ≡ false) q d.0),
      )
  | inr other ↦
      ((λ e. absurd (ground (arith, ==_refl token))), only_row token row rs d.1 (rw other at f))
]

absent_dead :
    (h : Host) (p : Pid) (identity : Option ℕ)
    → is_absent p ≡ true
    → process_alive h p identity ≡ true
    → ⊥
unfolding process_alive
absent_dead h p identity a b = ground arith

-- The lease has a living process: its child, by the row or, for a launch that is only claimed, by
-- child.json; or the supervisor that claimed the launch.
pub data IsLiving (h : Host) (marker : ℕ → Marker) (row : Lease) : Type 0 where
  child :
      is_claimed row.pid ≡ false
      → process_alive h row.pid row.identity ≡ true
      → IsLiving h marker row
  launching : is_claimed row.pid ≡ true → supervised h row ≡ true → IsLiving h marker row
  marked :
      is_claimed row.pid ≡ true
      → process_alive h (marker row.id).pid (marker row.id).identity ≡ true
      → IsLiving h marker row

absent_unclaimed : (p : Pid) → is_claimed p ≡ true → is_absent p ≡ false
absent_unclaimed p c = ground arith

module _ (h : Host) (current : ℕ) (marker : ℕ → Marker) (token : ℕ) (row : Lease)
    (living : IsLiving h marker row) where
  row_untouched : (l : Ledger) → reconcile_row h current marker row l ≡ l
  unfolding reconcile_row release_dead
  row_untouched l = elim living [
    | IsLiving.child free alive ↦ elim (Bool-cases (is_absent row.pid)) [
      | inl gone ↦ absurd (absent_dead h row.pid row.identity gone alive)
      | inr there ↦ ground arith
    ]
    | IsLiving.launching claimed watched ↦
        let there = absent_unclaimed row.pid claimed in ground arith
    | IsLiving.marked claimed alive ↦
        let there = absent_unclaimed row.pid claimed in
        elim (Bool-cases (supervised h row)) [
          | inl watched ↦ ground arith
          | inr orphaned ↦ rw (there, claimed, orphaned, alive) (ground arith)
        ]
  ]

  release_dead_other :
      (r : Lease) (pid : Pid) (l : Ledger)
      → r.id ≢ token
      → find_row lease_id token (release_dead h current r pid l).leases
        ≡ find_row lease_id token l.leases
  unfolding release_dead
  release_dead_other r pid l n = ground (arith, release_other h current r.id token l n)

  reconcile_row_other :
      (r : Lease) (l : Ledger)
      → r.id ≢ token
      → find_row lease_id token (reconcile_row h current marker r l).leases
        ≡ find_row lease_id token l.leases
  unfolding reconcile_row
  reconcile_row_other r l n =
      let l1 : Ledger = record l { leases = update_row lease_id r.id clear_process l.leases } in
      ground (
        arith,
        release_other h current r.id token l n,
        release_dead_other r r.pid l n,
        release_dead_other r Pid.absent l1 n,
        find-update_other r.id token clear_process l.leases n (λ x. refl),
      )

  rows_keep :
      (rs : List Lease) (l : Ledger)
      → All (λ r. r.id ≡ token → r ≡ row) rs
      → find_row lease_id token l.leases ≡ some row
      → find_row lease_id token (reconcile_rows h current marker rs l).leases ≡ some row
  unfolding reconcile_rows
  rows_keep [] l a f = f
  rows_keep (r ∷ rs) l a f = elim (Bool-cases (r.id == token)) [
    | inl same ↦
        let q : r ≡ row = a.0 (ground arith) in
        rows_keep rs (reconcile_row h current marker r l) a.1 (rw (q, row_untouched l) f)
    | inr other ↦
        rows_keep rs (reconcile_row h current marker r l) a.1
          (reconcile_row_other r l (λ e. ground (arith, ==_refl token)) ∙ f)
  ]

  -- On tables with primary keys, a lease whose child is alive, by its row or by child.json for a launch
  -- that is only claimed, or whose launch a living supervisor has claimed, is in the ledger after
  -- reconciliation as it was before, whatever its age and whatever happens to the others.
  pub reconcile-keeps_living :
      (l : Ledger)
      → HasKeys l
      → find_row lease_id token l.leases ≡ some row
      → find_row lease_id token (reconcile h current marker l).leases ≡ some row
  unfolding reconcile
  reconcile-keeps_living l k f =
      rw leases-expire (rows_keep l.leases l (only_row token row l.leases k.lease_keys f) f)
