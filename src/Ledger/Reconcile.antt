-- ===== src/Ledger/Reconcile.antt =====
-- reconcile of app/projection_store.py, as far as it changes the tables.
use plt_converter.Prelude.{
  ℕ, ◌+◌, ◌*◌, refl, Bool, true, false, Option, none, List, [], ◌∷◌, ◌&&◌, not, leb, if◌then◌else◌,
  inl, inr, Bool-cases, update_row, All-update_row,
}
use plt_converter.Ledger.Rows.{Pid, Lease, Ledger, lease_id, Host}
use plt_converter.Ledger.Policy.{Policy, second}
use plt_converter.Ledger.Process.{process_alive}
use plt_converter.Ledger.Expiry.{expire}
use plt_converter.Ledger.Leases.{is_absent, release}
use plt_converter.Ledger.Updates.{is_analysis}
use plt_converter.Ledger.Keys.{update_lease-HasKeys}
use plt_converter.Ledger.Quota.Upkeep.{update_lease-le}
use plt_converter.Ledger.Bounds.{IsFunded, IsBounded, IsBounded-shrink}
use plt_converter.Ledger.Bounds.Upkeep.{expire-IsBounded, release-IsBounded}

-- What the file child.json in a lease's folder names.
pub record Marker : Type 0 where
  pub pid : Pid
  pub identity : Option ℕ

abbrev pub is_claimed : Pid → Bool
is_claimed Pid.claimed = true
is_claimed _ = false

-- UPDATE leases SET pid=NULL, identity=NULL
abbrev pub clear_process : Lease → Lease
clear_process r = record r { pid = Pid.absent; identity = none }

abbrev pub supervised : Host → Lease → Bool
supervised h r = process_alive h (Pid.process r.supervisor) r.supervisor_identity

-- The last `if` of the loop; `pid` is row['pid'] by then.
unfoldable pub release_dead : Host → ℕ → Lease → Pid → Ledger → Ledger
release_dead h current r pid l =
    if not (supervised h r) && not (process_alive h pid r.identity)
    then release h current r.id l
    else l

-- One round of the loop over the leases.
unfoldable pub reconcile_row : Host → ℕ → (ℕ → Marker) → Lease → Ledger → Ledger
unfolding release_dead
reconcile_row h current marker r l =
    if is_analysis r.kind && is_absent r.pid && leb (r.created + 3600 * second) h.now
    then release h current r.id l
    else if is_claimed r.pid && not (supervised h r)
    then if process_alive h (marker r.id).pid (marker r.id).identity
      then l
      else release_dead h current r Pid.absent
          (record l { leases = update_row lease_id r.id clear_process l.leases })
    else release_dead h current r r.pid l

unfoldable pub reconcile_rows : Host → ℕ → (ℕ → Marker) → List Lease → Ledger → Ledger
unfolding reconcile_row
reconcile_rows h current marker [] l = l
reconcile_rows h current marker (r ∷ rs) l =
    reconcile_rows h current marker rs (reconcile_row h current marker r l)

unfoldable pub reconcile : Host → ℕ → (ℕ → Marker) → Ledger → Ledger
unfolding reconcile_rows
reconcile h current marker l = expire h current (reconcile_rows h current marker l.leases l)

module _ (h : Host) (p : Policy) (current : ℕ) where
  clear-IsBounded :
      (token : ℕ) (l : Ledger)
      → IsBounded p l
      → IsBounded p (record l { leases = update_row lease_id token clear_process l.leases })
  clear-IsBounded token l b =
      IsBounded-shrink p l _ (update_lease-HasKeys token clear_process (λ r. refl) l b.keys)
        (All-update_row IsFunded lease_id token clear_process (λ r f. f) l.leases b.funded)
        (λ q w.
          update_lease-le q token clear_process
            (λ r. w.launched r Pid.absent none r.supervisor r.supervisor_identity) l)
        b

  release_dead-IsBounded :
      (r : Lease) (pid : Pid) (l : Ledger)
      → IsBounded p l
      → IsBounded p (release_dead h current r pid l)
  unfolding release_dead
  release_dead-IsBounded r pid l b =
      elim (Bool-cases (not (supervised h r) && not (process_alive h pid r.identity))) [
        | inl dead ↦ rw dead (release-IsBounded h p current r.id l b)
        | inr alive ↦ rw alive b
      ]

  reconcile_row-IsBounded :
      (marker : ℕ → Marker) (r : Lease) (l : Ledger)
      → IsBounded p l
      → IsBounded p (reconcile_row h current marker r l)
  unfolding reconcile_row
  reconcile_row-IsBounded marker r l b =
      elim (Bool-cases
        (is_analysis r.kind && is_absent r.pid && leb (r.created + 3600 * second) h.now)) [
          | inl old ↦ rw old (release-IsBounded h p current r.id l b)
          | inr young ↦ elim (Bool-cases (is_claimed r.pid && not (supervised h r))) [
            | inl lost ↦
                elim (Bool-cases (process_alive h (marker r.id).pid (marker r.id).identity)) [
                  | inl alive ↦ rw (young, lost, alive) b
                  | inr dead ↦
                      rw (young, lost, dead)
                        (release_dead-IsBounded r Pid.absent _ (clear-IsBounded r.id l b))
                ]
            | inr kept ↦ rw (young, kept) (release_dead-IsBounded r r.pid l b)
          ]
        ]

  reconcile_rows-IsBounded :
      (marker : ℕ → Marker) (rs : List Lease) (l : Ledger)
      → IsBounded p l
      → IsBounded p (reconcile_rows h current marker rs l)
  unfolding reconcile_rows
  reconcile_rows-IsBounded marker [] l b = b
  reconcile_rows-IsBounded marker (r ∷ rs) l b =
      reconcile_rows-IsBounded marker rs _ (reconcile_row-IsBounded marker r l b)

  pub reconcile-IsBounded :
      (marker : ℕ → Marker) (l : Ledger)
      → IsBounded p l
      → IsBounded p (reconcile h current marker l)
  unfolding reconcile
  reconcile-IsBounded marker l b =
      expire-IsBounded h p current _ (reconcile_rows-IsBounded marker l.leases l b)
