-- ===== src/Ledger/Disk/Promises.antt =====
-- _disk_accounting and _capacity of app/projection_store.py: the bytes that the rows are promised.
use plt_converter.Prelude.{
  ℕ, ◌+◌, ◌≤◌, ◌≡◌, refl, false, List, [], ◌∷◌, arith, total, Distinct, has_key, if◌then◌else◌,
}
use plt_converter.Ledger.Rows.{
  Kind, is_tile, Lease, Session, Ledger, session_id, lease_id, Host, ok,
}
use plt_converter.Ledger.Policy.{Policy, system_bytes, render_pool_bytes}
use plt_converter.Ledger.Disk.{
  Bucket, same_bucket, Buckets, assign, session_budgets, lease_budgets, budgets, zeroed, charge,
  disk_accounting, check_capacity,
}
use plt_converter.Ledger.Disk.Dicts.{sum_of, budgets-le-used, zeroed-Aligned, zeroed-Keyed}
use plt_converter.Ledger.Disk.Accounting.{budgets-Keyed, charge-Keyed, charge-Aligned}

-- Tiles draw on the render pool.
abbrev pub promised_by : Lease → ℕ
promised_by r = if is_tile r.kind then 0 else r.budget

abbrev pub promised_to : Session → ℕ
promised_to s = s.budget

-- `d[k]` is not set.
abbrev Absent : Bucket → Buckets → Type 0
Absent k [] = Unit
Absent k ((j, v) ∷ d) = (same_bucket j k ≡ false) × Absent k d

sum-assign_new :
    (k : Bucket) (v : ℕ) (d : Buckets) → Absent k d → sum_of (assign k v d) ≡ sum_of d + v
sum-assign_new k v [] h = omega arith
sum-assign_new k v ((j, w) ∷ d) h = ground (arith, sum-assign_new k v d h.1)

Absent-assign :
    (j k : Bucket) (v : ℕ) (d : Buckets)
    → Absent j d
    → same_bucket k j ≡ false
    → Absent j (assign k v d)
Absent-assign j k v [] h n = (n, tt)
Absent-assign j k v ((i, w) ∷ d) h n = ground (arith, Absent-assign j k v d h.1 n)

abbrev NewSessions : List Session → Buckets → Type 0
NewSessions [] d = Unit
NewSessions (s ∷ ss) d = Absent (Bucket.session s.id) d × NewSessions ss d

abbrev NewLeases : List Lease → Buckets → Type 0
NewLeases [] d = Unit
NewLeases (r ∷ rs) d = Absent (Bucket.lease r.id) d × NewLeases rs d

NewSessions-assign :
    (n v : ℕ) (ss : List Session) (d : Buckets)
    → has_key session_id n ss ≡ false
    → NewSessions ss d
    → NewSessions ss (assign (Bucket.session n) v d)
NewSessions-assign n v [] d k h = tt
NewSessions-assign n v (s ∷ ss) d k h = ground (
  arith,
  Absent-assign (Bucket.session s.id) (Bucket.session n) v d h.0,
  NewSessions-assign n v ss d,
)

NewLeases-assign :
    (n v : ℕ) (rs : List Lease) (d : Buckets)
    → has_key lease_id n rs ≡ false
    → NewLeases rs d
    → NewLeases rs (assign (Bucket.lease n) v d)
NewLeases-assign n v [] d k h = tt
NewLeases-assign n v (r ∷ rs) d k h =
    ground
      (arith, Absent-assign (Bucket.lease r.id) (Bucket.lease n) v d h.0, NewLeases-assign n v rs d)

NewLeases-session :
    (n v : ℕ) (rs : List Lease) (d : Buckets)
    → NewLeases rs d
    → NewLeases rs (assign (Bucket.session n) v d)
NewLeases-session n v [] d h = tt
NewLeases-session n v (r ∷ rs) d h = (
  Absent-assign (Bucket.lease r.id) (Bucket.session n) v d h.0 refl,
  NewLeases-session n v rs d h.1,
)

sum-session_budgets :
    (ss : List Session) (d : Buckets)
    → Distinct session_id ss
    → NewSessions ss d
    → sum_of (session_budgets ss d) ≡ sum_of d + total promised_to ss
sum-session_budgets [] d u h = omega arith
sum-session_budgets (s ∷ ss) d u h = omega (
  arith,
  sum-session_budgets ss (assign (Bucket.session s.id) s.budget d) u.1
      (NewSessions-assign s.id s.budget ss d u.0 h.1),
  sum-assign_new (Bucket.session s.id) s.budget d h.0,
)

NewLeases-session_budgets :
    (ss : List Session) (rs : List Lease) (d : Buckets)
    → NewLeases rs d
    → NewLeases rs (session_budgets ss d)
NewLeases-session_budgets [] rs d h = h
NewLeases-session_budgets (s ∷ ss) rs d h =
    NewLeases-session_budgets ss rs (assign (Bucket.session s.id) s.budget d)
      (NewLeases-session s.id s.budget rs d h)

sum-lease_budgets :
    (rs : List Lease) (d : Buckets)
    → Distinct lease_id rs
    → NewLeases rs d
    → sum_of (lease_budgets rs d) ≡ sum_of d + total promised_by rs
sum-lease_budgets [] d u h = omega arith
sum-lease_budgets (r ∷ rs) d u h = ground (
  arith,
  sum-lease_budgets rs d u.1 h.1,
  sum-lease_budgets rs (assign (Bucket.lease r.id) r.budget d) u.1
      (NewLeases-assign r.id r.budget rs d u.0 h.1),
  sum-assign_new (Bucket.lease r.id) r.budget d h.0,
)

fixed_NewSessions :
    (ss : List Session) (v w : ℕ)
    → NewSessions ss ((Bucket.system, v) ∷ (Bucket.render_pool, w) ∷ [])
fixed_NewSessions [] v w = tt
fixed_NewSessions (s ∷ ss) v w = ((refl, (refl, tt)), fixed_NewSessions ss v w)

fixed_NewLeases :
    (rs : List Lease) (v w : ℕ) → NewLeases rs ((Bucket.system, v) ∷ (Bucket.render_pool, w) ∷ [])
fixed_NewLeases [] v w = tt
fixed_NewLeases (r ∷ rs) v w = ((refl, (refl, tt)), fixed_NewLeases rs v w)

-- The primary keys of the two tables.
pub record HasKeys (l : Ledger) : Type 0 where
  pub session_keys : Distinct session_id l.sessions
  pub lease_keys : Distinct lease_id l.leases

abbrev pub promised : Policy → Ledger → ℕ
promised p l =
    system_bytes p
    + render_pool_bytes p
    + (total promised_to l.sessions + total promised_by l.leases)

sum-budgets : (p : Policy) (l : Ledger) → HasKeys l → sum_of (budgets p l) ≡ promised p l
unfolding budgets
sum-budgets p l k =
    let d : Buckets =
      (Bucket.system, system_bytes p) ∷ (Bucket.render_pool, render_pool_bytes p) ∷ [] in
    omega (
      arith,
      sum-lease_budgets l.leases (session_budgets l.sessions d) k.lease_keys
          (NewLeases-session_budgets l.sessions l.leases d (fixed_NewLeases l.leases _ _)),
      sum-session_budgets l.sessions d k.session_keys (fixed_NewSessions l.sessions _ _),
    )

-- What is promised counts as used, whatever the files take.
pub promised-le-used :
    (h : Host) (p : Policy) (l : Ledger) → HasKeys l → promised p l ≤ (disk_accounting h p l).0
unfolding disk_accounting
promised-le-used h p l k =
    let b = budgets p l in
    let a = charge l h.walk (zeroed b) in
    omega (
      arith,
      budgets-le-used b a (budgets-Keyed p l)
          (charge-Keyed l h.walk (zeroed b) (zeroed-Keyed b (budgets-Keyed p l)))
          (charge-Aligned b l h.walk (zeroed b) (zeroed-Aligned b)),
      sum-budgets p l k,
    )

-- A reservation that passes, on tables with primary keys: the promises and the new one stay within
-- the global budget, and the disk keeps its free floor once every promise and the new one are
-- written.
pub check_capacity_fits :
    (h : Host) (p : Policy) (l : Ledger) (budget : ℕ) (kind : Kind)
    → HasKeys l
    → check_capacity h p l budget kind ≡ ok tt
    → (promised p l + (if is_tile kind then 0 else budget) ≤ p.global_disk_bytes)
      × (p.free_floor_bytes + (disk_accounting h p l).1 + (if is_tile kind then 0 else budget)
          ≤ h.free)
unfolding check_capacity
check_capacity_fits h p l budget kind k e = ground (arith, promised-le-used h p l k)
