-- ===== src/Ledger/Disk.antt =====
-- _disk_accounting and _capacity of app/projection_store.py.
pub mod Dicts
pub mod Accounting
pub mod Promises
use plt_converter.Prelude.{
  ℕ, ◌+◌, ◌-◌, max, Bool, true, false, Option, none, some, List, [], ◌∷◌, ◌==◌, not, ltb,
  if◌then◌else◌, find_row, exists_where,
}
use plt_converter.Ledger.Rows.{
  Kind, is_tile, Lease, Session, Ledger, session_id, lease_id, Place, Host, Code, Result, ok, err,
  ◌>>=◌, ◌>>◌, raise_if, rejected,
}
use plt_converter.Ledger.Policy.{Policy, system_bytes, render_pool_bytes}

-- The keys of `budgets` and `actual`.
pub data Bucket : Type 0 where
  system render_pool untracked : Bucket
  session lease : ℕ → Bucket

abbrev pub same_bucket : Bucket → Bucket → Bool
same_bucket Bucket.system Bucket.system = true
same_bucket Bucket.render_pool Bucket.render_pool = true
same_bucket Bucket.untracked Bucket.untracked = true
same_bucket (Bucket.session m) (Bucket.session n) = m == n
same_bucket (Bucket.lease m) (Bucket.lease n) = m == n
same_bucket _ _ = false

-- A Python dict with these keys, in insertion order.
abbrev pub Buckets : Type 0
Buckets = List (Bucket × ℕ)

-- d.get(key, 0)
abbrev pub amount : Bucket → Buckets → ℕ
amount k [] = 0
amount k ((j, v) ∷ d) = if same_bucket j k then v else amount k d

-- d[key] = v
abbrev pub assign : Bucket → ℕ → Buckets → Buckets
assign k v [] = (k, v) ∷ []
assign k v ((j, w) ∷ d) = if same_bucket j k then (j, v) ∷ d else (j, w) ∷ assign k v d

abbrev pub session_budgets : List Session → Buckets → Buckets
session_budgets [] d = d
session_budgets (s ∷ ss) d = session_budgets ss (assign (Bucket.session s.id) s.budget d)

abbrev pub lease_budgets : List Lease → Buckets → Buckets
lease_budgets [] d = d
lease_budgets (l ∷ ls) d =
    lease_budgets ls (if is_tile l.kind then d else assign (Bucket.lease l.id) l.budget d)

unfoldable pub budgets : Policy → Ledger → Buckets
budgets p l = lease_budgets l.leases (
    session_budgets l.sessions
      ((Bucket.system, system_bytes p) ∷ (Bucket.render_pool, render_pool_bytes p) ∷ []))

-- {key: 0 for key in budgets}
abbrev pub zeroed : Buckets → Buckets
zeroed [] = []
zeroed ((k, _) ∷ d) = (k, 0) ∷ zeroed d

-- The key that a file's bytes are charged to.
unfoldable pub bucket_of : Ledger → Place → Bucket
bucket_of l Place.base = Bucket.system
bucket_of l Place.database = Bucket.system
bucket_of l (Place.source_file d) =
    if exists_where (λ s. session_id s == d) l.sessions then Bucket.session d else Bucket.untracked
bucket_of l (Place.metadata_file d) =
    if exists_where (λ s. session_id s == d) l.sessions then Bucket.session d else Bucket.untracked
bucket_of l (Place.work_file i) = elim (find_row lease_id i l.leases) [
  | none ↦ Bucket.untracked
  | some r ↦ if is_tile r.kind then Bucket.render_pool else Bucket.lease i
]
bucket_of l Place.elsewhere = Bucket.untracked

-- The loop over os.walk; each entry comes with its allocated bytes.
unfoldable pub charge : Ledger → List (Place × ℕ) → Buckets → Buckets
unfolding bucket_of
charge l [] d = d
charge l ((place, bytes) ∷ files) d =
    let k = bucket_of l place in charge l files (assign k (amount k d + bytes) d)

-- sum(max(budgets.get(key,0), value) for key, value in actual.items())
abbrev pub used_bytes : Buckets → Buckets → ℕ
used_bytes b [] = 0
used_bytes b ((k, v) ∷ d) = max (amount k b) v + used_bytes b d

-- sum(max(value-actual.get(key,0),0) for key, value in budgets.items())
abbrev pub unwritten_bytes : Buckets → Buckets → ℕ
unwritten_bytes a [] = 0
unwritten_bytes a ((k, v) ∷ d) = (v - amount k a) + unwritten_bytes a d

unfoldable pub disk_accounting : Host → Policy → Ledger → ℕ × ℕ
unfolding budgets charge
disk_accounting h p l =
    let b = budgets p l in
    let a = charge l h.walk (zeroed b) in (used_bytes b a, unwritten_bytes a b)

-- A negative `free-unwritten-additional` is below the floor too.
unfoldable pub check_capacity : Host → Policy → Ledger → ℕ → Kind → Result (Unit {0})
check_capacity h p l budget kind =
    let (used, unwritten) = disk_accounting h p l in
    let additional = if is_tile kind then 0 else budget in
    do
      raise_if (ltb p.global_disk_bytes (used + additional)) (rejected Code.capacity 429 1)
      raise_if (ltb h.free (p.free_floor_bytes + unwritten + additional))
          (rejected Code.disk_floor 503 1)
