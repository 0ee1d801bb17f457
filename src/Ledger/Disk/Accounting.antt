-- ===== src/Ledger/Disk/Accounting.antt =====
-- _disk_accounting of app/projection_store.py: the bytes it charges.
use plt_converter.Prelude.{ℕ, ◌+◌, ◌≡◌, refl, List, [], ◌∷◌, arith, if◌then◌else◌}
use plt_converter.Ledger.Rows.{is_tile, Lease, Session, Ledger, Place, Host}
use plt_converter.Ledger.Policy.{Policy}
use plt_converter.Ledger.Disk.{
  Bucket, Buckets, amount, assign, session_budgets, lease_budgets, budgets, zeroed, bucket_of,
  charge, disk_accounting,
}
use plt_converter.Ledger.Disk.Dicts.{
  sum_of, Keyed, Aligned, used-eq-sum, assign-Keyed, assign-Aligned, sum-assign, zeroed-Aligned,
  zeroed-Keyed, sum-zeroed,
}

abbrev pub bytes_of : List (Place × ℕ) → ℕ
bytes_of [] = 0
bytes_of ((_, n) ∷ files) = n + bytes_of files

session_budgets-Keyed : (ss : List Session) (d : Buckets) → Keyed d → Keyed (session_budgets ss d)
session_budgets-Keyed [] d h = h
session_budgets-Keyed (s ∷ ss) d h =
    session_budgets-Keyed ss (assign (Bucket.session s.id) s.budget d)
      (assign-Keyed (Bucket.session s.id) s.budget d h)

lease_budgets-Keyed : (ls : List Lease) (d : Buckets) → Keyed d → Keyed (lease_budgets ls d)
lease_budgets-Keyed [] d h = h
lease_budgets-Keyed (l ∷ ls) d h =
    lease_budgets-Keyed ls (if is_tile l.kind then d else assign (Bucket.lease l.id) l.budget d)
      (ground (arith, assign-Keyed (Bucket.lease l.id) l.budget d h))

pub budgets-Keyed : (p : Policy) (l : Ledger) → Keyed (budgets p l)
unfolding budgets
budgets-Keyed p l =
    lease_budgets-Keyed l.leases _ (session_budgets-Keyed l.sessions _ ((refl, tt), (tt, tt)))

pub charge-Keyed :
    (l : Ledger) (files : List (Place × ℕ)) (d : Buckets) → Keyed d → Keyed (charge l files d)
unfolding charge
charge-Keyed l [] d h = h
charge-Keyed l ((place, n) ∷ files) d h =
    let k = bucket_of l place in
    charge-Keyed l files (assign k (amount k d + n) d) (assign-Keyed k (amount k d + n) d h)

pub charge-Aligned :
    (b : Buckets) (l : Ledger) (files : List (Place × ℕ)) (d : Buckets)
    → Aligned b d
    → Aligned b (charge l files d)
unfolding charge
charge-Aligned b l [] d h = h
charge-Aligned b l ((place, n) ∷ files) d h =
    let k = bucket_of l place in
    charge-Aligned b l files (assign k (amount k d + n) d) (assign-Aligned b k (amount k d + n) d h)

sum-charge :
    (l : Ledger) (files : List (Place × ℕ)) (d : Buckets)
    → sum_of (charge l files d) ≡ sum_of d + bytes_of files
unfolding charge
sum-charge l [] d = omega arith
sum-charge l ((place, n) ∷ files) d =
    let k = bucket_of l place in
    omega (arith, sum-charge l files (assign k (amount k d + n) d), sum-assign k n d)

-- Every byte under the root is charged exactly once: the used bytes are the bytes that the files
-- take, wherever they lie, and the reserved bytes that no file has taken yet.
pub used-eq-walk_unwritten :
    (h : Host) (p : Policy) (l : Ledger)
    → (disk_accounting h p l).0 ≡ bytes_of h.walk + (disk_accounting h p l).1
unfolding disk_accounting
used-eq-walk_unwritten h p l =
    let b = budgets p l in
    let a = charge l h.walk (zeroed b) in
    omega (
      arith,
      used-eq-sum b a (budgets-Keyed p l)
          (charge-Keyed l h.walk (zeroed b) (zeroed-Keyed b (budgets-Keyed p l)))
          (charge-Aligned b l h.walk (zeroed b) (zeroed-Aligned b)),
      sum-charge l h.walk (zeroed b),
      sum-zeroed b,
    )
