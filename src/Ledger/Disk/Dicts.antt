-- ===== src/Ledger/Disk/Dicts.antt =====
-- The two dicts of _disk_accounting of app/projection_store.py.
use plt_converter.Prelude.{ℕ, ◌+◌, ◌≤◌, ◌≡◌, refl, true, false, [], ◌∷◌, arith, ==_refl}
use plt_converter.Ledger.Disk.{
  Bucket, same_bucket, Buckets, amount, assign, zeroed, used_bytes, unwritten_bytes,
}

pub same_bucket_refl : (k : Bucket) → same_bucket k k ≡ true
same_bucket_refl Bucket.system = refl
same_bucket_refl Bucket.render_pool = refl
same_bucket_refl Bucket.untracked = refl
same_bucket_refl (Bucket.session n) = ==_refl n
same_bucket_refl (Bucket.lease n) = ==_refl n

abbrev pub sum_of : Buckets → ℕ
sum_of [] = 0
sum_of ((_, v) ∷ d) = v + sum_of d

-- No key of `d` is `k`.
abbrev pub Apart : Bucket → Buckets → Type 0
Apart k [] = Unit
Apart k ((j, v) ∷ d) = (same_bucket k j ≡ false) × Apart k d

abbrev pub Keyed : Buckets → Type 0
Keyed [] = Unit
Keyed ((k, v) ∷ d) = Apart k d × Keyed d

-- The keys of the second begin with those of the first.
abbrev pub Aligned : Buckets → Buckets → Type 0
Aligned [] c = Unit
Aligned ((k, w) ∷ d) [] = ⊥
Aligned ((k, w) ∷ d) ((j, v) ∷ c) = (j ≡ k) × Aligned d c

abbrev Unbudgeted : Buckets → Buckets → Type 0
Unbudgeted b [] = Unit
Unbudgeted b ((k, v) ∷ c) = (amount k b ≡ 0) × Unbudgeted b c

-- Entry by entry, `d` and `c` are what `b` and `a` say of their keys.
abbrev Linked : Buckets → Buckets → Buckets → Buckets → Type 0
Linked b a [] c = Unbudgeted b c
Linked b a ((k, w) ∷ d) [] = ⊥
Linked b a ((k, w) ∷ d) ((j, v) ∷ c) = (amount j b ≡ w) × (amount k a ≡ v) × Linked b a d c

Unbudgeted-cons :
    (k : Bucket) (w : ℕ) (b c : Buckets) → Apart k c → Unbudgeted b c → Unbudgeted ((k, w) ∷ b) c
Unbudgeted-cons k w b [] n h = tt
Unbudgeted-cons k w b ((j, v) ∷ c) n h = ground (arith, Unbudgeted-cons k w b c n.1 h.1)

Linked-cons :
    (k : Bucket) (w v : ℕ) (b a d c : Buckets)
    → Apart k d
    → Apart k c
    → Linked b a d c
    → Linked ((k, w) ∷ b) ((k, v) ∷ a) d c
Linked-cons k w v b a [] c m n h = Unbudgeted-cons k w b c n h
Linked-cons k w v b a ((i, x) ∷ d) [] m n h = h
Linked-cons k w v b a ((i, x) ∷ d) ((j, y) ∷ c) m n h =
    ground (arith, Linked-cons k w v b a d c m.1 n.1 h.2)

Unbudgeted-nil : (c : Buckets) → Unbudgeted [] c
Unbudgeted-nil [] = tt
Unbudgeted-nil ((j, v) ∷ c) = (refl, Unbudgeted-nil c)

Linked-self : (b a : Buckets) → Keyed b → Keyed a → Aligned b a → Linked b a b a
Linked-self [] a kb ka h = Unbudgeted-nil a
Linked-self ((k, w) ∷ d) [] kb ka h = h
Linked-self ((k, w) ∷ d) ((j, v) ∷ c) kb ka h =
    ground
      (arith, same_bucket_refl k, Linked-cons k w v d c d c kb.0, Linked-self d c kb.1 ka.1 h.1)

used-Linked : (b a d c : Buckets) → Linked b a d c → used_bytes b c ≡ sum_of c + unwritten_bytes a d
used-Linked b a [] [] h = refl
used-Linked b a [] ((j, v) ∷ c) h = omega (arith, used-Linked b a [] c h.1)
used-Linked b a ((k, w) ∷ d) [] h = absurd h
used-Linked b a ((k, w) ∷ d) ((j, v) ∷ c) h = omega (arith, used-Linked b a d c h.2)

sum-le-used : (b a d c : Buckets) → Linked b a d c → sum_of d ≤ used_bytes b c
sum-le-used b a [] c h = omega arith
sum-le-used b a ((k, w) ∷ d) [] h = absurd h
sum-le-used b a ((k, w) ∷ d) ((j, v) ∷ c) h = omega (arith, sum-le-used b a d c h.2)

module _ (b a : Buckets) (kb : Keyed b) (ka : Keyed a) (h : Aligned b a) where
  pub used-eq-sum : used_bytes b a ≡ sum_of a + unwritten_bytes a b
  used-eq-sum = used-Linked b a b a (Linked-self b a kb ka h)

  pub budgets-le-used : sum_of b ≤ used_bytes b a
  budgets-le-used = sum-le-used b a b a (Linked-self b a kb ka h)

Apart-assign :
    (j k : Bucket) (v : ℕ) (d : Buckets)
    → Apart j d
    → same_bucket j k ≡ false
    → Apart j (assign k v d)
Apart-assign j k v [] h n = (n, tt)
Apart-assign j k v ((i, w) ∷ d) h n = ground (arith, Apart-assign j k v d h.1 n)

pub assign-Keyed : (k : Bucket) (v : ℕ) (d : Buckets) → Keyed d → Keyed (assign k v d)
assign-Keyed k v [] h = (tt, tt)
assign-Keyed k v ((i, w) ∷ d) h = ground (arith, Apart-assign i k v d h.0, assign-Keyed k v d h.1)

pub assign-Aligned :
    (b : Buckets) (k : Bucket) (v : ℕ) (d : Buckets) → Aligned b d → Aligned b (assign k v d)
assign-Aligned [] k v d h = tt
assign-Aligned ((i, w) ∷ b) k v [] h = absurd h
assign-Aligned ((i, w) ∷ b) k v ((j, x) ∷ d) h = ground (arith, assign-Aligned b k v d h.1)

pub sum-assign :
    (k : Bucket) (n : ℕ) (d : Buckets) → sum_of (assign k (amount k d + n) d) ≡ sum_of d + n
sum-assign k n [] = omega arith
sum-assign k n ((j, v) ∷ d) = ground (arith, sum-assign k n d)

pub zeroed-Aligned : (b : Buckets) → Aligned b (zeroed b)
zeroed-Aligned [] = tt
zeroed-Aligned ((k, v) ∷ b) = (refl, zeroed-Aligned b)

Apart-zeroed : (k : Bucket) (b : Buckets) → Apart k b → Apart k (zeroed b)
Apart-zeroed k [] h = tt
Apart-zeroed k ((j, v) ∷ b) h = (h.0, Apart-zeroed k b h.1)

pub zeroed-Keyed : (b : Buckets) → Keyed b → Keyed (zeroed b)
zeroed-Keyed [] h = tt
zeroed-Keyed ((k, v) ∷ b) h = (Apart-zeroed k b h.0, zeroed-Keyed b h.1)

pub sum-zeroed : (b : Buckets) → sum_of (zeroed b) ≡ 0
sum-zeroed [] = refl
sum-zeroed ((k, v) ∷ b) = omega (arith, sum-zeroed b)
