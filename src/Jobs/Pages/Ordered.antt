-- ===== src/Jobs/Pages/Ordered.antt =====
-- The selection that normalize_pdf_page_indexes returns.
use plt_converter.Prelude.{
  ℕ, zero, suc, ◌+◌, ◌≤◌, ◌<◌, ◌≡◌, ◌∙◌, refl, ap, Bool, false, Option, none, some, List, [], ◌∷◌,
  ◌++◌, ◌==◌, All, Bool-cases, Option-cases, inl, inr, leb, ltb, arith, subst, exists_where, count,
  one_if, All-snoc,
}
use plt_converter.Jobs.Pages.{
  Selection, range, insert, sort, valid_indexes, has_repeats, normalize_page_indexes,
}

-- Every entry is greater than the one before it, from a bound on.
abbrev pub IsRising : ℕ → List ℕ → Type 0
IsRising b [] = Unit
IsRising b (n ∷ ns) = (b ≤ n) × IsRising (n + 1) ns

abbrev occurs : ℕ → List ℕ → ℕ
occurs k ns = count (λ m. m == k) ns

abbrev is_entry : ℕ → Option ℕ → Bool
is_entry k none = false
is_entry k (some m) = m == k

some_inj {ℓ} : {A : Type ℓ} {x y : A} → some x ≡ some y → x ≡ y
some_inj e = ground arith

insert-IsRising :
    (b n : ℕ) (ms : List ℕ)
    → b ≤ n
    → exists_where (λ m. m == n) ms ≡ false
    → IsRising b ms
    → IsRising b (insert n ms)
insert-IsRising b n [] low new r = (low, tt)
insert-IsRising b n (m ∷ ms) low new r = elim (Bool-cases (leb n m)) [
  | inl first ↦ rw first (low, (ground arith, r.1))
  | inr later ↦ rw later (r.0, insert-IsRising (m + 1) n ms (ground arith) (ground arith) r.1)
]

exists-insert :
    (k n : ℕ) (ms : List ℕ)
    → exists_where (λ m. m == k) (insert n ms) ≡ exists_where (λ m. m == k) (n ∷ ms)
exists-insert k n [] = refl
exists-insert k n (m ∷ ms) = ground (arith, exists-insert k n ms)

exists-sort :
    (k : ℕ) (ms : List ℕ) → exists_where (λ m. m == k) (sort ms) ≡ exists_where (λ m. m == k) ms
exists-sort k [] = refl
exists-sort k (m ∷ ms) = ground (arith, exists-insert k m (sort ms), exists-sort k ms)

sort-IsRising : (ms : List ℕ) → has_repeats ms ≡ false → IsRising 0 (sort ms)
sort-IsRising [] h = tt
sort-IsRising (m ∷ ms) h =
    insert-IsRising 0 m (sort ms) (omega arith) (exists-sort m ms ∙ ground arith)
      (sort-IsRising ms (ground arith))

insert-All : (P : ℕ → Type 0) (n : ℕ) (ms : List ℕ) → P n → All P ms → All P (insert n ms)
insert-All P n [] p a = (p, tt)
insert-All P n (m ∷ ms) p a = elim (Bool-cases (leb n m)) [
  | inl first ↦ rw first (p, a)
  | inr later ↦ rw later (a.0, insert-All P n ms p a.1)
]

sort-All : (P : ℕ → Type 0) (ms : List ℕ) → All P ms → All P (sort ms)
sort-All P [] a = tt
sort-All P (m ∷ ms) a = insert-All P m (sort ms) a.0 (sort-All P ms a.1)

occurs-insert : (k n : ℕ) (ms : List ℕ) → occurs k (insert n ms) ≡ occurs k (n ∷ ms)
occurs-insert k n [] = refl
occurs-insert k n (m ∷ ms) = ground (arith, occurs-insert k n ms)

occurs-sort : (k : ℕ) (ms : List ℕ) → occurs k (sort ms) ≡ occurs k ms
occurs-sort k [] = refl
occurs-sort k (m ∷ ms) = ground (arith, occurs-insert k m (sort ms), occurs-sort k ms)

valid_indexes-below :
    (n : ℕ) (xs : List (Option ℕ)) (ks : List ℕ)
    → valid_indexes n xs ≡ some ks
    → All (λ k. k < n) ks
valid_indexes-below n [] ks e = subst (All (λ k. k < n)) (some_inj e) tt
valid_indexes-below n (none ∷ xs) ks e = absurd (ground arith)
valid_indexes-below n (some k ∷ xs) ks e = elim (Option-cases (valid_indexes n xs)) [
  | inl f ↦ absurd (ground arith)
  | inr (rest, f) ↦ elim (Bool-cases (ltb k n)) [
    | inr beyond ↦ absurd (ground arith)
    | inl within ↦
        let low : k < n = ground arith in
        let same : k ∷ rest ≡ ks = some_inj (rw (f, within) at e) in
        subst (All (λ m. m < n)) same (low, valid_indexes-below n xs rest f)
  ]
]

valid_indexes-occurs :
    (n k : ℕ) (xs : List (Option ℕ)) (ks : List ℕ)
    → valid_indexes n xs ≡ some ks
    → occurs k ks ≡ count (is_entry k) xs
valid_indexes-occurs n k [] ks e = rw (← some_inj e) refl
valid_indexes-occurs n k (none ∷ xs) ks e = absurd (ground arith)
valid_indexes-occurs n k (some m ∷ xs) ks e = elim (Option-cases (valid_indexes n xs)) [
  | inl f ↦ absurd (ground arith)
  | inr (rest, f) ↦ elim (Bool-cases (ltb m n)) [
    | inr beyond ↦ absurd (ground arith)
    | inl within ↦
        let same : m ∷ rest ≡ ks = some_inj (rw (f, within) at e) in
        rw (← same) (ap (λ t. one_if (m == k) + t) (valid_indexes-occurs n k xs rest f))
  ]
]

range-below : (n m : ℕ) → n ≤ m → All (λ k. k < m) (range n)
range-below zero m h = tt
range-below (suc n) m h =
    All-snoc (λ k. k < m) (range n) n (range-below n m (omega arith)) (omega arith)

snoc-IsRising :
    (b n : ℕ) (ns : List ℕ)
    → b ≤ n
    → IsRising b ns
    → All (λ k. k < n) ns
    → IsRising b (ns ++ n ∷ [])
snoc-IsRising b n [] h r a = (h, tt)
snoc-IsRising b n (m ∷ ns) h r a =
    let above : m + 1 ≤ n = let l = a.0 in omega (arith, l) in
    (r.0, snoc-IsRising (m + 1) n ns above r.1 a.1)

range-IsRising : (n : ℕ) → IsRising 0 (range n)
range-IsRising zero = tt
range-IsRising (suc n) =
    snoc-IsRising 0 n (range n) (omega arith) (range-IsRising n) (range-below n n (omega arith))

-- What a selection stands for: every page, or its own entries.
abbrev pub AreChosen : Selection → ℕ → List ℕ → Type 0
AreChosen Selection.every n ks = ks ≡ range n
AreChosen Selection.malformed n ks = ⊥
AreChosen (Selection.chosen xs) n ks = (k : ℕ) → occurs k ks ≡ count (is_entry k) xs

-- The pages that are returned, in rising order, each below the page count, and chosen.
pub record IsSelection (s : Selection) (n : ℕ) (ks : List ℕ) : Type 0 where
  pub rising : IsRising 0 ks
  pub below : All (λ k. k < n) ks
  pub chosen : AreChosen s n ks

-- Page indexes that are accepted are in strictly rising order, so that none is repeated, each below the
-- page count; they are all pages where no selection is given, and otherwise exactly the entries of the
-- selection.
pub normalize_page_indexes-IsSelection :
    (s : Selection) (n : ℕ) (ks : List ℕ)
    → normalize_page_indexes s n ≡ some ks
    → IsSelection s n ks
unfolding normalize_page_indexes
normalize_page_indexes-IsSelection s zero ks e = absurd (ground arith)
normalize_page_indexes-IsSelection Selection.every (suc n) ks e =
    subst (IsSelection Selection.every (suc n)) (some_inj e) (record {
      rising = range-IsRising (suc n);
      below = range-below (suc n) (suc n) (omega arith);
      chosen = refl;
    })
normalize_page_indexes-IsSelection Selection.malformed (suc n) ks e = absurd (ground arith)
normalize_page_indexes-IsSelection (Selection.chosen []) (suc n) ks e = absurd (ground arith)
normalize_page_indexes-IsSelection (Selection.chosen (x ∷ xs)) (suc n) ks e =
    elim (Option-cases (valid_indexes (suc n) (x ∷ xs))) [
      | inl f ↦ absurd (let g = rw f at e in ground arith)
      | inr (ms, f) ↦ elim (Bool-cases (has_repeats ms)) [
        | inl twice ↦ absurd (let g = rw (f, twice) at e in ground arith)
        | inr once ↦
            subst (IsSelection (Selection.chosen (x ∷ xs)) (suc n)) (some_inj (rw (f, once) at e))
              (record {
                rising = sort-IsRising ms once;
                below = sort-All (λ k. k < suc n) ms (valid_indexes-below (suc n) (x ∷ xs) ms f);
                chosen = λ k. occurs-sort k ms ∙ valid_indexes-occurs (suc n) k (x ∷ xs) ms f;
              })
      ]
    ]
