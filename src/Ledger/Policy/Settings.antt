-- ===== src/Ledger/Policy/Settings.antt =====
-- class Policy of app/projection_store.py: one setting, read and printed.
use plt_converter.Prelude.{
  ℕ, zero, suc, ◌+◌, ◌*◌, ◌/◌, ◌%◌, ◌≤◌, ◌<◌, ◌≡◌, ◌∙◌, ap, ◌-◌, refl, sym, true, some, List, [],
  ◌∷◌, ◌++◌, arith, ◌||◌, not, ltb, inl, inr, Bool-cases, Option-cases, ==_refl,
}
use plt_converter.Ledger.Rows.{ok}
use plt_converter.Ledger.Policy.{
  Setting, missing, flag, text, read_digits, read_number, show_digits, show_number, same_text,
  largest, required,
}

read_digits-snoc :
    (xs : List ℕ) (n a d : ℕ)
    → read_digits a xs ≡ some n
    → d < 10
    → read_digits a (xs ++ (48 + d) ∷ []) ≡ some (n * 10 + d)
unfolding read_digits
read_digits-snoc [] n a d e small = ground arith
read_digits-snoc (x ∷ xs) n a d e small =
    ground (arith, read_digits-snoc xs n (a * 10 + (x - 48)) d, small)

read_digits-show : (f n : ℕ) → n < f → read_digits 0 (show_digits f n) ≡ some n
unfolding show_digits
read_digits-show zero n h = absurd (omega arith)
read_digits-show (suc f) n h = elim (Bool-cases (ltb n 10)) [
  | inl small ↦ unfold read_digits in rw small (ground arith)
  | inr large ↦ rw large (
      let rest : read_digits 0 (show_digits f (n / 10)) ≡ some (n / 10) =
        read_digits-show f (n / 10) (ground arith) in
      let q : n / 10 * 10 + n % 10 ≡ n = omega arith in
      read_digits-snoc (show_digits f (n / 10)) (n / 10) 0 (n % 10) rest (omega arith) ∙ ap some q)
]

same_text_refl : (t : List ℕ) → same_text t t ≡ true
same_text_refl [] = refl
same_text_refl (c ∷ cs) = ground (arith, ==_refl c, same_text_refl cs)

same_text→eq : (s t : List ℕ) → same_text s t ≡ true → s ≡ t
same_text→eq [] [] e = refl
same_text→eq [] (d ∷ ds) e = absurd (ground arith)
same_text→eq (c ∷ cs) [] e = absurd (ground arith)
same_text→eq (c ∷ cs) (d ∷ ds) e = ground (arith, same_text→eq cs ds)

read_number-snoc : (xs : List ℕ) (y : ℕ) → read_number (xs ++ y ∷ []) ≡ read_digits 0 (xs ++ y ∷ [])
unfolding read_number
read_number-snoc [] y = refl
read_number-snoc (x ∷ xs) y = refl

-- int(str(n)) == n
pub read_number-show_number : (n : ℕ) → read_number (show_number n) ≡ some n
unfolding show_number show_digits
read_number-show_number n = elim (Bool-cases (ltb n 10)) [
  | inl small ↦
      let shown = read_digits-show (suc n) n (omega arith) in
      rw small (read_number-snoc [] (48 + n) ∙ rw small at shown)
  | inr large ↦
      let shown = read_digits-show (suc n) n (omega arith) in
      rw large (read_number-snoc (show_digits n (n / 10)) (48 + n % 10) ∙ rw large at shown)
]

pub required-show_number : (n : ℕ) → 1 ≤ n → n ≤ largest → required (text (show_number n)) ≡ ok n
unfolding required
required-show_number n low high =
    ground (arith, read_number-show_number n, same_text_refl (show_number n))

-- A required setting that is accepted as `n` is the text that prints `n`, and 1 ≤ n < 2^53.
pub required-exact :
    (s : Setting) (n : ℕ) → required s ≡ ok n → (s ≡ text (show_number n)) × (1 ≤ n) × (n ≤ largest)
unfolding required
required-exact missing n e = absurd (ground arith)
required-exact (flag b) n e = absurd (ground arith)
required-exact (text t) n e = elim (Option-cases (read_number t)) [
  | inl bad ↦ absurd (ground arith)
  | inr (m, read) ↦
      elim (Bool-cases (ltb m 1 || ltb largest m || not (same_text (show_number m) t))) [
        | inl refused ↦ absurd (ground arith)
        | inr accepted ↦
            let q : m ≡ n = ground arith in
            let same : same_text (show_number m) t ≡ true = ground arith in
            let shown : show_number m ≡ t = same_text→eq (show_number m) t same in
            (ap text (sym shown ∙ ap show_number q), ground arith, ground arith)
      ]
]
