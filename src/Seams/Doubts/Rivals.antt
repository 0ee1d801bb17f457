-- ===== src/Seams/Doubts/Rivals.antt =====
-- _has_competing_layout against a description of a competing layout.
use plt_converter.Prelude.{
  ℕ, ◌≤◌, ◌≡◌, refl, sym, subst, ap, true, false, Option, none, some, List, [], ◌∷◌, arith, ◌⊎◌,
  inl, inr, All, Bool-cases, ltb, exists_where, ==→eq,
}
use plt_converter.Seams.Arithmetic.{Arithmetic}
use plt_converter.Seams.Evaluation.{Arrangement, blank_count}
use plt_converter.Seams.Blanks.{same_slot, same_slots}
use plt_converter.Seams.Doubts.{
  Identity, same_identity, identity_of, is_competitor, competes, has_competing,
}

abbrev pub Has : {A : Type 0} → A → List A → Type 0
Has x [] = ⊥
Has x (y ∷ ys) = (x ≡ y) ⊎ Has x ys

same_slot-eq : (x y : Option ℕ) → same_slot x y ≡ true → x ≡ y
same_slot-eq none none e = refl
same_slot-eq none (some q) e = absurd (ground arith)
same_slot-eq (some p) none e = absurd (ground arith)
same_slot-eq (some p) (some q) e = ap some (==→eq p q e)

same_slots-eq : (xs ys : List (Option ℕ)) → same_slots xs ys ≡ true → xs ≡ ys
same_slots-eq [] [] e = refl
same_slots-eq [] (y ∷ ys) e = absurd (ground arith)
same_slots-eq (x ∷ xs) [] e = absurd (ground arith)
same_slots-eq (x ∷ xs) (y ∷ ys) e =
    let h = same_slot-eq x y (ground arith) in
    let t = same_slots-eq xs ys (ground arith) in rw (h, t) refl

same_identity-eq : (x y : Identity) → same_identity x y ≡ true → x ≡ y
same_identity-eq x y e =
    let r = ==→eq x.rows y.rows (ground arith) in
    let c = ==→eq x.columns y.columns (ground arith) in
    let v = same_slots-eq x.visual y.visual (ground arith) in ground (arith, r, c, v)

module _ {F : Type 0} (a : Arithmetic F) where
  -- No more blanks than the best, four scored seams at least, nine tenths of the best's scored and of its
  -- matched seams, and within 0.02 of its confidence and of its shares of matched and perfect seams.
  pub record IsCompetitor (best c : Arrangement F) : Type 0 where
    pub blanks : blank_count a c ≤ blank_count a best
    pub evidence : 4 ≤ c.evidence
    pub scored :
        a.less (a.of_nat c.evidence) (a.mul (a.of_nat best.evidence) (a.decimal 9 1)) ≡ false
    pub matched :
        a.less (a.of_nat c.matched) (a.mul (a.of_nat best.matched) (a.decimal 9 1)) ≡ false
    pub confidence : a.less c.confidence (a.sub best.confidence (a.decimal 2 2)) ≡ false
    pub matched_share :
        a.less
          (a.div (a.of_nat c.matched) (a.of_nat c.evidence))
          (a.sub (a.div (a.of_nat best.matched) (a.of_nat best.evidence)) (a.decimal 2 2))
        ≡ false
    pub perfect_share :
        a.less
          (a.div (a.of_nat c.perfect) (a.of_nat c.evidence))
          (a.sub (a.div (a.of_nat best.perfect) (a.of_nat best.evidence)) (a.decimal 2 2))
        ≡ false

  competitor-is_competitor :
      (best c : Arrangement F) → IsCompetitor best c → is_competitor a best c ≡ true
  competitor-is_competitor best c k =
      let b = k.blanks in
      let e = k.evidence in
      let few : ltb (blank_count a best) (blank_count a c) ≡ false = ground arith in
      let enough : ltb c.evidence 4 ≡ false = ground arith in
      rw (few, enough, k.scored, k.matched, k.confidence, k.matched_share, k.perfect_share) refl

  module _ (best : Arrangement F) (candidates : List (Arrangement F)) where
    -- A picture that the best shows too, or a candidate that does not compete with it.
    abbrev pub IsHarmless : Identity → Type 0
    IsHarmless i =
        (i ≡ identity_of a best)
        ⊎ ((d : Arrangement F) × Has d candidates × (identity_of a d ≡ i) × (¬ IsCompetitor best d))

    seen-IsHarmless :
        (i : Identity) (seen : List Identity)
        → All IsHarmless seen
        → exists_where (same_identity i) seen ≡ true
        → IsHarmless i
    seen-IsHarmless i [] h e = absurd (ground arith)
    seen-IsHarmless i (s ∷ ss) h e = elim (Bool-cases (same_identity i s)) [
      | inl same ↦ subst IsHarmless (sym (same_identity-eq i s same)) h.0
      | inr other ↦ seen-IsHarmless i ss h.1 (rw other at e)
    ]

    competes-IsHarmless :
        (cs : List (Arrangement F)) (seen : List Identity)
        → All (λ c. Has c candidates) cs
        → All IsHarmless seen
        → competes a best cs seen ≡ false
        → All (λ c. IsHarmless (identity_of a c)) cs
    competes-IsHarmless [] seen m h e = tt
    competes-IsHarmless (c ∷ cs) seen m h e =
        elim (Bool-cases (exists_where (same_identity (identity_of a c)) seen)) [
          | inl met ↦ (
            seen-IsHarmless (identity_of a c) seen h met,
            competes-IsHarmless cs seen m.1 h (rw met at e),
          )
          | inr new ↦ elim (Bool-cases (is_competitor a best c)) [
            | inl rival ↦ absurd (let f = rw (new, rival) at e in ground arith)
            | inr harmless ↦
                let own : IsHarmless (identity_of a c) = inr (
                  c,
                  m.0,
                  refl,
                  λ k.
                      let f = competitor-is_competitor best c k in
                      absurd (ground (arith, f, harmless)),
                ) in
                (
                  own,
                  competes-IsHarmless cs (identity_of a c ∷ seen) m.1 (own, h)
                      (rw (new, harmless) at e),
                )
          ]
        ]

  Has-All :
      (cs ds : List (Arrangement F))
      → ((c : Arrangement F) → Has c cs → Has c ds)
      → All (λ c. Has c ds) cs
  Has-All [] ds f = tt
  Has-All (c ∷ cs) ds f = (f c (inl refl), Has-All cs ds (λ d h. f d (inr h)))

  -- With four scored seams and no competing layout, the picture of every candidate is harmless.
  pub uncontested :
      (candidates : List (Arrangement F)) (best : Arrangement F)
      → 4 ≤ best.evidence
      → has_competing a candidates best ≡ false
      → All (λ c. IsHarmless best candidates (identity_of a c)) candidates
  unfolding has_competing
  uncontested candidates best enough e =
      let many : ltb best.evidence 4 ≡ false = ground arith in
      competes-IsHarmless best candidates candidates (identity_of a best ∷ [])
        (Has-All candidates candidates (λ c h. h)) (inl refl, tt) (rw many at e)
