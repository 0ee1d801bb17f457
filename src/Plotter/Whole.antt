-- ===== src/Plotter/Whole.antt =====
-- What parse_plt checks of its arguments under `strict`, before parse_numbers leaves any out.
use mathlib.Core.List.{append-nil, append_assoc}
use plt_converter.Prelude.{
  ℕ, ◌+◌, ◌≡◌, ◌∙◌, sym, ap, refl, arith, true, Option, none, some, List, [], ◌∷◌, ◌++◌, Bool-cases,
  inl, inr, length, ltb, map,
}
use plt_converter.Plotter.Floats.{Floats}
use plt_converter.Plotter.Tokens.{Command, number_tokens}
use plt_converter.Plotter.Drawing.{Parsed, ok, refuse, ◌>>=◌, Refusal, Rules, Limits}
use plt_converter.Plotter.Arguments.{
  is_plain_number, is_bounded, check_tokens, add_value, values_from, parse_numbers,
}

map-snoc {ℓ κ} :
    {A : Type ℓ} {B : Type κ} (f : A → B) (xs : List A) (x : A)
    → map f (xs ++ x ∷ []) ≡ map f xs ++ f x ∷ []
map-snoc f [] x = refl
map-snoc f (y ∷ xs) x = ap (λ ys. f y ∷ ys) (map-snoc f xs x)

refuse-ne-ok {ℓ κ} : {A : Type ℓ} {B : Type κ} {a : A} {x : Refusal} → refuse x ≡ ok a → B
refuse-ne-ok g = absurd (ground arith)

ok_inj {ℓ} : {A : Type ℓ} {x y : A} → ok x ≡ ok y → x ≡ y
ok_inj g = ground arith

module _ {F : Type 0} (fl : Floats F) (r : Rules F) (l : Limits) where
  check_tokens-head :
      (c : Command) (t : List ℕ) (ts : List (List ℕ))
      → check_tokens fl r l c (t ∷ ts) ≡ ok tt
      → (is_bounded fl r l (fl.number t) ≡ true) × (check_tokens fl r l c ts ≡ ok tt)
  check_tokens-head c t ts e = elim (Bool-cases (is_plain_number t)) [
    | inr odd ↦ refuse-ne-ok (simp odd at e)
    | inl plain ↦ elim (Bool-cases (is_bounded fl r l (fl.number t))) [
      | inl bounded ↦ (bounded, simp (plain, bounded) at e)
      | inr wild ↦ refuse-ne-ok (simp (plain, wild) at e)
    ]
  ]

  add_value-adds :
      (maximum : ℕ) (values : List F) (given : Option F) (vs : List F)
      → is_bounded fl r l given ≡ true
      → add_value fl r l maximum values given ≡ ok vs
      → map (λ x. some x) vs ≡ map (λ x. some x) values ++ given ∷ []
  add_value-adds maximum values none vs b e = absurd (ground arith)
  add_value-adds maximum values (some x) vs b e =
      elim (Bool-cases (ltb maximum (length values + 1))) [
        | inl full ↦ refuse-ne-ok (simp (b, full) at e)
        | inr room ↦
            let same : ok (values ++ x ∷ []) ≡ ok vs = simp (b, room) at e in
            ap (λ us. map (λ y. some y) us) (sym (ok_inj same)) ∙ map-snoc (λ y. some y) values x
      ]

  values_from-whole :
      (c : Command) (maximum : ℕ) (values ns : List F) (ts : List (List ℕ))
      → check_tokens fl r l c ts ≡ ok tt
      → values_from fl r l maximum values ts ≡ ok ns
      → map (λ x. some x) ns ≡ map (λ x. some x) values ++ map fl.number ts
  values_from-whole c maximum values ns [] h e =
      ap (λ us. map (λ x. some x) us) (sym (ok_inj e)) ∙ sym (append-nil (map (λ x. some x) values))
  values_from-whole c maximum values ns (t ∷ ts) h e =
      let (bounded, others) = check_tokens-head c t ts h in
      next (add_value fl r l maximum values (fl.number t)) bounded refl e
        (λ vs g. values_from-whole c maximum vs ns ts others g)
    where
      next :
          (m : Parsed (List F))
          → is_bounded fl r l (fl.number t) ≡ true
          → add_value fl r l maximum values (fl.number t) ≡ m
          → (m >>= λ vs. values_from fl r l maximum vs ts) ≡ ok ns
          → ((vs : List F)
              → values_from fl r l maximum vs ts ≡ ok ns
              → map (λ x. some x) ns ≡ map (λ x. some x) vs ++ map fl.number ts)
          → map (λ x. some x) ns ≡ map (λ x. some x) values ++ map fl.number (t ∷ ts)
      next (refuse x) bounded same g rest = refuse-ne-ok g
      next (ok vs) bounded same g rest =
          rest vs g
          ∙ ap (λ us. us ++ map fl.number ts)
              (add_value-adds maximum values (fl.number t) vs bounded same)
          ∙ append_assoc (map (λ x. some x) values) (fl.number t ∷ []) (map fl.number ts)

  -- Where every token of a text passes the checks of `strict` and parse_numbers returns, its values are
  -- those of all the tokens in order: none is left out.
  pub parse_numbers-whole :
      (c : Command) (maximum : ℕ) (text : List ℕ) (ns : List F)
      → check_tokens fl r l c (number_tokens text) ≡ ok tt
      → parse_numbers fl r l maximum text ≡ ok ns
      → map (λ x. some x) ns ≡ map fl.number (number_tokens text)
  unfolding parse_numbers
  parse_numbers-whole c maximum text ns h e =
      values_from-whole c maximum [] ns (number_tokens text) h e
