-- ===== src/Plotter/Cutting.antt =====
-- What the loop of parse_plt and iter_number_tokens read back from a written text.
use mathlib.Core.List.{append-nil, append_assoc}
use plt_converter.Prelude.{
  ℕ, ◌==◌, ◌≡◌, ◌∙◌, sym, ap, refl, arith, Bool, false, Option, some, List, [], ◌∷◌, ◌++◌, All,
}
use plt_converter.Plotter.Tokens.{
  is_separator, emit, tokens_from, number_tokens, Command, is_label, is_gap, is_label_end, Place,
  lex, lex_from, Token,
}

snoc-append {ℓ} :
    {A : Type ℓ} (xs : List A) (x : A) (ys : List A) → (xs ++ x ∷ []) ++ ys ≡ xs ++ x ∷ ys
snoc-append xs x ys = append_assoc xs (x ∷ []) ys

-- Numbers with a comma behind each.
abbrev pub joined : List (List ℕ) → List ℕ
joined [] = []
joined (t ∷ ts) = t ++ 44 ∷ joined ts

-- A token of number text: not empty, and without a separator.
abbrev pub IsNumberText : List ℕ → Type 0
IsNumberText [] = ⊥
IsNumberText (c ∷ cs) = All (λ d. is_separator d ≡ false) (c ∷ cs)

tokens_from-joined :
    (token t rest : List ℕ)
    → All (λ d. is_separator d ≡ false) t
    → tokens_from token (t ++ 44 ∷ rest) ≡ emit (token ++ t) (tokens_from [] rest)
tokens_from-joined token [] rest h = ap (λ u. emit u (tokens_from [] rest)) (sym (append-nil token))
tokens_from-joined token (c ∷ cs) rest h = rw h.0 (
    tokens_from-joined (token ++ c ∷ []) cs rest h.1
    ∙ ap (λ u. emit u (tokens_from [] rest)) (snoc-append token c cs))

-- The tokens of a text are the numbers that it was written from.
pub number_tokens-joined :
    (ts : List (List ℕ)) → All IsNumberText ts → number_tokens (joined ts) ≡ ts
unfolding number_tokens
number_tokens-joined [] h = refl
number_tokens-joined ([] ∷ ts) h = absurd h.0
number_tokens-joined ((c ∷ cs) ∷ ts) h =
    tokens_from-joined [] (c ∷ cs) (joined ts) h.0
    ∙ ap (λ us. (c ∷ cs) ∷ us) (number_tokens-joined ts h.1)

-- A command as a file writes it: a label ends with ETX, other commands with a semicolon.
abbrev pub written : List Token → List ℕ
written [] = []
written (Token.junk ∷ ts) = written ts
written (Token.label text ∷ ts) = 76 ∷ 66 ∷ text ++ 3 ∷ written ts
written (Token.instruction c text ∷ ts) = c.first ∷ c.second ∷ text ++ 59 ∷ written ts

module _ (letter : ℕ → Option ℕ) (semantics : Bool) where
  -- A label without the characters that end it; a command of two upper-case letters other than LB, with
  -- no semicolon in its arguments.
  abbrev pub IsWritable : Token → Type 0
  IsWritable Token.junk = ⊥
  IsWritable (Token.label text) = All (λ d. is_label_end d ≡ false) text
  IsWritable (Token.instruction c text) =
      (is_gap semantics c.first ≡ false)
      × (letter c.first ≡ some c.first)
      × (letter c.second ≡ some c.second)
      × (is_label c ≡ false)
      × All (λ d. (d == 59) ≡ false) text

  read_label :
      (acc text rest : List ℕ)
      → All (λ d. is_label_end d ≡ false) text
      → lex_from letter semantics (Place.in_label acc) (text ++ 3 ∷ rest)
        ≡ Token.label (acc ++ text) ∷ lex_from letter semantics Place.before rest
  read_label acc [] rest h =
      ap (λ u. Token.label u ∷ lex_from letter semantics Place.before rest) (sym (append-nil acc))
  read_label acc (c ∷ cs) rest h = rw h.0 (
      read_label (acc ++ c ∷ []) cs rest h.1
      ∙ ap (λ u. Token.label u ∷ lex_from letter semantics Place.before rest)
          (snoc-append acc c cs))

  read_arguments :
      (c : Command) (acc text rest : List ℕ)
      → All (λ d. (d == 59) ≡ false) text
      → lex_from letter semantics (Place.in_arguments c acc) (text ++ 59 ∷ rest)
        ≡ Token.instruction c (acc ++ text) ∷ lex_from letter semantics Place.before rest
  read_arguments c acc [] rest h =
      ap (λ u. Token.instruction c u ∷ lex_from letter semantics Place.before rest)
        (sym (append-nil acc))
  read_arguments c acc (d ∷ ds) rest h = rw h.0 (
      read_arguments c (acc ++ d ∷ []) ds rest h.1
      ∙ ap (λ u. Token.instruction c u ∷ lex_from letter semantics Place.before rest)
          (snoc-append acc d ds))

  -- With L and B as letters, the commands of a text are those that it was written from.
  pub lex-written :
      (ts : List Token)
      → letter 76 ≡ some 76
      → letter 66 ≡ some 66
      → All IsWritable ts
      → lex letter semantics (written ts) ≡ ts
  unfolding lex
  lex-written [] l b h = refl
  lex-written (Token.junk ∷ ts) l b h = absurd h.0
  lex-written (Token.label text ∷ ts) l b h =
      let gap : is_gap semantics 76 ≡ false = ground arith in
      rw (gap, l, b)
        (read_label [] text (written ts) h.0
          ∙ ap (λ us. Token.label text ∷ us) (lex-written ts l b h.1))
  lex-written (Token.instruction c text ∷ ts) l b h =
      let (gap, first, second, other, plain) = h.0 in
      rw (gap, first, second, other)
        (read_arguments c [] text (written ts) plain
          ∙ ap (λ us. Token.instruction c text ∷ us) (lex-written ts l b h.1))
