-- ===== src/Plotter/Tokens.antt =====
-- iter_number_tokens of app/services/number_tokens.py, and how the loop of parse_plt cuts its text into
-- commands.
use plt_converter.Prelude.{
  ℕ, ◌==◌, Bool, ◌&&◌, ◌||◌, Option, none, some, List, [], ◌∷◌, ◌++◌, if◌then◌else◌,
}

-- A text is a list of code points. `in ', \t\r\n'`
abbrev pub is_separator : ℕ → Bool
is_separator c = (c == 44) || (c == 32) || (c == 9) || (c == 13) || (c == 10)

abbrev pub emit : List ℕ → List (List ℕ) → List (List ℕ)
emit [] rest = rest
emit (c ∷ cs) rest = (c ∷ cs) ∷ rest

-- The text read so far of a token, and the rest.
abbrev pub tokens_from : List ℕ → List ℕ → List (List ℕ)
tokens_from token [] = emit token []
tokens_from token (c ∷ cs) =
    let rest = tokens_from (if is_separator c then [] else token ++ c ∷ []) cs in
    if is_separator c then emit token rest else rest

-- iter_number_tokens
unfoldable pub number_tokens : List ℕ → List (List ℕ)
number_tokens text = tokens_from [] text

-- The two letters of a command, in upper case.
pub record Command : Type 0 where
  pub first : ℕ
  pub second : ℕ

abbrev pub is_command : Command → ℕ → ℕ → Bool
is_command c m n = (c.first == m) && (c.second == n)

-- 'LB'
abbrev pub is_label : Command → Bool
is_label c = is_command c 76 66

-- What the loop of parse_plt acts on: a piece that is no command, a label with its text, a command with
-- the text of its arguments.
pub data Token : Type 0 where
  junk : Token
  label : List ℕ → Token
  instruction : Command → List ℕ → Token

-- Where the loop stands: before a command, behind its first character, before the character that is
-- skipped behind junk, in a label, in arguments.
pub data Place : Type 0 where
  before skipping : Place
  halfway : ℕ → Place
  in_label : List ℕ → Place
  in_arguments : Command → List ℕ → Place

-- `in '\n\r\t ,'`, or ';' under the projection's rules
abbrev pub is_gap : Bool → ℕ → Bool
is_gap semantics c = is_separator c || (semantics && (c == 59))

abbrev pub is_label_end : ℕ → Bool
is_label_end c = (c == 3) || (c == 59)

abbrev pub at_end : Place → List Token
at_end Place.before = []
at_end Place.skipping = []
at_end (Place.halfway c) = Token.junk ∷ []
at_end (Place.in_label text) = Token.label text ∷ []
at_end (Place.in_arguments c text) = Token.instruction c text ∷ []

-- One character: the place behind it, and what it completes. `letter` is the upper-case letter of an
-- alphabetic character.
abbrev pub enter_command : Command → Place
enter_command c = if is_label c then Place.in_label [] else Place.in_arguments c []

abbrev pub pair : Option ℕ → Option ℕ → Place × List Token
pair none d = (Place.skipping, Token.junk ∷ [])
pair (some c) none = (Place.skipping, Token.junk ∷ [])
pair (some c) (some d) = (enter_command (record { first = c; second = d }), [])

abbrev pub advance : (ℕ → Option ℕ) → Bool → Place → ℕ → Place × List Token
advance letter semantics Place.before c =
    (if is_gap semantics c then Place.before else Place.halfway c, [])
advance letter semantics Place.skipping c = (Place.before, [])
advance letter semantics (Place.halfway b) c = pair (letter b) (letter c)
advance letter semantics (Place.in_label text) c =
    if is_label_end c
    then (Place.before, Token.label text ∷ [])
    else (Place.in_label (text ++ c ∷ []), [])
advance letter semantics (Place.in_arguments m text) c =
    if c == 59
    then (Place.before, Token.instruction m text ∷ [])
    else (Place.in_arguments m (text ++ c ∷ []), [])

abbrev pub lex_from : (ℕ → Option ℕ) → Bool → Place → List ℕ → List Token
lex_from letter semantics p [] = at_end p
lex_from letter semantics p (c ∷ cs) =
    let step = advance letter semantics p c in step.1 ++ lex_from letter semantics step.0 cs

unfoldable pub lex : (ℕ → Option ℕ) → Bool → List ℕ → List Token
lex letter semantics text = lex_from letter semantics Place.before text
