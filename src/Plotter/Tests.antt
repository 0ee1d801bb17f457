-- ===== src/Plotter/Tests.antt =====
-- A short plotter file, read with thousandths in place of floating-point numbers.
use plt_converter.Prelude.{
  ℕ, ◌+◌, ◌-◌, ◌*◌, ◌/◌, ◌%◌, ◌≡◌, refl, Bool, true, false, ◌&&◌, Option, none, some, List, [], ◌∷◌,
  ◌==◌, leb, if◌then◌else◌, map,
}
use plt_converter.Seams.Tests.{Fixed, fixed, magnitude}
use plt_converter.Plotter.Floats.{Pen, Floats}
use plt_converter.Plotter.Tokens.{Token, number_tokens, lex}
use plt_converter.Plotter.Drawing.{ok, Rules, Limits, limits_of, Point, Style, Figure}
use plt_converter.Plotter.Strokes.{add_point}
use plt_converter.Plotter.Arguments.{is_plain_number, check_tokens, parse_numbers}
use plt_converter.Plotter.Reading.{Texts, Document, parse_plt}
use plt_converter.Plotter.Cutting.{joined, number_tokens-joined, written, lex-written}
use plt_converter.Plotter.Whole.{parse_numbers-whole}
use plt_converter.Plotter.Bounds.Documents.{IsSheet, parse_plt-IsSheet}

-- A number of decimal digits.
abbrev digits_from : ℕ → List ℕ → Option ℕ
digits_from n [] = some n
digits_from n (c ∷ cs) =
    let rest = digits_from (n * 10 + (c - 48)) cs in if leb 48 c && leb c 57 then rest else none

abbrev number_of : List ℕ → Option Fixed
number_of [] = none
number_of (c ∷ cs) = elim (digits_from 0 (c ∷ cs)) [
  | none ↦ none
  | some n ↦ some (Fixed.plus (n * 1000))
]

abbrev whole_of : Fixed → Pen
whole_of (Fixed.plus n) = Pen.pen (n / 1000)
whole_of (Fixed.minus n) = if n / 1000 == 0 then Pen.pen 0 else Pen.below_zero (n / 1000)

abbrev rounded_up : Fixed → ℕ
rounded_up (Fixed.plus n) = (n + 999) / 1000
rounded_up (Fixed.minus n) = 0

abbrev is_whole : Fixed → Bool
is_whole (Fixed.plus n) = n % 1000 == 0
is_whole (Fixed.minus n) = n % 1000 == 0

-- The curves are those of a plane in which every arc is straight.
abbrev floats : Floats Fixed
floats = record {
  base = fixed;
  number = number_of;
  is_finite = λ x. true;
  is_integer = is_whole;
  truncate = whole_of;
  ceiling = rounded_up;
  floor = λ x. x;
  round = λ x. x;
  pi = Fixed.plus 3142;
  cos = λ x. Fixed.plus 1000;
  sin = λ x. Fixed.plus 0;
  asin = λ x. x;
  atan2 = λ y x. Fixed.plus 0;
  sqrt = λ x. x;
  hypot = λ x y. magnitude x;
  radians = λ x. x;
  degrees = λ x. x;
}

abbrev rules : Rules Fixed
rules = record {
  strict = true;
  projection = true;
  chord_error = none;
  report_curves = false;
  units = Fixed.plus 1016000;
}

abbrev texts : Texts
texts = record {
  letter = λ c.
      if leb 65 c && leb c 90
      then some c
      else if leb 97 c && leb c 122
      then some (c - 32)
      else none;
  strip = λ text. text;
}

abbrev environment : Limits
environment = record { commands = 2000; points = 2000; shapes = 200; characters = 2000 }

-- IN;SP1;PU0,0;pd10,0,10,20;PU;
abbrev corner_text : List ℕ
corner_text =
    73 ∷ 78 ∷ 59 ∷ 83 ∷ 80 ∷ 49 ∷ 59 ∷ 80 ∷ 85 ∷ 48 ∷ 44 ∷ 48 ∷ 59 ∷ 112 ∷ 100 ∷ 49 ∷ 48 ∷ 44 ∷ 48
    ∷ 44 ∷ 49 ∷ 48 ∷ 44 ∷ 50 ∷ 48 ∷ 59 ∷ 80 ∷ 85 ∷ 59 ∷ []

abbrev at : ℕ → ℕ → Point Fixed
at x y = record { x = Fixed.plus (x * 1000); y = Fixed.plus (y * 1000) }

abbrev plain_style : Style Fixed
plain_style = record { line_type = none; width = none; generation = 1 }

abbrev corner : Document Fixed
corner = record {
  shapes =
      record {
        id = 1;
        pen = Pen.pen 1;
        figure =
            Figure.path (at 0 0 ∷ at 10 0 ∷ at 10 20 ∷ []) (plain_style ∷ plain_style ∷ []) none;
      }
      ∷ [];
  metrics = record {
    low = at 0 0;
    high = at 10 20;
    width_mm = Fixed.plus 250;
    height_mm = Fixed.plus 500;
    point_count = 3;
    path_count = 1;
  };
  warnings = some [];
}

corner_text-parses : parse_plt floats rules texts environment corner_text ≡ ok corner
unfolding parse_plt is_plain_number add_point
corner_text-parses = refl

corner-IsSheet : IsSheet floats rules (limits_of true environment) corner
corner-IsSheet =
    parse_plt-IsSheet floats rules texts environment corner_text corner corner_text-parses

-- 10 and 2.5
number_tokens-joined_example :
    number_tokens (joined ((49 ∷ 48 ∷ []) ∷ (50 ∷ 46 ∷ 53 ∷ []) ∷ []))
    ≡ (49 ∷ 48 ∷ []) ∷ (50 ∷ 46 ∷ 53 ∷ []) ∷ []
number_tokens-joined_example =
    number_tokens-joined ((49 ∷ 48 ∷ []) ∷ (50 ∷ 46 ∷ 53 ∷ []) ∷ [])
      ((refl, (refl, tt)), ((refl, (refl, (refl, tt))), tt))

-- LBa, and PA1,2;
abbrev two_tokens : List Token
two_tokens =
    Token.label (97 ∷ 44 ∷ [])
    ∷ Token.instruction (record { first = 80; second = 65 }) (49 ∷ 44 ∷ 50 ∷ [])
    ∷ []

lex-written_example : lex texts.letter true (written two_tokens) ≡ two_tokens
lex-written_example =
    lex-written texts.letter true two_tokens refl refl
      ((refl, (refl, tt)), ((refl, refl, refl, refl, (refl, (refl, (refl, tt)))), tt))

-- `7, 12` of PA
passes :
    check_tokens floats rules environment
      (record { first = 80; second = 65 })
      (number_tokens (55 ∷ 44 ∷ 32 ∷ 49 ∷ 50 ∷ []))
    ≡ ok tt
unfolding number_tokens is_plain_number
passes = refl

returns :
    parse_numbers floats rules environment 4 (55 ∷ 44 ∷ 32 ∷ 49 ∷ 50 ∷ [])
    ≡ ok (Fixed.plus 7000 ∷ Fixed.plus 12000 ∷ [])
unfolding parse_numbers
returns = refl

parse_numbers-whole_example :
    map (λ x. some x) (Fixed.plus 7000 ∷ Fixed.plus 12000 ∷ [])
    ≡ map number_of (number_tokens (55 ∷ 44 ∷ 32 ∷ 49 ∷ 50 ∷ []))
parse_numbers-whole_example =
    parse_numbers-whole floats rules environment (record { first = 80; second = 65 }) 4
      (55 ∷ 44 ∷ 32 ∷ 49 ∷ 50 ∷ []) (Fixed.plus 7000 ∷ Fixed.plus 12000 ∷ []) passes returns
