-- ===== src/Plotter/Arguments.antt =====
-- The arguments of a command: parse_numbers and the checks of parse_plt on them.
use plt_converter.Prelude.{
  ℕ, ◌+◌, ◌-◌, ◌*◌, ◌%◌, Bool, true, false, not, ◌&&◌, ◌||◌, Option, none, some, List, [], ◌∷◌,
  ◌++◌, ◌==◌, leb, ltb, if◌then◌else◌, length, exists_where,
}
use plt_converter.Plotter.Floats.{Floats}
use plt_converter.Plotter.Tokens.{Command, is_command, number_tokens}
use plt_converter.Plotter.Drawing.{
  Refusal, Parsed, ok, refuse, ◌>>=◌, ◌>>◌, guard, Rules, Limits, Drawing, Warning, warn_if,
}

-- The commands that parse_plt names, by their letters.
pub data Name : Type 0 where
  initialize select_pen absolute relative pen_up pen_down circle : Name
  arc_absolute arc_relative pen_width velocity line_type other : Name

abbrev pub name_of : Command → Name
name_of c =
    if is_command c 73 78
    then Name.initialize
    else if is_command c 83 80
    then Name.select_pen
    else if is_command c 80 65
    then Name.absolute
    else if is_command c 80 82
    then Name.relative
    else if is_command c 80 85
    then Name.pen_up
    else if is_command c 80 68
    then Name.pen_down
    else if is_command c 67 73
    then Name.circle
    else if is_command c 65 65
    then Name.arc_absolute
    else if is_command c 65 82
    then Name.arc_relative
    else if is_command c 80 87
    then Name.pen_width
    else if is_command c 86 83
    then Name.velocity
    else if is_command c 76 84
    then Name.line_type
    else Name.other

-- {'IN', 'SP', 'PA', 'PR', 'PU', 'PD', 'CI', 'AA', 'AR', 'PW', 'VS'}
abbrev pub is_supported : Name → Bool
is_supported Name.line_type = false
is_supported Name.other = false
is_supported _ = true

-- {'PA', 'PR', 'PU', 'PD'}
abbrev pub takes_coordinates : Name → Bool
takes_coordinates Name.absolute = true
takes_coordinates Name.relative = true
takes_coordinates Name.pen_up = true
takes_coordinates Name.pen_down = true
takes_coordinates _ = false

-- `len(numbers) in lengths[command]`, true of a command that has no entry
abbrev pub is_count : Bool → Name → ℕ → Bool
is_count strict Name.initialize n = n == 0
is_count strict Name.select_pen n = leb n 1
is_count strict Name.circle n = (n == 1) || (n == 2)
is_count strict Name.arc_absolute n = (n == 3) || (n == 4)
is_count strict Name.arc_relative n = (n == 3) || (n == 4)
is_count strict Name.pen_width n = (not strict || leb 1 n) && leb n 2
is_count strict Name.velocity n = (not strict || leb 1 n) && leb n 2
is_count strict _ n = true

abbrev pub is_odd : ℕ → Bool
is_odd n = n % 2 == 1

-- `[0-9]`, and what stands at the head of a text behind digits
abbrev pub is_digit : ℕ → Bool
is_digit c = leb 48 c && leb c 57

abbrev pub skip_digits : List ℕ → List ℕ
skip_digits [] = []
skip_digits (c ∷ cs) = let rest = skip_digits cs in if is_digit c then rest else c ∷ cs

abbrev pub is_digits : List ℕ → Bool
is_digits [] = false
is_digits (c ∷ cs) = is_digit c && elim (skip_digits cs) [ [] ↦ true | d ∷ ds ↦ false ]

-- `[+-]?`
abbrev pub skip_sign : List ℕ → List ℕ
skip_sign [] = []
skip_sign (c ∷ cs) = if (c == 43) || (c == 45) then cs else c ∷ cs

-- `(?:[eE][+-]?[0-9]+)?` up to the end
abbrev pub is_exponent : List ℕ → Bool
is_exponent [] = true
is_exponent (c ∷ cs) = ((c == 101) || (c == 69)) && is_digits (skip_sign cs)

-- `[0-9]*` or `[0-9]+` behind a point, and the exponent
abbrev pub is_fraction : Bool → List ℕ → Bool
is_fraction needs_digit [] = not needs_digit
is_fraction needs_digit (c ∷ cs) =
    (is_digit c || not needs_digit) && is_exponent (skip_digits (c ∷ cs))

abbrev pub behind_digits : List ℕ → Bool
behind_digits [] = true
behind_digits (c ∷ cs) = if c == 46 then is_fraction false cs else is_exponent (c ∷ cs)

abbrev pub is_unsigned : List ℕ → Bool
is_unsigned [] = false
is_unsigned (c ∷ cs) =
    if is_digit c then behind_digits (skip_digits cs) else (c == 46) && is_fraction true cs

-- The regular expression of a strict number, on a whole token.
unfoldable pub is_plain_number : List ℕ → Bool
is_plain_number token = is_unsigned (skip_sign token)

module _ {F : Type 0} (fl : Floats F) (r : Rules F) (l : Limits) where
  abbrev pub is_bounded : Option F → Bool
  is_bounded none = false
  is_bounded (some x) = fl.is_finite x

  -- The loop over tokens under `strict`.
  abbrev pub check_tokens : Command → List (List ℕ) → Parsed (Unit {0})
  check_tokens c [] = ok tt
  check_tokens c (t ∷ ts) = do
    guard (is_plain_number t) (Refusal.bad_format c)
    guard (is_bounded (fl.number t)) (Refusal.bad_coordinate c)
    check_tokens c ts

  abbrev pub has_bad_token : List (List ℕ) → Bool
  has_bad_token ts = exists_where (λ t. not (is_bounded (fl.number t))) ts

  abbrev pub add_value : ℕ → List F → Option F → Parsed (List F)
  add_value maximum values none = ok values
  add_value maximum values (some x) =
      if not (fl.is_finite x)
      then ok values
      else if ltb maximum (length values + 1)
      then refuse Refusal.many_arguments
      else ok (values ++ x ∷ [])

  abbrev pub values_from : ℕ → List F → List (List ℕ) → Parsed (List F)
  values_from maximum values [] = ok values
  values_from maximum values (t ∷ ts) =
      add_value maximum values (fl.number t) >>= λ vs. values_from maximum vs ts

  -- parse_numbers; a text of blanks has no token that is a number.
  unfoldable pub parse_numbers : ℕ → List ℕ → Parsed (List F)
  unfolding number_tokens
  parse_numbers maximum text = values_from maximum [] (number_tokens text)

  abbrev pub value_limit : Name → Drawing F → ℕ
  value_limit m d = if takes_coordinates m then (l.points - d.points) * 2 else 10000

  abbrev pub is_pen_number : List F → Bool
  is_pen_number [] = true
  is_pen_number (x ∷ xs) = fl.is_integer x && not (fl.base.less x (fl.base.of_nat 0))

  abbrev pub is_select : Name → Bool
  is_select Name.select_pen = true
  is_select _ = false

  -- The counts of a strict command.
  abbrev pub check_counts : Command → Name → List F → Parsed (Unit {0})
  check_counts c m ns = do
    guard (is_count true m (length ns) && not (takes_coordinates m && is_odd (length ns)))
        (Refusal.bad_count c)
    guard (not (is_select m) || is_pen_number ns) Refusal.bad_pen

  abbrev pub is_flat : List F → Bool
  is_flat [] = false
  is_flat (x ∷ xs) = not (fl.base.less (fl.base.of_nat 0) x)

  abbrev pub is_round : Name → Bool
  is_round Name.circle = true
  is_round _ = false

  -- The warnings of a projection that is not strict, about a supported command.
  abbrev pub warn_counts : Name → List F → Drawing F → Drawing F
  warn_counts m ns d = warn_if (is_round m && is_flat ns) Warning.bad_circle (
      warn_if (not (is_count false m (length ns))) Warning.odd_arguments
        (warn_if (takes_coordinates m && is_odd (length ns)) Warning.odd_coordinates d))
