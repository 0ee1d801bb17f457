-- ===== src/Plotter/Drawing.antt =====
-- The state of parse_plt, its limits, and how it refuses a file.
use plt_converter.Prelude.{
  ℕ, min, max, Bool, true, false, not, ◌||◌, Option, List, [], ◌∷◌, ◌++◌, ◌==◌, if◌then◌else◌,
  exists_where,
}
use plt_converter.Plotter.Floats.{Pen}
use plt_converter.Plotter.Tokens.{Command}

pub data Refusal : Type 0 where
  bad_units bad_accuracy null_character malformed_command : Refusal
  many_commands many_points many_shapes many_characters many_arguments : Refusal
  not_finite bad_arc_size bad_arc bad_radius bad_pen : Refusal
  unsupported bad_format bad_coordinate bad_count : Command → Refusal
  empty_drawing : Refusal

pub data Parsed {ℓ} (A : Type ℓ) : Type ℓ where
  ok : A → Parsed A
  refuse : Refusal → Parsed A

infixl 5 ◌>>=◌ ◌>>◌
abbrev pub ◌>>=◌ {ℓ κ} : {A : Type ℓ} {B : Type κ} → Parsed A → (A → Parsed B) → Parsed B
ok a >>= f = f a
refuse e >>= f = refuse e

abbrev pub ◌>>◌ {ℓ} : {B : Type ℓ} → Parsed (Unit {0}) → Parsed B → Parsed B
m >> k = m >>= λ _. k

abbrev pub guard : Bool → Refusal → Parsed (Unit {0})
guard true e = ok tt
guard false e = refuse e

-- strict, projection, max_chord_error_mm, report_curve_approximation, units_per_inch
pub record Rules (F : Type 0) : Type 0 where
  pub strict : Bool
  pub projection : Bool
  pub chord_error : Option F
  pub report_curves : Bool
  pub units : F

-- projection_semantics
abbrev pub has_semantics : {F : Type 0} → Rules F → Bool
has_semantics r = r.strict || r.projection

-- The environment's limits.
pub record Limits : Type 0 where
  pub commands : ℕ
  pub points : ℕ
  pub shapes : ℕ
  pub characters : ℕ

abbrev pub capped : Bool → ℕ → ℕ → ℕ
capped semantics cap n = if semantics then min n cap else n

-- The limits that hold, of what the environment names.
unfoldable pub limits_of : Bool → Limits → Limits
limits_of semantics env = record {
  commands = capped semantics 250000 (max 1000 env.commands);
  points = capped semantics 500000 (max 1000 env.points);
  shapes = capped semantics 100000 (max 100 env.shapes);
  characters = capped semantics 100000 (max 1000 env.characters);
}

pub record Point (F : Type 0) : Type 0 where
  pub x : F
  pub y : F

-- An entry of source_segment_styles.
pub record Style (F : Type 0) : Type 0 where
  pub line_type : Option (List ℕ)
  pub width : Option F
  pub generation : ℕ

pub data Figure (F : Type 0) : Type 0 where
  path : List (Point F) → List (Style F) → Option F → Figure F
  circle : Point F → F → Option F → Figure F
  text : Point F → List ℕ → Figure F

pub record Shape (F : Type 0) : Type 0 where
  pub id : ℕ
  pub pen : Pen
  pub figure : Figure F

pub data Warning : Type 0 where
  curve_approximation ignored_arc wide_character label_size junk_skipped bad_parameter : Warning
  odd_coordinates odd_arguments bad_circle speed_ignored : Warning
  ignored_commands : List Command → ℕ → Warning

abbrev pub warning_code : Warning → ℕ
warning_code Warning.curve_approximation = 0
warning_code Warning.ignored_arc = 1
warning_code Warning.wide_character = 2
warning_code Warning.label_size = 3
warning_code Warning.junk_skipped = 4
warning_code Warning.bad_parameter = 5
warning_code Warning.odd_coordinates = 6
warning_code Warning.odd_arguments = 7
warning_code Warning.bad_circle = 8
warning_code Warning.speed_ignored = 9
warning_code (Warning.ignored_commands cs n) = 10

-- The width of a pen.
pub record PenWidth (F : Type 0) : Type 0 where
  pub pen : Pen
  pub width : F

pub record Drawing (F : Type 0) : Type 0 where
  pub relative : Bool
  pub pen_down : Bool
  pub pen : Pen
  pub position : Point F
  pub carriage : Point F
  pub width : Option F
  pub stroke : List (Point F)
  pub styles : List (Style F)
  pub line_type : Option (List ℕ)
  pub generation : ℕ
  pub shapes : List (Shape F)
  pub next_id : ℕ
  pub widths : List (PenWidth F)
  pub commands : ℕ
  pub points : ℕ
  pub characters : ℕ
  pub warnings : List Warning
  pub ignored : List Command
  pub ignored_count : ℕ

abbrev pub same_pen : Pen → Pen → Bool
same_pen (Pen.pen m) (Pen.pen n) = m == n
same_pen (Pen.below_zero m) (Pen.below_zero n) = m == n
same_pen _ _ = false

-- `current_pen != 0`
abbrev pub is_inked : Pen → Bool
is_inked (Pen.pen n) = not (n == 0)
is_inked (Pen.below_zero n) = true

module _ {F : Type 0} where
  -- warn: a message that is not there yet
  abbrev pub warn : Warning → Drawing F → Drawing F
  warn w d =
      if exists_where (λ v. warning_code v == warning_code w) d.warnings
      then d
      else record d { warnings = d.warnings ++ w ∷ [] }

  abbrev pub warn_if : Bool → Warning → Drawing F → Drawing F
  warn_if b w d = if b then warn w d else d
