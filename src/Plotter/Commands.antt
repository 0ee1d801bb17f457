-- ===== src/Plotter/Commands.antt =====
-- The commands of parse_plt.
use plt_converter.Prelude.{
  ℕ, ◌+◌, Bool, true, false, not, ◌&&◌, Option, none, some, List, [], ◌∷◌, ◌++◌, ltb, if◌then◌else◌,
  length, exists_where, delete_where, first_where,
}
use plt_converter.Plotter.Floats.{Pen, Floats}
use plt_converter.Plotter.Tokens.{Command, is_command, Token, number_tokens}
use plt_converter.Plotter.Drawing.{
  Refusal, Parsed, ok, refuse, ◌>>=◌, ◌>>◌, guard, Rules, has_semantics, Limits, Point, Figure,
  Drawing, PenWidth, Warning, same_pen, warn_if,
}
use plt_converter.Plotter.Strokes.{create_shape, flush_stroke, add_pairs}
use plt_converter.Plotter.Arcs.{add_arc, add_circle}
use plt_converter.Plotter.Labels.{add_label}
use plt_converter.Plotter.Arguments.{
  Name, name_of, is_supported, check_tokens, has_bad_token, parse_numbers, value_limit,
  check_counts, warn_counts,
}

module _ {F : Type 0} (fl : Floats F) (r : Rules F) (l : Limits) (strip : List ℕ → List ℕ) where
  abbrev pub origin : Point F
  origin = record { x = fl.base.of_nat 0; y = fl.base.of_nat 0 }

  -- IN
  abbrev pub initialize : Drawing F → Drawing F
  initialize d = record d {
    relative = false;
    pen_down = false;
    pen = Pen.pen 1;
    position = origin;
    carriage = origin;
    width = none;
    widths = [];
    line_type = none;
    generation = d.generation + 1;
  }

  abbrev pub width_of : Pen → List (PenWidth F) → Option F
  width_of p ws = elim (first_where (λ (w : PenWidth F). same_pen w.pen p) ws) [
    | none ↦ none
    | some w ↦ some w.width
  ]

  abbrev pub pen_of : List F → Pen
  pen_of [] = if has_semantics r then Pen.pen 0 else Pen.pen 1
  pen_of (x ∷ xs) = fl.truncate x

  -- SP
  abbrev pub select_pen : Pen → Drawing F → Drawing F
  select_pen p d = record d { pen = p; width = width_of p d.widths }

  abbrev pub set_width : Pen → F → List (PenWidth F) → List (PenWidth F)
  set_width p x ws =
      record { pen = p; width = x } ∷ delete_where (λ (w : PenWidth F). same_pen w.pen p) ws

  abbrev pub store_width : Pen → F → Drawing F → Drawing F
  store_width p x d = record d {
    widths = set_width p x d.widths;
    width = if same_pen p d.pen then some x else d.width;
  }

  -- PW
  abbrev pub set_pen_width : List F → Drawing F → Drawing F
  set_pen_width [] d = d
  set_pen_width (x ∷ []) d = if fl.base.less x (fl.base.of_nat 0) then d else store_width d.pen x d
  set_pen_width (x ∷ p ∷ ns) d =
      if fl.base.less x (fl.base.of_nat 0) then d else store_width (fl.truncate p) x d

  abbrev pub return_carriage : Drawing F → Drawing F
  return_carriage d = if has_semantics r then record d { carriage = d.position } else d

  abbrev pub lower_pen : Bool → Drawing F → Drawing F
  lower_pen b d = record d { pen_down = b }

  abbrev pub radius_of : List F → F
  radius_of [] = fl.base.of_nat 0
  radius_of (x ∷ xs) = x

  abbrev pub chord_of : List F → F
  chord_of [] = fl.base.of_nat 5
  chord_of (x ∷ xs) = x

  -- AA, and AR from the position
  abbrev pub arc_at : Point F → List F → Drawing F → Parsed (Drawing F)
  arc_at from (x ∷ y ∷ angle ∷ ns) d =
      add_arc fl r l (record { x = fl.base.add from.x x; y = fl.base.add from.y y }) angle
        (chord_of ns) d
  arc_at from _ d = ok d

  abbrev pub arc_absolute : List F → Drawing F → Parsed (Drawing F)
  arc_absolute (x ∷ y ∷ angle ∷ ns) d =
      add_arc fl r l (record { x = x; y = y }) angle (chord_of ns) d
  arc_absolute _ d = ok d

  -- What a command does with its numbers.
  unfoldable pub perform : Name → List F → Drawing F → Parsed (Drawing F)
  unfolding flush_stroke add_arc add_circle
  perform Name.initialize ns d = flush_stroke fl r l d >>= λ e. ok (initialize e)
  perform Name.select_pen ns d = flush_stroke fl r l d >>= λ e. ok (select_pen (pen_of ns) e)
  perform Name.absolute ns d =
      add_pairs fl r l ns (record d { relative = false }) >>= λ e. ok (return_carriage e)
  perform Name.relative ns d =
      add_pairs fl r l ns (record d { relative = true }) >>= λ e. ok (return_carriage e)
  perform Name.pen_up ns d = flush_stroke fl r l d >>= λ e. add_pairs fl r l ns (lower_pen false e)
  perform Name.pen_down ns d = add_pairs fl r l ns (lower_pen true d)
  perform Name.circle ns d = flush_stroke fl r l d >>= λ e. add_circle fl r l (radius_of ns) e
  perform Name.arc_absolute ns d = arc_absolute ns d
  perform Name.arc_relative ns d = arc_at d.position ns d
  perform Name.velocity ns d = ok (warn_if (has_semantics r) Warning.speed_ignored d)
  perform Name.pen_width ns d = ok (set_pen_width ns d)
  perform Name.line_type ns d = ok d
  perform Name.other ns d = ok d

  -- LT also marks the segments that follow.
  abbrev pub mark_line_type : Name → List ℕ → Drawing F → Drawing F
  mark_line_type Name.line_type text d = record d {
    generation = d.generation + 1;
    line_type = some (strip text);
  }
  mark_line_type _ text d = d

  abbrev pub is_lenient : Bool
  is_lenient = r.projection && not r.strict

  abbrev pub same_command : Command → Command → Bool
  same_command c e = is_command e c.first c.second

  -- A command that a projection leaves out.
  abbrev pub ignore : Command → Drawing F → Drawing F
  ignore c d = record d {
    ignored =
        if not (exists_where (same_command c) d.ignored) && ltb (length d.ignored) 16
        then d.ignored ++ c ∷ []
        else d.ignored;
    ignored_count = d.ignored_count + 1;
  }

  abbrev pub dispatch : Command → Name → List F → Drawing F → Parsed (Drawing F)
  dispatch c m ns d =
      if is_lenient
      then if is_supported m then perform m ns (warn_counts fl r l m ns d) else ok (ignore c d)
      else perform m ns d

  abbrev pub strictly : Parsed (Unit {0}) → Parsed (Unit {0})
  strictly check = if r.strict then check else ok tt

  -- A command with the text of its arguments, once it is counted.
  unfoldable pub instruct : Command → Name → List ℕ → Drawing F → Parsed (Drawing F)
  unfolding perform parse_numbers
  instruct c m text d = do
    strictly (guard (is_supported m) (Refusal.unsupported c))
    strictly (check_tokens fl r l c (number_tokens text))
    let e =
        warn_if (is_lenient && has_bad_token fl r l (number_tokens text)) Warning.bad_parameter d
    ns ← parse_numbers fl r l (value_limit fl r l m e) text
    strictly (check_counts fl r l c m ns)
    dispatch c m ns (mark_line_type m text e)

  abbrev pub count_characters : ℕ → Drawing F → Drawing F
  count_characters n d = record d { characters = d.characters + n }

  -- A label that is not empty.
  abbrev pub put_text : List ℕ → Drawing F → Parsed (Drawing F)
  put_text [] d = ok d
  put_text (c ∷ cs) d =
      if ltb l.characters (d.characters + length (c ∷ cs))
      then refuse Refusal.many_characters
      else if has_semantics r
      then add_label fl r l (c ∷ cs) (count_characters (length (c ∷ cs)) d)
      else create_shape fl r l d.pen (Figure.text d.position (c ∷ cs))
          (count_characters (length (c ∷ cs)) d)

  unfoldable pub put_label : List ℕ → Drawing F → Parsed (Drawing F)
  unfolding flush_stroke add_label create_shape
  put_label text d =
      if has_semantics r then (flush_stroke fl r l d >>= λ e. put_text text e) else put_text text d

  abbrev pub count_command : Drawing F → Parsed (Drawing F)
  count_command d =
      if ltb l.commands (d.commands + 1)
      then refuse Refusal.many_commands
      else ok (record d { commands = d.commands + 1 })

  -- One round of the loop of parse_plt.
  unfoldable pub execute : Token → Drawing F → Parsed (Drawing F)
  unfolding instruct put_label
  execute Token.junk d =
      if r.strict
      then refuse Refusal.malformed_command
      else ok (warn_if r.projection Warning.junk_skipped d)
  execute (Token.label text) d = count_command d >>= λ e. put_label text e
  execute (Token.instruction c text) d = count_command d >>= λ e. instruct c (name_of c) text e

  abbrev pub execute_all : List Token → Drawing F → Parsed (Drawing F)
  execute_all [] d = ok d
  execute_all (t ∷ ts) d = execute t d >>= λ e. execute_all ts e
