-- ===== src/Plotter/Reading.antt =====
-- parse_plt and measure_document.
use plt_converter.Prelude.{
  ℕ, Bool, true, false, not, ◌&&◌, Option, none, some, List, [], ◌∷◌, ◌++◌, ◌==◌, ltb,
  if◌then◌else◌, length, exists_where, delete_where, total, count,
}
use plt_converter.Plotter.Floats.{Pen, Floats}
use plt_converter.Plotter.Tokens.{lex}
use plt_converter.Plotter.Drawing.{
  Refusal, Parsed, ok, refuse, ◌>>=◌, ◌>>◌, guard, Rules, has_semantics, Limits, limits_of, Point,
  Figure, Shape, Drawing, Warning, warn_if,
}
use plt_converter.Plotter.Strokes.{flush_stroke}
use plt_converter.Plotter.Commands.{execute, execute_all}

-- What parse_plt takes from Python's text: the upper-case letter of an alphabetic character, and
-- str.strip.
pub record Texts : Type 0 where
  pub letter : ℕ → Option ℕ
  pub strip : List ℕ → List ℕ

pub record Metrics (F : Type 0) : Type 0 where
  pub low : Point F
  pub high : Point F
  pub width_mm : F
  pub height_mm : F
  pub point_count : ℕ
  pub path_count : ℕ

pub record Document (F : Type 0) : Type 0 where
  pub shapes : List (Shape F)
  pub metrics : Metrics F
  pub warnings : Option (List Warning)

abbrev pub figure_points : {F : Type 0} → Figure F → ℕ
figure_points (Figure.path ps ss w) = length ps
figure_points (Figure.circle c radius w) = 0
figure_points (Figure.text p t) = 0

abbrev pub is_path : {F : Type 0} → Figure F → Bool
is_path (Figure.path ps ss w) = true
is_path (Figure.circle c radius w) = false
is_path (Figure.text p t) = false

module _ {F : Type 0} (fl : Floats F) (r : Rules F) where
  -- The points that a figure is measured by.
  abbrev pub extent : Figure F → List (Point F)
  extent (Figure.path ps ss w) = ps
  extent (Figure.circle c radius w) =
      record { x = fl.base.sub c.x radius; y = fl.base.sub c.y radius }
      ∷ record { x = fl.base.add c.x radius; y = fl.base.add c.y radius }
      ∷ []
  extent (Figure.text p t) = p ∷ []

  abbrev pub extents : List (Shape F) → List (Point F)
  extents [] = []
  extents (s ∷ ss) = extent s.figure ++ extents ss

  abbrev pub lowest : Point F → List (Point F) → Point F
  lowest p [] = p
  lowest p (q ∷ qs) =
      lowest
        (record {
          x = (if fl.base.less q.x p.x then q.x else p.x);
          y = (if fl.base.less q.y p.y then q.y else p.y);
        })
        qs

  abbrev pub highest : Point F → List (Point F) → Point F
  highest p [] = p
  highest p (q ∷ qs) =
      highest
        (record {
          x = (if fl.base.less p.x q.x then q.x else p.x);
          y = (if fl.base.less p.y q.y then q.y else p.y);
        })
        qs

  abbrev pub count_points : List (Shape F) → ℕ
  count_points ss = total (λ (s : Shape F). figure_points s.figure) ss

  abbrev pub metrics_of : List (Shape F) → Point F → Point F → Metrics F
  metrics_of ss low high =
      let unit = fl.base.div (fl.base.decimal 254 1) r.units in
      record {
        low = low;
        high = high;
        width_mm = fl.base.mul (fl.base.sub high.x low.x) unit;
        height_mm = fl.base.mul (fl.base.sub high.y low.y) unit;
        point_count = count_points ss;
        path_count = count (λ (s : Shape F). is_path s.figure) ss;
      }

  abbrev pub measure_points : List (Shape F) → List (Point F) → Parsed (Metrics F)
  measure_points ss [] = refuse Refusal.empty_drawing
  measure_points ss (p ∷ ps) = ok (metrics_of ss (lowest p ps) (highest p ps))

  -- measure_document
  unfoldable pub measure_document : List (Shape F) → Parsed (Metrics F)
  measure_document ss = measure_points ss (extents ss)

  abbrev pub fresh_drawing : Drawing F
  fresh_drawing = record {
    relative = false;
    pen_down = false;
    pen = Pen.pen 1;
    position = record { x = fl.base.of_nat 0; y = fl.base.of_nat 0 };
    carriage = record { x = fl.base.of_nat 0; y = fl.base.of_nat 0 };
    width = none;
    stroke = [];
    styles = [];
    line_type = none;
    generation = 0;
    shapes = [];
    next_id = 1;
    widths = [];
    commands = 0;
    points = 0;
    characters = 0;
    warnings = [];
    ignored = [];
    ignored_count = 0;
  }

  abbrev pub is_positive : F → Bool
  is_positive x = fl.is_finite x && fl.base.less (fl.base.of_nat 0) x

  abbrev pub is_accuracy : Option F → Bool
  is_accuracy none = true
  is_accuracy (some x) = is_positive x

  -- Behind the loop: the last stroke, and what was left out.
  abbrev pub warn_ignored : Drawing F → Drawing F
  warn_ignored d =
      warn_if (not (d.ignored_count == 0)) (Warning.ignored_commands d.ignored d.ignored_count) d

  abbrev pub is_nothing {ℓ} : {A : Type ℓ} → List A → Bool
  is_nothing [] = true
  is_nothing (x ∷ xs) = false

  abbrev pub document_of : Limits → Drawing F → Parsed (Document F)
  document_of l d = do
    guard (not (is_nothing d.shapes)) Refusal.empty_drawing
    m ← measure_document d.shapes
    guard (not (has_semantics r && ltb l.points m.point_count)) Refusal.many_points
    ok (record {
      shapes = d.shapes;
      metrics = m;
      warnings = if has_semantics r then some d.warnings else none;
    })

  -- parse_plt, of the decoded text
  unfoldable pub parse_plt : Texts → Limits → List ℕ → Parsed (Document F)
  unfolding execute measure_document lex limits_of flush_stroke
  parse_plt t env text = do
    let l = limits_of (has_semantics r) env
    guard (is_positive r.units) Refusal.bad_units
    guard (is_accuracy r.chord_error) Refusal.bad_accuracy
    guard (not (has_semantics r && exists_where (λ c. c == 0) text)) Refusal.null_character
    d ←
        execute_all fl r l t.strip
          (lex t.letter (has_semantics r) (delete_where (λ c. c == 0) text)) fresh_drawing
    e ← flush_stroke fl r l d
    document_of l (warn_ignored e)
