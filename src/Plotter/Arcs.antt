-- ===== src/Plotter/Arcs.antt =====
-- chord_step_angle, add_arc and the circles of parse_plt.
use plt_converter.Prelude.{
  ℕ, suc, zero, ◌+◌, ◌*◌, max, Bool, true, false, not, ◌&&◌, ◌||◌, Option, none, some, List, [],
  ◌∷◌, ltb, if◌then◌else◌,
}
use plt_converter.Plotter.Floats.{Floats}
use plt_converter.Plotter.Drawing.{
  Refusal, Parsed, ok, refuse, ◌>>=◌, Rules, has_semantics, Limits, Point, Figure, Drawing, Warning,
  is_inked, warn_if,
}
use plt_converter.Plotter.Strokes.{create_shape, add_absolute_point, style_of}

module _ {F : Type 0} (fl : Floats F) (r : Rules F) (l : Limits) where
  abbrev pub zero_number : F
  zero_number = fl.base.of_nat 0

  -- max(x, y) and min(x, y) of Python
  abbrev pub larger : F → F → F
  larger x y = if fl.base.less x y then y else x

  abbrev pub smaller : F → F → F
  smaller x y = if fl.base.less y x then y else x

  -- chord_step_angle
  unfoldable pub chord_step_angle : F → F → F
  chord_step_angle radius error =
      let units = fl.base.div (fl.base.mul error r.units) (fl.base.decimal 254 1) in
      let ratio =
        smaller (fl.base.of_nat 1)
          (fl.base.div (fl.base.div units (fl.base.magnitude radius)) (fl.base.of_nat 2)) in
      smaller fl.pi (fl.base.mul (fl.base.of_nat 4) (fl.asin (fl.sqrt ratio)))

  abbrev pub limit_chord : F → F → Option F → F
  limit_chord radius chord none = chord
  limit_chord radius chord (some error) = smaller chord (fl.degrees (chord_step_angle radius error))

  -- max(abs(float(chord_angle_degrees or 5)), 0.1), within the accuracy asked for
  abbrev pub chord_of : F → F → F
  chord_of radius chord =
      let given = if fl.base.same chord zero_number then fl.base.of_nat 5 else chord in
      limit_chord radius (larger (fl.base.magnitude given) (fl.base.decimal 1 1)) r.chord_error

  abbrev pub is_asked : Option F → Bool
  is_asked none = false
  is_asked (some error) = true

  abbrev pub arc_point : Point F → F → F → F → ℕ → ℕ → Point F
  arc_point center radius start total steps step =
      let theta =
        fl.base.add start
          (fl.base.div (fl.base.mul total (fl.base.of_nat step)) (fl.base.of_nat steps)) in
      record {
        x = fl.base.add center.x (fl.base.mul (fl.cos theta) radius);
        y = fl.base.add center.y (fl.base.mul (fl.sin theta) radius);
      }

  -- The steps from `step` on, `k` of them.
  abbrev pub add_steps : Point F → F → F → F → ℕ → ℕ → ℕ → Drawing F → Parsed (Drawing F)
  add_steps center radius start total steps zero step d = ok d
  add_steps center radius start total steps (suc k) step d =
      add_absolute_point fl r l (arc_point center radius start total steps step) d >>= λ e.
      add_steps center radius start total steps k (step + 1) e

  -- Every chord of an arc that can be drawn.
  abbrev pub draw_arc : Point F → F → F → F → Drawing F → Parsed (Drawing F)
  draw_arc center radius angle chord d =
      let size = fl.base.magnitude angle in
      let points = fl.base.of_nat l.points in
      let steps = max 1 (fl.ceiling (fl.base.div size chord)) in
      let start =
        fl.atan2 (fl.base.sub d.position.y center.y) (fl.base.sub d.position.x center.x) in
      let shown =
        r.report_curves
        && is_asked r.chord_error
        && d.pen_down
        && (not (has_semantics r) || is_inked d.pen)
        && not (fl.base.same angle zero_number) in
      if has_semantics r
        && (fl.base.less points (fl.base.div size (fl.base.of_nat 360))
            || fl.base.less chord (fl.base.div size points))
      then refuse Refusal.many_points
      else if ltb l.points (d.points + steps)
      then refuse Refusal.many_points
      else add_steps center radius start (fl.radians angle) steps steps 1
          (warn_if shown Warning.curve_approximation d)

  -- add_arc
  unfoldable pub add_arc : Point F → F → F → Drawing F → Parsed (Drawing F)
  unfolding add_absolute_point chord_step_angle
  add_arc center angle chord d =
      let radius =
        fl.hypot (fl.base.sub d.position.x center.x) (fl.base.sub d.position.y center.y) in
      let unbounded = not (fl.is_finite radius) || not (fl.is_finite angle) in
      if r.projection && not r.strict && unbounded
      then refuse Refusal.bad_arc_size
      else if not (fl.base.less zero_number radius) || unbounded
      then if r.strict
        then refuse Refusal.bad_arc
        else ok (warn_if r.projection Warning.ignored_arc d)
      else draw_arc center radius angle (chord_of radius chord) d

  -- i of range(steps + 1), from `i` on
  abbrev pub circle_points : Point F → F → ℕ → ℕ → ℕ → List (Point F)
  circle_points center radius steps zero i = []
  circle_points center radius steps (suc k) i =
      let turn =
        fl.base.div (fl.base.mul (fl.base.mul (fl.base.of_nat 2) fl.pi) (fl.base.of_nat i))
          (fl.base.of_nat steps) in
      record {
        x = fl.base.add center.x (fl.base.mul radius (fl.cos turn));
        y = fl.base.add center.y (fl.base.mul radius (fl.sin turn));
      }
      ∷ circle_points center radius steps k (i + 1)

  abbrev pub repeat {ℓ} : {A : Type ℓ} → ℕ → A → List A
  repeat zero x = []
  repeat (suc k) x = x ∷ repeat k x

  -- max(4, 4 * ceil((2 * pi / step_angle) / 4))
  abbrev pub circle_steps : F → ℕ
  circle_steps angle =
      let turn = fl.base.mul (fl.base.of_nat 2) fl.pi in
      max 4 (4 * fl.ceiling (fl.base.div (fl.base.div turn angle) (fl.base.of_nat 4)))

  -- A circle as a closed path.
  abbrev pub polygon : F → F → Drawing F → Parsed (Drawing F)
  polygon radius angle d =
      let turn = fl.base.mul (fl.base.of_nat 2) fl.pi in
      let steps = circle_steps angle in
      let e = record (warn_if r.report_curves Warning.curve_approximation d) {
        points = d.points + steps + 1;
      } in
      if fl.base.less angle (fl.base.div turn (fl.base.of_nat l.points))
      then refuse Refusal.many_points
      else if ltb l.points (d.points + steps + 1)
      then refuse Refusal.many_points
      else create_shape fl r l d.pen
          (Figure.path (circle_points d.position radius steps (steps + 1) 0)
            (repeat steps (style_of fl r l d)) d.width)
          e

  abbrev pub round_figure : F → Drawing F → Option F → Parsed (Drawing F)
  round_figure radius d none = create_shape fl r l d.pen (Figure.circle d.position radius d.width) d
  round_figure radius d (some error) = polygon radius (chord_step_angle radius error) d

  -- The command CI behind flush_stroke.
  unfoldable pub add_circle : F → Drawing F → Parsed (Drawing F)
  unfolding chord_step_angle create_shape
  add_circle radius d =
      if has_semantics r && not (is_inked d.pen)
      then ok d
      else if r.strict && not (fl.base.less zero_number radius)
      then refuse Refusal.bad_radius
      else if fl.base.less zero_number radius
      then round_figure radius d r.chord_error
      else ok d
