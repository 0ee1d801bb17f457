-- ===== src/Plotter/Bounds/Arcs.antt =====
-- Arcs and circles keep the limits of parse_plt.
use plt_converter.Prelude.{
  ℕ, suc, zero, ◌+◌, ◌≤◌, ◌≡◌, max, refl, not, ◌&&◌, ◌||◌, Option, some, none, arith, length,
  Bool-cases, inl, inr, ltb,
}
use plt_converter.Plotter.Floats.{Floats}
use plt_converter.Plotter.Drawing.{
  Rules, has_semantics, Limits, Point, Figure, Drawing, Warning, is_inked, warn_if,
}
use plt_converter.Plotter.Strokes.{add_absolute_point, style_of}
use plt_converter.Plotter.Arcs.{
  zero_number, chord_step_angle, chord_of, is_asked, arc_point, add_steps, draw_arc, add_arc,
  circle_points, repeat, circle_steps, polygon, round_figure, add_circle,
}
use plt_converter.Plotter.Bounds.{Yields, >>=-Yields, IsWell, warn_if-IsWell}
use plt_converter.Plotter.Bounds.Strokes.{create_shape-IsWell, add_absolute_point-IsWell}

module _ {F : Type 0} (fl : Floats F) (r : Rules F) (l : Limits) where
  add_steps-IsWell :
      (center : Point F) (radius start sweep : F) (steps k step : ℕ) (d : Drawing F)
      → IsWell l d
      → Yields (IsWell l) (add_steps fl r l center radius start sweep steps k step d)
  add_steps-IsWell center radius start sweep steps zero step d h = h
  add_steps-IsWell center radius start sweep steps (suc k) step d h =
      let p = arc_point fl r l center radius start sweep steps step in
      >>=-Yields (IsWell l) (IsWell l) (add_absolute_point fl r l p d)
        (add_steps fl r l center radius start sweep steps k (step + 1))
        (add_absolute_point-IsWell fl r l p d h)
        (add_steps-IsWell center radius start sweep steps k (step + 1))

  draw_arc-IsWell :
      (center : Point F) (radius angle chord : F) (d : Drawing F)
      → IsWell l d
      → Yields (IsWell l) (draw_arc fl r l center radius angle chord d)
  draw_arc-IsWell center radius angle chord d h =
      let size = fl.base.magnitude angle in
      let points = fl.base.of_nat l.points in
      let steps = max 1 (fl.ceiling (fl.base.div size chord)) in
      let start =
        fl.atan2 (fl.base.sub d.position.y center.y) (fl.base.sub d.position.x center.x) in
      let shown =
        r.report_curves
        && is_asked fl r l r.chord_error
        && d.pen_down
        && (not (has_semantics r) || is_inked d.pen)
        && not (fl.base.same angle (zero_number fl r l)) in
      elim (Bool-cases (
        has_semantics r
        && (fl.base.less points (fl.base.div size (fl.base.of_nat 360))
            || fl.base.less chord (fl.base.div size points)))) [
              | inl many ↦ rw many tt
              | inr few ↦ elim (Bool-cases (ltb l.points (d.points + steps))) [
                | inl full ↦ rw (few, full) tt
                | inr room ↦
                    rw (few, room)
                      (add_steps-IsWell center radius start (fl.radians angle) steps steps 1
                        (warn_if shown Warning.curve_approximation d)
                        (warn_if-IsWell l shown Warning.curve_approximation d h))
              ]
            ]

  pub add_arc-IsWell :
      (center : Point F) (angle chord : F) (d : Drawing F)
      → IsWell l d
      → Yields (IsWell l) (add_arc fl r l center angle chord d)
  unfolding add_arc
  add_arc-IsWell center angle chord d h =
      let radius =
        fl.hypot (fl.base.sub d.position.x center.x) (fl.base.sub d.position.y center.y) in
      let unbounded = not (fl.is_finite radius) || not (fl.is_finite angle) in
      elim (Bool-cases (r.projection && not r.strict && unbounded)) [
        | inl wild ↦ rw wild tt
        | inr tame ↦
            elim (Bool-cases (not (fl.base.less (zero_number fl r l) radius) || unbounded)) [
              | inl flat ↦ elim (Bool-cases r.strict) [
                | inl strict ↦ rw (tame, flat, strict) tt
                | inr lenient ↦
                    rw (tame, flat, lenient) (warn_if-IsWell l r.projection Warning.ignored_arc d h)
              ]
              | inr curved ↦
                  rw (tame, curved)
                    (draw_arc-IsWell center radius angle (chord_of fl r l radius chord) d h)
            ]
      ]

  length-circle_points :
      (center : Point F) (radius : F) (steps k i : ℕ)
      → length (circle_points fl r l center radius steps k i) ≡ k
  length-circle_points center radius steps zero i = refl
  length-circle_points center radius steps (suc k) i =
      let n = length-circle_points center radius steps k (i + 1) in omega (arith, n)

  length-repeat {ℓ} : {A : Type ℓ} (k : ℕ) (x : A) → length (repeat fl r l k x) ≡ k
  length-repeat zero x = refl
  length-repeat (suc k) x = let n = length-repeat k x in omega (arith, n)

  polygon-IsWell :
      (radius angle : F) (d : Drawing F)
      → IsWell l d
      → Yields (IsWell l) (polygon fl r l radius angle d)
  polygon-IsWell radius angle d h =
      let steps = circle_steps fl r l angle in
      let turn = fl.base.mul (fl.base.of_nat 2) fl.pi in
      let ps = circle_points fl r l d.position radius steps (steps + 1) 0 in
      let ss = repeat fl r l steps (style_of fl r l d) in
      let f : Figure F = Figure.path ps ss d.width in
      let drawing = warn_if r.report_curves Warning.curve_approximation d in
      let n = length-circle_points d.position radius steps (steps + 1) 0 in
      let m = length-repeat steps (style_of fl r l d) in
      let four : 4 ≤ steps = omega arith in
      let w = warn_if-IsWell l r.report_curves Warning.curve_approximation d h in
      elim (Bool-cases (fl.base.less angle (fl.base.div turn (fl.base.of_nat l.points)))) [
        | inl many ↦ rw many tt
        | inr few ↦ elim (Bool-cases (ltb l.points (d.points + steps + 1))) [
          | inl full ↦ rw (few, full) tt
          | inr room ↦
              rw (few, room)
                (create_shape-IsWell fl r l d.pen f
                  (record drawing { points = d.points + steps + 1 })
                  (omega (arith, n, four), omega (arith, n, m))
                  (record {
                    commanded = w.commanded;
                    pointed = ground arith;
                    written = w.written;
                    next = w.next;
                    few = w.few;
                    numbered = w.numbered;
                    drawn = w.drawn;
                    segments = w.segments;
                  }))
        ]
      ]

  round_figure-IsWell :
      (radius : F) (d : Drawing F) (e : Option F)
      → IsWell l d
      → Yields (IsWell l) (round_figure fl r l radius d e)
  round_figure-IsWell radius d none h =
      create_shape-IsWell fl r l d.pen (Figure.circle d.position radius d.width) d tt h
  round_figure-IsWell radius d (some error) h =
      polygon-IsWell radius (chord_step_angle fl r l radius error) d h

  pub add_circle-IsWell :
      (radius : F) (d : Drawing F) → IsWell l d → Yields (IsWell l) (add_circle fl r l radius d)
  unfolding add_circle
  add_circle-IsWell radius d h = elim (Bool-cases (has_semantics r && not (is_inked d.pen))) [
    | inl dry ↦ rw dry h
    | inr wet ↦ elim (Bool-cases (r.strict && not (fl.base.less (zero_number fl r l) radius))) [
      | inl bad ↦ rw (wet, bad) tt
      | inr fit ↦ elim (Bool-cases (fl.base.less (zero_number fl r l) radius)) [
        | inl some_size ↦ rw (wet, fit, some_size) (round_figure-IsWell radius d r.chord_error h)
        | inr no_size ↦ rw (wet, fit, no_size) h
      ]
    ]
  ]
