-- ===== src/Plotter/Bounds/Labels.antt =====
-- Labels keep the limits of parse_plt.
use plt_converter.Prelude.{
  ℕ, ◌+◌, true, false, not, ◌&&◌, List, [], ◌∷◌, ◌==◌, Bool-cases, inl, inr, leb, ltb,
  if◌then◌else◌,
}
use plt_converter.Plotter.Floats.{Floats}
use plt_converter.Plotter.Drawing.{
  ok, ◌>>=◌, Rules, Limits, Point, Figure, Drawing, Warning, is_inked, warn,
}
use plt_converter.Plotter.Strokes.{create_shape, is_finite_point}
use plt_converter.Plotter.Labels.{
  Run, is_empty, cell, lower, tab_stop, flush_run, control, is_moving, put_character,
  put_characters, keep_label, end_label, add_label,
}
use plt_converter.Plotter.Bounds.{
  Yields, >>=-Yields, IsWell, warn-IsWell, warn_if-IsWell, if-IsWell,
}
use plt_converter.Plotter.Bounds.Strokes.{create_shape-IsWell}

module _ {F : Type 0} (fl : Floats F) (r : Rules F) (l : Limits) where
  abbrev IsWellRun : Run F → Type 0
  IsWellRun w = IsWell l w.drawing

  flush_run-IsWell : (w : Run F) → IsWell l w.drawing → Yields IsWellRun (flush_run fl r l w)
  unfolding flush_run
  flush_run-IsWell w h = elim (Bool-cases (not (is_empty fl r l w.run) && is_inked w.drawing.pen)) [
    | inr quiet ↦ rw quiet h
    | inl shown ↦
        let f : Figure F = Figure.text w.run_start w.run in
        rw shown (
          >>=-Yields (IsWell l) IsWellRun (create_shape fl r l w.drawing.pen f w.drawing)
            (λ d. ok (record w { drawing = d; run = []; emitted = true }))
            (create_shape-IsWell fl r l w.drawing.pen f w.drawing tt h) (λ d k. k))
  ]

  control-IsWell : (c : ℕ) (d : Drawing F) → IsWell l d → IsWell l (control fl r l c d)
  control-IsWell c d h =
      let fed : Drawing F = record d {
        position = lower fl r l (cell fl r l) d.position;
        carriage = lower fl r l (cell fl r l) d.carriage;
      } in
      let tabbed : Drawing F = record d {
        position = record d.position { x = tab_stop fl r l d };
      } in
      let back : Drawing F = record d {
        position = record d.position { x = fl.base.sub d.position.x (cell fl r l) };
      } in
      if-IsWell l (c == 13) (record d { position = d.carriage })
        (if c == 10 then fed else if c == 9 then tabbed else back) h
        (if-IsWell l (c == 10) fed (if c == 9 then tabbed else back) h
          (if-IsWell l (c == 9) tabbed back h h))

  put_character-IsWell :
      (offset c : ℕ) (w : Run F)
      → IsWell l w.drawing
      → Yields IsWellRun (put_character fl r l offset c w)
  put_character-IsWell offset c w h = elim (Bool-cases (leb 32 c)) [
    | inl shown ↦ rw shown (warn_if-IsWell l (ltb 65535 c) Warning.wide_character w.drawing h)
    | inr hidden ↦ elim (Bool-cases (is_moving fl r l offset c)) [
      | inl moving ↦
          rw (hidden, moving)
            (>>=-Yields IsWellRun IsWellRun (flush_run fl r l w)
              (λ v. ok (record v { drawing = control fl r l c v.drawing })) (flush_run-IsWell w h)
              (λ v k. control-IsWell c v.drawing k))
      | inr still ↦ rw (hidden, still) h
    ]
  ]

  put_characters-IsWell :
      (offset : ℕ) (cs : List ℕ) (w : Run F)
      → IsWell l w.drawing
      → Yields IsWellRun (put_characters fl r l offset cs w)
  put_characters-IsWell offset [] w h = h
  put_characters-IsWell offset (c ∷ cs) w h =
      >>=-Yields IsWellRun IsWellRun (put_character fl r l offset c w)
        (put_characters fl r l (offset + 1) cs) (put_character-IsWell offset c w h)
        (put_characters-IsWell (offset + 1) cs)

  keep_label-IsWell :
      (start : Point F) (w : Run F)
      → IsWell l w.drawing
      → Yields (IsWell l) (keep_label fl r l start w)
  keep_label-IsWell start w h = elim (Bool-cases w.emitted) [
    | inl done ↦ rw done h
    | inr bare ↦
        rw bare (create_shape-IsWell fl r l w.drawing.pen (Figure.text start []) w.drawing tt h)
  ]

  end_label-IsWell :
      (start : Point F) (w : Run F)
      → IsWell l w.drawing
      → Yields (IsWell l) (end_label fl r l start w)
  end_label-IsWell start w h = elim (Bool-cases (not (is_finite_point fl r l w.drawing.position))) [
    | inl wild ↦ rw wild tt
    | inr tame ↦ elim (Bool-cases (is_inked w.drawing.pen)) [
      | inr dry ↦ rw (tame, dry) h
      | inl wet ↦
          rw (tame, wet)
            (>>=-Yields (IsWell l) (IsWell l) (keep_label fl r l start w)
              (λ d. ok (warn Warning.label_size d)) (keep_label-IsWell start w h)
              (warn-IsWell l Warning.label_size))
    ]
  ]

  pub add_label-IsWell :
      (text : List ℕ) (d : Drawing F) → IsWell l d → Yields (IsWell l) (add_label fl r l text d)
  unfolding add_label
  add_label-IsWell text d h =
      let w : Run F = record { drawing = d; run = []; run_start = d.position; emitted = false } in
      >>=-Yields IsWellRun (IsWell l) (put_characters fl r l 0 text w)
        (λ v. flush_run fl r l v >>= end_label fl r l d.position) (put_characters-IsWell 0 text w h)
        (λ v k.
          >>=-Yields IsWellRun (IsWell l) (flush_run fl r l v) (end_label fl r l d.position)
            (flush_run-IsWell v k) (end_label-IsWell d.position))
