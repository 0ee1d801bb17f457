-- ===== src/Plotter/Labels.antt =====
-- add_projection_label of parse_plt.
use plt_converter.Prelude.{
  ℕ, ◌+◌, Bool, true, false, not, ◌&&◌, ◌||◌, List, [], ◌∷◌, ◌++◌, ◌==◌, leb, ltb, if◌then◌else◌,
}
use plt_converter.Plotter.Floats.{Floats}
use plt_converter.Plotter.Drawing.{
  Refusal, Parsed, ok, refuse, ◌>>=◌, Rules, Limits, Point, Figure, Drawing, Warning, is_inked,
  warn, warn_if,
}
use plt_converter.Plotter.Strokes.{create_shape, is_finite_point}

-- The run of characters that is being collected.
pub record Run (F : Type 0) : Type 0 where
  pub drawing : Drawing F
  pub run : List ℕ
  pub run_start : Point F
  pub emitted : Bool

module _ {F : Type 0} (fl : Floats F) (r : Rules F) (l : Limits) where
  -- PLT_LABEL_FONT_SIZE_PT * units_per_inch / 72
  abbrev pub cell : F
  cell = fl.base.div (fl.base.mul (fl.base.of_nat 8) r.units) (fl.base.of_nat 72)

  abbrev pub is_empty {ℓ} : {A : Type ℓ} → List A → Bool
  is_empty [] = true
  is_empty (x ∷ xs) = false

  abbrev pub with_drawing : Run F → Parsed (Drawing F) → Parsed (Run F)
  with_drawing w m = m >>= λ d. ok (record w { drawing = d; run = []; emitted = true })

  -- flush_run
  unfoldable pub flush_run : Run F → Parsed (Run F)
  unfolding create_shape
  flush_run w =
      if not (is_empty w.run) && is_inked w.drawing.pen
      then with_drawing w
          (create_shape fl r l w.drawing.pen (Figure.text w.run_start w.run) w.drawing)
      else ok (record w { run = [] })

  abbrev pub lower : F → Point F → Point F
  lower by p = record p { y = fl.base.sub p.y by }

  -- The next stop of eight cells from the carriage return.
  abbrev pub tab_stop : Drawing F → F
  tab_stop d =
      let column = fl.base.div (fl.base.sub d.position.x d.carriage.x) cell in
      let near =
        fl.base.less (fl.base.magnitude (fl.base.sub column (fl.round column)))
          (fl.base.decimal 1 9) in
      let stable = if near then fl.round column else column in
      fl.base.add d.carriage.x (
        fl.base.mul
          (fl.base.mul
            (fl.base.add (fl.floor (fl.base.div stable (fl.base.of_nat 8))) (fl.base.of_nat 1))
            (fl.base.of_nat 8))
          cell)

  -- A control character that moves the cursor.
  abbrev pub control : ℕ → Drawing F → Drawing F
  control c d =
      if c == 13
      then record d { position = d.carriage }
      else if c == 10
      then record d { position = lower cell d.position; carriage = lower cell d.carriage }
      else if c == 9
      then record d { position = record d.position { x = tab_stop d } }
      else record d { position = record d.position { x = fl.base.sub d.position.x cell } }

  abbrev pub is_moving : ℕ → ℕ → Bool
  is_moving offset c = (c == 13) || (c == 10) || (c == 9) || ((c == 8) && not (offset == 0))

  -- A character that is shown; one above 0xffff is shown as a box.
  abbrev pub print : ℕ → Run F → Run F
  print c w =
      let d = warn_if (ltb 65535 c) Warning.wide_character w.drawing in
      record {
        drawing = record d { position = record d.position { x = fl.base.add d.position.x cell } };
        run = w.run ++ (if ltb 65535 c then 9633 else c) ∷ [];
        run_start = if is_empty w.run then d.position else w.run_start;
        emitted = w.emitted;
      }

  abbrev pub put_character : ℕ → ℕ → Run F → Parsed (Run F)
  put_character offset c w =
      if leb 32 c
      then ok (print c w)
      else if is_moving offset c
      then (flush_run w >>= λ v. ok (record v { drawing = control c v.drawing }))
      else ok w

  abbrev pub put_characters : ℕ → List ℕ → Run F → Parsed (Run F)
  put_characters offset [] w = ok w
  put_characters offset (c ∷ cs) w =
      put_character offset c w >>= λ v. put_characters (offset + 1) cs v

  -- A label without a run keeps its place.
  abbrev pub keep_label : Point F → Run F → Parsed (Drawing F)
  keep_label start w =
      if w.emitted
      then ok w.drawing
      else create_shape fl r l w.drawing.pen (Figure.text start []) w.drawing

  abbrev pub end_label : Point F → Run F → Parsed (Drawing F)
  end_label start w =
      if not (is_finite_point fl r l w.drawing.position)
      then refuse Refusal.not_finite
      else if is_inked w.drawing.pen
      then (keep_label start w >>= λ d. ok (warn Warning.label_size d))
      else ok w.drawing

  -- add_projection_label
  unfoldable pub add_label : List ℕ → Drawing F → Parsed (Drawing F)
  unfolding flush_run create_shape
  add_label text d = do
    w ←
        put_characters 0 text
          (record { drawing = d; run = []; run_start = d.position; emitted = false })
    v ← flush_run w
    end_label d.position v
