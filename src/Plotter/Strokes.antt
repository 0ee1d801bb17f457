-- ===== src/Plotter/Strokes.antt =====
-- create_shape, flush_stroke, add_point and add_absolute_point of parse_plt.
use plt_converter.Prelude.{
  ◌+◌, Bool, true, false, not, ◌&&◌, ◌||◌, List, [], ◌∷◌, ◌++◌, ltb, if◌then◌else◌,
}
use plt_converter.Plotter.Floats.{Pen, Floats}
use plt_converter.Plotter.Drawing.{
  Refusal, Parsed, ok, refuse, ◌>>=◌, Rules, has_semantics, Limits, Point, Style, Figure, Drawing,
  is_inked,
}

module _ {F : Type 0} (fl : Floats F) (r : Rules F) (l : Limits) where
  -- create_shape, and the append that follows each call of it
  unfoldable pub create_shape : Pen → Figure F → Drawing F → Parsed (Drawing F)
  create_shape p f d =
      if ltb l.shapes d.next_id
      then refuse Refusal.many_shapes
      else ok (record d {
        shapes = d.shapes ++ record { id = d.next_id; pen = p; figure = f } ∷ [];
        next_id = d.next_id + 1;
      })

  abbrev pub clear_stroke : Drawing F → Drawing F
  clear_stroke d = record d { stroke = []; styles = [] }

  abbrev pub is_drawn : List (Point F) → Bool
  is_drawn [] = false
  is_drawn (p ∷ []) = false
  is_drawn (p ∷ q ∷ ps) = true

  abbrev pub cleared : Parsed (Drawing F) → Parsed (Drawing F)
  cleared m = m >>= λ d. ok (clear_stroke d)

  -- flush_stroke
  unfoldable pub flush_stroke : Drawing F → Parsed (Drawing F)
  unfolding create_shape
  flush_stroke d =
      if is_drawn d.stroke
      then cleared (create_shape d.pen (Figure.path d.stroke d.styles d.width) d)
      else ok (clear_stroke d)

  abbrev pub style_of : Drawing F → Style F
  style_of d = record { line_type = d.line_type; width = d.width; generation = d.generation }

  abbrev pub is_finite_point : Point F → Bool
  is_finite_point p = fl.is_finite p.x && fl.is_finite p.y

  abbrev pub started : List (Point F) → Point F → List (Point F)
  started [] start = start ∷ []
  started (p ∷ ps) start = p ∷ ps

  -- The pen at the new point, the stroke drawn to it.
  abbrev pub move_to : Point F → Drawing F → Drawing F
  move_to p d =
      let drawn = d.pen_down && (not (has_semantics r) || is_inked d.pen) in
      record d {
        points = d.points + 1;
        position = p;
        carriage = if has_semantics r then p else d.carriage;
        stroke = if drawn then started d.stroke d.position ++ p ∷ [] else d.stroke;
        styles = if drawn then d.styles ++ style_of d ∷ [] else d.styles;
      }

  -- add_absolute_point
  unfoldable pub add_absolute_point : Point F → Drawing F → Parsed (Drawing F)
  add_absolute_point p d =
      if ltb l.points (d.points + 1)
      then refuse Refusal.many_points
      else if has_semantics r && not (is_finite_point p)
      then refuse Refusal.not_finite
      else ok (move_to p d)

  -- add_point
  unfoldable pub add_point : F → F → Drawing F → Parsed (Drawing F)
  unfolding add_absolute_point
  add_point x y d =
      add_absolute_point
        (if d.relative
          then record { x = fl.base.add d.position.x x; y = fl.base.add d.position.y y }
          else record { x = x; y = y })
        d

  -- add_coordinate_pairs; a last number without its pair is left out.
  abbrev pub add_pairs : List F → Drawing F → Parsed (Drawing F)
  add_pairs [] d = ok d
  add_pairs (x ∷ []) d = ok d
  add_pairs (x ∷ y ∷ ns) d = add_point x y d >>= λ e. add_pairs ns e
