-- ===== src/Plotter/Bounds/Strokes.antt =====
-- Shapes, strokes and points keep the limits of parse_plt.
use plt_converter.Prelude.{
  ℕ, ◌+◌, ◌≤◌, ◌≡◌, ◌∙◌, ap, min, refl, true, not, ◌&&◌, ◌||◌, List, [], ◌∷◌, ◌++◌, arith, All-snoc,
  length, Bool-cases, inl, inr, ltb, if◌then◌else◌,
}
use plt_converter.Plotter.Floats.{Pen, Floats}
use plt_converter.Plotter.Drawing.{
  ok, Rules, has_semantics, Limits, Point, Figure, Shape, Drawing, is_inked,
}
use plt_converter.Plotter.Strokes.{
  create_shape, clear_stroke, is_drawn, flush_stroke, style_of, is_finite_point, started, move_to,
  add_absolute_point, add_point, add_pairs,
}
use plt_converter.Plotter.Bounds.{Yields, >>=-Yields, IsDrawn, IsWell, AreNumbered-snoc}

length-snoc {ℓ} : {A : Type ℓ} (xs : List A) (x : A) → length (xs ++ x ∷ []) ≡ length xs + 1
length-snoc [] x = refl
length-snoc (y ∷ xs) x = ap (λ n. n + 1) (length-snoc xs x)

module _ {F : Type 0} (fl : Floats F) (r : Rules F) (l : Limits) where
  pub create_shape-IsWell :
      (p : Pen) (f : Figure F) (d : Drawing F)
      → IsDrawn f
      → IsWell l d
      → Yields (IsWell l) (create_shape fl r l p f d)
  unfolding create_shape
  create_shape-IsWell p f d g h = elim (Bool-cases (ltb l.shapes d.next_id)) [
    | inl full ↦ rw full tt
    | inr room ↦
        let s : Shape F = record { id = d.next_id; pen = p; figure = f } in
        let n = h.next in
        let k = length-snoc d.shapes s in
        let below : d.next_id ≤ l.shapes = ground arith in
        rw room (record {
          commanded = h.commanded;
          pointed = h.pointed;
          written = h.written;
          next = omega (arith, n, k);
          few = omega (arith, n, k, below);
          numbered = AreNumbered-snoc 1 d.shapes s h.numbered (omega (arith, n));
          drawn = All-snoc (λ (x : Shape F). IsDrawn x.figure) d.shapes s h.drawn g;
          segments = h.segments;
        })
  ]

  pub clear_stroke-IsWell : (d : Drawing F) → IsWell l d → IsWell l (clear_stroke fl r l d)
  clear_stroke-IsWell d h = record {
    commanded = h.commanded;
    pointed = h.pointed;
    written = h.written;
    next = h.next;
    few = h.few;
    numbered = h.numbered;
    drawn = h.drawn;
    segments = omega arith;
  }

  is_drawn-length : (ps : List (Point F)) → is_drawn fl r l ps ≡ true → 2 ≤ length ps
  is_drawn-length [] e = absurd (ground arith)
  is_drawn-length (p ∷ []) e = absurd (ground arith)
  is_drawn-length (p ∷ q ∷ ps) e = omega arith

  pub flush_stroke-IsWell : (d : Drawing F) → IsWell l d → Yields (IsWell l) (flush_stroke fl r l d)
  unfolding flush_stroke
  flush_stroke-IsWell d h = elim (Bool-cases (is_drawn fl r l d.stroke)) [
    | inr short ↦ rw short (clear_stroke-IsWell d h)
    | inl long ↦
        let two = is_drawn-length d.stroke long in
        let seg = h.segments in
        let f : Figure F = Figure.path d.stroke d.styles d.width in
        let made = create_shape-IsWell d.pen f d (two, omega (arith, two, seg)) h in
        rw long (
          >>=-Yields (IsWell l) (IsWell l) (create_shape fl r l d.pen f d)
            (λ e. ok (clear_stroke fl r l e)) made clear_stroke-IsWell)
  ]

  length-started :
      (ps : List (Point F)) (start p : Point F) (n : ℕ)
      → length ps ≡ n + min 1 n
      → length (started fl r l ps start ++ p ∷ []) ≡ n + 1 + min 1 (n + 1)
  length-started [] start p n e = omega (arith, e)
  length-started (q ∷ ps) start p n e = let k = length-snoc (q ∷ ps) p in omega (arith, e, k)

  move_to-IsWell :
      (p : Point F) (d : Drawing F)
      → d.points + 1 ≤ l.points
      → IsWell l d
      → IsWell l (move_to fl r l p d)
  move_to-IsWell p d room h =
      elim (Bool-cases (d.pen_down && (not (has_semantics r) || is_inked d.pen))) [
        | inr up ↦ simp up (record {
          commanded = h.commanded;
          pointed = room;
          written = h.written;
          next = h.next;
          few = h.few;
          numbered = h.numbered;
          drawn = h.drawn;
          segments = h.segments;
        })
        | inl down ↦
            let k = length-snoc d.styles (style_of fl r l d) in
            simp down (record {
              commanded = h.commanded;
              pointed = room;
              written = h.written;
              next = h.next;
              few = h.few;
              numbered = h.numbered;
              drawn = h.drawn;
              segments =
                  length-started d.stroke d.position p (length d.styles) h.segments
                  ∙ ap (λ n. n + min 1 n) (omega (arith, k));
            })
      ]

  pub add_absolute_point-IsWell :
      (p : Point F) (d : Drawing F) → IsWell l d → Yields (IsWell l) (add_absolute_point fl r l p d)
  unfolding add_absolute_point
  add_absolute_point-IsWell p d h = elim (Bool-cases (ltb l.points (d.points + 1))) [
    | inl full ↦ rw full tt
    | inr room ↦ elim (Bool-cases (has_semantics r && not (is_finite_point fl r l p))) [
      | inl wild ↦ rw (room, wild) tt
      | inr tame ↦ rw (room, tame) (move_to-IsWell p d (ground arith) h)
    ]
  ]

  pub add_pairs-IsWell :
      (ns : List F) (d : Drawing F) → IsWell l d → Yields (IsWell l) (add_pairs fl r l ns d)
  unfolding add_point
  add_pairs-IsWell [] d h = h
  add_pairs-IsWell (x ∷ []) d h = h
  add_pairs-IsWell (x ∷ y ∷ ns) d h =
      >>=-Yields (IsWell l) (IsWell l) (add_point fl r l x y d) (add_pairs fl r l ns)
        (add_absolute_point-IsWell
          (if d.relative
            then record { x = fl.base.add d.position.x x; y = fl.base.add d.position.y y }
            else record { x = x; y = y })
          d h)
        (add_pairs-IsWell ns)
