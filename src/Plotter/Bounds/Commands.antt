-- ===== src/Plotter/Bounds/Commands.antt =====
-- The commands keep the limits of parse_plt.
use plt_converter.Prelude.{
  ℕ, ◌+◌, true, false, not, ◌&&◌, List, [], ◌∷◌, arith, length, Bool-cases, inl, inr, ltb,
}
use plt_converter.Plotter.Floats.{Floats}
use plt_converter.Plotter.Tokens.{Command, Token, number_tokens}
use plt_converter.Plotter.Drawing.{
  Parsed, ok, refuse, ◌>>=◌, ◌>>◌, guard, Refusal, Rules, has_semantics, Limits, Point, Figure,
  Drawing, Warning, warn_if,
}
use plt_converter.Plotter.Strokes.{flush_stroke, add_pairs}
use plt_converter.Plotter.Arcs.{add_circle}
use plt_converter.Plotter.Arguments.{
  Name, name_of, is_supported, check_tokens, has_bad_token, parse_numbers, value_limit,
  takes_coordinates, is_odd, is_count, is_round, is_flat, check_counts, warn_counts,
}
use plt_converter.Plotter.Commands.{
  initialize, pen_of, select_pen, set_pen_width, store_width, return_carriage, lower_pen, radius_of,
  chord_of, arc_at, arc_absolute, perform, mark_line_type, is_lenient, dispatch, strictly, instruct,
  count_characters, put_text, put_label, count_command, execute, execute_all,
}
use plt_converter.Plotter.Bounds.{Yields, >>=-Yields, >>-Yields, IsWell, warn_if-IsWell, if-IsWell}
use plt_converter.Plotter.Bounds.Strokes.{
  create_shape-IsWell, flush_stroke-IsWell, add_pairs-IsWell,
}
use plt_converter.Plotter.Bounds.Arcs.{add_arc-IsWell, add_circle-IsWell}
use plt_converter.Plotter.Bounds.Labels.{add_label-IsWell}

module _ {F : Type 0} (fl : Floats F) (r : Rules F) (l : Limits) (strip : List ℕ → List ℕ) where
  -- A step behind flush_stroke.
  flushed-IsWell :
      (k : Drawing F → Parsed (Drawing F)) (d : Drawing F)
      → ((e : Drawing F) → IsWell l e → Yields (IsWell l) (k e))
      → IsWell l d
      → Yields (IsWell l) (flush_stroke fl r l d >>= k)
  flushed-IsWell k d f h =
      >>=-Yields (IsWell l) (IsWell l) (flush_stroke fl r l d) k (flush_stroke-IsWell fl r l d h) f

  return_carriage-IsWell : (d : Drawing F) → IsWell l d → IsWell l (return_carriage fl r l strip d)
  return_carriage-IsWell d h =
      if-IsWell l (has_semantics r) (record d { carriage = d.position }) d h h

  moved-IsWell :
      (ns : List F) (d : Drawing F)
      → IsWell l d
      → Yields (IsWell l) (add_pairs fl r l ns d >>= λ e. ok (return_carriage fl r l strip e))
  moved-IsWell ns d h =
      >>=-Yields (IsWell l) (IsWell l) (add_pairs fl r l ns d)
        (λ e. ok (return_carriage fl r l strip e)) (add_pairs-IsWell fl r l ns d h)
        return_carriage-IsWell

  set_pen_width-IsWell :
      (ns : List F) (d : Drawing F) → IsWell l d → IsWell l (set_pen_width fl r l strip ns d)
  set_pen_width-IsWell [] d h = h
  set_pen_width-IsWell (x ∷ []) d h =
      if-IsWell l (fl.base.less x (fl.base.of_nat 0)) d (store_width fl r l strip d.pen x d) h h
  set_pen_width-IsWell (x ∷ p ∷ ns) d h =
      if-IsWell l (fl.base.less x (fl.base.of_nat 0)) d
        (store_width fl r l strip (fl.truncate p) x d) h h

  arc_absolute-IsWell :
      (ns : List F) (d : Drawing F)
      → IsWell l d
      → Yields (IsWell l) (arc_absolute fl r l strip ns d)
  arc_absolute-IsWell (x ∷ y ∷ angle ∷ ns) d h =
      add_arc-IsWell fl r l (record { x = x; y = y }) angle (chord_of fl r l strip ns) d h
  arc_absolute-IsWell [] d h = h
  arc_absolute-IsWell (x ∷ []) d h = h
  arc_absolute-IsWell (x ∷ y ∷ []) d h = h

  arc_at-IsWell :
      (from : Point F) (ns : List F) (d : Drawing F)
      → IsWell l d
      → Yields (IsWell l) (arc_at fl r l strip from ns d)
  arc_at-IsWell from (x ∷ y ∷ angle ∷ ns) d h =
      add_arc-IsWell fl r l (record { x = fl.base.add from.x x; y = fl.base.add from.y y }) angle
        (chord_of fl r l strip ns) d h
  arc_at-IsWell from [] d h = h
  arc_at-IsWell from (x ∷ []) d h = h
  arc_at-IsWell from (x ∷ y ∷ []) d h = h

  perform-IsWell :
      (m : Name) (ns : List F) (d : Drawing F)
      → IsWell l d
      → Yields (IsWell l) (perform fl r l strip m ns d)
  unfolding perform
  perform-IsWell Name.initialize ns d h =
      flushed-IsWell (λ e. ok (initialize fl r l strip e)) d (λ e k. k) h
  perform-IsWell Name.select_pen ns d h =
      flushed-IsWell (λ e. ok (select_pen fl r l strip (pen_of fl r l strip ns) e)) d (λ e k. k) h
  perform-IsWell Name.absolute ns d h = moved-IsWell ns (record d { relative = false }) h
  perform-IsWell Name.relative ns d h = moved-IsWell ns (record d { relative = true }) h
  perform-IsWell Name.pen_up ns d h =
      flushed-IsWell (λ e. add_pairs fl r l ns (lower_pen fl r l strip false e)) d
        (λ e k. add_pairs-IsWell fl r l ns (lower_pen fl r l strip false e) k) h
  perform-IsWell Name.pen_down ns d h = add_pairs-IsWell fl r l ns (lower_pen fl r l strip true d) h
  perform-IsWell Name.circle ns d h =
      flushed-IsWell (add_circle fl r l (radius_of fl r l strip ns)) d
        (add_circle-IsWell fl r l (radius_of fl r l strip ns)) h
  perform-IsWell Name.arc_absolute ns d h = arc_absolute-IsWell ns d h
  perform-IsWell Name.arc_relative ns d h = arc_at-IsWell d.position ns d h
  perform-IsWell Name.velocity ns d h = warn_if-IsWell l (has_semantics r) Warning.speed_ignored d h
  perform-IsWell Name.pen_width ns d h = set_pen_width-IsWell ns d h
  perform-IsWell Name.line_type ns d h = h
  perform-IsWell Name.other ns d h = h

  warn_counts-IsWell :
      (m : Name) (ns : List F) (d : Drawing F) → IsWell l d → IsWell l (warn_counts fl r l m ns d)
  warn_counts-IsWell m ns d h =
      let odd = takes_coordinates m && is_odd (length ns) in
      let count = not (is_count false m (length ns)) in
      let d1 = warn_if odd Warning.odd_coordinates d in
      let d2 = warn_if count Warning.odd_arguments d1 in
      warn_if-IsWell l (is_round fl r l m && is_flat fl r l ns) Warning.bad_circle d2 (
        warn_if-IsWell l count Warning.odd_arguments d1
          (warn_if-IsWell l odd Warning.odd_coordinates d h))

  dispatch-IsWell :
      (c : Command) (m : Name) (ns : List F) (d : Drawing F)
      → IsWell l d
      → Yields (IsWell l) (dispatch fl r l strip c m ns d)
  dispatch-IsWell c m ns d h = elim (Bool-cases (is_lenient fl r l strip)) [
    | inr plain ↦ rw plain (perform-IsWell m ns d h)
    | inl lenient ↦ elim (Bool-cases (is_supported m)) [
      | inl known ↦
          rw (lenient, known)
            (perform-IsWell m ns (warn_counts fl r l m ns d) (warn_counts-IsWell m ns d h))
      | inr unknown ↦ rw (lenient, unknown) h
    ]
  ]

  mark_line_type-IsWell :
      (m : Name) (text : List ℕ) (d : Drawing F)
      → IsWell l d
      → IsWell l (mark_line_type fl r l strip m text d)
  mark_line_type-IsWell m text d h =
      elim m as (λ k. IsWell l (mark_line_type fl r l strip k text d)) [
        | Name.line_type ↦ h
        | _ ↦ h
      ]

  instruct-IsWell :
      (c : Command) (m : Name) (text : List ℕ) (d : Drawing F)
      → IsWell l d
      → Yields (IsWell l) (instruct fl r l strip c m text d)
  unfolding instruct
  instruct-IsWell c m text d h =
      let bad = is_lenient fl r l strip && has_bad_token fl r l (number_tokens text) in
      let e = warn_if bad Warning.bad_parameter d in
      let w = warn_if-IsWell l bad Warning.bad_parameter d h in
      let run : List F → Parsed (Drawing F) =
        λ ns. dispatch fl r l strip c m ns (mark_line_type fl r l strip m text e) in
      >>-Yields (IsWell l) (strictly fl r l strip (guard (is_supported m) (Refusal.unsupported c)))
        _
        (>>-Yields (IsWell l) (strictly fl r l strip (check_tokens fl r l c (number_tokens text))) _
          (>>=-Yields (λ _. Unit {0}) (IsWell l)
            (parse_numbers fl r l (value_limit fl r l m e) text)
            (λ ns. strictly fl r l strip (check_counts fl r l c m ns) >> run ns)
            (any_value (parse_numbers fl r l (value_limit fl r l m e) text))
            (λ ns _.
              >>-Yields (IsWell l) (strictly fl r l strip (check_counts fl r l c m ns)) (run ns) (
                dispatch-IsWell c m ns (mark_line_type fl r l strip m text e)
                  (mark_line_type-IsWell m text e w)))))
    where
      any_value : {A : Type 0} (m : Parsed A) → Yields (λ _. Unit {0}) m
      any_value (ok a) = tt
      any_value (refuse e) = tt

  put_text-IsWell :
      (text : List ℕ) (d : Drawing F)
      → IsWell l d
      → Yields (IsWell l) (put_text fl r l strip text d)
  put_text-IsWell [] d h = h
  put_text-IsWell (c ∷ cs) d h =
      elim (Bool-cases (ltb l.characters (d.characters + length (c ∷ cs)))) [
        | inl full ↦ rw full tt
        | inr room ↦
            let e = count_characters fl r l strip (length (c ∷ cs)) d in
            let k : IsWell l e = record {
              commanded = h.commanded;
              pointed = h.pointed;
              written = ground arith;
              next = h.next;
              few = h.few;
              numbered = h.numbered;
              drawn = h.drawn;
              segments = h.segments;
            } in
            elim (Bool-cases (has_semantics r)) [
              | inl meant ↦ rw (room, meant) (add_label-IsWell fl r l (c ∷ cs) e k)
              | inr plain ↦
                  rw (room, plain)
                    (create_shape-IsWell fl r l d.pen (Figure.text d.position (c ∷ cs)) e tt k)
            ]
      ]

  put_label-IsWell :
      (text : List ℕ) (d : Drawing F)
      → IsWell l d
      → Yields (IsWell l) (put_label fl r l strip text d)
  unfolding put_label
  put_label-IsWell text d h = elim (Bool-cases (has_semantics r)) [
    | inl meant ↦ rw meant (flushed-IsWell (put_text fl r l strip text) d (put_text-IsWell text) h)
    | inr plain ↦ rw plain (put_text-IsWell text d h)
  ]

  count_command-IsWell :
      (d : Drawing F) → IsWell l d → Yields (IsWell l) (count_command fl r l strip d)
  count_command-IsWell d h = elim (Bool-cases (ltb l.commands (d.commands + 1))) [
    | inl full ↦ rw full tt
    | inr room ↦ rw room (record {
      commanded = ground arith;
      pointed = h.pointed;
      written = h.written;
      next = h.next;
      few = h.few;
      numbered = h.numbered;
      drawn = h.drawn;
      segments = h.segments;
    })
  ]

  -- One token keeps the state well.
  pub execute-IsWell :
      (t : Token) (d : Drawing F) → IsWell l d → Yields (IsWell l) (execute fl r l strip t d)
  unfolding execute
  execute-IsWell Token.junk d h = elim (Bool-cases r.strict) [
    | inl strict ↦ rw strict tt
    | inr lenient ↦ rw lenient (warn_if-IsWell l r.projection Warning.junk_skipped d h)
  ]
  execute-IsWell (Token.label text) d h =
      >>=-Yields (IsWell l) (IsWell l) (count_command fl r l strip d) (put_label fl r l strip text)
        (count_command-IsWell d h) (put_label-IsWell text)
  execute-IsWell (Token.instruction c text) d h =
      >>=-Yields (IsWell l) (IsWell l) (count_command fl r l strip d)
        (instruct fl r l strip c (name_of c) text) (count_command-IsWell d h)
        (instruct-IsWell c (name_of c) text)

  pub execute_all-IsWell :
      (ts : List Token) (d : Drawing F)
      → IsWell l d
      → Yields (IsWell l) (execute_all fl r l strip ts d)
  execute_all-IsWell [] d h = h
  execute_all-IsWell (t ∷ ts) d h =
      >>=-Yields (IsWell l) (IsWell l) (execute fl r l strip t d) (execute_all fl r l strip ts)
        (execute-IsWell t d h) (execute_all-IsWell ts)
