-- ===== src/Plotter/Bounds/Documents.antt =====
-- The documents of parse_plt.
use plt_converter.Prelude.{
  ℕ, ◌≤◌, ◌≡◌, refl, true, false, not, ◌&&◌, none, some, List, [], ◌∷◌, ◌==◌, arith, All, length,
  Bool-cases, inl, inr, ltb, if◌then◌else◌, delete_where, exists_where,
}
use plt_converter.Plotter.Floats.{Floats}
use plt_converter.Plotter.Tokens.{lex}
use plt_converter.Plotter.Drawing.{
  Parsed, ok, ◌>>=◌, ◌>>◌, guard, Refusal, Rules, has_semantics, Limits, limits_of, Shape, Drawing,
  Warning,
}
use plt_converter.Plotter.Strokes.{flush_stroke}
use plt_converter.Plotter.Commands.{execute_all}
use plt_converter.Plotter.Reading.{
  Texts, Metrics, Document, count_points, extents, measure_points, measure_document, fresh_drawing,
  is_positive, is_accuracy, warn_ignored, is_nothing, document_of, parse_plt,
}
use plt_converter.Plotter.Bounds.{
  Yields, >>=-Yields, >>-Yields, Yields-eq-ok, IsDrawn, AreNumbered, IsWell, warn_if-IsWell,
}
use plt_converter.Plotter.Bounds.Strokes.{flush_stroke-IsWell}
use plt_converter.Plotter.Bounds.Commands.{execute_all-IsWell}

module _ {F : Type 0} (fl : Floats F) (r : Rules F) where
  -- Between one shape and the limit, numbered from one on, each path with two points and a style for each
  -- segment; the points are counted, and within the limit under strict or projection.
  pub record IsSheet (l : Limits) (doc : Document F) : Type 0 where
    pub drawn : 1 ≤ length doc.shapes
    pub few : length doc.shapes ≤ l.shapes
    pub numbered : AreNumbered 1 doc.shapes
    pub figures : All (λ (s : Shape F). IsDrawn s.figure) doc.shapes
    pub counted : doc.metrics.point_count ≡ count_points fl r doc.shapes
    pub pointed : has_semantics r ≡ true → doc.metrics.point_count ≤ l.points

  fresh_drawing-IsWell : (l : Limits) → IsWell l (fresh_drawing fl r)
  fresh_drawing-IsWell l = record {
    commanded = omega arith;
    pointed = omega arith;
    written = omega arith;
    next = refl;
    few = omega arith;
    numbered = tt;
    drawn = tt;
    segments = refl;
  }

  measure_points-counted :
      (ss : List (Shape F)) (ps : List _)
      → Yields (λ (m : Metrics F). m.point_count ≡ count_points fl r ss) (measure_points fl r ss ps)
  measure_points-counted ss [] = tt
  measure_points-counted ss (p ∷ ps) = refl

  longer-nothing : {A : Type 0} (xs : List A) → is_nothing fl r xs ≡ false → 1 ≤ length xs
  longer-nothing [] e = absurd (ground arith)
  longer-nothing (x ∷ xs) e = omega arith

  document_of-IsSheet :
      (l : Limits) (d : Drawing F) → IsWell l d → Yields (IsSheet l) (document_of fl r l d)
  unfolding measure_document
  document_of-IsSheet l d h = elim (Bool-cases (is_nothing fl r d.shapes)) [
    | inl nothing ↦ rw nothing tt
    | inr something ↦ rw something (
        >>=-Yields (λ (m : Metrics F). m.point_count ≡ count_points fl r d.shapes) (IsSheet l)
          (measure_document fl r d.shapes) (finished l d)
          (measure_points-counted d.shapes (extents fl r d.shapes))
          (λ m counted. elim (Bool-cases (has_semantics r && ltb l.points m.point_count)) [
            | inl many ↦ rw many tt
            | inr few ↦ rw few (record {
              drawn = longer-nothing d.shapes something;
              few = h.few;
              numbered = h.numbered;
              figures = h.drawn;
              counted = counted;
              pointed = λ meant. ground arith;
            })
          ]))
  ]
    where
      finished : Limits → Drawing F → Metrics F → Parsed (Document F)
      finished l d m =
          guard (not (has_semantics r && ltb l.points m.point_count)) Refusal.many_points
          >> ok (record {
            shapes = d.shapes;
            metrics = m;
            warnings = if has_semantics r then some d.warnings else none;
          })

  -- A document that parse_plt returns has one shape at least and no more than the limit, numbered from
  -- one on; every path of it has two points at least and one style fewer than points; its point count
  -- is the count of the paths' points, and under strict or projection within the limit.
  pub parse_plt-IsSheet :
      (t : Texts) (env : Limits) (text : List ℕ) (doc : Document F)
      → parse_plt fl r t env text ≡ ok doc
      → IsSheet (limits_of (has_semantics r) env) doc
  unfolding parse_plt
  parse_plt-IsSheet t env text doc e =
      let l = limits_of (has_semantics r) env in
      let tokens = lex t.letter (has_semantics r) (delete_where (λ c. c == 0) text) in
      let last : Drawing F → Parsed (Document F) =
        λ d. flush_stroke fl r l d >>= λ e. document_of fl r l (warn_ignored fl r e) in
      let yields : Yields (IsSheet l) (parse_plt fl r t env text) =
        >>-Yields (IsSheet l) (guard (is_positive fl r r.units) Refusal.bad_units) _ (
          >>-Yields (IsSheet l) (guard (is_accuracy fl r r.chord_error) Refusal.bad_accuracy) _ (
            >>-Yields (IsSheet l)
              (guard (not (has_semantics r && exists_where (λ c. c == 0) text))
                Refusal.null_character)
              _
              (>>=-Yields (IsWell l) (IsSheet l)
                (execute_all fl r l t.strip tokens (fresh_drawing fl r)) last
                (execute_all-IsWell fl r l t.strip tokens (fresh_drawing fl r)
                  (fresh_drawing-IsWell l))
                (λ d k.
                  >>=-Yields (IsWell l) (IsSheet l) (flush_stroke fl r l d)
                    (λ e. document_of fl r l (warn_ignored fl r e)) (flush_stroke-IsWell fl r l d k)
                    (λ e k. document_of-IsSheet l (warn_ignored fl r e) (
                      warn_if-IsWell l (not (e.ignored_count == 0))
                        (Warning.ignored_commands e.ignored e.ignored_count) e k)))))) in
      Yields-eq-ok (IsSheet l) (parse_plt fl r t env text) doc yields e
