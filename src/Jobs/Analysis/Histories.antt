-- ===== src/Jobs/Analysis/Histories.antt =====
-- A preview among the requests for a layout, the workers that analyse it and the callbacks of RQ.
use plt_converter.Prelude.{
  ℕ, ◌≡◌, ◌∙◌, refl, ap, sym, subst, not, ◌&&◌, ◌||◌, Option, none, some, List, [], ◌∷◌, ◌++◌, ◌==◌,
  All, Bool-cases, inl, inr, ==→eq, arith,
}
use plt_converter.Jobs.Results.{Value, LayoutStatus, is_finished, LayoutError}
use plt_converter.Jobs.Rows.{is_preview, Job}
use plt_converter.Jobs.Desk.{Desk, load_job}
use plt_converter.Jobs.Layout.{LayoutRequest, LayoutIntake, enqueue_layout}
use plt_converter.Jobs.Analysis.{
  layout_of, Run, Start, is_stale, begin_unless_cached, begin_analysis, finish_analysis, Analyzed,
  end_analysis, RqCall, layout_identity, mark_layout,
}
use plt_converter.Jobs.Analysis.Fenced.{IsCurrent, IsFencedJob, enqueue-IsFenced}

-- The record of one preview, and every analysis of it that has begun.
pub record Preview : Type 0 where
  pub job : Option Job
  pub runs : List Run

abbrev pub run_started : Start → List Run → List Run
run_started Start.stale runs = runs
run_started (Start.cached x) runs = runs
run_started (Start.analyses r) runs = r ∷ runs

-- The record as a desk holds it.
abbrev pub after_begin : Start × Option Job → Preview → Preview
after_begin b p = record { job = b.1; runs = run_started b.0 p.runs }

module _ (analyze : Value → Option (List ℕ) → ℕ) where
  -- Requests, workers and callbacks in any order; a worker may end any number of times.
  pub data Happens (p : Preview) : Preview → Type 0 where
    requests :
        (i : LayoutIntake) (r : LayoutRequest) (d : Desk)
        → load_job r.job d ≡ p.job
        → Happens p (record p { job = load_job r.job (enqueue_layout i r d).1 })
    begins :
        (now : ℕ) (expected : Option ℕ)
        → Happens p (after_begin (begin_analysis now expected p.job) p)
    succeeds :
        (now : ℕ) (r : Run) (before after : List Run)
        → p.runs ≡ before ++ r ∷ after
        → Happens p (record p {
          job = end_analysis now r (Analyzed.suggests (analyze r.mode r.pages)) p.job;
        })
    fails :
        (now : ℕ) (r : Run) (e : LayoutError)
        → Happens p (record p { job = end_analysis now r (Analyzed.fails e) p.job })
    calls_back :
        (now : ℕ) (e : LayoutError) (c : RqCall)
        → Happens p (record p { job = mark_layout now e c p.job })
    vanishes : Happens p (record p { job = none })

  pub data History (p : Preview) : Preview → Type 0 where
    here : History p p
    next : {q r : Preview} → History p q → Happens q r → History p r

  finish-IsFenced :
      (now : ℕ) (status : LayoutStatus) (e : Option LayoutError) (expected : Option ℕ)
      (j : Option Job) (runs : List Run)
      → IsFencedJob analyze j runs
      → IsFencedJob analyze (finish_analysis now status none e expected j) runs
  unfolding finish_analysis
  finish-IsFenced now status e expected none runs g = g
  finish-IsFenced now status e expected (some j) runs g =
      elim (Bool-cases (is_stale expected (layout_of j).attempt)) [
        | inl old ↦ simp old g
        | inr live ↦
            elim (Bool-cases
              (is_finished (layout_of j).status && not (is_finished (some status)))) [
                | inl over ↦ simp (live, over) g
                | inr open_layout ↦
                    simp (live, open_layout) (record { kept = g.kept; current = g.current })
              ]
      ]

  succeed-IsFenced :
      (now : ℕ) (r : Run) (j : Job) (runs : List Run)
      → IsCurrent (layout_of j).attempt (layout_of j).mode (layout_of j).page_indexes r
      → IsFencedJob analyze (some j) runs
      → IsFencedJob analyze
          (finish_analysis now LayoutStatus.finished
            (some (analyze r.mode r.pages))
            none
            (some r.attempt)
            (some j))
          runs
  unfolding finish_analysis
  succeed-IsFenced now r j runs c g = elim (Bool-cases ((layout_of j).attempt == r.attempt)) [
    | inr old ↦ simp old g
    | inl live ↦
        let a = c.agrees (sym (==→eq (layout_of j).attempt r.attempt live)) in
        let named : analyze (layout_of j).mode (layout_of j).page_indexes ≡ analyze r.mode r.pages =
          ap (λ m. analyze m (layout_of j).page_indexes) (sym a.0)
          ∙ ap (λ ps. analyze r.mode ps) (sym a.1) in
        elim (Bool-cases (is_finished (layout_of j).status)) [
          | inl again ↦
              simp (live, again) (record { kept = λ y e. named ∙ some_inj e; current = g.current })
          | inr first ↦
              simp (live, first) (record { kept = λ y e. named ∙ some_inj e; current = g.current })
        ]
  ]
    where
      some_inj : {x y : ℕ} → some x ≡ some y → x ≡ y
      some_inj e = ground arith

  member-IsCurrent :
      (n : ℕ) (mode : Value) (pages : Option (List ℕ)) (before after : List Run) (r : Run)
      → All (IsCurrent n mode pages) (before ++ r ∷ after)
      → IsCurrent n mode pages r
  member-IsCurrent n mode pages [] after r a = a.0
  member-IsCurrent n mode pages (x ∷ before) after r a =
      member-IsCurrent n mode pages before after r a.1

  begin-IsFenced :
      (now : ℕ) (expected : Option ℕ) (j : Option Job) (runs : List Run)
      → IsFencedJob analyze j runs
      → IsFencedJob analyze
          (begin_analysis now expected j).1
          (run_started (begin_analysis now expected j).0 runs)
  unfolding begin_analysis
  begin-IsFenced now expected none runs g = tt
  begin-IsFenced now expected (some j) runs g =
      elim (Bool-cases (not (is_preview j.job_type) || is_stale expected (layout_of j).attempt)) [
        | inl old ↦ simp old g
        | inr live ↦ simp live (by_cache (layout_of j).suggestion refl)
      ]
    where
      by_cache :
          (o : Option ℕ)
          → (layout_of j).suggestion ≡ o
          → IsFencedJob analyze
              (begin_unless_cached now j (layout_of j) o).1
              (run_started (begin_unless_cached now j (layout_of j) o).0 runs)
      by_cache (some x) e = g
      by_cache none e = record {
        kept = g.kept;
        current = (record { behind = omega arith; agrees = λ h. (refl, refl) }, g.current);
      }

  Happens-IsFenced :
      {p q : Preview}
      → Happens p q
      → IsFencedJob analyze p.job p.runs
      → IsFencedJob analyze q.job q.runs
  unfolding end_analysis mark_layout
  Happens-IsFenced {p} (Happens.requests i r d e) g =
      enqueue-IsFenced analyze p.runs i r d (subst (λ o. IsFencedJob analyze o p.runs) (sym e) g)
  Happens-IsFenced {p} (Happens.begins now expected) g = begin-IsFenced now expected p.job p.runs g
  Happens-IsFenced {p} (Happens.succeeds now r before after e) g = by_record p.job g
    where
      by_record :
          (o : Option Job)
          → IsFencedJob analyze o p.runs
          → IsFencedJob analyze
              (end_analysis now r (Analyzed.suggests (analyze r.mode r.pages)) o)
              p.runs
      by_record none h = unfold finish_analysis in tt
      by_record (some j) h =
          let l = layout_of j in
          succeed-IsFenced now r j p.runs
            (member-IsCurrent l.attempt l.mode l.page_indexes before after r
              (subst (All (IsCurrent l.attempt l.mode l.page_indexes)) e h.current))
            h
  Happens-IsFenced {p} (Happens.fails now r e) g =
      finish-IsFenced now LayoutStatus.broken (some e) (some r.attempt) p.job p.runs g
  Happens-IsFenced {p} (Happens.calls_back now e c) g =
      finish-IsFenced now LayoutStatus.broken (some e) (layout_identity c).1 p.job p.runs g
  Happens-IsFenced Happens.vanishes g = tt

  History-IsFenced :
      {p q : Preview}
      → History p q
      → IsFencedJob analyze p.job p.runs
      → IsFencedJob analyze q.job q.runs
  History-IsFenced History.here g = g
  History-IsFenced (History.next h e) g = Happens-IsFenced e (History-IsFenced h g)

  -- From a preview without a suggestion or an analysis, whatever requests, workers and callbacks
  -- follow in whatever order: a suggestion that its record holds is what the analysis answers for the
  -- metadata mode and the pages that the record names.
  pub suggestion-IsCurrent :
      (j k : Job) (q : Preview) (x : ℕ)
      → (layout_of j).suggestion ≡ none
      → History (record { job = some j; runs = [] }) q
      → q.job ≡ some k
      → (layout_of k).suggestion ≡ some x
      → analyze (layout_of k).mode (layout_of k).page_indexes ≡ x
  suggestion-IsCurrent j k q x empty h e s =
      let g : IsFencedJob analyze q.job q.runs =
        History-IsFenced h (record { kept = λ y f. ground arith; current = tt }) in
      (subst (λ o. IsFencedJob analyze o q.runs) e g).kept x s
