-- ===== src/Jobs/Analysis/Fenced.antt =====
-- The suggestion that a preview keeps, and the analyses that are under way.
use plt_converter.Prelude.{
  ℕ, ◌+◌, length, ◌≤◌, ◌≡◌, refl, sym, subst, not, ◌&&◌, ◌||◌, Option, none, some, List, [], ◌∷◌,
  ◌==◌, All, Bool-cases, inl, inr, ==→eq, ==_refl, leb, arith, find_row,
}
use plt_converter.Jobs.Results.{Value, is_broken, is_underway, Layout, Output}
use plt_converter.Jobs.Rows.{same_user, is_preview, is_done, Job}
use plt_converter.Jobs.Billing.{is_given}
use plt_converter.Jobs.Desk.{layout_capacity, Scope, Desk, load_job, save_job, enforce_rate_limit}
use plt_converter.Jobs.Pages.{max_blank_cells, normalize_page_indexes, is_valid_mode}
use plt_converter.Jobs.Layout.{
  page_total, is_same_request, reset_layout, with_layout, LayoutRequest, LayoutIntake, queue_layout,
  place_layout, decide_layout, renew_layout, check_layout, find_layout, enqueue_layout,
}
use plt_converter.Jobs.Analysis.{output_of, layout_of, Run}

-- An analysis is of an earlier attempt, or of the parameters that the record names.
pub record IsCurrent (attempt : ℕ) (mode : Value) (pages : Option (List ℕ)) (r : Run) : Type 0 where
  pub behind : r.attempt ≤ attempt
  pub agrees : r.attempt ≡ attempt → (r.mode ≡ mode) × (r.pages ≡ pages)

renewed-IsCurrent :
    (n : ℕ) (mode mode' : Value) (pages pages' : Option (List ℕ)) (runs : List Run)
    → All (IsCurrent n mode pages) runs
    → All (IsCurrent (n + 1) mode' pages') runs
renewed-IsCurrent n mode mode' pages pages' [] a = tt
renewed-IsCurrent n mode mode' pages pages' (r ∷ runs) a =
    let b = a.0.behind in
    (
      record { behind = omega (arith, b); agrees = λ e. ground (arith, b, e) },
      renewed-IsCurrent n mode mode' pages pages' runs a.1,
    )

-- `analyze` stands for optimize_pdf_layout on the preview's file.
module _ (analyze : Value → Option (List ℕ) → ℕ) where
  -- A suggestion is the answer for the parameters that the record names.
  pub record IsFencedAt (n : ℕ) (mode : Value) (pages : Option (List ℕ)) (x : Option ℕ)
      (runs : List Run) : Type 0 where
    pub kept : (y : ℕ) → x ≡ some y → analyze mode pages ≡ y
    pub current : All (IsCurrent n mode pages) runs

  abbrev pub IsFenced : Layout → List Run → Type 0
  IsFenced l runs = IsFencedAt l.attempt l.mode l.page_indexes l.suggestion runs

  abbrev pub IsFencedJob : Option Job → List Run → Type 0
  IsFencedJob none runs = Unit
  IsFencedJob (some j) runs = IsFenced (layout_of j) runs

  module _ (runs : List Run) where
    reset-IsFenced :
        (cells : ℕ) (mode : Value) (pages : List ℕ) (l : Layout)
        → IsFenced l runs
        → IsFenced (reset_layout cells mode pages l) runs
    reset-IsFenced cells mode pages l g = record {
      kept = λ x e. ground arith;
      current = renewed-IsCurrent l.attempt l.mode mode l.page_indexes (some pages) runs g.current;
    }

    queue-IsFenced : (l : Layout) → IsFenced l runs → IsFenced (queue_layout l) runs
    queue-IsFenced l g = record {
      kept = g.kept;
      current =
          renewed-IsCurrent l.attempt l.mode l.mode l.page_indexes l.page_indexes runs g.current;
    }

    -- Every record that enqueue_pdf_layout_suggestion stores.
    place-IsFenced :
        (i : LayoutIntake) (l : Layout) (out : Output) (j : Job) (d : Desk)
        → IsFencedJob (load_job j.id d) runs
        → IsFenced l runs
        → IsFencedJob (load_job j.id (place_layout i l out j d).1) runs
    unfolding place_layout
    place-IsFenced i l out j d stored g =
        let q = queue-IsFenced l g in
        elim (Bool-cases (leb (layout_capacity i.settings) (length d.layout_queue + i.started))) [
          | inl full ↦ simp full stored
          | inr room ↦ elim (Bool-cases i.enqueue) [
            | inl taken ↦ simp (room, taken, ==_refl j.id) q
            | inr lost ↦ simp (room, lost, ==_refl j.id) q
          ]
        ]

    decide-IsFenced :
        (i : LayoutIntake) (r : LayoutRequest) (l : Layout) (out : Output) (j : Job) (d : Desk)
        → IsFencedJob (load_job j.id d) runs
        → IsFenced l runs
        → IsFencedJob (load_job j.id (decide_layout i r l out j d).1) runs
    unfolding decide_layout
    decide-IsFenced i r l out j d stored g =
        let rated = enforce_rate_limit Scope.layout_scope i.rate_limit i.now r.user d in
        elim (Bool-cases (is_given l.suggestion || is_underway l.status)) [
          | inl shown ↦ simp shown stored
          | inr open_job ↦ elim (Bool-cases (is_broken l.status && not r.retry_failed)) [
            | inl given_up ↦ simp (open_job, given_up) stored
            | inr wanted ↦ elim (Bool-cases rated.0) [
              | inr late ↦ simp (open_job, wanted, late) (unfold enforce_rate_limit in stored)
              | inl timely ↦ elim (Bool-cases i.queue_locked) [
                | inr busy ↦
                    simp (open_job, wanted, timely, busy) (unfold enforce_rate_limit in stored)
                | inl held ↦
                    simp (open_job, wanted, timely, held)
                      (place-IsFenced i l out j rated.1 (unfold enforce_rate_limit in stored) g)
              ]
            ]
          ]
        ]

    renew-IsFenced :
        (i : LayoutIntake) (r : LayoutRequest) (out : Output) (j : Job) (d : Desk)
        (pages : Option (List ℕ))
        → IsFencedJob (load_job j.id d) runs
        → IsFenced out.layout runs
        → IsFencedJob (load_job j.id (renew_layout i r out j d pages).1) runs
    unfolding renew_layout
    renew-IsFenced i r out j d none stored g = stored
    renew-IsFenced i r out j d (some pages) stored g =
        let cells = max_blank_cells i.blank_cells in
        let l = reset_layout cells r.metadata_mode pages out.layout in
        let k = with_layout i.now l out j in
        let s = reset-IsFenced cells r.metadata_mode pages out.layout g in
        elim (Bool-cases (is_same_request cells r.metadata_mode pages out.layout)) [
          | inl same ↦ simp same (decide-IsFenced i r out.layout out j d stored g)
          | inr other ↦
              simp other (decide-IsFenced i r l out k (save_job k d) (rw (==_refl j.id) s) s)
        ]

    check-IsFenced :
        (i : LayoutIntake) (r : LayoutRequest) (j : Job) (d : Desk) (o : Option Output)
        → j.result ≡ o
        → IsFencedJob (load_job j.id d) runs
        → IsFenced (layout_of j) runs
        → IsFencedJob (load_job j.id (check_layout i r j d o).1) runs
    unfolding check_layout
    check-IsFenced i r j d none e stored g = stored
    check-IsFenced i r j d (some out) e stored g =
        elim (Bool-cases (is_valid_mode r.metadata_mode out.needs_choice)) [
          | inr wrong ↦ simp wrong stored
          | inl right ↦ simp right (
              renew-IsFenced i r out j d (normalize_page_indexes r.page_indexes (page_total out))
                stored (subst (λ x. IsFenced (output_of x).layout runs) e g))
        ]

    load_job-id :
        (k : ℕ) (js : List Job) (j : Job) → find_row (λ (x : Job). x.id) k js ≡ some j → k ≡ j.id
    load_job-id k [] j e = ground arith
    load_job-id k (x ∷ js) j e = elim (Bool-cases (x.id == k)) [
      | inl hit ↦ ground (arith, ==→eq x.id k hit)
      | inr miss ↦ load_job-id k js j (rw miss at e)
    ]

    find-IsFenced :
        (i : LayoutIntake) (r : LayoutRequest) (d : Desk) (o : Option Job)
        → load_job r.job d ≡ o
        → IsFencedJob o runs
        → IsFencedJob (load_job r.job (find_layout i r d o).1) runs
    unfolding find_layout
    find-IsFenced i r d none e g = subst (λ x. IsFencedJob x runs) (sym e) g
    find-IsFenced i r d (some j) e g =
        let stored : IsFencedJob (load_job r.job d) runs =
          subst (λ x. IsFencedJob x runs) (sym e) g in
        let same : j.id ≡ r.job = sym (load_job-id r.job d.jobs j e) in
        elim (Bool-cases (is_preview j.job_type)) [
          | inr wrong ↦ simp wrong stored
          | inl preview ↦ elim (Bool-cases (same_user j.user r.user)) [
            | inr foreign ↦ simp (preview, foreign) stored
            | inl own ↦ elim (Bool-cases (is_done j.status)) [
              | inr early ↦ simp (preview, own, early) stored
              | inl finished ↦
                  simp (preview, own, finished)
                    (subst (λ k. IsFencedJob (load_job k (check_layout i r j d j.result).1) runs)
                      same
                      (check-IsFenced i r j d j.result refl
                        (subst (λ k. IsFencedJob (load_job k d) runs) (sym same) stored) g))
            ]
          ]
        ]

    pub enqueue-IsFenced :
        (i : LayoutIntake) (r : LayoutRequest) (d : Desk)
        → IsFencedJob (load_job r.job d) runs
        → IsFencedJob (load_job r.job (enqueue_layout i r d).1) runs
    unfolding enqueue_layout
    enqueue-IsFenced i r d g = elim (Bool-cases i.locked) [
      | inl held ↦ simp held (find-IsFenced i r d (load_job r.job d) refl g)
      | inr busy ↦ simp busy g
    ]
