-- ===== src/Jobs/Submit/Entries.antt =====
-- When submit_job enters a new record.
use plt_converter.Prelude.{
  ◌≡◌, refl, subst, Bool, true, false, Option, none, some, Bool-cases, inl, inr, arith,
}
use plt_converter.Jobs.Rows.{Job}
use plt_converter.Jobs.Desk.{Desk, Scope, get_index, enforce_rate_limit, enforce_user_capacity}
use plt_converter.Jobs.Submit.{
  Outcome, drop_request, admit, is_full, called, submit_new, submit_found, submit_same,
  submit_standing, submit_job, new_job, is_standing, requested_job, is_repeatable, job_of,
  fingerprint_of, answer_standing,
}
use plt_converter.Jobs.Matching.{Submission, Intake, matches_billing_submission}

abbrev pub rated : Intake → Submission → Desk → Bool × Desk
rated i s d = enforce_rate_limit Scope.jobs_scope i.settings.rate_limit i.now s.user d

abbrev pub fitted : Intake → Submission → Desk → Bool × Desk
fitted i s d = enforce_user_capacity i.settings s.user (rated i s d).1

-- The three limits were kept, and what was entered.
pub record IsEntered (i : Intake) (s : Submission) (d : Desk) (j : Job) (d' : Desk) : Type 0 where
  pub timely : (rated i s d).0 ≡ true
  pub few : (fitted i s d).0 ≡ true
  pub room : is_full i (fitted i s d).1 ≡ false
  pub job : j ≡ new_job i s
  pub desk : d' ≡ (called i s (admit i s (fitted i s d).1) true).1

-- For an outcome that accepts a job that was not there.
abbrev IsEntry : Intake → Submission → Desk → Outcome × Desk → Type 0
IsEntry i s d (Outcome.accepts j, d') = j.deduplicated ≡ false → IsEntered i s d j d'
IsEntry i s d (Outcome.conflict, d') = Unit
IsEntry i s d (Outcome.rejected n, d') = Unit
IsEntry i s d (Outcome.enqueue_error, d') = Unit

module _ (i : Intake) (s : Submission) where
  called-IsEntry :
      (d : Desk) (b : Bool)
      → (rated i s d).0 ≡ true
      → (fitted i s d).0 ≡ true
      → is_full i (fitted i s d).1 ≡ false
      → IsEntry i s d (called i s (admit i s (fitted i s d).1) b)
  unfolding called
  called-IsEntry d true t f r =
      λ fresh. record { timely = t; few = f; room = r; job = refl; desk = unfold called in refl }
  called-IsEntry d false t f r = tt

  submit_new-IsEntry : (d : Desk) → IsEntry i s d (submit_new i s d)
  unfolding submit_new
  submit_new-IsEntry d = elim (Bool-cases (rated i s d).0) [
    | inr late ↦ simp late tt
    | inl timely ↦ elim (Bool-cases (fitted i s d).0) [
      | inr many ↦ simp (timely, many) tt
      | inl few ↦ elim (Bool-cases (is_full i (fitted i s d).1)) [
        | inl full ↦ simp (timely, few, full) tt
        | inr room ↦ simp (timely, few, room) (called-IsEntry d i.enqueue timely few room)
      ]
    ]
  ]

  submit_found-IsEntry : (d : Desk) (o : Option Job) → IsEntry i s d (submit_found i s d o)
  unfolding submit_found
  submit_found-IsEntry d none = submit_new-IsEntry d
  submit_found-IsEntry d (some j) = elim (Bool-cases (is_repeatable i s j)) [
    | inl again ↦ simp again (λ h. ground arith)
    | inr other ↦ simp other (submit_new-IsEntry d)
  ]

  answer_standing-repeats :
      (m : Option Bool) (j : Job) (d d' : Desk) → IsEntry i s d (answer_standing m j, d')
  answer_standing-repeats (some true) j d d' = λ h. ground arith
  answer_standing-repeats (some false) j d d' = tt
  answer_standing-repeats none j d d' = tt

  submit_job-IsEntry : (d : Desk) → IsEntry i s (drop_request s.user s.request d) (submit_job i s d)
  unfolding submit_job submit_standing submit_same
  submit_job-IsEntry d = elim (Bool-cases i.locked) [
    | inr busy ↦ simp busy tt
    | inl held ↦ simp held (by_standing (is_standing i (requested_job s.user s.request d)))
  ]
    where
      by_standing :
          (o : Option Job) → IsEntry i s (drop_request s.user s.request d) (submit_standing i s d o)
      by_standing none =
          let e = drop_request s.user s.request d in
          submit_found-IsEntry e (job_of e (get_index s.user (fingerprint_of i s) e.fingerprints))
      by_standing (some j) =
          answer_standing-repeats (matches_billing_submission i s d j) j
            (drop_request s.user s.request d) d

  pub entered :
      (d d' : Desk) (j : Job)
      → submit_job i s d ≡ (Outcome.accepts j, d')
      → j.deduplicated ≡ false
      → IsEntered i s (drop_request s.user s.request d) j d'
  entered d d' j e fresh =
      subst (IsEntry i s (drop_request s.user s.request d)) e (submit_job-IsEntry d) fresh
