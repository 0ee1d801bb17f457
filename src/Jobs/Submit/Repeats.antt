-- ===== src/Jobs/Submit/Repeats.antt =====
-- A conversion that is submitted again under its billing request.
use plt_converter.Prelude.{ℕ, ◌≡◌, ◌∙◌, refl, ap, true, false, Option, none, some, ==_refl, arith}
use plt_converter.Jobs.Results.{Value, Options}
use plt_converter.Jobs.Rows.{JobType, output_version_of, Job}
use plt_converter.Jobs.Desk.{Desk}
use plt_converter.Jobs.Submit.{
  Outcome, drop_request, set_request, admit, called, submit_standing, submit_job, new_job,
  is_standing, requested_job, fingerprint_of, mark_repeated,
}
use plt_converter.Jobs.Matching.{
  Submission, Intake, matches_billing_submission, drop_blank, drop_false, candidate_options,
}
use plt_converter.Jobs.Submit.Frames.{same_user_refl}
use plt_converter.Jobs.Submit.Entries.{fitted, entered}

drop_blank_same : (v : Option Value) → drop_blank v v ≡ v
drop_blank_same none = refl
drop_blank_same (some v) = refl

drop_false_same : (v : Option Value) → drop_false v v ≡ v
drop_false_same none = refl
drop_false_same (some v) = refl

candidate_options_same : (t : JobType) (o : Options) → candidate_options t o o ≡ o
candidate_options_same t o =
    ground (arith, drop_blank_same o.metadata_mode, drop_false_same o.preserve_outer_edges)

module _ (i later : Intake) (s : Submission) (request : ℕ) (given : s.request ≡ some request)
    (same : later.digest ≡ i.digest) (held : later.locked ≡ true) where
  requested_called :
      (d : Desk)
      → requested_job s.user s.request (called i s (admit i s d) true).1 ≡ some (new_job i s)
  unfolding called set_request
  requested_called d = simp (given, same_user_refl s.user, ==_refl request, ==_refl i.fresh) refl

  matches_called : (d : Desk) → matches_billing_submission later s d (new_job i s) ≡ some true
  unfolding matches_billing_submission
  matches_called d =
      let e : later.digest s.job_type (output_version_of s.job_type) s.filename s.source
            (candidate_options s.job_type s.options s.options)
          ≡ fingerprint_of i s =
        ap (λ o. later.digest s.job_type (output_version_of s.job_type) s.filename s.source o)
          (candidate_options_same s.job_type s.options)
        ∙ ap (λ f. f s.job_type (output_version_of s.job_type) s.filename s.source s.options)
            same in
      simp (e, ==_refl (fingerprint_of i s)) refl

  standing_called : is_standing later (some (new_job i s)) ≡ some (new_job i s)
  standing_called = simp given refl

  again_called :
      (d : Desk)
      → submit_job later s (called i s (admit i s d) true).1
        ≡ (Outcome.accepts (mark_repeated (new_job i s)), (called i s (admit i s d) true).1)
  unfolding submit_job
  again_called d =
      let e = (called i s (admit i s d) true).1 in
      let standing : is_standing later (requested_job s.user s.request e) ≡ some (new_job i s) =
        ap (is_standing later) (requested_called d) ∙ standing_called in
      simp (held, standing) (by_match (matches_called e))
    where
      by_match :
          {e : Desk}
          → matches_billing_submission later s e (new_job i s) ≡ some true
          → submit_standing later s e (some (new_job i s))
            ≡ (Outcome.accepts (mark_repeated (new_job i s)), e)
      by_match h = unfold submit_standing in simp h refl

  -- A conversion that was accepted as a new job under a billing request, and that is submitted again
  -- at once with the same hash function, is answered with that job, marked as deduplicated, and
  -- changes nothing: whatever the clock, the limits, the queue and RQ say by then.
  pub submit_job-repeats :
      (d d' : Desk) (j : Job)
      → submit_job i s d ≡ (Outcome.accepts j, d')
      → j.deduplicated ≡ false
      → submit_job later s d' ≡ (Outcome.accepts (mark_repeated j), d')
  submit_job-repeats d d' j e fresh =
      let n = entered i s d d' j e fresh in
      let a = drop_request s.user s.request d in rw (n.job, n.desk) (again_called (fitted i s a).1)
