-- ===== src/Jobs/Submit/Frames.antt =====
-- What submit_job leaves as it was, and how its keys are read back.
use plt_converter.Prelude.{
  ℕ, ◌≡◌, refl, ap, ◌∙◌, Bool, true, false, Option, none, some, List, [], ◌∷◌, ◌==◌, delete_where,
  find_row, arith, Bool-cases, inl, inr, ==_refl,
}
use plt_converter.Jobs.Rows.{UserKey, same_user, Job}
use plt_converter.Jobs.Desk.{
  Scope, Index, get_index, set_index, Desk, load_job, save_job, enforce_rate_limit,
  enforce_user_capacity,
}
use plt_converter.Jobs.Submit.{
  drop_request, set_request, admit, is_full, failed_entry, push, called, submit_new, submit_same,
  submit_job, new_job, is_standing, requested_job, is_repeatable, submit_found, submit_standing,
  job_of, fingerprint_of,
}
use plt_converter.Jobs.Matching.{Submission, Intake}

pub same_user_refl : (u : UserKey) → same_user u u ≡ true
same_user_refl (UserKey.account n) = ==_refl n
same_user_refl (UserKey.guest n) = ==_refl n

pub find-delete_where :
    (k id : ℕ) (js : List Job)
    → (k == id) ≡ false
    → find_row (λ (j : Job). j.id) k (delete_where (λ (j : Job). j.id == id) js)
      ≡ find_row (λ (j : Job). j.id) k js
find-delete_where k id [] h = refl
find-delete_where k id (j ∷ js) h = ground (arith, find-delete_where k id js h)

pub load_job-save_job :
    (k : ℕ) (j : Job) (d : Desk) → (k == j.id) ≡ false → load_job k (save_job j d) ≡ load_job k d
load_job-save_job k j d h = ground (arith, find-delete_where k j.id d.jobs h)

pub load_job_saved : (j : Job) (d : Desk) → load_job j.id (save_job j d) ≡ some j
load_job_saved j d = rw (==_refl j.id) refl

pub get_index-set_index :
    (u : UserKey) (k id : ℕ) (xs : List Index)
    → get_index u k (set_index u k id xs) ≡ some (record { user = u; key = k; job = id })
get_index-set_index u k id xs = rw (same_user_refl u, ==_refl k) refl

set_request-jobs :
    (u : UserKey) (r : Option ℕ) (id : ℕ) (d : Desk) → (set_request u r id d).jobs ≡ d.jobs
unfolding set_request
set_request-jobs u none id d = refl
set_request-jobs u (some request) id d = refl

drop_request-jobs : (u : UserKey) (r : Option ℕ) (d : Desk) → (drop_request u r d).jobs ≡ d.jobs
unfolding drop_request
drop_request-jobs u none d = refl
drop_request-jobs u (some request) d = refl

abbrev find_job : ℕ → List Job → Option Job
find_job k js = find_row (λ (j : Job). j.id) k js

-- Each part of a submission reads the other records as they were.
module _ (i : Intake) (s : Submission) (k : ℕ) (other : (k == i.fresh) ≡ false) where
  pub load_job-called :
      (b : Bool) (d : Desk) → load_job k (called i s (admit i s d) b).1 ≡ load_job k d
  unfolding called
  load_job-called true d =
      ap (find_job k) (set_request-jobs s.user s.request i.fresh (push i (admit i s d)))
      ∙ load_job-save_job k (new_job i s) d other
  load_job-called false d =
      load_job-save_job k (failed_entry i s) (save_job (new_job i s) d) other
      ∙ load_job-save_job k (new_job i s) d other

  pub load_job-submit_new : (d : Desk) → load_job k (submit_new i s d).1 ≡ load_job k d
  unfolding submit_new
  load_job-submit_new d =
      let rated = enforce_rate_limit Scope.jobs_scope i.settings.rate_limit i.now s.user d in
      let fitted = enforce_user_capacity i.settings s.user rated.1 in
      elim (Bool-cases rated.0) [
        | inr late ↦ simp late (unfold enforce_rate_limit in refl)
        | inl timely ↦ elim (Bool-cases fitted.0) [
          | inr many ↦ simp (timely, many) (unfold enforce_rate_limit enforce_user_capacity in refl)
          | inl few ↦ elim (Bool-cases (is_full i fitted.1)) [
            | inl full ↦
                simp (timely, few, full) (unfold enforce_rate_limit enforce_user_capacity in refl)
            | inr room ↦
                simp (timely, few, room)
                  (load_job-called i.enqueue fitted.1
                    ∙ (unfold enforce_rate_limit enforce_user_capacity in refl))
          ]
        ]
      ]

  load_job-submit_same :
      (d : Desk) (o : Option Job) → load_job k (submit_found i s d o).1 ≡ load_job k d
  unfolding submit_found
  load_job-submit_same d none = load_job-submit_new d
  load_job-submit_same d (some j) = elim (Bool-cases (is_repeatable i s j)) [
    | inl again ↦ simp again (ap (find_job k) (set_request-jobs s.user s.request j.id d))
    | inr other_job ↦ simp other_job (load_job-submit_new d)
  ]

  load_job-submit_standing :
      (d : Desk) (o : Option Job) → load_job k (submit_standing i s d o).1 ≡ load_job k d
  unfolding submit_standing submit_same
  load_job-submit_standing d none =
      let e = drop_request s.user s.request d in
      load_job-submit_same e (job_of e (get_index s.user (fingerprint_of i s) e.fingerprints))
      ∙ ap (find_job k) (drop_request-jobs s.user s.request d)
  load_job-submit_standing d (some j) = refl

  -- A submission changes no record but the one under the id that it takes: however it ends, every other
  -- id reads as before.
  pub submit_job-keeps : (d : Desk) → load_job k (submit_job i s d).1 ≡ load_job k d
  unfolding submit_job
  submit_job-keeps d = elim (Bool-cases i.locked) [
    | inl held ↦
        simp held (load_job-submit_standing d (is_standing i (requested_job s.user s.request d)))
    | inr busy ↦ simp busy refl
  ]
