-- ===== src/Jobs/Billing.antt =====
-- The billing helpers of app/tasks.py, and the answers of app/billing.py that they act on.
use plt_converter.Prelude.{
  ℕ, Bool, true, false, Option, none, some, List, [], ◌∷◌, ◌||◌, if◌then◌else◌,
}
use plt_converter.Jobs.Rows.{is_pdf_to_pdf, is_granted, UserKey, Job, World, CommitAnswer, Effect}

-- _requires_conversion_billing
unfoldable pub requires_billing : Job → Bool
requires_billing j = is_pdf_to_pdf j.job_type || is_granted j.access

abbrev pub has_account : UserKey → Bool
has_account (UserKey.account n) = true
has_account (UserKey.guest n) = false

abbrev pub is_given : Option ℕ → Bool
is_given none = false
is_given (some n) = true

-- What a release or a commit needs: `user:` and a request.
abbrev pub is_billable : Job → Bool
is_billable j = if has_account j.user then is_given j.billing_request else false

-- release_failed_conversion_billing: the answer, and the request that was sent.
unfoldable pub release_failed : World → Job → Bool × List Effect
unfolding requires_billing
release_failed w j =
    if requires_billing j
    then if is_billable j
      then (w.release, Effect.releases j.release_completed ∷ [])
      else (false, [])
    else (false, [])

-- persist_terminal_conversion_billing_release: `asked` is the record that is asked for, `j` the one
-- that is stored.
unfoldable pub persist_release : World → Job → Job → Job × List Effect
unfolding requires_billing release_failed
persist_release w asked j =
    if requires_billing asked
    then (
      record j { billing_released = some (release_failed w asked).0; updated_at = w.now },
      (release_failed w asked).1,
    )
    else (j, [])

-- How commit_successful_conversion_billing ends.
pub data Commit : Type 0 where
  committed : List Effect → Commit
  invalid : Commit
  rejected_by : ℕ → ℕ → Commit

abbrev pub commit_answer : CommitAnswer → Commit
commit_answer CommitAnswer.accepted = Commit.committed (Effect.commits ∷ [])
commit_answer (CommitAnswer.refused code text) = Commit.rejected_by code text

unfoldable pub commit_successful : World → Job → Commit
unfolding requires_billing
commit_successful w j =
    if requires_billing j
    then if is_billable j then commit_answer w.commit else Commit.invalid
    else Commit.committed []
