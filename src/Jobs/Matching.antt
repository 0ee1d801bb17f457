-- ===== src/Jobs/Matching.antt =====
-- matches_billing_submission of app/job_queue.py.
use plt_converter.Prelude.{ℕ, Bool, true, false, Option, none, some, ◌==◌, if◌then◌else◌}
use plt_converter.Jobs.Results.{Value, is_blank, is_false, Options}
use plt_converter.Jobs.Rows.{JobType, OutputVersion, UserKey, Access, Job}
use plt_converter.Jobs.Desk.{Settings, Index, Desk, get_index, Files}

-- The arguments of submit_job.
pub record Submission : Type 0 where
  pub job_type : JobType
  pub source : ℕ
  pub filename : ℕ
  pub options : Options
  pub user : UserKey
  pub request : Option ℕ
  pub access : Option Access

-- What a submission finds around it: whether it gets the lock, the clock, the id that uuid4 gives, the
-- jobs in RQ's started registry, whether RQ takes the call, the files, and sha256.
pub record Intake : Type 0 where
  pub settings : Settings
  pub locked : Bool
  pub now : ℕ
  pub fresh : ℕ
  pub started : ℕ
  pub enqueue : Bool
  pub files : Files
  pub digest : JobType → OutputVersion → ℕ → ℕ → Options → ℕ

-- `{key: value for key, value in options.items() if key != 'metadata_mode'}`, where the option is blank
-- and the saved job had none.
abbrev pub takes_metadata_mode : JobType → Bool
takes_metadata_mode JobType.pdf_to_plt = true
takes_metadata_mode JobType.pdf_to_pdf = true
takes_metadata_mode _ = false

abbrev pub takes_outer_edges : JobType → Bool
takes_outer_edges JobType.pdf_to_plt = true
takes_outer_edges _ = false

abbrev pub drop_blank : Option Value → Option Value → Option Value
drop_blank none (some v) = if is_blank v then none else some v
drop_blank _ given = given

abbrev pub drop_false : Option Value → Option Value → Option Value
drop_false none (some v) = if is_false v then none else some v
drop_false _ given = given

abbrev pub candidate_options : JobType → Options → Options → Options
candidate_options t saved given = record given {
  metadata_mode =
      if takes_metadata_mode t
      then drop_blank saved.metadata_mode given.metadata_mode
      else given.metadata_mode;
  preserve_outer_edges =
      if takes_outer_edges t
      then drop_false saved.preserve_outer_edges given.preserve_outer_edges
      else given.preserve_outer_edges;
}

abbrev pub candidate : Intake → Submission → Job → ℕ
candidate i s j =
    i.digest s.job_type j.output_version s.filename s.source
      (candidate_options s.job_type j.options s.options)

abbrev pub is_job_of : ℕ → Option Index → Bool
is_job_of id none = false
is_job_of id (some x) = x.job == id

-- A record without a fingerprint: the index, or the saved input.
abbrev pub matches_legacy : Intake → Submission → Desk → Job → Option Bool
matches_legacy i s d j =
    if is_job_of j.id (get_index j.user (candidate i s j) d.fingerprints)
    then some true
    else elim (i.files.source j.id) [
      | none ↦ none
      | some source ↦
          some (candidate i s j == i.digest j.job_type j.output_version j.filename source j.options)
    ]

-- matches_billing_submission, `none` where it raises SubmissionConflict.
unfoldable pub matches_billing_submission : Intake → Submission → Desk → Job → Option Bool
matches_billing_submission i s d j = elim j.fingerprint [
  | none ↦ matches_legacy i s d j
  | some expected ↦ some (candidate i s j == expected)
]
