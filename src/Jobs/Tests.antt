-- ===== src/Jobs/Tests.antt =====
-- Concrete jobs, desks and surroundings for the runs of app/job_queue.py and app/tasks.py.
use plt_converter.Prelude.{ℕ, ◌+◌, ◌*◌, Bool, true, false, Option, none, some, List, [], ◌∷◌}
use plt_converter.Jobs.Results.{Value, Options, Layout, Output}
use plt_converter.Jobs.Rows.{JobType, OutputVersion, UserKey, Job, World, StopAnswer, CommitAnswer}
use plt_converter.Jobs.Desk.{Settings, Desk, Files}
use plt_converter.Jobs.Matching.{Submission, Intake}
use plt_converter.Jobs.Submit.{new_job}
use plt_converter.Jobs.Analysis.{output_of}
pub mod Submissions
pub mod Lives

abbrev pub settings : Settings
settings = record {
  rate_limit = 3;
  user_max = 2;
  queue_max = 20;
  layout_queue_max = 20;
  retention = 1800;
  job_timeout = 90;
  pdf_timeout = 210;
  layout_timeout = 90;
}

abbrev pub files : Files
files = record {
  exists = λ n. true;
  thumbnail = λ n m. true;
  preview = λ n m. true;
  source = λ n. some 77;
}

abbrev digest_of : JobType → OutputVersion → ℕ → ℕ → Options → ℕ
digest_of t v name source o = name * 1000 + source

abbrev pub intake_at : ℕ → ℕ → Intake
intake_at now fresh = record {
  settings = settings;
  locked = true;
  now = now;
  fresh = fresh;
  started = 1;
  enqueue = true;
  files = files;
  digest = digest_of;
}

abbrev pub plain : Options
plain = record { metadata_mode = none; preserve_outer_edges = none; others = 0 }

abbrev pub ken : UserKey
ken = UserKey.account 5

abbrev pub submission : Submission
submission = record {
  job_type = JobType.pdf_to_pdf;
  source = 77;
  filename = 4;
  options = plain;
  user = ken;
  request = some 31;
  access = none;
}

abbrev pub empty_desk : Desk
empty_desk = record {
  jobs = [];
  requests = [];
  fingerprints = [];
  slots = [];
  rates = [];
  queue = [];
  layout_queue = [];
  metrics = [];
}

abbrev pub world_at : ℕ → World
world_at now = record {
  now = now;
  rq_known = true;
  stop = StopAnswer.sent;
  enqueue = true;
  file_exists = λ n. true;
  commit = CommitAnswer.accepted;
  release = true;
}

abbrev pub sheet : Output
sheet = record (output_of none) { path = some 12; content = 9 }

abbrev pub entered_job : Job
entered_job = new_job (intake_at 100000 8) submission
