-- ===== src/Jobs/Tests/Submissions.antt =====
-- Submissions to an empty desk, and a source that is stored.
use plt_converter.Prelude.{◌≡◌, refl, true, some, [], ◌∷◌}
use plt_converter.Jobs.Rows.{JobType}
use plt_converter.Jobs.Desk.{Desk, load_job, enforce_rate_limit, enforce_user_capacity}
use plt_converter.Jobs.Pages.{Selection, normalize_page_indexes}
use plt_converter.Jobs.Pages.Ordered.{IsSelection, normalize_page_indexes-IsSelection}
use plt_converter.Jobs.Submit.{
  Outcome, submit_job, submit_standing, submit_same, submit_found, submit_new, called, set_request,
  drop_request, mark_repeated,
}
use plt_converter.Jobs.Submit.Limits.{IsWithinLimits, submit_job-IsWithinLimits}
use plt_converter.Jobs.Submit.Repeats.{submit_job-repeats}
use plt_converter.Jobs.Submit.Frames.{submit_job-keeps}
use plt_converter.Jobs.Position.{queue_position, submit_job-queue_position}
use plt_converter.Jobs.Sources.{
  Folder, Shelf, SourceFile, SourceIntake, Stored, source_job, store_source,
}
use plt_converter.Jobs.Sources.Roundtrip.{IsReadable, store_source-IsReadable}
use plt_converter.Jobs.Tests.{
  settings, intake_at, plain, ken, submission, empty_desk, entered_job, sheet,
}

abbrev after_entry : Desk
after_entry = (submit_job (intake_at 100000 8) submission empty_desk).1

entered_here :
    submit_job (intake_at 100000 8) submission empty_desk
    ≡ (Outcome.accepts entered_job, after_entry)
unfolding submit_job submit_standing submit_same submit_found submit_new called set_request
    drop_request enforce_rate_limit enforce_user_capacity
entered_here = refl

within_run : IsWithinLimits (intake_at 100000 8) submission after_entry
within_run =
    submit_job-IsWithinLimits (intake_at 100000 8) submission empty_desk after_entry entered_job
      entered_here refl refl

repeated_run :
    submit_job (intake_at 160000 9) submission after_entry
    ≡ (Outcome.accepts (mark_repeated entered_job), after_entry)
repeated_run =
    submit_job-repeats (intake_at 100000 8) (intake_at 160000 9) submission 31 refl refl refl
      empty_desk after_entry entered_job entered_here refl

kept_run :
    load_job 8 (submit_job (intake_at 160000 9) submission after_entry).1 ≡ load_job 8 after_entry
kept_run = submit_job-keeps (intake_at 160000 9) submission 8 refl after_entry

queued_run : queue_position 8 after_entry ≡ 1
queued_run =
    submit_job-queue_position (intake_at 100000 8) submission empty_desk after_entry entered_job
      entered_here refl refl

selected : normalize_page_indexes (Selection.chosen (some 3 ∷ some 0 ∷ [])) 5 ≡ some (0 ∷ 3 ∷ [])
unfolding normalize_page_indexes
selected = refl

selected_run : IsSelection (Selection.chosen (some 3 ∷ some 0 ∷ [])) 5 (0 ∷ 3 ∷ [])
selected_run =
    normalize_page_indexes-IsSelection (Selection.chosen (some 3 ∷ some 0 ∷ [])) 5 (0 ∷ 3 ∷ [])
      selected

abbrev source_file : SourceFile
source_file = record {
  job_type = JobType.other_type 2;
  source = 77;
  filename = 4;
  options = plain;
  result = sheet;
  user = ken;
}

abbrev source_intake : SourceIntake
source_intake = record {
  settings = settings;
  locked = true;
  previous_locked = true;
  now = 100000;
  fresh = 8;
}

abbrev empty_shelf : Shelf
empty_shelf = record { desk = empty_desk; uploads = []; folders = [] }

abbrev first_shelf : Shelf
first_shelf = (store_source source_intake source_file empty_shelf).1

abbrev second_intake : SourceIntake
second_intake = record source_intake { fresh = 9; now = 120000 }

abbrev second_shelf : Shelf
second_shelf = (store_source second_intake source_file first_shelf).1

replaced :
    store_source second_intake source_file first_shelf
    ≡ (Stored.stores (source_job second_intake source_file), second_shelf)
unfolding store_source
replaced = refl

read_run : IsReadable second_intake source_file (source_job second_intake source_file) second_shelf
read_run =
    store_source-IsReadable second_intake source_file first_shelf second_shelf
      (source_job second_intake source_file) replaced

abbrev old_folder : Folder
old_folder = record { job = 8; modified = 1; source = some 77 }

abbrev busy_shelf : Shelf
busy_shelf = record {
  desk = record empty_desk { jobs = entered_job ∷ [] };
  uploads = [];
  folders = old_folder ∷ [];
}
