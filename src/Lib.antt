-- ===== src/Lib.antt =====
-- A verification of the PLT converter: the projection store of app/projection_store.py with the
-- beginning and the end of bundles in app/projection_scene_store.py; the job queue of
-- app/job_queue.py with its worker in app/tasks.py; the search for a page layout of
-- app/services/pdf_layout_optimizer.py; and the parser of plotter files of
-- app/services/plt_parser.py.
--
-- The program converts plotter and PDF patterns. A conversion is a job: a request submits it to a
-- queue in Redis, a worker of RQ runs it, and the billing service is asked before its result is
-- shown. A preview of a PDF is a job too, for which a layout of its pages can be analysed. The
-- projection service keeps each owner's current pattern for a projector: a request reserves room in
-- a ledger, uploads a file, has it parsed by a child process, and then renders tiles of it, while
-- several server processes share the ledger. The store is that ledger: a SQLite file with the
-- tables sessions, leases and scene_bundles, a directory tree, and a policy of limits.
--
-- Prelude: tables as lists of rows with the SQL that the store uses (COUNT, SUM, UPDATE, DELETE, a
--   primary key), Boolean tests, and their lemmas.
-- Ledger.Rows: the rows, the ledger, the refusals (ProjectionRejected) and the host.
-- Ledger.Policy: class Policy, with children for one setting and for the whole mapping.
-- Ledger.Process: process_alive. Ledger.Disk: _disk_accounting and _capacity.
-- Ledger.Expiry: _expire, expire_scenes.
-- Ledger.Admission: reserve, reserve_derived. Ledger.Leases: begin_parse, claim, attach,
--   valid_lease, revoke, release. Ledger.Sessions: complete_upload, load, renew, delete,
--   delete_all, analyzing_documents. Ledger.Updates: update, update_analysis, replace_analysis.
--   Ledger.Reconcile: reconcile. Ledger.Scenes: scene_begin, scene_snapshot, scene_failed,
--   scene_close; Scenes.Publish: scene_publish, scene_open.
-- Ledger.Rates: rate, on the table of the limiter alone, with what it admits in a minute.
-- Ledger.Keys, Ledger.Quota and Ledger.Bounds: the operations and the primary keys, what they
--   charge against each limit, and the limits as a predicate. Ledger.Runs: all calls as one
--   relation.
-- Ledger.Single, Ledger.Superseded, Ledger.Endings, Ledger.Parsing, Ledger.Living and
--   Updates.Compare: one behaviour each. Ledger.Tests: runs on concrete ledgers.
-- Jobs.Rows, Jobs.Results: the job record, its result, and what a handler learns from its
--   surroundings. Jobs.Billing: the billing helpers of app/tasks.py. Jobs.Handlers: cancel_job,
--   confirm_job_billing, finalize_ready_conversion_job. Jobs.Running: execute_job with its
--   callbacks and enqueue_retry. Jobs.Life: all of them as one relation. Jobs.Sound,
--   Jobs.Finishing: what they keep, and where an undisturbed run ends.
-- Jobs.Desk: the keys in Redis, the limits, job_record_ttl. Jobs.Matching:
--   matches_billing_submission. Jobs.Submit: submit_job. Jobs.Position: queue_position.
--   Jobs.Sources: the stored source files and the clean-up of folders.
-- Jobs.Pages: the page selection of app/services/pdf_layout_optimizer.py. Jobs.Layout:
--   enqueue_pdf_layout_suggestion. Jobs.Analysis: execute_pdf_layout_suggestion. Jobs.Tests: runs
--   on concrete jobs.
--
-- Seams.Grids, Seams.Scores, Seams.Evaluation, Seams.Blanks, Seams.Doubts, Seams.Choice: the search
-- for a page layout below choose_best_layout of app/services/pdf_layout_optimizer.py, with children
-- for what each part keeps. Seams.Arithmetic: the floating-point numbers that it needs.
-- Seams.Tests: an instance of them, and runs.
-- Plotter.Drawing, Plotter.Tokens, Plotter.Strokes, Plotter.Arcs, Plotter.Labels,
-- Plotter.Arguments, Plotter.Commands, Plotter.Reading: parse_plt of app/services/plt_parser.py,
-- with app/services/number_tokens.py. Plotter.Floats: the floating-point functions that it needs.
-- Plotter.Cutting, Plotter.Whole, Plotter.Bounds: what is read back, and what every document keeps.
-- Plotter.Tests: a file that is read.
--
-- How the model of the ledger corresponds to the code:
-- * A method that opens `self.transaction()` is a function of the ledger. The transaction is
--   IMMEDIATE, so calls of other processes come before or after it; an exception rolls back, so a
--   refusal leaves the ledger of the caller. Calls of the processes in any order are the relation
--   Step and its closure Reach. begin_parse has a transaction in each round; it takes the ledgers
--   that its rounds see. The releases behind a transaction (complete_upload, delete, delete_all,
--   reconcile) follow it at once, where another process could come between.
-- * The clock, the kernel (start ticks of a process, kill, statvfs) and the files (the walk,
--   whether an unlink succeeds, the length of encoded metadata) are the record Host, which each
--   call gets anew and nothing restricts. Times are in microseconds.
-- * Ids, owners and the tokens of secrets.token_hex are numbers; 64 hex digits order as they do. A
--   token that is taken already makes the INSERT fail, as the primary key does.
-- * A session's `meta` is the content of the file that its row names, `none` if it cannot be read;
--   the keys of the metadata that the store only copies are one number. The setting of a policy is
--   a text in ASCII.
-- * Subtraction of a bundle's bytes from its session's stops at 0, where the code's would not; they
--   are what scene_publish added to the session.
-- * The tokens of the rate limiter are exact multiples of a millionth, where the code's floating-
--   point numbers round; its digest is an argument.
-- * The loops run over the rows selected; only show_digits has fuel, the number and one more, where
--   each round divides the number by ten. Step takes two calls as their callers make them, which
--   the store itself does not ask for: complete_upload with a list for discarded analyses and on a
--   lease that has its parser (the kind 'upload-parse'), and scene_publish on the scene lease of
--   the owner that still holds the reservation of scene_begin, for a bundle that fits it. The
--   relation Call of Ledger.Single.Calls has neither restriction but the list.
--
-- How the model of the job queue corresponds to the code:
-- * A section between acquire_job_lock and release is a function of the stored record to a Change:
--   the record that it leaves, its effects in order (Redis sets, RQ, billing, counters) and its
--   answer. Sections of all processes in any order are the relations Step of Jobs.Life and Happens
--   of Jobs.Analysis.Histories; a key may run out between two sections, not inside one. What
--   execute_job and mark_job_stopped do behind the lock (release_user_job, the counters) is a step
--   of its own, and `leaving` counts the processes that have yet to take it; complete_run takes
--   execute_job's sections one after the other, each as a change of its own. The clock counts
--   milliseconds.
-- * What RQ, the billing service, the file system, sha256 and optimize_pdf_layout answer are
--   arguments that nothing restricts. Ids, file names, file contents and texts are numbers.
-- * submit_job runs under its one lock, so it is a function of the whole desk; the records are a
--   table by id, and a set or an index of Redis is a list.
--
-- How the model of the layout search corresponds to the code:
-- * Floating-point numbers are a type with operations, an argument of which nothing is assumed;
--   Python's rounding and comparison are whatever the argument says. A page's crossings are the
--   function `signatures`.
-- * The loops over rows, columns and positions are recursions on how many are left, a sort is
--   stable, and max takes the first of the greatest. The score cache is modelled in
--   Seams.Evaluation and left out above it.
--
-- How the model of parse_plt corresponds to the code:
-- * The text is a list of code points, decoded; the upper-case letter of an alphabetic character
--   and str.strip are arguments, as are the floating-point functions, and nothing is assumed of
--   them. Numbers that are compared by <= are finite there, so that the test is "not greater".
-- * The loop over the text is two: one cuts it into commands, one executes them. The variables that
--   the nested functions share are the record Drawing; raising ValueError is a Refusal. A message
--   is a constructor and the name of a shape is its number. The environment's limits are natural
--   numbers: a negative one counts as 0, below the least limit either way.
--
-- Not modelled: a failing rmtree of a released lease's folder; the removal of unreferenced files in
-- reconcile; the files that scene_publish moves and scene_open reads, with validate_bundle and the
-- digest that is checked behind scene_open; the migrations of old files; complete_upload without a
-- list for discarded analyses, which only test helpers call. The conversion itself (_execute of
-- app/tasks.py), the routes, the other parsers and the geometry are outside; so are the decoders of
-- decode_plt, and the exceptions of a floating-point function of parse_plt other than ValueError.
pub mod Prelude
pub mod Ledger
pub mod Jobs
pub mod Seams
pub mod Plotter
