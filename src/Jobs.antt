-- ===== src/Jobs.antt =====
-- app/job_queue.py, app/tasks.py, app/billing.py and the billing helpers of app/routes.py: the life of
-- a conversion job.
pub mod Results
pub mod Rows
pub mod Billing
pub mod Handlers
pub mod Running
pub mod Life
pub mod Sound
pub mod Desk
pub mod Matching
pub mod Submit
pub mod Pages
pub mod Layout
pub mod Analysis
pub mod Sources
pub mod Position
pub mod Finishing
pub mod Tests
