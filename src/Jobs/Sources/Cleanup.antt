-- ===== src/Jobs/Sources/Cleanup.antt =====
-- Which folders cleanup_expired_job_files leaves, and what queue_position counts.
use plt_converter.Prelude.{ℕ, ◌+◌, ◌*◌, ◌≤◌, ◌<◌, ◌≡◌, ◌⊎◌, true}
use plt_converter.Jobs.Results.{layout_status, is_underway}
use plt_converter.Jobs.Rows.{Job, is_active}
use plt_converter.Jobs.Desk.{Settings, retention_of}
use plt_converter.Jobs.Sources.{Folder}

-- Why a folder is left: its job is active or has a layout analysis under way, or it was changed itself
-- within the retention, or its record was.
abbrev pub IsInUse : Settings → ℕ → Folder → Job → Type 0
IsInUse c now f j =
    (is_active j.status ≡ true)
    ⊎ (is_underway (layout_status j.result) ≡ true)
    ⊎ (now ≤ f.modified + 1000 * retention_of c)
    ⊎ ((0 < j.updated_at) × (now ≤ j.updated_at + 1000 * retention_of c))
