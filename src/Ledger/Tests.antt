-- ===== src/Ledger/Tests.antt =====
-- Concrete tables and policies for the runs of app/projection_store.py.
pub mod Runs
pub mod Calls
pub mod Settings
pub mod Rates
use plt_converter.Prelude.{ℕ, ◌*◌, ◌+◌, false, true, none, some, [], ◌∷◌, ◌≡◌, refl, List}
use plt_converter.Ledger.Rows.{
  Kind, Stamp, Pid, Lease, Session, Ledger, Meta, Analysis, Status, Phase, Place, Signal, Host, ok,
}
use plt_converter.Ledger.Updates.{Change}
use plt_converter.Ledger.Policy.{
  Policy, second, upload_bytes, max_source, db_bytes, system_bytes, render_pool_bytes, validate,
  meta_bound,
}

abbrev pub small : Policy
small = record {
  owner_max_documents = 2;
  owner_source_bytes = 41943040;
  global_disk_bytes = 1073741824;
  free_floor_bytes = 1048576;
  upload_owner_rate = 10;
  upload_ip_rate = 20;
  tile_rate = 5;
  tile_burst = 10;
  owner_renderers = 1;
  global_renderers = 2;
  global_parsers = 1;
  parse_wall_seconds = 60;
  tile_wall_seconds = 30;
  child_cpu_seconds = 60;
  child_memory_bytes = 536870912;
  derived_max_bytes = 1048576;
  owner_derived_bytes = 2097152;
}

pub small-accepted : validate small ≡ ok small
unfolding validate db_bytes system_bytes render_pool_bytes
small-accepted = refl

abbrev pub host_at : ℕ → Host
host_at t = record {
  now = t;
  self = 100;
  start_ticks = λ n. some 5;
  signal = λ n. Signal.delivered;
  walk = (Place.base, 4096) ∷ (Place.source_file 9, 8192) ∷ [];
  free = 2147483648;
  removes = λ n. false;
  removes_bundle = λ d r. false;
  encoded = λ m. 500;
}

abbrev pub sheet : Meta
sheet = record {
  plt = false;
  expires_at = 3600 * second;
  reserved_at = none;
  reserved_by = none;
  analysis = none;
  content = 3;
}

-- Owner 7's reservation 1, taken at time 10, in its three states.
abbrev pub waiting_lease : Lease
waiting_lease = record {
  id = 1;
  owner = 7;
  kind = Kind.upload;
  document = none;
  generation = Stamp.unset;
  budget = upload_bytes;
  source_budget = max_source;
  derived_budget = 0;
  pid = Pid.absent;
  identity = none;
  supervisor = 100;
  supervisor_identity = some 5;
  created = 10;
  scene_revision = none;
}

abbrev pub parsing_lease : Lease
parsing_lease = record waiting_lease { kind = Kind.upload_parse }

abbrev pub done_lease : Lease
done_lease = record waiting_lease {
  kind = Kind.upload_done;
  budget = 2 * meta_bound + 65536;
  source_budget = 0;
}

abbrev pub stored : Session
stored = record {
  id = 9;
  owner = 7;
  expires = 3600 * second;
  generation = 0;
  active = true;
  source_bytes = 5000;
  meta = some (record sheet { reserved_at = some 10; reserved_by = some 1 });
  budget = 8192 + 2 * meta_bound;
  derived_bytes = 0;
}

abbrev pub tables : List Session → List Lease → Ledger
tables ss ls = record { sessions = ss; leases = ls; scenes = [] }

-- A tile of session 9, whose child runs as process 44.
abbrev pub tile_lease : Lease
tile_lease = record waiting_lease {
  id = 3;
  kind = Kind.tile;
  document = some 9;
  generation = Stamp.at 0;
  pid = Pid.process 44;
  identity = some 5;
  budget = 4096;
  source_budget = 0;
}

abbrev pub queued_analysis : Analysis
queued_analysis = record {
  analysis_id = 21;
  status = Status.analyzing;
  phase = some Phase.queued;
  lease = none;
  outcome = 0;
}

abbrev pub analyzing_sheet : Meta
analyzing_sheet = record sheet { analysis = some queued_analysis }

abbrev pub analyzing_session : Session
analyzing_session = record stored { meta = some analyzing_sheet }

abbrev pub start : Change
start = record { status = none; phase = some Phase.started; outcome = none }
