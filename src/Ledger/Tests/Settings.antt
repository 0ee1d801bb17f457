-- ===== src/Ledger/Tests/Settings.antt =====
-- class Policy of app/projection_store.py: the settings of a small policy, spelled out.
use plt_converter.Prelude.{◌≡◌, refl, arith}
use plt_converter.Ledger.Rows.{ok}
use plt_converter.Ledger.Policy.{
  show_number, show_digits, read_number, read_digits, optional, db_bytes, system_bytes,
  render_pool_bytes, required, validate, load_policy,
}
use plt_converter.Ledger.Policy.Loading.{
  IsInRange, IsRelated, settings_of, load_policy-accepts, load_policy-settings_of,
}
use plt_converter.Ledger.Tests.{small, small-accepted}

small-IsInRange : IsInRange small
small-IsInRange = record {
  owner_max_documents = (omega arith, omega arith);
  owner_source_bytes = (omega arith, omega arith);
  global_disk_bytes = (omega arith, omega arith);
  free_floor_bytes = (omega arith, omega arith);
  upload_owner_rate = (omega arith, omega arith);
  upload_ip_rate = (omega arith, omega arith);
  tile_rate = (omega arith, omega arith);
  tile_burst = (omega arith, omega arith);
  owner_renderers = (omega arith, omega arith);
  global_renderers = (omega arith, omega arith);
  global_parsers = (omega arith, omega arith);
  parse_wall_seconds = (omega arith, omega arith);
  tile_wall_seconds = (omega arith, omega arith);
  child_cpu_seconds = (omega arith, omega arith);
  child_memory_bytes = (omega arith, omega arith);
  derived_max = omega arith;
  owner_derived = omega arith;
}

spelled_run : load_policy (settings_of small) ≡ ok small
spelled_run = load_policy-settings_of small small-IsInRange small-accepted

loaded : load_policy (settings_of small) ≡ ok small
unfolding load_policy required read_number read_digits show_number show_digits validate optional
    db_bytes system_bytes render_pool_bytes
loaded = refl

accepted_run : IsInRange small × IsRelated small
accepted_run = load_policy-accepts (settings_of small) small loaded
