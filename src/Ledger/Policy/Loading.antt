-- ===== src/Ledger/Policy/Loading.antt =====
-- class Policy of app/projection_store.py: the whole mapping.
use plt_converter.Prelude.{ℕ, ◌+◌, ◌*◌, ◌/◌, ◌<◌, ◌≤◌, ◌≡◌, arith, inl, inr, ◌==◌, if◌then◌else◌}
use plt_converter.Ledger.Rows.{Result, ok, ◌>>=◌, Result-cases}
use plt_converter.Ledger.Policy.{
  Field, Setting, missing, text, Policy, show_number, largest, required, optional, validate,
  load_policy, db_bytes, system_bytes, render_pool_bytes, upload_bytes, operation_bytes, max_source,
  meta_bound, png_bound,
}
use plt_converter.Ledger.Policy.Settings.{
  required-show_number, required-exact, read_number-show_number,
}

abbrev pub InRange : ℕ → Type 0
InRange n = (1 ≤ n) × (n ≤ largest)

-- The two derived budgets are 0 when they are not set.
abbrev pub derived_setting : ℕ → Setting
derived_setting n = if n == 0 then missing else text (show_number n)

-- A mapping that spells a policy out.
abbrev pub settings_of : Policy → Field → Setting
settings_of p Field.owner_max_documents = text (show_number p.owner_max_documents)
settings_of p Field.owner_source_bytes = text (show_number p.owner_source_bytes)
settings_of p Field.global_disk_bytes = text (show_number p.global_disk_bytes)
settings_of p Field.free_floor_bytes = text (show_number p.free_floor_bytes)
settings_of p Field.upload_owner_rate = text (show_number p.upload_owner_rate)
settings_of p Field.upload_ip_rate = text (show_number p.upload_ip_rate)
settings_of p Field.tile_rate = text (show_number p.tile_rate)
settings_of p Field.tile_burst = text (show_number p.tile_burst)
settings_of p Field.owner_renderers = text (show_number p.owner_renderers)
settings_of p Field.global_renderers = text (show_number p.global_renderers)
settings_of p Field.global_parsers = text (show_number p.global_parsers)
settings_of p Field.parse_wall_seconds = text (show_number p.parse_wall_seconds)
settings_of p Field.tile_wall_seconds = text (show_number p.tile_wall_seconds)
settings_of p Field.child_cpu_seconds = text (show_number p.child_cpu_seconds)
settings_of p Field.child_memory_bytes = text (show_number p.child_memory_bytes)
settings_of p Field.derived_max_bytes = derived_setting p.derived_max_bytes
settings_of p Field.owner_derived_bytes = derived_setting p.owner_derived_bytes

pub record IsInRange (p : Policy) : Type 0 where
  pub owner_max_documents : InRange p.owner_max_documents
  pub owner_source_bytes : InRange p.owner_source_bytes
  pub global_disk_bytes : InRange p.global_disk_bytes
  pub free_floor_bytes : InRange p.free_floor_bytes
  pub upload_owner_rate : InRange p.upload_owner_rate
  pub upload_ip_rate : InRange p.upload_ip_rate
  pub tile_rate : InRange p.tile_rate
  pub tile_burst : InRange p.tile_burst
  pub owner_renderers : InRange p.owner_renderers
  pub global_renderers : InRange p.global_renderers
  pub global_parsers : InRange p.global_parsers
  pub parse_wall_seconds : InRange p.parse_wall_seconds
  pub tile_wall_seconds : InRange p.tile_wall_seconds
  pub child_cpu_seconds : InRange p.child_cpu_seconds
  pub child_memory_bytes : InRange p.child_memory_bytes
  pub derived_max : p.derived_max_bytes ≤ largest
  pub owner_derived : p.owner_derived_bytes ≤ largest

optional-derived : (n : ℕ) → n ≤ largest → optional (derived_setting n) ≡ ok n
unfolding optional
optional-derived n high = ground (arith, read_number-show_number n)

optional_range : (s : Setting) (n : ℕ) → optional s ≡ ok n → n ≤ largest
unfolding optional
optional_range s n e = ground arith

-- What the numbers of a policy keep among each other, each with its own arithmetic.
pub record IsRelated (p : Policy) : Type 0 where
  pub derived : 1 ≤ p.owner_derived_bytes → p.derived_max_bytes ≤ p.owner_derived_bytes
  -- A file of 20 MiB fits the source budget.
  pub source : 20971520 ≤ p.owner_source_bytes
  pub renderers : p.owner_renderers ≤ p.global_renderers
  -- The database, a sixteenth of the disk in whole pages, has 1 MiB at least and fewer than 2^32 - 1
  -- pages.
  pub database : 1048576 ≤ p.global_disk_bytes / 16 / 4096 * 4096
  pub pages : p.global_disk_bytes / 16 / 4096 < 4294967295
  -- The disk holds the database twice with its control files, an upload, and a renderer pool.
  pub disk :
      2 * (p.global_disk_bytes / 16 / 4096 * 4096)
        + 65536
        + upload_bytes
        + p.global_renderers * operation_bytes
      ≤ p.global_disk_bytes
  pub memory : max_source + meta_bound + png_bound ≤ p.child_memory_bytes

validate-IsRelated : (p : Policy) → validate p ≡ ok p → IsRelated p
unfolding validate db_bytes system_bytes render_pool_bytes
validate-IsRelated p e = record {
  derived = λ some_bytes. ground arith;
  source = ground arith;
  renderers = ground arith;
  database = ground arith;
  pages = ground arith;
  disk = ground arith;
  memory = ground arith;
}

-- What `__init__` makes of a mapping is what the last checks let through, in range.
abbrev IsAccepted : Result Policy → Type 0
IsAccepted r = (p : Policy) → r ≡ ok p → IsInRange p × IsRelated p

required_then :
    (s : Setting) (f : ℕ → Result Policy)
    → ((n : ℕ) → InRange n → IsAccepted (f n))
    → IsAccepted (required s >>= f)
required_then s f k p e = elim (Result-cases (required s)) [
  | inl (why, refused) ↦ absurd (ground arith)
  | inr (n, read) ↦ k n ((required-exact s n read).1, (required-exact s n read).2) p (ground arith)
]

optional_then :
    (s : Setting) (f : ℕ → Result Policy)
    → ((n : ℕ) → n ≤ largest → IsAccepted (f n))
    → IsAccepted (optional s >>= f)
optional_then s f k p e = elim (Result-cases (optional s)) [
  | inl (why, refused) ↦ absurd (ground arith)
  | inr (n, read) ↦ k n (optional_range s n read) p (ground arith)
]

validate_same : (q p : Policy) → validate q ≡ ok p → p ≡ q
unfolding validate
validate_same q p e = ground arith

validated : (q : Policy) → IsInRange q → IsAccepted (validate q)
validated q range p e =
    let same : p ≡ q = validate_same q p e in rw same (range, validate-IsRelated q (rw same at e))

-- An accepted mapping gives a policy whose required settings are at least 1, whose settings are all
-- below 2^53, and whose numbers fit each other: a derived file in the owner's derived budget where
-- that is set, a source of 20 MiB in the source budget, the owner's renderers in all renderers, the
-- database, an upload and the renderer pool on the disk, a child's files in its memory, and a database
-- of 1 MiB at least and fewer than 2^32 - 1 pages.
pub load_policy-accepts :
    (mapping : Field → Setting) (p : Policy)
    → load_policy mapping ≡ ok p
    → IsInRange p × IsRelated p
unfolding load_policy
load_policy-accepts mapping = required_then (mapping Field.owner_max_documents) _ λ a in_a.
    required_then (mapping Field.owner_source_bytes) _ λ b in_b.
      required_then (mapping Field.global_disk_bytes) _ λ c in_c.
        required_then (mapping Field.free_floor_bytes) _ λ d in_d.
          required_then (mapping Field.upload_owner_rate) _ λ e in_e.
            required_then (mapping Field.upload_ip_rate) _ λ f in_f.
              required_then (mapping Field.tile_rate) _ λ g in_g.
                required_then (mapping Field.tile_burst) _ λ h in_h.
                  required_then (mapping Field.owner_renderers) _ λ i in_i.
                    required_then (mapping Field.global_renderers) _ λ j in_j.
                      required_then (mapping Field.global_parsers) _ λ k in_k.
                        required_then (mapping Field.parse_wall_seconds) _ λ l in_l.
                          required_then (mapping Field.tile_wall_seconds) _ λ m in_m.
                            required_then (mapping Field.child_cpu_seconds) _ λ n in_n.
                              required_then (mapping Field.child_memory_bytes) _ λ o in_o.
                                optional_then (mapping Field.derived_max_bytes) _ λ q in_q.
                                  optional_then (mapping Field.owner_derived_bytes) _ λ r in_r.
                                    validated _ (record {
                                      owner_max_documents = in_a;
                                      owner_source_bytes = in_b;
                                      global_disk_bytes = in_c;
                                      free_floor_bytes = in_d;
                                      upload_owner_rate = in_e;
                                      upload_ip_rate = in_f;
                                      tile_rate = in_g;
                                      tile_burst = in_h;
                                      owner_renderers = in_i;
                                      global_renderers = in_j;
                                      global_parsers = in_k;
                                      parse_wall_seconds = in_l;
                                      tile_wall_seconds = in_m;
                                      child_cpu_seconds = in_n;
                                      child_memory_bytes = in_o;
                                      derived_max = in_q;
                                      owner_derived = in_r;
                                    })

-- A policy in range that meets those relations is read back from its own spelling.
pub load_policy-settings_of :
    (p : Policy) → IsInRange p → validate p ≡ ok p → load_policy (settings_of p) ≡ ok p
unfolding load_policy
load_policy-settings_of p range v =
    rw
      (
        required-show_number p.owner_max_documents range.owner_max_documents.0
            range.owner_max_documents.1,
        required-show_number p.owner_source_bytes range.owner_source_bytes.0
            range.owner_source_bytes.1,
        required-show_number p.global_disk_bytes range.global_disk_bytes.0
            range.global_disk_bytes.1,
        required-show_number p.free_floor_bytes range.free_floor_bytes.0 range.free_floor_bytes.1,
        required-show_number p.upload_owner_rate range.upload_owner_rate.0
            range.upload_owner_rate.1,
        required-show_number p.upload_ip_rate range.upload_ip_rate.0 range.upload_ip_rate.1,
        required-show_number p.tile_rate range.tile_rate.0 range.tile_rate.1,
        required-show_number p.tile_burst range.tile_burst.0 range.tile_burst.1,
        required-show_number p.owner_renderers range.owner_renderers.0 range.owner_renderers.1,
        required-show_number p.global_renderers range.global_renderers.0 range.global_renderers.1,
        required-show_number p.global_parsers range.global_parsers.0 range.global_parsers.1,
        required-show_number p.parse_wall_seconds range.parse_wall_seconds.0
            range.parse_wall_seconds.1,
        required-show_number p.tile_wall_seconds range.tile_wall_seconds.0
            range.tile_wall_seconds.1,
        required-show_number p.child_cpu_seconds range.child_cpu_seconds.0
            range.child_cpu_seconds.1,
        required-show_number p.child_memory_bytes range.child_memory_bytes.0
            range.child_memory_bytes.1,
        optional-derived p.derived_max_bytes range.derived_max,
        optional-derived p.owner_derived_bytes range.owner_derived,
      )
      v
