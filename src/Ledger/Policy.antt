-- ===== src/Ledger/Policy.antt =====
-- class Policy of app/projection_store.py and the module's size constants.
pub mod Settings
pub mod Loading
use plt_converter.Prelude.{
  ℕ, zero, suc, ◌+◌, ◌-◌, ◌*◌, ◌/◌, ◌%◌, ◌^◌, Bool, true, false, Option, none, some, List, [], ◌∷◌,
  ◌++◌, ◌==◌, ◌&&◌, ◌||◌, not, ltb, leb, if◌then◌else◌,
}
use plt_converter.Ledger.Rows.{Result, ok, err, ◌>>=◌, ◌>>◌, raise_if, rejected, Code}

abbrev pub max_source : ℕ
max_source = 20 * 1024 * 1024

abbrev pub max_body : ℕ
max_body = max_source + 1024 * 1024

abbrev pub meta_bound : ℕ
meta_bound = 200 * 1024 + 24 * 24 * 128 + 65536

abbrev pub png_bound : ℕ
png_bound = 4000000 * 3 + 65536

-- Times are in microseconds.
abbrev pub second : ℕ
second = 1000000

unfoldable pub allocation : ℕ → ℕ
allocation value = (value + 4095) / 4096 * 4096

-- The settings in the order of FIELDS, then the two optional ones.
pub data Field : Type 0 where
  owner_max_documents owner_source_bytes global_disk_bytes free_floor_bytes : Field
  upload_owner_rate upload_ip_rate tile_rate tile_burst owner_renderers : Field
  global_renderers global_parsers parse_wall_seconds tile_wall_seconds : Field
  child_cpu_seconds child_memory_bytes derived_max_bytes owner_derived_bytes : Field

-- A value of the mapping: missing or a Boolean, or the code points of its `str`.
pub data Setting : Type 0 where
  missing : Setting
  flag : Bool → Setting
  text : List ℕ → Setting

pub record Policy : Type 0 where
  pub owner_max_documents : ℕ
  pub owner_source_bytes : ℕ
  pub global_disk_bytes : ℕ
  pub free_floor_bytes : ℕ
  pub upload_owner_rate : ℕ
  pub upload_ip_rate : ℕ
  pub tile_rate : ℕ
  pub tile_burst : ℕ
  pub owner_renderers : ℕ
  pub global_renderers : ℕ
  pub global_parsers : ℕ
  pub parse_wall_seconds : ℕ
  pub tile_wall_seconds : ℕ
  pub child_cpu_seconds : ℕ
  pub child_memory_bytes : ℕ
  pub derived_max_bytes : ℕ
  pub owner_derived_bytes : ℕ

-- The attributes that `__init__` derives.
unfoldable pub db_bytes : Policy → ℕ
db_bytes p = p.global_disk_bytes / 16 / 4096 * 4096

unfoldable pub system_bytes : Policy → ℕ
system_bytes p = 2 * db_bytes p + 65536

abbrev pub upload_bytes : ℕ
upload_bytes = max_body + 2 * meta_bound + 65536

abbrev pub operation_bytes : ℕ
operation_bytes = 2 * meta_bound + png_bound + 65536

unfoldable pub render_pool_bytes : Policy → ℕ
render_pool_bytes p = p.global_renderers * operation_bytes

unfoldable pub rate_rows : Policy → ℕ
rate_rows p = db_bytes p / 4096 / 8

-- int(value) on decimal digits; other spellings that `int` takes print differently.
unfoldable pub read_digits : ℕ → List ℕ → Option ℕ
read_digits n [] = some n
read_digits n (c ∷ cs) =
    let rest = read_digits (n * 10 + (c - 48)) cs in if leb 48 c && leb c 57 then rest else none

unfoldable pub read_number : List ℕ → Option ℕ
unfolding read_digits
read_number [] = none
read_number (c ∷ cs) = read_digits 0 (c ∷ cs)

-- str(number); the fuel `suc number` is enough.
unfoldable pub show_digits : ℕ → ℕ → List ℕ
show_digits zero n = []
show_digits (suc f) n =
    let rest = show_digits f (n / 10) ++ (48 + n % 10) ∷ [] in
    if ltb n 10 then (48 + n) ∷ [] else rest

unfoldable pub show_number : ℕ → List ℕ
unfolding show_digits
show_number n = show_digits (suc n) n

abbrev pub same_text : List ℕ → List ℕ → Bool
same_text [] [] = true
same_text [] (d ∷ ds) = false
same_text (c ∷ cs) [] = false
same_text (c ∷ cs) (d ∷ ds) = c == d && same_text cs ds

abbrev pub largest : ℕ
largest = 2 ^ 53 - 1

abbrev pub bad_setting {ℓ} : {A : Type ℓ} → Result A
bad_setting = err (rejected Code.bad_setting 0 0)

-- One round of the loop over FIELDS.
unfoldable pub required : Setting → Result ℕ
unfolding read_number show_number
required missing = bad_setting
required (flag b) = bad_setting
required (text t) = elim (read_number t) [
  | none ↦ bad_setting
  | some n ↦
      if ltb n 1 || ltb largest n || not (same_text (show_number n) t) then bad_setting else ok n
]

-- One round of the loop over the two derived budgets: 0 when not set, and any digits count.
unfoldable pub optional : Setting → Result ℕ
unfolding read_number
optional missing = ok 0
optional (flag b) = bad_setting
optional (text t) = elim (read_number t) [
  | none ↦ bad_setting
  | some n ↦ if leb 1 n && leb n largest then ok n else bad_setting
]

-- The relations between the numbers that `__init__` demands.
unfoldable pub validate : Policy → Result Policy
unfolding db_bytes system_bytes render_pool_bytes
validate p = do
  raise_if
      (not (p.derived_max_bytes == 0)
        && not (p.owner_derived_bytes == 0)
        && ltb p.owner_derived_bytes p.derived_max_bytes)
      (rejected Code.bad_setting 0 0)
  raise_if (ltb p.owner_source_bytes max_source) (rejected Code.bad_setting 0 0)
  raise_if (ltb p.global_renderers p.owner_renderers) (rejected Code.bad_setting 0 0)
  raise_if
      (ltb (db_bytes p) (1024 * 1024)
        || ltb p.global_disk_bytes (system_bytes p + upload_bytes + render_pool_bytes p))
      (rejected Code.bad_setting 0 0)
  raise_if (ltb p.child_memory_bytes (max_source + meta_bound + png_bound))
      (rejected Code.bad_setting 0 0)
  raise_if (ltb 4294967294 (db_bytes p / 4096)) (rejected Code.bad_setting 0 0)
  ok p

unfoldable pub load_policy : (Field → Setting) → Result Policy
unfolding required optional validate
load_policy mapping = do
  a ← required (mapping Field.owner_max_documents)
  b ← required (mapping Field.owner_source_bytes)
  c ← required (mapping Field.global_disk_bytes)
  d ← required (mapping Field.free_floor_bytes)
  e ← required (mapping Field.upload_owner_rate)
  f ← required (mapping Field.upload_ip_rate)
  g ← required (mapping Field.tile_rate)
  h ← required (mapping Field.tile_burst)
  i ← required (mapping Field.owner_renderers)
  j ← required (mapping Field.global_renderers)
  k ← required (mapping Field.global_parsers)
  l ← required (mapping Field.parse_wall_seconds)
  m ← required (mapping Field.tile_wall_seconds)
  n ← required (mapping Field.child_cpu_seconds)
  o ← required (mapping Field.child_memory_bytes)
  q ← optional (mapping Field.derived_max_bytes)
  r ← optional (mapping Field.owner_derived_bytes)
  validate (record {
    owner_max_documents = a;
    owner_source_bytes = b;
    global_disk_bytes = c;
    free_floor_bytes = d;
    upload_owner_rate = e;
    upload_ip_rate = f;
    tile_rate = g;
    tile_burst = h;
    owner_renderers = i;
    global_renderers = j;
    global_parsers = k;
    parse_wall_seconds = l;
    tile_wall_seconds = m;
    child_cpu_seconds = n;
    child_memory_bytes = o;
    derived_max_bytes = q;
    owner_derived_bytes = r;
  })
