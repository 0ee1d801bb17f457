-- ===== src/Ledger/Leases.antt =====
-- begin_parse, claim, attach, lease_path, valid_lease, revoke and release of
-- app/projection_store.py.
use plt_converter.Prelude.{
  ℕ, Bool, true, false, Option, none, some, List, [], ◌∷◌, ◌==◌, ◌&&◌, ◌||◌, not, leb,
  if◌then◌else◌, find_row, update_row, delete_row, count,
}
use plt_converter.Ledger.Rows.{
  Kind, is_upload, Stamp, is_revoked, is_at, Pid, Lease, Session, Ledger, session_id, lease_id,
  Host, Code, Rejected, rejected, Result, ok, err, ◌>>=◌, ◌>>◌, raise_if, or_raise,
}
use plt_converter.Ledger.Policy.{Policy}
use plt_converter.Ledger.Process.{process_alive}
use plt_converter.Ledger.Expiry.{expire}
use plt_converter.Ledger.Admission.{parsers, revoke_lease}

-- What one transaction of `begin_parse` comes to.
pub data Turn : Type 0 where
  admitted : Ledger → Turn
  delayed : Turn
  refused : Rejected → Turn

abbrev pub set_parsing : Lease → Lease
set_parsing r = record r { kind = Kind.upload_parse }

-- WHERE kind='upload-parse' AND generation=-1
abbrev pub is_unwinding : Lease → Bool
is_unwinding r = elim r.kind [ Kind.upload_parse ↦ is_revoked r.generation | _ ↦ false ]

-- A lease of kind 'upload' asks for a parser; `late` is `time.monotonic() >= deadline`.
unfoldable pub take_parser : Policy → Bool → ℕ → Ledger → Turn
unfolding parsers
take_parser p late token l =
    if leb p.global_parsers (parsers l)
    then if count is_unwinding l.leases == 0 || late
      then Turn.refused (rejected Code.parser_busy 429 1)
      else Turn.delayed
    else Turn.admitted (record l { leases = update_row lease_id token set_parsing l.leases })

abbrev parse_by_kind : Policy → Bool → ℕ → Ledger → Kind → Turn
parse_by_kind p late token l Kind.upload_parse = Turn.admitted l
parse_by_kind p late token l Kind.upload = take_parser p late token l
parse_by_kind p late token l _ = Turn.refused (rejected Code.upload_lost 503 1)

-- One round of the loop of `begin_parse`.
unfoldable pub parse_turn : Policy → Bool → ℕ → Ledger → Turn
unfolding take_parser
parse_turn p late token l = elim (find_row lease_id token l.leases) [
  | none ↦ Turn.refused (rejected Code.upload_lost 503 1)
  | some row ↦
      if is_revoked row.generation
      then Turn.refused (rejected Code.upload_superseded 409 0)
      else parse_by_kind p late token l row.kind
]

-- The loop: each round sees the ledger as the other processes have left it and whether the deadline
-- has passed, `none` when the rounds are used up.
unfoldable pub begin_parse : Policy → ℕ → List (Bool × Ledger) → Option (Result Ledger)
unfolding parse_turn
begin_parse p token [] = none
begin_parse p token ((late, l) ∷ rounds) =
    let later = begin_parse p token rounds in
    elim (parse_turn p late token l) [
      | Turn.admitted l' ↦ some (ok l')
      | Turn.refused e ↦ some (err e)
      | Turn.delayed ↦ later
    ]

abbrev pub set_claimed : Host → Lease → Lease
set_claimed h r = record r {
  pid = Pid.claimed;
  supervisor = h.self;
  supervisor_identity = h.start_ticks h.self;
}

abbrev pub is_absent : Pid → Bool
is_absent Pid.absent = true
is_absent _ = false

unfoldable pub claim : Host → ℕ → Ledger → Result Ledger
claim h token l = do
  row ← or_raise (find_row lease_id token l.leases) (rejected Code.lease_lost 409 0)
  raise_if (not (is_absent row.pid)) (rejected Code.lease_lost 409 0)
  ok (record l { leases = update_row lease_id token (set_claimed h) l.leases })

abbrev pub set_process : Host → ℕ → Lease → Lease
set_process h pid r = record r { pid = Pid.process pid; identity = h.start_ticks pid }

unfoldable pub attach : Host → ℕ → ℕ → Ledger → Ledger
attach h token pid l = record l { leases = update_row lease_id token (set_process h pid) l.leases }

-- The session of the lease's document is active at the lease's generation.
abbrev pub at_active : Stamp → Option Session → Bool
at_active stamp none = false
at_active stamp (some s) = s.active && is_at s.generation stamp

abbrev pub find_document : Option ℕ → Ledger → Option Session
find_document none l = none
find_document (some d) l = find_row session_id d l.sessions

unfoldable pub lease_is_valid : Ledger → Lease → Bool
lease_is_valid l row =
    if is_upload row.kind
    then not (is_revoked row.generation)
    else at_active row.generation (find_document row.document l)

unfoldable pub valid_lease : Host → ℕ → ℕ → Ledger → Bool × Ledger
unfolding lease_is_valid
valid_lease h current token l =
    let l1 = expire h current l in
    (
      elim (find_row lease_id token l1.leases) [ none ↦ false | some row ↦ lease_is_valid l1 row ],
      l1,
    )

abbrev pub revoke_operation : Lease → Lease
revoke_operation r = if is_upload r.kind then r else revoke_lease r

unfoldable pub revoke : ℕ → Ledger → Ledger
revoke token l = record l { leases = update_row lease_id token revoke_operation l.leases }

unfoldable pub release : Host → ℕ → ℕ → Ledger → Ledger
release h current token l = elim (find_row lease_id token l.leases) [
  | none ↦ l
  | some row ↦
      if process_alive h row.pid row.identity
      then l
      else expire h current (record l { leases = delete_row lease_id token l.leases })
]

unfoldable pub release_all : Host → ℕ → List ℕ → Ledger → Ledger
unfolding release
release_all h current [] l = l
release_all h current (t ∷ ts) l = release_all h current ts (release h current t l)
