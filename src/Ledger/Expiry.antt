-- ===== src/Ledger/Expiry.antt =====
-- _expire of app/projection_store.py and expire_scenes of app/projection_scene_store.py.
use plt_converter.Prelude.{
  ℕ, ◌+◌, ◌-◌, Bool, true, false, Option, none, some, List, [], ◌∷◌, ◌==◌, ◌&&◌, ◌||◌, not, leb,
  if◌then◌else◌, find_row, update_row, update_where, delete_where, select_where, exists_where,
}
use plt_converter.Ledger.Rows.{
  Kind, Lease, Session, Scene, Ledger, session_id, lease_id, is_some_of, is_pending, Host,
}

-- UPDATE sessions SET state='deleted', generation=generation+1
abbrev pub retire : Session → Session
retire s = record s { active = false; generation = s.generation + 1 }

abbrev pub is_overdue : ℕ → Session → Bool
is_overdue now s = s.active && leb s.expires now

abbrev pub same_revision : Option ℕ → Option ℕ → Bool
same_revision (some r) (some q) = r == q
same_revision _ _ = false

abbrev pub is_download : Kind → Bool
is_download Kind.scene_download = true
is_download _ = false

-- SELECT 1 FROM leases WHERE document=? AND scene_revision=? AND kind='scene-download'
abbrev pub downloads : Scene → Lease → Bool
downloads c l =
    is_some_of c.document l.document
    && same_revision l.scene_revision c.revision
    && is_download l.kind

abbrev pub same_scene : Scene → Scene → Bool
same_scene a b =
    a.document == b.document
    && a.generation == b.generation
    && a.variant == b.variant
    && a.pipeline == b.pipeline

-- The bundle's lease is in the table.
abbrev pub has_lease : List Lease → Option ℕ → Bool
has_lease ls none = false
has_lease ls (some i) = exists_where (λ l. lease_id l == i) ls

abbrev stale_in : Option Session → Scene → Bool
stale_in none c = true
stale_in (some s) c = not s.active || not (c.generation == s.generation)

-- The rows that `expire_scenes` selects; `current` is SCENE_PIPELINE_VERSION.
unfoldable pub is_stale_scene : ℕ → Ledger → Scene → Bool
is_stale_scene current l c =
    stale_in (find_row session_id c.document l.sessions) c
    || not (c.pipeline == current)
    || (is_pending c.readiness && not (has_lease l.leases c.lease))

-- Subtraction stops at 0; scene_publish has added to the session what is taken away here.
abbrev pub uncharge : Scene → Session → Session
uncharge c s = record s {
  budget = s.budget - c.budget;
  derived_bytes = s.derived_bytes - c.derived_bytes;
}

abbrev removed : Host → Scene → Bool
removed h c = elim c.revision [ none ↦ true | some r ↦ h.removes_bundle c.document r ]

-- One round of the loop of `expire_scenes`.
unfoldable pub drop_scene : Host → Scene → Ledger → Ledger
drop_scene h c l =
    if exists_where (downloads c) l.leases || not (removed h c) then l else record l {
      sessions = update_row session_id c.document (uncharge c) l.sessions;
      scenes = delete_where (same_scene c) l.scenes;
    }

unfoldable pub drop_scenes : Host → List Scene → Ledger → Ledger
unfolding drop_scene
drop_scenes h [] l = l
drop_scenes h (c ∷ cs) l = drop_scenes h cs (drop_scene h c l)

unfoldable pub expire_scenes : Host → ℕ → Ledger → Ledger
unfolding is_stale_scene drop_scenes
expire_scenes h current l = drop_scenes h (select_where (is_stale_scene current l) l.scenes) l

-- A deleted session with no lease and no bundle, whose files could be unlinked.
unfoldable pub is_reclaimable : Host → Ledger → Session → Bool
is_reclaimable h l s =
    not s.active
    && not (exists_where (λ r. is_some_of s.id r.document) l.leases)
    && not (exists_where (λ c. c.document == s.id) l.scenes)
    && h.removes s.id

unfoldable pub mark_overdue : Host → Ledger → Ledger
mark_overdue h l = record l { sessions = update_where (is_overdue h.now) retire l.sessions }

unfoldable pub reclaim : Host → Ledger → Ledger
unfolding is_reclaimable
reclaim h l = record l { sessions = delete_where (is_reclaimable h l) l.sessions }

-- `_expire`
unfoldable pub expire : Host → ℕ → Ledger → Ledger
unfolding mark_overdue expire_scenes reclaim
expire h current l = reclaim h (expire_scenes h current (mark_overdue h l))
