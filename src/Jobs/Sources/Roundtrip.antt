-- ===== src/Jobs/Sources/Roundtrip.antt =====
-- What read_source_upload answers of a file that store_source_upload has stored.
use plt_converter.Prelude.{
  ℕ, ◌≡◌, ◌∙◌, ap, refl, subst, true, false, not, ◌||◌, Option, none, some, List, [], ◌∷◌, ◌==◌,
  ==_refl, arith, Bool-cases, inl, inr,
}
use plt_converter.Jobs.Rows.{JobType, same_type, UserKey, same_user, Job}
use plt_converter.Jobs.Desk.{load_job}
use plt_converter.Jobs.Submit.Frames.{same_user_refl, find-delete_where, load_job_saved}
use plt_converter.Jobs.Sources.{
  Folder, Upload, Shelf, find_folder, drop_folder, Read, read_source, remove_record, remove_source,
  SourceFile, SourceIntake, source_job, put_source, Stored, supersede, uploaded_job, store_source,
  cleanup, source_of,
}

pub same_type_refl : (t : JobType) → same_type t t ≡ true
same_type_refl JobType.plt_to_pdf = refl
same_type_refl JobType.pdf_to_plt = refl
same_type_refl JobType.pdf_to_pdf = refl
same_type_refl JobType.pdf_preview = refl
same_type_refl (JobType.other_type n) = ==_refl n

find_folder-drop :
    (k id : ℕ) (fs : List Folder)
    → (k == id) ≡ false
    → find_folder k (drop_folder id fs) ≡ find_folder k fs
find_folder-drop k id [] h = refl
find_folder-drop k id (f ∷ fs) h = ground (arith, find_folder-drop k id fs h)

-- The file of a job that a shelf holds, with its record.
pub record IsStored (i : SourceIntake) (f : SourceFile) (s : Shelf) : Type 0 where
  pub stored : load_job i.fresh s.desk ≡ some (source_job i f)
  pub filed : source_of (find_folder i.fresh s.folders) ≡ some f.source

module _ (i : SourceIntake) (f : SourceFile) where
  put-IsStored : (s : Shelf) → IsStored i f (put_source i f s)
  put-IsStored s = record {
    stored = load_job_saved (source_job i f) s.desk;
    filed = rw (==_refl i.fresh) refl;
  }

  remove_record-IsStored :
      (id : ℕ) (s : Shelf) (o : Option Job)
      → (id == i.fresh) ≡ false
      → IsStored i f s
      → IsStored i f (remove_record id f.job_type f.user s o).1
  remove_record-IsStored id s none other t = t
  remove_record-IsStored id s (some j) other t =
      let apart : (i.fresh == id) ≡ false = ground arith in
      elim (Bool-cases (not (same_type j.job_type f.job_type) || not (same_user j.user f.user))) [
        | inl foreign ↦ simp foreign t
        | inr own ↦ simp own (record {
          stored = find-delete_where i.fresh id s.desk.jobs apart ∙ t.stored;
          filed = ap source_of (find_folder-drop i.fresh id s.folders apart) ∙ t.filed;
        })
      ]

  supersede-IsStored :
      (s : Shelf) (o : Option Upload) → IsStored i f s → IsStored i f (supersede i f s o).1
  unfolding remove_source
  supersede-IsStored s none t = t
  supersede-IsStored s (some x) t = elim (Bool-cases (x.job == i.fresh)) [
    | inl same ↦ simp same t
    | inr other ↦ elim (Bool-cases i.previous_locked) [
      | inr busy ↦ simp (other, busy) t
      | inl held ↦
          simp (other, held) (remove_record-IsStored x.job s (load_job x.job s.desk) other t)
    ]
  ]

  supersede-job :
      (s : Shelf) (o : Option Upload) (s' : Shelf) (j : Job)
      → supersede i f s o ≡ (Stored.stores j, s')
      → j ≡ source_job i f
  unfolding remove_source
  supersede-job s none s' j e = ground arith
  supersede-job s (some x) s' j e = elim (Bool-cases (x.job == i.fresh)) [
    | inl same ↦ let g = rw same at e in ground arith
    | inr other ↦ elim (Bool-cases i.previous_locked) [
      | inr busy ↦ absurd (let g = rw (other, busy) at e in ground arith)
      | inl held ↦ let g = rw (other, held) at e in ground arith
    ]
  ]

  -- What a reader with the job's lock is told of a source that was stored: its owner, asking for its
  -- type, gets the bytes and the record; another user is refused; another type finds nothing.
  pub record IsReadable (j : Job) (s : Shelf) : Type 0 where
    pub own : read_source true j.id f.job_type f.user s ≡ Read.found j f.source
    pub foreign :
        (u : UserKey)
        → same_user f.user u ≡ false
        → read_source true j.id f.job_type u s ≡ Read.forbidden
    pub mistyped :
        (t : JobType) (u : UserKey)
        → same_type f.job_type t ≡ false
        → read_source true j.id t u s ≡ Read.missing

  IsStored-IsReadable : (s : Shelf) → IsStored i f s → IsReadable (source_job i f) s
  unfolding read_source
  IsStored-IsReadable s t =
      let st = t.stored in
      let fi = t.filed in
      record {
        own = simp (st, fi, same_type_refl f.job_type, same_user_refl f.user) refl;
        foreign = λ u h. simp (st, h, same_type_refl f.job_type) refl;
        mistyped = λ x u h. simp (st, h) refl;
      }

  -- A source that store_source_upload has stored can be read at once by its owner, under its type and
  -- with the bytes given, by no other user, and under no other type; whatever the clean-up and the
  -- replaced upload did to the shelf.
  pub store_source-IsReadable :
      (s s' : Shelf) (j : Job) → store_source i f s ≡ (Stored.stores j, s') → IsReadable j s'
  unfolding store_source
  store_source-IsReadable s s' j e =
      let swept = cleanup i.settings i.now s in
      let put = put_source i f swept in
      let o = uploaded_job f.job_type f.user swept.uploads in
      elim (Bool-cases i.locked) [
        | inr busy ↦ absurd (let g = rw busy at e in ground arith)
        | inl held ↦
            let g : supersede i f put o ≡ (Stored.stores j, s') = rw held at e in
            let t : IsStored i f s' =
              subst (λ r. IsStored i f r.1) g (supersede-IsStored put o (put-IsStored swept)) in
            rw (supersede-job put o s' j g) (IsStored-IsReadable s' t)
      ]
