-- ===== src/AgentFs/Upload.antt =====
-- pkg/agent/fs.go, `writeFile`: a finished upload is the file, an unfinished one leaves none.
use mathlib.Core.List.{append_assoc, append-nil}
use hostlink.Prelude.{
  ℕ, ◌≡◌, ◌≢◌, refl, sym, ap, ◌∙◌, subst, Bool, true, false, Option, none, some, List, [], ◌∷◌,
  ◌++◌, Text, if◌then◌else◌, arith, nat_comparable, text_comparable, inl, inr, ◌⊎◌, Result, ok, err,
}
use hostlink.AgentFs.{
  FsError, fs_error_code, Os, resolve, UploadEvent, context_done, idle_timeout, chunk, Consumed,
  waiting, ended, write_data, synced, after_data, consume_upload, close_file, dir_name, opened,
  made_dir, write_file,
}

-- What the package `os` documents of its calls, by the content of a file: a file that is opened is
-- empty, and new if the call is exclusive; a write that succeeds appends; a sync, a failed open and the
-- making of directories leave the content; a file whose removal succeeds is gone, and nothing is said
-- of a removal that fails.
pub record FileLaws {S : Type 0} (os : Os S) (content : S → Text → Option Text) : Type 0 where
  pub open_empties :
      (full : Text) (exclusive : Bool) (s s' : S)
      → os.open_file full exclusive s ≡ (s', ok tt)
      → content s' full ≡ some []
  pub open_is_new :
      (full : Text) (s s' : S) → os.open_file full true s ≡ (s', ok tt) → content s full ≡ none
  pub open_fails :
      (full : Text) (exclusive : Bool) (s s' : S) (e : FsError)
      → os.open_file full exclusive s ≡ (s', err e)
      → content s' full ≡ content s full
  pub write_appends :
      (full piece before : Text) (s s' : S)
      → os.write full piece s ≡ (s', ok tt)
      → content s full ≡ some before
      → content s' full ≡ some (before ++ piece)
  pub sync_keeps :
      (full : Text) (s s' : S) → os.sync full s ≡ (s', ok tt) → content s' full ≡ content s full
  pub remove_removes :
      (full : Text) (s s' : S) → os.remove full s ≡ (s', ok tt) → content s' full ≡ none
  pub mkdir_keeps : (dir full : Text) (s : S) → content (os.mkdir_all dir s).0 full ≡ content s full

-- The bytes of the chunks up to the last one.
unfoldable pub uploaded : List UploadEvent → Text
uploaded [] = []
uploaded (chunk piece true ∷ events) = piece
uploaded (chunk piece false ∷ events) = piece ++ uploaded events
uploaded (e ∷ events) = []

not_created : (e : FsError) → fs_error_code e ≢ 201
not_created e = ground arith

module _ {S : Type 0} (os : Os S) (content : S → Text → Option Text)
    (laws : FileLaws os content) where
  -- How a file that holds `before` ends, if the bytes of `rest` are still to come.
  unfoldable Outcome : Text → Text → Text → S × Consumed → Type 0
  Outcome full before rest (s, waiting) = Unit
  Outcome full before rest (s, ended true code) =
      (code ≡ 201) × (content s full ≡ some (before ++ rest))
  Outcome full before rest (s, ended false code) = code ≢ 201

  abbrev Wrote : Text → Text → S × Result FsError (Unit {0}) → Type 0
  Wrote full now (s, err e) = Unit
  Wrote full now (s, ok _) = content s full ≡ some now

  write_data_lem :
      (full piece before : Text) (s : S) (r : S × Result FsError (Unit {0}))
      → write_data os full piece s ≡ r
      → content s full ≡ some before
      → Wrote full (before ++ piece) r
  unfolding write_data
  write_data_lem full [] before s (s', err e) h c = tt
  write_data_lem full [] before s (s', ok t) h c =
      ap (λ r. content r.0 full) (sym h) ∙ c ∙ ap some (sym (append-nil before))
  write_data_lem full (b ∷ bs) before s (s', err e) h c = tt
  write_data_lem full (b ∷ bs) before s (s', ok t) h c =
      laws.write_appends full (b ∷ bs) before s s' h c

  synced-Outcome :
      (full before : Text) (s : S) (r : S × Result FsError (Unit {0}))
      → os.sync full s ≡ r
      → content s full ≡ some before
      → Outcome full before [] (synced os r)
  unfolding Outcome synced
  synced-Outcome full before s (s', err e) h c = not_created e
  synced-Outcome full before s (s', ok t) h c =
      (refl, laws.sync_keeps full s s' h ∙ c ∙ ap some (sym (append-nil before)))

  Outcome-append :
      (full before piece rest : Text) (r : S × Consumed)
      → Outcome full (before ++ piece) rest r
      → Outcome full before (piece ++ rest) r
  unfolding Outcome
  Outcome-append full before piece rest (s, waiting) o = tt
  Outcome-append full before piece rest (s, ended true code) (created, c) =
      (created, c ∙ ap some (append_assoc before piece rest))
  Outcome-append full before piece rest (s, ended false code) o = o

  stopped :
      (full before : Text) (s : S) (code : ℕ)
      → code ≢ 201
      → Outcome full before [] (s, ended false code)
  unfolding Outcome
  stopped full before s code n = n

  failed_write :
      (full before rest : Text) (s : S) (e : FsError)
      → Outcome full before rest (s, ended false (fs_error_code e))
  unfolding Outcome
  failed_write full before rest s e = not_created e

  still_waiting : (full before : Text) (s : S) → Outcome full before [] (s, waiting)
  unfolding Outcome
  still_waiting full before s = tt

  after_data-Outcome :
      (full before piece rest : Text) (last : Bool) (r : S × Result FsError (Unit {0}))
      (more : S → S × Consumed)
      → Wrote full (before ++ piece) r
      → ((s : S)
          → last ≡ false
          → content s full ≡ some (before ++ piece)
          → Outcome full (before ++ piece) rest (more s))
      → Outcome full before (if last then piece else piece ++ rest) (after_data os full last r more)
  unfolding after_data
  after_data-Outcome full before piece rest last (s, err e) more w h =
      failed_write full before _ s e
  after_data-Outcome full before piece rest true (s, ok _) more w h =
      subst (λ t. Outcome full before t (synced os (os.sync full s))) (append-nil piece)
        (Outcome-append full before piece [] (synced os (os.sync full s))
          (synced-Outcome full (before ++ piece) s (os.sync full s) refl w))
  after_data-Outcome full before piece rest false (s, ok _) more w h =
      Outcome-append full before piece rest (more s) (h s refl w)

  consume_upload-Outcome :
      (full before : Text) (events : List UploadEvent) (s : S)
      → content s full ≡ some before
      → Outcome full before (uploaded events) (consume_upload os full events s)
  unfolding consume_upload uploaded
  consume_upload-Outcome full before [] s c = still_waiting full before s
  consume_upload-Outcome full before (context_done ∷ events) s c =
      stopped full before s 500 (ground arith)
  consume_upload-Outcome full before (idle_timeout ∷ events) s c =
      stopped full before s 408 (ground arith)
  consume_upload-Outcome full before (chunk piece true ∷ events) s c =
      after_data-Outcome full before piece [] true (write_data os full piece s)
        (λ s'. consume_upload os full events s')
        (write_data_lem full piece before s (write_data os full piece s) refl c) (λ s' l. absurd cc)
  consume_upload-Outcome full before (chunk piece false ∷ events) s c =
      after_data-Outcome full before piece (uploaded events) false (write_data os full piece s)
        (λ s'. consume_upload os full events s')
        (write_data_lem full piece before s (write_data os full piece s) refl c)
        (λ s' l c'. consume_upload-Outcome full (before ++ piece) events s' c')

  -- The state is what a removal of the file left that reported an error.
  abbrev pub RemoveFailed : Text → S → Type 0
  RemoveFailed full s = (t : S) × (e : FsError) × (os.remove full t ≡ (s, err e))

  removed :
      (full : Text) (before : Option Text) (s : S) (r : S × Result FsError (Unit {0}))
      → os.remove full s ≡ r
      → (content r.0 full ≡ none) ⊎ (content r.0 full ≡ before) ⊎ RemoveFailed full r.0
  removed full before s (s', ok _) h = inl (laws.remove_removes full s s' h)
  removed full before s (s', err e) h = inr (inr (s, e, h))

  -- How a whole upload ends, for a file that held `before`: created, it holds exactly the bytes that
  -- were sent; with any other code it is gone, or was never touched, or could not be removed.
  unfoldable pub Finished : Text → Option Text → Bool → List UploadEvent → S × Option ℕ → Type 0
  Finished full before exclusive events (s, none) = Unit
  Finished full before exclusive events (s, some code) =
      (code ≡ 201 → (content s full ≡ some (uploaded events)) × (exclusive ≡ true → before ≡ none))
      × (code ≢ 201 → (content s full ≡ none) ⊎ (content s full ≡ before) ⊎ RemoveFailed full s)

  close_file-Finished :
      (full : Text) (before : Option Text) (exclusive : Bool) (events : List UploadEvent)
      (r : S × Consumed)
      → (exclusive ≡ true → before ≡ none)
      → Outcome full [] (uploaded events) r
      → Finished full before exclusive events (close_file os full r)
  unfolding Finished Outcome close_file
  close_file-Finished full before exclusive events (s, waiting) new o = tt
  close_file-Finished full before exclusive events (s, ended true code) new (created, c) =
      (λ h. (c, new), λ h. absurd (h created))
  close_file-Finished full before exclusive events (s, ended false code) new o =
      (λ h. absurd (o h), λ h. removed full _ s (os.remove full s) refl)

  refused :
      (full : Text) (before : Option Text) (exclusive : Bool) (events : List UploadEvent) (s : S)
      (e : FsError)
      → content s full ≡ before
      → Finished full before exclusive events (s, some (fs_error_code e))
  unfolding Finished
  refused full before exclusive events s e same =
      (λ h. absurd (not_created e h), λ h. inr (inl same))

  kept :
      (full dir : Text) (s : S) (r : S × Result FsError (Unit {0}))
      → os.mkdir_all dir s ≡ r
      → content r.0 full ≡ content s full
  kept full dir s r h = ap (λ x. content x.0 full) (sym h) ∙ laws.mkdir_keeps dir full s

  opened-Finished :
      (full : Text) (before : Option Text) (exclusive : Bool) (events : List UploadEvent) (s : S)
      (r : S × Result FsError (Unit {0}))
      → content s full ≡ before
      → os.open_file full exclusive s ≡ r
      → Finished full before exclusive events (opened os full events r)
  unfolding opened
  opened-Finished full before exclusive events s (s', err e) c h =
      refused full before exclusive events s' e (laws.open_fails full exclusive s s' e h ∙ c)
  opened-Finished full before exclusive events s (s', ok t) c h =
      close_file-Finished full before exclusive events (consume_upload os full events s')
        (λ x.
          sym c ∙ laws.open_is_new full s s' (subst (λ b. os.open_file full b s ≡ (s', ok tt)) x h))
        (consume_upload-Outcome full [] events s' (laws.open_empties full exclusive s s' h))

  made_dir-Finished :
      (full dir : Text) (before : Option Text) (exclusive : Bool) (events : List UploadEvent)
      (s : S) (r : S × Result FsError (Unit {0}))
      → content s full ≡ before
      → os.mkdir_all dir s ≡ r
      → Finished full before exclusive events (made_dir os full exclusive events r)
  unfolding made_dir
  made_dir-Finished full dir before exclusive events s (s', err e) c h =
      refused full before exclusive events s' e (kept full dir s _ h ∙ c)
  made_dir-Finished full dir before exclusive events s (s', ok t) c h =
      opened-Finished full before exclusive events s' (os.open_file full exclusive s')
        (kept full dir s _ h ∙ c) refl

  -- `writeFile` on a path that is resolved: if it answers 201, the file holds exactly the bytes of the
  -- chunks up to the last one, and an exclusive upload has made a new file; if it answers anything
  -- else, the file is gone, or as it was before the request, or its removal has failed.
  pub write_file_lem :
      (data_dir path full : Text) (exclusive : Bool) (events : List UploadEvent) (s : S)
      → resolve data_dir path ≡ ok full
      → Finished full
          (content s full)
          exclusive
          events
          (write_file os data_dir (some (path, exclusive)) events s)
  unfolding write_file
  write_file_lem data_dir path full exclusive events s h =
      rw (h, write_file)
        (made_dir-Finished full (dir_name os full) (content s full) exclusive events s
          (os.mkdir_all (dir_name os full) s) refl refl)
