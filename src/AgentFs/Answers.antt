-- ===== src/AgentFs/Answers.antt =====
-- pkg/agent/fs.go, `writeFile`: an upload that is brought to its end is answered.
use hostlink.Prelude.{
  ℕ, ◌≡◌, refl, Bool, true, false, Option, none, some, List, [], ◌∷◌, Text, Result, ok, err,
}
use hostlink.AgentFs.{
  FsError, Os, resolve, UploadEvent, context_done, idle_timeout, chunk, Consumed, waiting, ended,
  write_data, synced, after_data, consume_upload, close_file, dir_name, opened, made_dir,
  write_file,
}

-- Events that end an upload: a last chunk, the idle timer or the end of the context is among them.
abbrev pub IsConcluded : List UploadEvent → Type 0
IsConcluded [] = ⊥
IsConcluded (context_done ∷ events) = Unit
IsConcluded (idle_timeout ∷ events) = Unit
IsConcluded (chunk piece true ∷ events) = Unit
IsConcluded (chunk piece false ∷ events) = IsConcluded events

abbrev pub IsAnswered {ℓ} : {S : Type ℓ} → S × Option ℕ → Type 0
IsAnswered (s, none) = ⊥
IsAnswered (s, some code) = Unit

abbrev IsEnded {ℓ} : {S : Type ℓ} → S × Consumed → Type 0
IsEnded (s, waiting) = ⊥
IsEnded (s, ended committed code) = Unit

module _ {S : Type 0} (os : Os S) where
  synced-IsEnded : (r : S × Result FsError (Unit {0})) → IsEnded (synced os r)
  unfolding synced
  synced-IsEnded (s, ok _) = tt
  synced-IsEnded (s, err e) = tt

  after_data-IsEnded :
      (full : Text) (last : Bool) (r : S × Result FsError (Unit {0})) (more : S → S × Consumed)
      → ((s : S) → last ≡ false → IsEnded (more s))
      → IsEnded (after_data os full last r more)
  unfolding after_data
  after_data-IsEnded full last (s, err e) more h = tt
  after_data-IsEnded full true (s, ok _) more h = synced-IsEnded (os.sync full s)
  after_data-IsEnded full false (s, ok _) more h = h s refl

  consume_upload-IsEnded :
      (full : Text) (events : List UploadEvent) (s : S)
      → IsConcluded events
      → IsEnded (consume_upload os full events s)
  unfolding consume_upload
  consume_upload-IsEnded full [] s e = e
  consume_upload-IsEnded full (context_done ∷ events) s e = tt
  consume_upload-IsEnded full (idle_timeout ∷ events) s e = tt
  consume_upload-IsEnded full (chunk piece true ∷ events) s e =
      after_data-IsEnded full true (write_data os full piece s) _ (λ s' l. absurd cc)
  consume_upload-IsEnded full (chunk piece false ∷ events) s e =
      after_data-IsEnded full false (write_data os full piece s) _
        (λ s' l. consume_upload-IsEnded full events s' e)

  close_file-IsAnswered :
      (full : Text) (r : S × Consumed) → IsEnded r → IsAnswered (close_file os full r)
  unfolding close_file
  close_file-IsAnswered full (s, waiting) e = e
  close_file-IsAnswered full (s, ended true code) e = tt
  close_file-IsAnswered full (s, ended false code) e = tt

  opened-IsAnswered :
      (full : Text) (events : List UploadEvent) (r : S × Result FsError (Unit {0}))
      → IsConcluded events
      → IsAnswered (opened os full events r)
  unfolding opened
  opened-IsAnswered full events (s, err e) h = tt
  opened-IsAnswered full events (s, ok _) h =
      close_file-IsAnswered full (consume_upload os full events s)
        (consume_upload-IsEnded full events s h)

  made_dir-IsAnswered :
      (full : Text) (exclusive : Bool) (events : List UploadEvent)
      (r : S × Result FsError (Unit {0}))
      → IsConcluded events
      → IsAnswered (made_dir os full exclusive events r)
  unfolding made_dir
  made_dir-IsAnswered full exclusive events (s, err e) h = tt
  made_dir-IsAnswered full exclusive events (s, ok _) h =
      opened-IsAnswered full events (os.open_file full exclusive s) h

  -- On a path that resolves, an upload whose events end it is answered with a code.
  pub write_file-IsAnswered :
      (data_dir path full : Text) (exclusive : Bool) (events : List UploadEvent) (s : S)
      → resolve data_dir path ≡ ok full
      → IsConcluded events
      → IsAnswered (write_file os data_dir (some (path, exclusive)) events s)
  unfolding write_file
  write_file-IsAnswered data_dir path full exclusive events s h e =
      rw (h, write_file)
        (made_dir-IsAnswered full exclusive events (os.mkdir_all (dir_name os full) s) e)
