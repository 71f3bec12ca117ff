-- ===== src/AgentFs.antt =====
-- pkg/agent/fs.go: the file operations that the controller asks an agent for, inside the agent's
-- working directory. The operating system is a parameter, its calls on a state; a request is its
-- decoded payload, or none. Texts of errors have no part.
pub mod Resolve
pub mod Removal
pub mod Upload
pub mod Answers
use hostlink.Prelude.{
  ℕ, Bool, true, false, not, ◌&&◌, ◌||◌, Option, none, some, List, [], ◌∷◌, ◌++◌, Text, codes, ◌==◌,
  if◌then◌else◌, drop, nat_comparable, text_comparable, Result, ok, err,
}
use hostlink.Strings.{split}
use hostlink.Paths.{clean, join, has_prefix, path_of, walk}
use hostlink.Tunnel.{ReadError, no_error, at_eof, broken}

-- The errors that `fsErrorCode` tells apart.
pub data FsError : Type 0 where
  fs_not_configured path_escapes not_exist exist other_error : FsError

-- `fsErrorCode`
abbrev pub fs_error_code : FsError → ℕ
fs_error_code fs_not_configured = 501
fs_error_code path_escapes = 400
fs_error_code not_exist = 404
fs_error_code exist = 409
fs_error_code other_error = 500

-- `agentapi.FsEntry`, the part of a `FileInfo` that `fsEntryOf` keeps.
pub record FsEntry : Type 0 where
  pub name : Text
  pub dir : Bool
  pub size : ℕ
  pub mod_time : ℕ

-- The calls of the package `os`: `ReadDir` with the `Info` of each entry, none where it has vanished,
-- and `OpenFile` for writing, exclusive or truncating.
pub record Os (S : Type 0) : Type 0 where
  pub stat : Text → S → Result FsError FsEntry
  pub read_dir : Text → S → Result FsError (List (Option FsEntry))
  pub mkdir_all : Text → S → S × Result FsError (Unit {0})
  pub remove_all : Text → S → S × Result FsError (Unit {0})
  pub open_file : Text → Bool → S → S × Result FsError (Unit {0})
  pub write : Text → Text → S → S × Result FsError (Unit {0})
  pub sync : Text → S → S × Result FsError (Unit {0})
  pub remove : Text → S → S × Result FsError (Unit {0})

-- `resolve`; the agent's `dataDir` is the first argument.
unfoldable pub resolve : Text → Text → Result FsError Text
unfolding clean join
resolve data_dir rel =
    let full = join data_dir (clean (b'/' ∷ rel)) in
    if data_dir == []
    then err fs_not_configured
    else if not (full == data_dir) && not (has_prefix full (data_dir ++ b'/' ∷ []))
    then err path_escapes
    else ok full

-- The code of a reply and its payload, if any.
pub record Reply (A : Type 0) : Type 0 where
  pub payload : Option A
  pub code : ℕ

abbrev pub fails : {A : Type 0} → ℕ → Reply A
fails code = record { payload = none; code = code }

abbrev pub fails_by : {A : Type 0} → FsError → Reply A
fails_by e = fails (fs_error_code e)

-- The entries that have not vanished.
unfoldable pub present : List (Option FsEntry) → List FsEntry
present [] = []
present (none ∷ entries) = present entries
present (some e ∷ entries) = e ∷ present entries

module _ {S : Type 0} (os : Os S) (data_dir : Text) where
  -- `statPath`
  unfoldable pub stat_path : Option Text → S → Reply FsEntry
  unfolding resolve
  stat_path none s = fails 400
  stat_path (some path) s = elim (resolve data_dir path) [
    | err e ↦ fails_by e
    | ok full ↦ elim (os.stat full s) [
      | err e ↦ fails_by e
      | ok info ↦ record { payload = some info; code = 200 }
    ]
  ]

  -- `listDir`
  unfoldable pub list_dir : Option Text → S → Reply (List FsEntry)
  unfolding resolve present
  list_dir none s = fails 400
  list_dir (some path) s = elim (resolve data_dir path) [
    | err e ↦ fails_by e
    | ok full ↦ elim (os.read_dir full s) [
      | err e ↦ fails_by e
      | ok entries ↦ record { payload = some (present entries); code = 200 }
    ]
  ]

  after : ℕ → Result FsError (Unit {0}) → ℕ
  after code (ok _) = code
  after code (err e) = fs_error_code e

  -- `mkdir`
  unfoldable pub mkdir : Option Text → S → S × ℕ
  unfolding resolve after
  mkdir none s = (s, 400)
  mkdir (some path) s = elim (resolve data_dir path) [
    | err e ↦ (s, fs_error_code e)
    | ok full ↦ elim (os.stat full s) [
      | ok _ ↦ (s, 409)
      | err not_exist ↦ let made = os.mkdir_all full s in (made.0, after 201 made.1)
      | err e ↦ (s, fs_error_code e)
    ]
  ]

  -- `remove`
  unfoldable pub remove : Option Text → S → S × ℕ
  unfolding resolve after
  remove none s = (s, 400)
  remove (some path) s = elim (resolve data_dir path) [
    | err e ↦ (s, fs_error_code e)
    | ok full ↦
        let removed = os.remove_all full s in
        if full == data_dir then (s, 400) else elim (os.stat full s) [
          | err e ↦ (s, fs_error_code e)
          | ok _ ↦ (removed.0, after 204 removed.1)
        ]
  ]

-- What the `select` of `consumeUpload` sees: the context's end, the idle timer, or a chunk.
pub data UploadEvent : Type 0 where
  context_done idle_timeout : UploadEvent
  chunk : Text → Bool → UploadEvent

-- Where an upload stands: it waits for the next event, or it ended, committed or not.
pub data Consumed : Type 0 where
  waiting : Consumed
  ended : Bool → ℕ → Consumed

module _ {S : Type 0} (os : Os S) where
  -- `if len(chunk.data) > 0 { f.Write }`
  unfoldable pub write_data : Text → Text → S → S × Result FsError (Unit {0})
  write_data full [] s = (s, ok tt)
  write_data full (b ∷ bs) s = os.write full (b ∷ bs) s

  synced : S × Result FsError (Unit {0}) → S × Consumed
  synced (s, ok _) = (s, ended true 201)
  synced (s, err e) = (s, ended false (fs_error_code e))

  -- The rest of one round, once the chunk's data is written.
  unfoldable pub after_data :
      Text → Bool → S × Result FsError (Unit {0}) → (S → S × Consumed) → S × Consumed
  unfolding synced
  after_data full last (s, err e) more = (s, ended false (fs_error_code e))
  after_data full true (s, ok _) more = synced (os.sync full s)
  after_data full false (s, ok _) more = more s

  -- `consumeUpload`
  unfoldable pub consume_upload : Text → List UploadEvent → S → S × Consumed
  unfolding write_data after_data
  consume_upload full [] s = (s, waiting)
  consume_upload full (context_done ∷ events) s = (s, ended false 500)
  consume_upload full (idle_timeout ∷ events) s = (s, ended false 408)
  consume_upload full (chunk piece last ∷ events) s =
      after_data full last (write_data full piece s) (λ s'. consume_upload full events s')

  -- The deferred end of `writeFile`.
  unfoldable pub close_file : Text → S × Consumed → S × Option ℕ
  close_file full (s, waiting) = (s, none)
  close_file full (s, ended true code) = (s, some code)
  close_file full (s, ended false code) = ((os.remove full s).0, some code)

  -- `filepath.Dir` of a cleaned rooted path.
  abbrev pub dir_name : Text → Text
  dir_name path = path_of (drop 1 (walk [] (split b'/' path)))

  opened : Text → List UploadEvent → S × Result FsError (Unit {0}) → S × Option ℕ
  unfolding consume_upload close_file
  opened full events (s, err e) = (s, some (fs_error_code e))
  opened full events (s, ok _) = close_file full (consume_upload full events s)

  made_dir : Text → Bool → List UploadEvent → S × Result FsError (Unit {0}) → S × Option ℕ
  unfolding opened
  made_dir full exclusive events (s, err e) = (s, some (fs_error_code e))
  made_dir full exclusive events (s, ok _) = opened full events (os.open_file full exclusive s)

  -- `writeFile` on a path and whether it is exclusive; the code is none while it waits for a chunk.
  unfoldable pub write_file : Text → Option (Text × Bool) → List UploadEvent → S → S × Option ℕ
  unfolding resolve made_dir
  write_file data_dir none events s = (s, some 400)
  write_file data_dir (some (path, exclusive)) events s = elim (resolve data_dir path) [
    | err e ↦ (s, some (fs_error_code e))
    | ok full ↦ made_dir full exclusive events (os.mkdir_all (dir_name full) s)
  ]

-- One round of the loop of `readFile`: whether the context has ended, what `Read` returns, and
-- whether the chunk could be sent.
pub record ReadRound : Type 0 where
  pub cancelled : Bool
  pub piece : Text
  pub error : ReadError
  pub sent : Bool

-- The chunks that were sent, and the code, none while it reads.
pub record ReadOut : Type 0 where
  pub chunks : List Text
  pub code : Option ℕ

abbrev pub cons_chunk : Text → ReadOut → ReadOut
cons_chunk [] r = r
cons_chunk (b ∷ bs) r = record r { chunks = (b ∷ bs) ∷ r.chunks }

abbrev pub end_read : ℕ → ReadOut
end_read code = record { chunks = []; code = some code }

-- The loop of `readFile`.
unfoldable pub read_loop : List ReadRound → ReadOut
read_loop [] = record { chunks = []; code = none }
read_loop (r ∷ rounds) =
    let more = read_loop rounds in
    if r.cancelled
    then end_read 500
    else if not (r.piece == []) && not r.sent
    then end_read 500
    else cons_chunk r.piece
        (elim r.error [ no_error ↦ more | at_eof ↦ end_read 200 | broken ↦ end_read 500 ])

-- `readFile`: what `Open` and `Stat` of the file return, and the rounds.
unfoldable pub read_file :
    Text → Option Text → (Text → Result FsError FsEntry) → List ReadRound → ReadOut
unfolding resolve read_loop
read_file data_dir none open_and_stat rounds = end_read 400
read_file data_dir (some path) open_and_stat rounds = elim (resolve data_dir path) [
  | err e ↦ end_read (fs_error_code e)
  | ok full ↦ elim (open_and_stat full) [
    | err e ↦ end_read (fs_error_code e)
    | ok info ↦ if info.dir then end_read 400 else read_loop rounds
  ]
]
