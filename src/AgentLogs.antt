-- ===== src/AgentLogs.antt =====
-- pkg/agent/containers.go: the lines of a container's log, and the codes of a log request. The Docker
-- client and the demultiplexer of its stream are parameters; the text of an error has no part.
pub mod Lines
use hostlink.Prelude.{
  ℕ, Bool, true, false, not, ◌&&◌, Option, none, some, List, [], ◌∷◌, ◌++◌, ◌==◌, if◌then◌else◌,
  Text, length, leb, map, Result, ok, err, nat_comparable, text_comparable,
}
use hostlink.Tunnel.{ReadError, no_error, at_eof, broken}

abbrev pub max_log_line_bytes : ℕ
max_log_line_bytes = 65536

-- The errors of the Docker daemon that `dockerErrorCode` tells apart.
pub data DockerError : Type 0 where
  not_found conflict invalid_argument other_error : DockerError

-- `dockerErrorCode`
unfoldable pub docker_error_code : DockerError → ℕ
docker_error_code not_found = 404
docker_error_code conflict = 409
docker_error_code invalid_argument = 400
docker_error_code other_error = 500

-- `bytes.TrimSuffix(line, "\r")`
unfoldable pub trim_cr : Text → Text
trim_cr [] = []
trim_cr (c ∷ []) = if c == 13 then [] else c ∷ []
trim_cr (c ∷ d ∷ s) = c ∷ trim_cr (d ∷ s)

-- `logLineWriter`, with the lines that it has emitted, oldest first.
pub record LogLineWriter : Type 0 where
  pub buf : Text
  pub emitted : List Text

abbrev pub new_writer : LogLineWriter
new_writer = record { buf = []; emitted = [] }

cons_byte : ℕ → List Text × Text → List Text × Text
cons_byte c ([], rest) = ([], c ∷ rest)
cons_byte c (line ∷ lines, rest) = ((c ∷ line) ∷ lines, rest)

-- The loop of `Write`, with `bytes.IndexByte`: the lines before each newline of the buffer, and what is
-- left behind the last one.
unfoldable pub cut_lines : Text → List Text × Text
unfolding cons_byte
cut_lines [] = ([], [])
cut_lines (c ∷ s) =
    let more = cut_lines s in if c == 10 then ([] ∷ more.0, more.1) else cons_byte c more

-- `emitLine`
unfoldable pub emit_line : Text → LogLineWriter → LogLineWriter
unfolding trim_cr
emit_line line w = record w { emitted = w.emitted ++ trim_cr line ∷ [] }

emit_lines : List Text → LogLineWriter → LogLineWriter
unfolding emit_line
emit_lines [] w = w
emit_lines (line ∷ lines) w = emit_lines lines (emit_line line w)

-- `Write`
unfoldable pub write : Text → LogLineWriter → LogLineWriter
unfolding cut_lines emit_lines
write p w =
    let (lines, rest) = cut_lines (w.buf ++ p) in
    let w' = emit_lines lines w in
    if leb max_log_line_bytes (length rest)
    then record (emit_line rest w') { buf = [] }
    else record w' { buf = rest }

-- `flush`
unfoldable pub flush : LogLineWriter → LogLineWriter
unfolding emit_line
flush w = elim w.buf [ [] ↦ w | b ∷ bs ↦ record (emit_line (b ∷ bs) w) { buf = [] } ]

-- How the copy of the log stream ends: it is over, or it fails, in a context that has ended or not.
pub data CopyEnd : Type 0 where
  copied : CopyEnd
  copy_failed : Bool → CopyEnd

-- The code of `containerLogs`, given the decoded container id, none where it cannot be decoded, what
-- `ContainerInspect` and `ContainerLogs` answer, and how the copy ends.
unfoldable pub container_logs :
    Option Text → Result DockerError (Unit {0}) → Result DockerError (Unit {0}) → CopyEnd → ℕ
unfolding docker_error_code
container_logs none inspect logs end = 400
container_logs (some id) inspect logs end = if id == [] then 400 else elim inspect [
  | err e ↦ docker_error_code e
  | ok _ ↦ elim logs [
    | err e ↦ docker_error_code e
    | ok _ ↦ elim end [ copied ↦ 200 | copy_failed ended ↦ if ended then 200 else 502 ]
  ]
]

-- `startContainer`, `stopContainer`, `restartContainer` and `removeContainer`: the code, given the
-- decoded container id and what the Docker call answers.
unfoldable pub run_on_container : Option Text → Result DockerError (Unit {0}) → ℕ
unfolding docker_error_code
run_on_container none answer = 400
run_on_container (some id) answer =
    if id == [] then 400 else elim answer [ err e ↦ docker_error_code e | ok _ ↦ 204 ]
