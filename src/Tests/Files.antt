-- ===== src/Tests/Files.antt =====
-- The file operations of an agent and their REST handlers at concrete inputs.
use hostlink.Prelude.{
  ◌≡◌, ◌≢◌, refl, sym, ap, ◌∙◌, Bool, true, false, Option, none, some, List, [], ◌∷◌, ◌++◌, Text,
  codes, arith, All, Result, ok, err, nat_comparable, text_comparable, Text-discrete, ==_refl,
}
use hostlink.Map.{Map, get, put, delete}
use hostlink.Map.Laws.{get-put, get-delete}
use hostlink.Tunnel.{ReadError, no_error, at_eof, broken}
use hostlink.Tunnel.Bytes.{content}
use hostlink.Strings.{cut_prefix}
use hostlink.Paths.{clean, path_of}
use hostlink.Paths.Clean.{IsElement}
use hostlink.AgentFs.{
  FsError, not_exist, exist, FsEntry, Os, resolve, remove, write_file, read_loop,
}
use hostlink.AgentFs.Resolve.{resolve_lem}
use hostlink.AgentFs.Removal.{RemovedInside, removal_lem}
use hostlink.AgentFs.Upload.{FileLaws}
use hostlink.Rest.{finished, stream_download, stream_upload_body}
use hostlink.Rest.Uploads.{to_agent, Uploaded, upload_roundtrip}
use hostlink.Rest.Downloads.{
  rounds_of, delivered, patient, begun, no_body, download_roundtrip, broken_download_lem,
}

-- A file system of files, by their paths, in which a directory is made by asking for it.
abbrev Files : Type 0
Files = Map Text Text

abbrev entry : Text → Text → FsEntry
entry path bytes = record { name = path; dir = false; size = 0; mod_time = 0 }

abbrev looked_up : Text → Option Text → Result FsError FsEntry
looked_up path none = err not_exist
looked_up path (some bytes) = ok (entry path bytes)

abbrev open_on : Option Text → Text → Bool → Files → Files × Result FsError (Unit {0})
open_on none full exclusive s = (put s full [], ok tt)
open_on (some bytes) full true s = (s, err exist)
open_on (some bytes) full false s = (put s full [], ok tt)

abbrev write_on : Option Text → Text → Text → Files → Files × Result FsError (Unit {0})
write_on none full piece s = (s, err not_exist)
write_on (some before) full piece s = (put s full (before ++ piece), ok tt)

os : Os Files
os = record {
  stat = λ path s. looked_up path (get s path);
  read_dir = λ path s. ok [];
  mkdir_all = λ path s. (s, ok tt);
  remove_all = λ path s. (delete s path, ok tt);
  open_file = λ full exclusive s. open_on (get s full) full exclusive s;
  write = λ full piece s. write_on (get s full) full piece s;
  sync = λ full s. (s, ok tt);
  remove = λ full s. (delete s full, ok tt);
}

files : Files → Text → Option Text
files s path = get s path

put_there : (s : Files) (full bytes : Text) → get (put s full bytes) full ≡ some bytes
put_there s full bytes = ground (arith, get-put s full full bytes, ==_refl full)

open_on_lem :
    (o : Option Text) (full : Text) (exclusive : Bool) (s s' : Files)
    → get s full ≡ o
    → (open_on o full exclusive s ≡ (s', ok tt) → get s' full ≡ some [])
      × (open_on o full true s ≡ (s', ok tt) → get s full ≡ none)
      × ((e : FsError) → open_on o full exclusive s ≡ (s', err e) → get s' full ≡ get s full)
open_on_lem none full exclusive s s' h =
    (λ e. ap (λ x. get x.0 full) (sym e) ∙ put_there s full [], λ e. h, λ x e. cc)
open_on_lem (some bytes) full true s s' h =
    (λ e. cc, λ e. cc, λ x e. ap (λ r. get r.0 full) (sym e))
open_on_lem (some bytes) full false s s' h =
    (λ e. ap (λ x. get x.0 full) (sym e) ∙ put_there s full [], λ e. cc, λ x e. cc)

write_on_lem :
    (o : Option Text) (full piece before : Text) (s s' : Files)
    → write_on o full piece s ≡ (s', ok tt)
    → o ≡ some before
    → get s' full ≡ some (before ++ piece)
write_on_lem none full piece before s s' e h = cc
write_on_lem (some b) full piece before s s' e h =
    ap (λ x. get x.0 full) (sym e) ∙ put_there s full (b ++ piece) ∙ ap (λ o. append_to o piece) h
  where
    append_to : Option Text → Text → Option Text
    append_to none piece = none
    append_to (some b) piece = some (b ++ piece)

os-FileLaws : FileLaws os files
unfolding os files
os-FileLaws = record {
  open_empties = λ full exclusive s s' h. (open_on_lem (get s full) full exclusive s s' refl).0 h;
  open_is_new = λ full s s' h. (open_on_lem (get s full) full true s s' refl).1 h;
  open_fails = λ full exclusive s s' e h. (open_on_lem (get s full) full exclusive s s' refl).2 e h;
  write_appends =
      λ full piece before s s' h c. write_on_lem (get s full) full piece before s s' h c;
  sync_keeps = λ full s s' h. ap (λ x. get x.0 full) (sym h);
  remove_removes = λ full s s' h.
      ap (λ x. get x.0 full) (sym h) ∙ ground (arith, get-delete s full full, ==_refl full);
  mkdir_keeps = λ dir full s. refl;
}

abbrev data_part : Text
data_part = codes "data"

data_part-IsElement : All IsElement (data_part ∷ [])
data_part-IsElement = (
  (λ e. cc, λ e. cc, λ e. cc, (omega arith, (omega arith, (omega arith, (omega arith, tt))))),
  tt,
)

-- A request that climbs out stays inside.
resolve_lem_example :
    (e : List Text) × All IsElement e
    × (clean (codes "/../etc//passwd") ≡ path_of e)
    × (resolve (path_of (data_part ∷ [])) (codes "../etc//passwd")
        ≡ ok (path_of (e ++ data_part ∷ [])))
    × (resolve (path_of (data_part ∷ [])) (codes "../../etc//passwd")
        ≡ ok (path_of (e ++ data_part ∷ [])))
resolve_lem_example = resolve_lem data_part [] (codes "../etc//passwd") data_part-IsElement

abbrev stored : Files
stored = (codes "/data/a", codes "x") ∷ []

removal_lem_example :
    RemovedInside os data_part [] stored
      (remove os (path_of (data_part ∷ [])) (some (codes "a")) stored).0
removal_lem_example = removal_lem os data_part [] (some (codes "a")) stored data_part-IsElement

resolved : resolve (codes "/data") (codes "a") ≡ ok (codes "/data/a")
unfolding resolve Text-discrete cut_prefix
resolved = refl

abbrev body : List (Text × ReadError)
body = (codes "hel", no_error) ∷ ([], no_error) ∷ (codes "lo", at_eof) ∷ []

upload_roundtrip_example :
    let (events, result) = stream_upload_body to_agent body [] in
    (result ≡ some none)
    × Uploaded os files os-FileLaws
        (codes "/data/a")
        (files stored (codes "/data/a"))
        false
        (content body)
        (write_file os (codes "/data") (some (codes "a", false)) events stored)
upload_roundtrip_example =
    upload_roundtrip os files os-FileLaws (codes "/data") (codes "a") (codes "/data/a") false body
      stored resolved tt

download_roundtrip_example :
    let out = read_loop (rounds_of body) in
    (out.code ≡ some 200)
    × (stream_download patient (delivered out.chunks 200 []) ≡ (begun (content body), finished))
download_roundtrip_example = download_roundtrip body [] tt

abbrev cut_short : List (Text × ReadError)
cut_short = (codes "hel", no_error) ∷ ([], broken) ∷ []

broken_download_lem_example :
    let out = read_loop (rounds_of cut_short) in
    let r = stream_download patient (delivered out.chunks 500 (codes "i/o error")) in
    (out.code ≡ some 500)
    × (r.1 ≡ finished)
    × (content cut_short ≡ [] → r.0 ≡ no_body 500 (codes "i/o error"))
    × (content cut_short ≢ [] → r.0 ≡ begun (content cut_short))
broken_download_lem_example = broken_download_lem cut_short (codes "i/o error") tt
