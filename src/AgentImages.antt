-- ===== src/AgentImages.antt =====
-- pkg/agent/commands.go: the commands on Docker images. The Docker client with its state, and the codecs
-- of JSON and of the registry's credentials, are parameters; an int64 stands for its 64 bits.
pub mod Outcomes
use hostlink.Prelude.{
  ℕ, Bool, true, false, not, Option, none, some, List, [], ◌∷◌, ◌++◌, ◌==◌, if◌then◌else◌, Text,
  codes, map, Result, ok, err, text_comparable,
}

-- What a single-shot handler returns: `payload`, `code` and `errMsg`.
pub record Answer : Type 0 where
  pub payload : Text
  pub code : ℕ
  pub error : Text

abbrev pub fails : ℕ → Text → Answer
fails code error = record { payload = []; code = code; error = error }

-- `RegistryAuth`
pub record RegistryAuth : Type 0 where
  pub username : Text
  pub password : Text
  pub server_address : Text
  pub identity_token : Text

-- `PullRequest`
pub record PullRequest : Type 0 where
  pub image : Text
  pub auth : Option RegistryAuth

-- `jsonmessage.JSONMessage`, with what of it the code reads; `text` is what `Progress.String` returns.
pub record JsonProgress : Type 0 where
  pub current : ℕ
  pub total : ℕ
  pub text : Text

pub record JsonMessage : Type 0 where
  pub id : Text
  pub status : Text
  pub progress : Option JsonProgress
  pub error : Option Text

-- `PullProgress`
pub record PullProgress : Type 0 where
  pub id : Text
  pub status : Text
  pub progress : Text
  pub current : ℕ
  pub total : ℕ
  pub error : Text

-- How `dec.Decode` ends the stream: by io.EOF, or by another error.
pub data StreamEnd : Type 0 where
  at_end : StreamEnd
  decode_failed : Text → StreamEnd

progress_line : JsonMessage → Option JsonProgress → PullProgress
progress_line msg none = record {
  id = msg.id;
  status = msg.status;
  progress = [];
  current = 0;
  total = 0;
  error = [];
}
progress_line msg (some p) = record {
  id = msg.id;
  status = msg.status;
  progress = p.text;
  current = p.current;
  total = p.total;
  error = [];
}

-- The loop of `pullImage`: what it emits, in order, and the code and the error that it returns.
unfoldable pub pull_loop : List JsonMessage → StreamEnd → List PullProgress × ℕ × Text
unfolding progress_line
pull_loop [] at_end = ([], 200, [])
pull_loop [] (decode_failed e) = ([], 502, e)
pull_loop (msg ∷ msgs) end =
    let rest = pull_loop msgs end in
    elim msg.error [
      | some e ↦ (
        record {
          id = msg.id;
          status = msg.status;
          progress = [];
          current = 0;
          total = 0;
          error = e;
        }
            ∷ [],
        502,
        e,
      )
      | none ↦ (progress_line msg msg.progress ∷ rest.0, rest.1, rest.2)
    ]

-- `opts.RegistryAuth`, given `encodeRegistryAuth`.
unfoldable pub registry_auth :
    (RegistryAuth → Result Text Text) → Option RegistryAuth → Result Text Text
registry_auth encode none = ok []
registry_auth encode (some auth) = encode auth

-- `pullImage`, given the decoded payload and `ImagePull` with the messages of its stream.
unfoldable pub pull_image :
    (RegistryAuth → Result Text Text)
    → (Text → Text → Result Text (List JsonMessage × StreamEnd))
    → Result Text PullRequest
    → List PullProgress × ℕ × Text
unfolding registry_auth
pull_image encode image_pull (err e) = ([], 400, codes "invalid images.pull payload: " ++ e)
pull_image encode image_pull (ok pr) =
    if pr.image == []
    then ([], 400, codes "images.pull: image must not be empty")
    else elim (registry_auth encode pr.auth) [
      | err e ↦ ([], 400, codes "images.pull: encode registry auth: " ++ e)
      | ok auth ↦ elim (image_pull pr.image auth) [
        | err e ↦ ([], 500, e)
        | ok (msgs, end) ↦ pull_loop msgs end
      ]
    ]

-- `encodeRegistryAuth`, given `json.Marshal` of the credentials and `base64.URLEncoding`.
unfoldable pub encode_registry_auth :
    (RegistryAuth → Result Text Text) → (Text → Text) → RegistryAuth → Result Text Text
encode_registry_auth marshal base64_url auth = elim (marshal auth) [
  | err e ↦ err e
  | ok buf ↦ ok (base64_url buf)
]

-- `ImageSummary`; of Docker's `image.Summary` the code reads the same fields.
pub record ImageSummary : Type 0 where
  pub id : Text
  pub repo_tags : List Text
  pub repo_digests : List Text
  pub created : ℕ
  pub size : ℕ
  pub labels : List (Text × Text)

-- `listImages`, given what `ImageList` answers.
unfoldable pub list_images :
    (List ImageSummary → Result Text Text) → Result Text (List ImageSummary) → Answer
list_images marshal (err e) = fails 500 e
list_images marshal (ok summaries) = elim (marshal summaries) [
  | err e ↦ fails 500 e
  | ok payload ↦ record { payload = payload; code = 200; error = [] }
]

-- `RemoveRequest`
pub record RemoveRequest : Type 0 where
  pub refs : List Text
  pub force : Bool
  pub no_prune : Bool

-- `image.RemoveOptions`
pub record RemoveOptions : Type 0 where
  pub force : Bool
  pub prune_children : Bool

-- `DeletedImage`
pub record DeletedImage : Type 0 where
  pub untagged : Text
  pub deleted : Text

-- `RemoveError`
pub record RemoveError : Type 0 where
  pub ref : Text
  pub error : Text

-- `RemoveResult`
pub record RemoveResult : Type 0 where
  pub deleted : List DeletedImage
  pub errors : List RemoveError

-- The state of Docker, and `ImageRemove`.
module _ {Docker : Type 0}
    (image_remove : Text → RemoveOptions → Docker → Docker × Result Text (List DeletedImage)) where
  -- What one round does to `result`.
  after_remove : Text → Result Text (List DeletedImage) → RemoveResult → RemoveResult
  after_remove ref (err e) result = record result {
    errors = result.errors ++ record { ref = ref; error = e } ∷ [];
  }
  after_remove ref (ok responses) result = record result { deleted = result.deleted ++ responses }

  -- How `removeImages` answers once the loop is over.
  answer_removed : (RemoveResult → Result Text Text) → Docker × RemoveResult → Docker × Answer
  answer_removed marshal (d, result) = elim (marshal result) [
    | err e ↦ (d, fails 500 e)
    | ok payload ↦ (d, record { payload = payload; code = 200; error = [] })
  ]

  -- The loop of `removeImages`.
  unfoldable pub remove_refs :
      List Text → RemoveOptions → RemoveResult → Docker → Docker × RemoveResult
  unfolding after_remove
  remove_refs [] opts result d = (d, result)
  remove_refs (ref ∷ refs) opts result d =
      let (d', answer) = image_remove ref opts d in
      remove_refs refs opts (after_remove ref answer result) d'

  -- `removeImages`, given the decoded payload.
  unfoldable pub remove_images :
      (RemoveResult → Result Text Text) → Result Text RemoveRequest → Docker → Docker × Answer
  unfolding remove_refs answer_removed
  remove_images marshal (err e) d = (d, fails 400 (codes "invalid images.remove payload: " ++ e))
  remove_images marshal (ok rr) d = elim rr.refs [
    | [] ↦ (d, fails 400 (codes "images.remove: at least one reference is required"))
    | ref ∷ refs ↦ answer_removed marshal (
        remove_refs rr.refs (record { force = rr.force; prune_children = not rr.no_prune })
          (record { deleted = []; errors = [] }) d)
  ]
