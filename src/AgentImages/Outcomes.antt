-- ===== src/AgentImages/Outcomes.antt =====
-- pkg/agent/commands.go: what a pull reports and returns, and what a removal does with each reference.
use mathlib.Core.List.{append_assoc, append-nil}
use hostlink.Prelude.{
  ℕ, ◌≡◌, ◌≢◌, refl, ap, ◌∙◌, false, not, Option, none, some, List, [], ◌∷◌, ◌++◌, ◌==◌, Text, map,
  Result, ok, err, All, arith, take, text_comparable,
}
use hostlink.AgentImages.{
  RegistryAuth, PullRequest, JsonProgress, JsonMessage, PullProgress, StreamEnd, at_end,
  decode_failed, pull_loop, registry_auth, pull_image, RemoveRequest, RemoveOptions, DeletedImage,
  RemoveError, RemoveResult, remove_refs, after_remove, answer_removed, remove_images,
}

abbrev error_text : Option Text → Text
error_text none = []
error_text (some e) = e

-- The numbers of a message are shown where it brings no error.
abbrev shown : Option Text → Option JsonProgress → JsonProgress
shown none (some p) = p
shown none none = record { current = 0; total = 0; text = [] }
shown (some e) p = record { current = 0; total = 0; text = [] }

abbrev pub report : JsonMessage → PullProgress
report m =
    let p = shown m.error m.progress in
    record {
      id = m.id;
      status = m.status;
      progress = p.text;
      current = p.current;
      total = p.total;
      error = error_text m.error;
    }

-- Nothing is left, or a message with an error comes next.
abbrev pub IsStop : List JsonMessage → Type 0
IsStop [] = Unit
IsStop (m ∷ ms) = m.error ≢ none

-- The code and the error of a pull that stops there.
abbrev pub stop_answer : List JsonMessage → StreamEnd → ℕ × Text
stop_answer [] at_end = (200, [])
stop_answer [] (decode_failed e) = (502, e)
stop_answer (m ∷ ms) end = (502, error_text m.error)

pull_loop_stop :
    (rest : List JsonMessage) (end : StreamEnd)
    → IsStop rest
    → pull_loop rest end
      ≡ (map report (take 1 rest), (stop_answer rest end).0, (stop_answer rest end).1)
unfolding pull_loop
pull_loop_stop [] at_end stop = refl
pull_loop_stop [] (decode_failed e) stop = refl
pull_loop_stop (m ∷ ms) end stop = ground arith

pull_loop_step :
    (m : JsonMessage) (ms : List JsonMessage) (end : StreamEnd)
    → m.error ≡ none
    → pull_loop (m ∷ ms) end
      ≡ (report m ∷ (pull_loop ms end).0, (pull_loop ms end).1, (pull_loop ms end).2)
unfolding pull_loop
pull_loop_step m ms end clean = ground arith

pull_loop_lem :
    (before rest : List JsonMessage) (end : StreamEnd)
    → All (λ m. m.error ≡ none) before
    → IsStop rest
    → pull_loop (before ++ rest) end
      ≡ (map report (before ++ take 1 rest), (stop_answer rest end).0, (stop_answer rest end).1)
pull_loop_lem [] rest end clean stop = pull_loop_stop rest end stop
pull_loop_lem (m ∷ before) rest end clean stop =
    pull_loop_step m (before ++ rest) end clean.0
    ∙ ap (λ r. (report m ∷ r.0, r.1, r.2)) (pull_loop_lem before rest end clean.1 stop)

-- A pull whose request is proper and that the daemon accepts, with a stream of messages without an
-- error and then either the stream's end or a message with an error: each message up to and with the
-- erroneous one is reported, in order, and nothing after it is; the code is 200 exactly in the answer
-- to a stream that ends by EOF, and else 502 with the text of the error.
pub pull_image_lem :
    (encode : RegistryAuth → Result Text Text)
    (image_pull : Text → Text → Result Text (List JsonMessage × StreamEnd)) (pr : PullRequest)
    (auth : Text) (before rest : List JsonMessage) (end : StreamEnd)
    → pr.image ≢ []
    → registry_auth encode pr.auth ≡ ok auth
    → image_pull pr.image auth ≡ ok (before ++ rest, end)
    → All (λ m. m.error ≡ none) before
    → IsStop rest
    → pull_image encode image_pull (ok pr)
      ≡ (map report (before ++ take 1 rest), (stop_answer rest end).0, (stop_answer rest end).1)
unfolding pull_image
pull_image_lem encode image_pull pr auth before rest end image encoded accepted clean stop =
    let named : (pr.image == []) ≡ false = ground arith in
    rw (named, encoded, accepted) (pull_loop_lem before rest end clean stop)

-- The references one by one, whatever came of those before: the state of Docker at the end, and
-- what came of each.
module _ {Docker : Type 0}
    (image_remove : Text → RemoveOptions → Docker → Docker × Result Text (List DeletedImage)) where
  unfoldable pub remove_each :
      List Text → RemoveOptions → Docker → Docker × List (Text × Result Text (List DeletedImage))
  remove_each [] opts d = (d, [])
  remove_each (ref ∷ refs) opts d =
      let (d', answer) = image_remove ref opts d in
      let (d'', answers) = remove_each refs opts d' in (d'', (ref, answer) ∷ answers)

abbrev pub deleted_of : List (Text × Result Text (List DeletedImage)) → List DeletedImage
deleted_of [] = []
deleted_of ((ref, ok images) ∷ answers) = images ++ deleted_of answers
deleted_of ((ref, err e) ∷ answers) = deleted_of answers

abbrev pub errors_of : List (Text × Result Text (List DeletedImage)) → List RemoveError
errors_of [] = []
errors_of ((ref, ok images) ∷ answers) = errors_of answers
errors_of ((ref, err e) ∷ answers) = record { ref = ref; error = e } ∷ errors_of answers

abbrev outcomes : RemoveResult → List (Text × Result Text (List DeletedImage)) → RemoveResult
outcomes result answers = record {
  deleted = result.deleted ++ deleted_of answers;
  errors = result.errors ++ errors_of answers;
}

module _ {Docker : Type 0}
    (image_remove : Text → RemoveOptions → Docker → Docker × Result Text (List DeletedImage)) where
  outcomes-after_remove :
      (ref : Text) (answer : Result Text (List DeletedImage)) (result : RemoveResult)
      (answers : List (Text × Result Text (List DeletedImage)))
      → outcomes (after_remove image_remove ref answer result) answers
        ≡ outcomes result ((ref, answer) ∷ answers)
  unfolding after_remove
  outcomes-after_remove ref (ok images) result answers =
      ap (λ l. record { deleted = l; errors = result.errors ++ errors_of answers })
        (append_assoc result.deleted images (deleted_of answers))
  outcomes-after_remove ref (err e) result answers =
      ap (λ l. record { deleted = result.deleted ++ deleted_of answers; errors = l })
        (append_assoc result.errors (record { ref = ref; error = e } ∷ []) (errors_of answers))

  remove_refs_lem :
      (refs : List Text) (opts : RemoveOptions) (result : RemoveResult) (d : Docker)
      → remove_refs image_remove refs opts result d ≡ (
        (remove_each image_remove refs opts d).0,
        outcomes result (remove_each image_remove refs opts d).1,
      )
  unfolding remove_refs remove_each
  remove_refs_lem [] opts result d = rw (append-nil result.deleted, append-nil result.errors) refl
  remove_refs_lem (ref ∷ refs) opts result d =
      let once = image_remove ref opts d in
      let rest = remove_each image_remove refs opts once.0 in
      remove_refs_lem refs opts (after_remove image_remove ref once.1 result) once.0
      ∙ ap (λ r. (rest.0, r)) (outcomes-after_remove ref once.1 result rest.1)

-- A batch removal is not aborted: with at least one reference and a result that can be encoded, every
-- reference is removed in turn with the request's force and the opposite of its noPrune, the answer
-- has the code 200, and its payload encodes all that was deleted, in order, and each reference that
-- failed with its error.
pub remove_images_lem :
    {Docker : Type 0}
    (image_remove : Text → RemoveOptions → Docker → Docker × Result Text (List DeletedImage))
    (marshal : RemoveResult → Result Text Text) (rr : RemoveRequest) (d : Docker)
    (done : Docker × List (Text × Result Text (List DeletedImage))) (payload : Text)
    → rr.refs ≢ []
    → remove_each image_remove rr.refs
        (record { force = rr.force; prune_children = not rr.no_prune })
        d
      ≡ done
    → marshal (record { deleted = deleted_of done.1; errors = errors_of done.1 }) ≡ ok payload
    → remove_images image_remove marshal (ok rr) d
      ≡ (done.0, record { payload = payload; code = 200; error = [] })
unfolding remove_images answer_removed
remove_images_lem image_remove marshal rr d done payload some_ref all_done encoded =
    let opts : RemoveOptions = record { force = rr.force; prune_children = not rr.no_prune } in
    let removed =
      remove_refs_lem image_remove rr.refs opts (record { deleted = []; errors = [] }) d in
    ground (arith, removed)
