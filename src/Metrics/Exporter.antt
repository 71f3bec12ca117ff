-- ===== src/Metrics/Exporter.antt =====
-- pkg/agent/metrics.go: the frames in which an agent streams what its exporters expose. The answer of
-- an exporter and the reads of its body are inputs.
use hostlink.Prelude.{
  ℕ, ◌+◌, Bool, true, false, not, ◌&&◌, List, [], ◌∷◌, ◌==◌, if◌then◌else◌, Text, codes, length,
  ltb, nat_comparable, text_comparable,
}
use hostlink.Tunnel.{ReadError, no_error, at_eof, broken}
use hostlink.Metrics.{MetricsFrame}

abbrev pub scrape_max_body_size : ℕ
scrape_max_body_size = 16777216

-- One read of a body, with whether the scrape's context has ended after it.
pub record ScrapeRead : Type 0 where
  pub piece : Text
  pub error : ReadError
  pub cancelled : Bool

-- The answer of an exporter: the text of an error, or a status and the reads of the body.
pub data ExporterAnswer : Type 0 where
  failed : Text → ExporterAnswer
  answered : ℕ → List ScrapeRead → ExporterAnswer

module _ (exporter : Text) (failure : Text) where
  abbrev pub done_frame : Text → MetricsFrame
  done_frame error = record { exporter = exporter; chunk = []; done = true; error = error }

  abbrev pub chunk_frame : Text → List MetricsFrame → List MetricsFrame
  chunk_frame [] frames = frames
  chunk_frame (b ∷ bs) frames =
      record { exporter = exporter; chunk = b ∷ bs; done = false; error = [] } ∷ frames

  -- The loop of `streamTarget`, with the number of bytes so far; `failure` is the text of a failed read.
  unfoldable pub read_body : ℕ → List ScrapeRead → List MetricsFrame
  read_body total [] = []
  read_body total (r ∷ reads) =
      let more = read_body (total + length r.piece) reads in
      if not (r.piece == []) && ltb scrape_max_body_size (total + length r.piece)
      then done_frame (codes "exposition exceeds size limit") ∷ []
      else chunk_frame r.piece (elim r.error [
        | at_eof ↦ done_frame [] ∷ []
        | broken ↦ done_frame failure ∷ []
        | no_error ↦ if r.cancelled then [] else more
      ])

  -- `streamTarget`; the text about an unexpected status is an argument.
  unfoldable pub stream_target : Text → ExporterAnswer → List MetricsFrame
  unfolding read_body
  stream_target unexpected (failed error) = done_frame error ∷ []
  stream_target unexpected (answered status reads) =
      if status == 200 then read_body 0 reads else done_frame unexpected ∷ []
