-- ===== src/Metrics/EndToEnd.antt =====
-- pkg/agent/metrics.go, `streamTarget`, with pkg/controller/metrics.go, `ingest`: the body of an
-- exporter comes to the merger.
use mathlib.Core.List.{append-nil}
use hostlink.Prelude.{
  ℕ, ◌+◌, ◌≤◌, ◌≡◌, refl, ap, ◌∙◌, false, not, ◌&&◌, Option, none, List, [], ◌∷◌, ◌++◌, ◌==◌, Text,
  length, length-append, ltb, All, arith, nat_comparable, text_comparable, ==_refl, Bool-cases, inl,
  inr, ℕ_discrete,
}
use hostlink.Map.{get}
use hostlink.Tunnel.{ReadError, no_error, at_eof, broken}
use hostlink.Tunnel.Bytes.{Ends, content}
use hostlink.Metrics.{MetricFamily, MetricsFrame, Accumulator, add, target_up, ingest}
use hostlink.Metrics.Exporter.{
  scrape_max_body_size, ScrapeRead, answered, done_frame, chunk_frame, read_body, stream_target,
}
use hostlink.Metrics.Scraping.{IsBefore, body_of, ingest_all, folded, ingest_lem}

-- The reads of a body in a context that does not end.
abbrev pub reads_of : List (Text × ReadError) → List ScrapeRead
reads_of [] = []
reads_of ((bs, e) ∷ reads) = record { piece = bs; error = e; cancelled = false } ∷ reads_of reads

-- The chunks of a body.
abbrev data_frame : Text → Text → MetricsFrame
data_frame exporter piece = record { exporter = exporter; chunk = piece; done = false; error = [] }

chunks : Text → List (Text × ReadError) → List MetricsFrame
chunks exporter [] = []
chunks exporter ((bs, no_error) ∷ reads) = chunk_frame exporter [] bs (chunks exporter reads)
chunks exporter ((bs, at_eof) ∷ reads) = chunk_frame exporter [] bs []
chunks exporter ((bs, broken) ∷ reads) = chunk_frame exporter [] bs []

-- The bound is not passed.
within :
    (piece : Text) (total : ℕ)
    → total + length piece ≤ scrape_max_body_size
    → (not (piece == []) && ltb scrape_max_body_size (total + length piece)) ≡ false
within piece total small = ground arith

read_body-chunks :
    (exporter failure : Text) (reads : List (Text × ReadError)) (total : ℕ)
    → Ends reads
    → total + length (content reads) ≤ scrape_max_body_size
    → read_body exporter failure total (reads_of reads)
      ≡ chunks exporter reads ++ done_frame exporter failure [] ∷ []
unfolding read_body chunks content
read_body-chunks exporter failure [] total e small = elim e [ ]
read_body-chunks exporter failure (([], no_error) ∷ reads) total e small =
    rw (within [] total (omega arith))
      (read_body-chunks exporter failure reads (total + 0) e (omega arith))
read_body-chunks exporter failure ((b ∷ bs, no_error) ∷ reads) total e small =
    let len = length-append (b ∷ bs) (content reads) in
    rw (within (b ∷ bs) total (omega (arith, len))) (
      ap (◌∷◌ (data_frame exporter (b ∷ bs)))
        (read_body-chunks exporter failure reads (total + length (b ∷ bs)) e (omega (arith, len))))
read_body-chunks exporter failure (([], at_eof) ∷ reads) total e small =
    rw (within [] total (omega arith)) refl
read_body-chunks exporter failure ((b ∷ bs, at_eof) ∷ reads) total e small =
    rw (within (b ∷ bs) total small) refl
read_body-chunks exporter failure ((bs, broken) ∷ reads) total e small = elim e [ ]

chunks-IsBefore :
    (exporter : Text) (reads : List (Text × ReadError))
    → All (IsBefore exporter) (chunks exporter reads)
unfolding chunks
chunks-IsBefore exporter [] = tt
chunks-IsBefore exporter (([], no_error) ∷ reads) = chunks-IsBefore exporter reads
chunks-IsBefore exporter ((b ∷ bs, no_error) ∷ reads) =
    (ground arith, chunks-IsBefore exporter reads)
chunks-IsBefore exporter (([], at_eof) ∷ reads) = tt
chunks-IsBefore exporter ((b ∷ bs, at_eof) ∷ reads) = (ground arith, tt)
chunks-IsBefore exporter (([], broken) ∷ reads) = tt
chunks-IsBefore exporter ((b ∷ bs, broken) ∷ reads) = (ground arith, tt)

body_of-chunks :
    (exporter : Text) (reads : List (Text × ReadError))
    → body_of exporter (chunks exporter reads) ≡ content reads
unfolding chunks body_of content
body_of-chunks exporter [] = refl
body_of-chunks exporter (([], no_error) ∷ reads) = body_of-chunks exporter reads
body_of-chunks exporter ((b ∷ bs, no_error) ∷ reads) =
    rw (==_refl exporter) (ap (λ t. b ∷ (bs ++ t)) (body_of-chunks exporter reads))
body_of-chunks exporter (([], at_eof) ∷ reads) = refl
body_of-chunks exporter ((b ∷ bs, at_eof) ∷ reads) = rw (==_refl exporter) (append-nil (b ∷ bs))
body_of-chunks exporter (([], broken) ∷ reads) = refl
body_of-chunks exporter ((b ∷ bs, broken) ∷ reads) = rw (==_refl exporter) (append-nil (b ∷ bs))

module _ (parse : Text → Option (List MetricFamily)) (agent_id : Text) where
  ingest_all-append :
      (mfs : List MetricsFrame) (end : MetricsFrame) (acc : Accumulator)
      → ingest_all parse agent_id (mfs ++ end ∷ []) acc
        ≡ ingest parse agent_id end (ingest_all parse agent_id mfs acc)
  unfolding ingest_all
  ingest_all-append [] end acc = refl
  ingest_all-append (mf ∷ mfs) end acc = ingest_all-append mfs end (ingest parse agent_id mf acc)

  data_frame_merged :
      (exporter piece : Text) (acc : Accumulator)
      → (ingest parse agent_id (data_frame exporter piece) acc).merged ≡ acc.merged
  unfolding ingest
  data_frame_merged exporter piece acc = elim (Bool-cases (piece == [])) [
    | inl nothing ↦ rw (nothing, ingest) refl
    | inr bytes ↦ rw (bytes, ingest) refl
  ]

  chunks_merged :
      (exporter : Text) (reads : List (Text × ReadError)) (acc : Accumulator)
      → (ingest_all parse agent_id (chunks exporter reads) acc).merged ≡ acc.merged
  unfolding ingest_all chunks
  chunks_merged exporter [] acc = refl
  chunks_merged exporter (([], no_error) ∷ reads) acc = chunks_merged exporter reads acc
  chunks_merged exporter ((b ∷ bs, no_error) ∷ reads) acc =
      chunks_merged exporter reads (ingest parse agent_id (data_frame exporter (b ∷ bs)) acc)
      ∙ data_frame_merged exporter (b ∷ bs) acc
  chunks_merged exporter (([], at_eof) ∷ reads) acc = refl
  chunks_merged exporter ((b ∷ bs, at_eof) ∷ reads) acc = data_frame_merged exporter (b ∷ bs) acc
  chunks_merged exporter (([], broken) ∷ reads) acc = refl
  chunks_merged exporter ((b ∷ bs, broken) ∷ reads) acc = data_frame_merged exporter (b ∷ bs) acc

  -- End to end, for an exporter that answers with the status 200 and whose body ends without a failure
  -- within 16 MiB, however its reads cut it: the frames that the agent streams make the controller
  -- fold exactly the bytes of the body, or nothing where it is empty, add the exporter's gauge, and
  -- release its buffer; before that the frames change nothing in the merger.
  pub scrape_roundtrip :
      (exporter failure unexpected : Text) (reads : List (Text × ReadError)) (acc : Accumulator)
      → Ends reads
      → length (content reads) ≤ scrape_max_body_size
      → get acc.buffers exporter ≡ none
      → let frames = stream_target exporter failure unexpected (answered 200 (reads_of reads)) in
        let after = ingest_all parse agent_id frames acc in
        let (merged, up) = folded parse agent_id (content reads) exporter acc.merged in
        (after.merged ≡ add (target_up parse agent_id exporter up) merged)
        × (get after.buffers exporter ≡ none)
  unfolding stream_target ℕ_discrete
  scrape_roundtrip exporter failure unexpected reads acc e small empty =
      let frames = read_body-chunks exporter failure reads 0 e (omega (arith, small)) in
      let done = done_frame exporter failure [] in
      let split =
        ap (λ mfs. ingest_all parse agent_id mfs acc) frames
        ∙ ingest_all-append (chunks exporter reads) done acc in
      let (merged, gone) =
        ingest_lem parse agent_id (chunks exporter reads) acc done (chunks-IsBefore exporter reads)
          empty refl refl in
      let same = chunks_merged exporter reads acc in
      (
        ap (λ a. Accumulator.merged a) split
            ∙ merged
            ∙ ap
                (λ t.
                  let r =
                    folded parse agent_id t exporter
                      (ingest_all parse agent_id (chunks exporter reads) acc).merged in
                  add (target_up parse agent_id exporter r.1) r.0)
                (body_of-chunks exporter reads)
            ∙ ap
                (λ m.
                  let r = folded parse agent_id (content reads) exporter m in
                  add (target_up parse agent_id exporter r.1) r.0)
                same,
        ap (λ a. get (Accumulator.buffers a) exporter) split ∙ gone,
      )
