-- ===== src/Metrics/Scraping.antt =====
-- pkg/controller/metrics.go, `scrapeAccumulator`: the body of an exporter is put together again.
use mathlib.Core.List.{append_assoc, append-nil}
use hostlink.Prelude.{
  ◌≡◌, refl, sym, ap, ◌∙◌, subst, Bool, true, false, ◌&&◌, Option, none, some, List, [], ◌∷◌, ◌++◌,
  ◌==◌, if◌then◌else◌, Text, arith, Bool-cases, inl, inr, text_comparable, ==_refl, All,
}
use hostlink.Map.{Map, get, put, delete}
use hostlink.Map.Laws.{get-put, get-delete}
use hostlink.Metrics.{
  MetricFamily, MetricsFrame, Accumulator, append_to, add, target_up, fold_body, scraped, ingest,
}

-- The chunks of one exporter, put together.
unfoldable pub body_of : Text → List MetricsFrame → Text
body_of exporter [] = []
body_of exporter (mf ∷ mfs) =
    if mf.exporter == exporter then mf.chunk ++ body_of exporter mfs else body_of exporter mfs

-- A frame that does not end the exporter's body.
abbrev pub IsBefore : Text → MetricsFrame → Type 0
IsBefore exporter mf = (mf.exporter == exporter && mf.done) ≡ false

-- A buffer, none where it would be empty.
abbrev pub buffered : Text → Option Text
buffered [] = none
buffered (b ∷ bs) = some (b ∷ bs)

module _ (parse : Text → Option (List MetricFamily)) (agent_id : Text) where
  unfoldable pub ingest_all : List MetricsFrame → Accumulator → Accumulator
  unfolding ingest
  ingest_all [] acc = acc
  ingest_all (mf ∷ mfs) acc = ingest_all mfs (ingest parse agent_id mf acc)

  -- A whole body folded, and whether its exporter is up.
  unfoldable pub folded : Text → Text → Map Text MetricFamily → Map Text MetricFamily × Bool
  unfolding fold_body
  folded [] exporter merged = (merged, true)
  folded (b ∷ bs) exporter merged = fold_body parse agent_id (b ∷ bs) exporter merged

  scraped_body :
      (mf : MetricsFrame) (body : Text) (merged : Map Text MetricFamily)
      → mf.error ≡ []
      → scraped parse agent_id mf (buffered body) merged ≡ folded body mf.exporter merged
  unfolding scraped folded
  scraped_body mf [] merged fine = rw (fine, scraped) (rw (==_refl {A = Text} []) refl)
  scraped_body mf (b ∷ bs) merged fine = rw (fine, scraped) (rw (==_refl {A = Text} []) refl)

  done_merged :
      (mf : MetricsFrame) (acc : Accumulator)
      → mf.done ≡ true
      → let (merged, up) = scraped parse agent_id mf (get acc.buffers mf.exporter) acc.merged in
        (ingest parse agent_id mf acc).merged ≡ add (target_up parse agent_id mf.exporter up) merged
  unfolding ingest
  done_merged mf acc h = rw (h, ingest) refl

  done_buffers :
      (mf : MetricsFrame) (acc : Accumulator)
      → mf.done ≡ true
      → (ingest parse agent_id mf acc).buffers ≡ delete acc.buffers mf.exporter
  unfolding ingest
  done_buffers mf acc h = rw (h, ingest) refl

  empty_chunk :
      (mf : MetricsFrame) (acc : Accumulator)
      → mf.done ≡ false
      → mf.chunk ≡ []
      → ingest parse agent_id mf acc ≡ acc
  unfolding ingest
  empty_chunk mf acc h e = rw (h, e, ingest) (rw (==_refl {A = Text} []) refl)

  chunk_buffers :
      (mf : MetricsFrame) (acc : Accumulator)
      → mf.done ≡ false
      → (mf.chunk == []) ≡ false
      → (ingest parse agent_id mf acc).buffers
        ≡ put acc.buffers mf.exporter (append_to (get acc.buffers mf.exporter) mf.chunk)
  unfolding ingest
  chunk_buffers mf acc h e = rw (h, e, ingest) refl

  append_to-buffered :
      (before chunk : Text)
      → (chunk == []) ≡ false
      → some (append_to (buffered before) chunk) ≡ buffered (before ++ chunk)
  append_to-buffered [] [] h = absurd (ground arith)
  append_to-buffered [] (b ∷ bs) h = refl
  append_to-buffered (c ∷ cs) chunk h = refl

  -- The buffer of one exporter after a frame of it that does not end its body, and after any frame of
  -- another one.
  own_frame :
      (mf : MetricsFrame) (acc : Accumulator) (before : Text)
      → mf.done ≡ false
      → get acc.buffers mf.exporter ≡ buffered before
      → get (ingest parse agent_id mf acc).buffers mf.exporter ≡ buffered (before ++ mf.chunk)
  own_frame mf acc before goes h = elim (Bool-cases (mf.chunk == [])) [
    | inl nothing ↦
        let e : mf.chunk ≡ [] = ground arith in
        ap (λ a. get (Accumulator.buffers a) mf.exporter) (empty_chunk mf acc goes e)
        ∙ h
        ∙ ap buffered (sym (append-nil before))
        ∙ ap (λ c. buffered (before ++ c)) (sym e)
    | inr bytes ↦
        ap (λ m. get m mf.exporter) (chunk_buffers mf acc goes bytes)
        ∙ ground (
          arith,
          get-put acc.buffers mf.exporter mf.exporter
              (append_to (get acc.buffers mf.exporter) mf.chunk),
          ==_refl mf.exporter,
          ap (λ o. some (append_to o mf.chunk)) h,
          append_to-buffered before mf.chunk bytes,
        )
  ]

  other_frame :
      (mf : MetricsFrame) (acc : Accumulator) (exporter : Text)
      → (mf.exporter == exporter) ≡ false
      → get (ingest parse agent_id mf acc).buffers exporter ≡ get acc.buffers exporter
  other_frame mf acc exporter other = elim (Bool-cases mf.done) [
    | inl ends ↦
        ap (λ m. get m exporter) (done_buffers mf acc ends)
        ∙ ground (arith, get-delete acc.buffers mf.exporter exporter)
    | inr goes ↦ elim (Bool-cases (mf.chunk == [])) [
      | inl nothing ↦
          ap (λ a. get (Accumulator.buffers a) exporter) (empty_chunk mf acc goes (ground arith))
      | inr bytes ↦
          ap (λ m. get m exporter) (chunk_buffers mf acc goes bytes)
          ∙ ground (
            arith,
            get-put acc.buffers mf.exporter exporter
                (append_to (get acc.buffers mf.exporter) mf.chunk),
          )
    ]
  ]

  ingest_all_lem :
      (mfs : List MetricsFrame) (acc : Accumulator) (exporter before : Text)
      → All (IsBefore exporter) mfs
      → get acc.buffers exporter ≡ buffered before
      → get (ingest_all mfs acc).buffers exporter ≡ buffered (before ++ body_of exporter mfs)
  unfolding ingest_all body_of
  ingest_all_lem [] acc exporter before a h = h ∙ ap buffered (sym (append-nil before))
  ingest_all_lem (mf ∷ mfs) acc exporter before a h = elim (Bool-cases (mf.exporter == exporter)) [
    | inl own ↦
        let e : mf.exporter ≡ exporter = ground arith in
        let goes : mf.done ≡ false = ground (arith, a.0) in
        let now =
          subst
            (λ x.
              get acc.buffers x ≡ buffered before
              → get (ingest parse agent_id mf acc).buffers x ≡ buffered (before ++ mf.chunk))
            e (own_frame mf acc before goes) h in
        ingest_all_lem mfs (ingest parse agent_id mf acc) exporter (before ++ mf.chunk) a.1 now
        ∙ ap buffered (append_assoc before mf.chunk (body_of exporter mfs))
        ∙ ap (λ t. buffered (before ++ t)) (rw (own, body_of) refl)
    | inr other ↦
        ingest_all_lem mfs (ingest parse agent_id mf acc) exporter before a.1
          (other_frame mf acc exporter other ∙ h)
        ∙ ap (λ t. buffered (before ++ t)) (rw (other, body_of) refl)
  ]

  -- However the frames of several exporters are mixed: when the frame comes that ends an exporter's
  -- body, without an error, exactly the chunks that came for it, in order, are folded into the merger
  -- as one body, or nothing where none came, then the exporter's gauge is added, and its buffer is
  -- gone.
  pub ingest_lem :
      (mfs : List MetricsFrame) (acc : Accumulator) (end : MetricsFrame)
      → All (IsBefore end.exporter) mfs
      → get acc.buffers end.exporter ≡ none
      → end.done ≡ true
      → end.error ≡ []
      → let before = ingest_all mfs acc in
        let after = ingest parse agent_id end before in
        let (merged, up) = folded (body_of end.exporter mfs) end.exporter before.merged in
        (after.merged ≡ add (target_up parse agent_id end.exporter up) merged)
        × (get after.buffers end.exporter ≡ none)
  ingest_lem mfs acc end a h ends fine =
      let before = ingest_all mfs acc in
      let buffer = ingest_all_lem mfs acc end.exporter [] a h in
      let body =
        ap (λ o. scraped parse agent_id end o before.merged) buffer
        ∙ scraped_body end (body_of end.exporter mfs) before.merged fine in
      (
        done_merged end before ends
            ∙ ap (λ r. add (target_up parse agent_id end.exporter r.1) r.0) body,
        ap (λ m. get m end.exporter) (done_buffers end before ends)
            ∙ ground
                (arith, get-delete before.buffers end.exporter end.exporter, ==_refl end.exporter),
      )
