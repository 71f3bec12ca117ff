-- ===== src/Metrics.antt =====
-- pkg/controller/metrics.go: the scrape of one agent's exporters and the merge of what they expose. The
-- parser of the text exposition and the decoder of a frame are parameters; the concurrent scrapes
-- reach the merger one after another, under its mutex. A sample is a number.
pub mod Labels
pub mod Merging
pub mod Scraping
pub mod Exporter
pub mod EndToEnd
use hostlink.Prelude.{
  ℕ, Bool, true, false, not, ◌||◌, Option, none, some, List, [], ◌∷◌, ◌++◌, ◌==◌, if◌then◌else◌,
  Text, codes, nat_comparable, text_comparable,
}
use hostlink.Map.{Map, get, put, delete, has}
use hostlink.Order.{sort_with, text_leb}
use hostlink.AgentConn.{StreamFrame}
use hostlink.Rest.{StreamEvent, StreamEnd, consume_stream}

-- The label pairs of a `dto.Metric`, and its sample.
pub record Metric : Type 0 where
  pub label : Map Text Text
  pub sample : ℕ

-- `dto.MetricFamily`
pub record MetricFamily : Type 0 where
  pub name : Text
  pub help : Text
  pub kind : ℕ
  pub metric : List Metric

abbrev pub gauge_kind : ℕ
gauge_kind = 1

abbrev pub metric_label_agent : Text
metric_label_agent = codes "agent"

abbrev pub metric_label_exporter : Text
metric_label_exporter = codes "exporter"

-- `familyMerger.add`
unfoldable pub add : MetricFamily → Map Text MetricFamily → Map Text MetricFamily
add mf by_name = if mf.name == [] then by_name else elim (get by_name mf.name) [
  | none ↦ put by_name mf.name mf
  | some existing ↦
      if existing.kind == mf.kind
      then put by_name mf.name (record existing { metric = existing.metric ++ mf.metric })
      else by_name
]

values : Map Text MetricFamily → List MetricFamily
values [] = []
values ((name, mf) ∷ m) = mf ∷ values m

-- `familyMerger.families`
unfoldable pub families : Map Text MetricFamily → List MetricFamily
unfolding values
families by_name = sort_with (λ (f g : MetricFamily). text_leb f.name g.name) (values by_name)

-- `sort.Slice` on the names of labels.
unfoldable pub sort_labels : Map Text Text → Map Text Text
sort_labels label = sort_with (λ (a b : Text × Text). text_leb a.0 b.0) label

-- The inner loop of `injectLabels`, over the constant labels, with `hasLabel`.
unfoldable pub append_labels : Map Text Text → Map Text Text → Map Text Text
append_labels [] label = label
append_labels ((name, value) ∷ rest) label =
    append_labels rest (if has label name then label else label ++ (name, value) ∷ [])

-- `injectLabels` on one series and on a family.
unfoldable pub inject_metric : Map Text Text → Metric → Metric
unfolding append_labels sort_labels
inject_metric const_labels m = record m { label = sort_labels (append_labels const_labels m.label) }

unfoldable pub inject_metrics : Map Text Text → List Metric → List Metric
unfolding inject_metric
inject_metrics const_labels [] = []
inject_metrics const_labels (m ∷ ms) = inject_metric const_labels m ∷ inject_metrics const_labels ms

unfoldable pub inject_labels : Map Text Text → MetricFamily → MetricFamily
unfolding inject_metrics
inject_labels const_labels mf = record mf { metric = inject_metrics const_labels mf.metric }

-- `gaugeFamily`
unfoldable pub gauge_family : Text → Text → ℕ → Map Text Text → MetricFamily
unfolding sort_labels
gauge_family name help value const_labels = record {
  name = name;
  help = help;
  kind = gauge_kind;
  metric = record { label = sort_labels const_labels; sample = value } ∷ [];
}

-- `agentapi.MetricsFrame`
pub record MetricsFrame : Type 0 where
  pub exporter : Text
  pub chunk : Text
  pub done : Bool
  pub error : Text

-- `scrapeAccumulator`, with the shared merger's families.
pub record Accumulator : Type 0 where
  pub buffers : Map Text Text
  pub completed : Bool
  pub merged : Map Text MetricFamily

abbrev pub new_accumulator : Map Text MetricFamily → Accumulator
new_accumulator merged = record { buffers = []; completed = false; merged = merged }

abbrev pub number_of : Bool → ℕ
number_of true = 1
number_of false = 0

abbrev pub append_to : Option Text → Text → Text
append_to none bytes = bytes
append_to (some before) bytes = before ++ bytes

unfoldable pub add_all : List MetricFamily → Map Text MetricFamily → Map Text MetricFamily
unfolding add
add_all [] merged = merged
add_all (mf ∷ mfs) merged = add_all mfs (add mf merged)

inject_all : Map Text Text → List MetricFamily → List MetricFamily
unfolding inject_labels
inject_all const_labels [] = []
inject_all const_labels (mf ∷ mfs) = inject_labels const_labels mf ∷ inject_all const_labels mfs

module _ (parse : Text → Option (List MetricFamily)) (agent_id : Text) where
  abbrev pub const_labels : Text → Map Text Text
  const_labels exporter = (metric_label_agent, agent_id) ∷ (metric_label_exporter, exporter) ∷ []

  abbrev pub target_up : Text → Bool → MetricFamily
  target_up exporter up =
      gauge_family (codes "hostlink_scrape_target_up")
        (codes "1 if the agent scraped this exporter successfully, 0 otherwise.") (number_of up)
        (const_labels exporter)

  -- `foldBody`
  unfoldable pub fold_body : Text → Text → Map Text MetricFamily → Map Text MetricFamily × Bool
  unfolding add_all inject_all
  fold_body body exporter merged = elim (parse body) [
    | none ↦ (merged, false)
    | some parsed ↦ (add_all (inject_all (const_labels exporter) parsed) merged, true)
  ]

  -- The exporter's body folded, and whether it is up; the buffer is none where no chunk came.
  unfoldable pub scraped :
      MetricsFrame → Option Text → Map Text MetricFamily → Map Text MetricFamily × Bool
  unfolding fold_body
  scraped mf buffer merged =
      if not (mf.error == [])
      then (merged, false)
      else elim buffer [ none ↦ (merged, true) | some body ↦ fold_body body mf.exporter merged ]

  -- `ingest`
  unfoldable pub ingest : MetricsFrame → Accumulator → Accumulator
  unfolding scraped gauge_family
  ingest mf acc =
      let (merged, up) = scraped mf (get acc.buffers mf.exporter) acc.merged in
      if not mf.done
      then (if mf.chunk == [] then acc else record acc {
        buffers = put acc.buffers mf.exporter (append_to (get acc.buffers mf.exporter) mf.chunk);
      })
      else record acc {
        buffers = delete acc.buffers mf.exporter;
        merged = add (target_up mf.exporter up) merged;
      }

  -- `onFrame`
  unfoldable pub on_frame :
      (Text → Option MetricsFrame) → StreamFrame → Accumulator → Accumulator × Bool
  unfolding ingest
  on_frame decode f acc =
      if f.final
      then (record acc { completed = f.code == 200 || acc.completed }, true)
      else elim (decode f.payload) [ none ↦ (acc, false) | some mf ↦ (ingest mf acc, false) ]

  abbrev pub agent_up : Bool → MetricFamily
  agent_up up =
      gauge_family (codes "agent_up") (codes "1 if the agent was scraped this round, 0 otherwise.")
        (number_of up) ((metric_label_agent, agent_id) ∷ [])

  -- `scrapeAgent`, on the events of its stream, none where the dispatch failed: the merger's families.
  unfoldable pub scrape_agent :
      (Text → Option MetricsFrame)
      → Option (List StreamEvent)
      → Map Text MetricFamily
      → Map Text MetricFamily
  unfolding on_frame consume_stream gauge_family
  scrape_agent decode none merged = add (agent_up false) merged
  scrape_agent decode (some events) merged =
      let (acc, end) =
        consume_stream (on_frame decode) (λ acc. acc) events (new_accumulator merged) in
      add (agent_up acc.completed) acc.merged
