-- ===== src/Metrics/Labels.antt =====
-- pkg/controller/metrics.go, `injectLabels`: the labels of a series afterwards.
use hostlink.Prelude.{
  ◌≡◌, refl, sym, ap, ◌∙◌, Bool, true, false, Option, none, some, List, [], ◌∷◌, ◌++◌, ◌==◌,
  if◌then◌else◌, Text, arith, Bool-cases, Option-cases, All, inl, inr, text_comparable,
}
use hostlink.Map.{Map, get, has}
use hostlink.Map.Laws.{Distinct}
use hostlink.Order.{insert_with, sort_with, text_leb}
use hostlink.Metrics.{
  Metric, MetricFamily, append_labels, sort_labels, inject_metric, inject_metrics, inject_labels,
}

-- The label that a series has, or else the constant one.
abbrev pub or_else : Option Text → Option Text → Option Text
or_else (some v) constant = some v
or_else none constant = constant

abbrev by_name : Text × Text → Text × Text → Bool
by_name a b = text_leb a.0 b.0

absent_first :
    (label : Map Text Text) (k w name : Text)
    → get ((k, w) ∷ label) name ≡ none
    → ((k == name) ≡ false) × (get label name ≡ none)
unfolding get
absent_first label k w name h = elim (Bool-cases (k == name)) [
  | inl same ↦ let e = ap (λ b. if b then some w else get label name) (sym same) ∙ h in absurd cc
  | inr other ↦ (other, ap (λ b. if b then some w else get label name) (sym other) ∙ h)
]

==_sym : (a b : Text) → (a == b) ≡ false → (b == a) ≡ false
==_sym a b h = ground arith

get-insert_with :
    (label : Map Text Text) (name value j : Text)
    → get label name ≡ none
    → get (insert_with by_name (name, value) label) j
      ≡ (if name == j then some value else get label j)
unfolding get insert_with
get-insert_with [] name value j h = refl
get-insert_with ((k, w) ∷ label) name value j h =
    let (other, absent) = absent_first label k w name h in
    ground (arith, other, ==_sym k name other, get-insert_with label name value j absent)

insert_with-Distinct :
    (label : Map Text Text) (name value : Text)
    → get label name ≡ none
    → Distinct label
    → Distinct (insert_with by_name (name, value) label)
unfolding get insert_with
insert_with-Distinct [] name value h d = (refl, tt)
insert_with-Distinct ((k, w) ∷ label) name value h d =
    let (other, absent) = absent_first label k w name h in
    ground (
      arith,
      other,
      ==_sym k name other,
      get-insert_with label name value k absent,
      insert_with-Distinct label name value absent d.1,
    )

get_cons :
    (label : Map Text Text) (k w j : Text)
    → (if k == j then some w else get label j) ≡ get ((k, w) ∷ label) j
unfolding get
get_cons label k w j = refl

sort_labels_lem :
    (label : Map Text Text)
    → Distinct label
    → Distinct (sort_labels label) × ((j : Text) → get (sort_labels label) j ≡ get label j)
unfolding sort_labels sort_with
sort_labels_lem [] d = (tt, λ j. refl)
sort_labels_lem ((k, w) ∷ label) d =
    let (e, h) = sort_labels_lem label d.1 in
    let absent : get (sort_labels label) k ≡ none = h k ∙ d.0 in
    (
      insert_with-Distinct (sort_labels label) k w absent e,
      λ j.
          get-insert_with (sort_labels label) k w j absent
          ∙ ap (λ o. if k == j then some w else o) (h j)
          ∙ get_cons label k w j,
    )

get-append_one :
    (label : Map Text Text) (name value j : Text)
    → get (label ++ (name, value) ∷ []) j
      ≡ or_else (get label j) (if name == j then some value else none)
unfolding get
get-append_one [] name value j = refl
get-append_one ((k, w) ∷ label) name value j = ground (arith, get-append_one label name value j)

append_one-Distinct :
    (label : Map Text Text) (name value : Text)
    → get label name ≡ none
    → Distinct label
    → Distinct (label ++ (name, value) ∷ [])
unfolding get
append_one-Distinct [] name value h d = (refl, tt)
append_one-Distinct ((k, w) ∷ label) name value h d =
    let (other, absent) = absent_first label k w name h in
    ground (
      arith,
      ==_sym k name other,
      get-append_one label name value k,
      append_one-Distinct label name value absent d.1,
    )

or_else-none : (o : Option Text) → or_else o none ≡ o
or_else-none none = refl
or_else-none (some v) = refl

or_else_step :
    (o : Option Text) (b : Bool) (value : Text) (c : Option Text)
    → or_else (or_else o (if b then some value else none)) c
      ≡ or_else o (if b then some value else c)
or_else_step none true value c = refl
or_else_step none false value c = refl
or_else_step (some v) b value c = refl

or_else_known :
    (label : Map Text Text) (name value v j : Text) (c : Option Text)
    → get label name ≡ some v
    → or_else (get label j) c ≡ or_else (get label j) (if name == j then some value else c)
or_else_known label name value v j c old = elim (Bool-cases (name == j)) [
  | inl same ↦
      let e : name ≡ j = ground arith in
      let there : get label j ≡ some v = ap (λ n. get label n) (sym e) ∙ old in rw there refl
  | inr other ↦ rw other refl
]

has_absent : (label : Map Text Text) (name : Text) → get label name ≡ none → has label name ≡ false
unfolding has
has_absent label name h = rw (h, has) refl

has_present :
    (label : Map Text Text) (name v : Text) → get label name ≡ some v → has label name ≡ true
unfolding has
has_present label name v h = rw (h, has) refl

append_labels_lem :
    (constants label : Map Text Text)
    → Distinct label
    → Distinct (append_labels constants label)
      × ((j : Text)
          → get (append_labels constants label) j ≡ or_else (get label j) (get constants j))
unfolding append_labels get
append_labels_lem [] label d = (d, λ j. sym (or_else-none (get label j)))
append_labels_lem ((name, value) ∷ constants) label d = elim (Option-cases (get label name)) [
  | inl new ↦
      let f : has label name ≡ false = has_absent label name new in
      let (e, h) =
        append_labels_lem constants (label ++ (name, value) ∷ [])
          (append_one-Distinct label name value new d) in
      rw (f, append_labels)
        (
          e,
          λ j.
              h j
              ∙ ap (λ o. or_else o (get constants j)) (get-append_one label name value j)
              ∙ or_else_step (get label j) (name == j) value (get constants j),
        )
  | inr (v, old) ↦
      let t : has label name ≡ true = has_present label name v old in
      let (e, h) = append_labels_lem constants label d in
      rw (t, append_labels) (e, λ j. h j ∙ or_else_known label name value v j (get constants j) old)
]

-- What `injectLabels` makes of a series whose labels have different names: no name stands twice, each
-- label that the series had keeps its value, each constant label that it had not is there, and it has
-- no other.
abbrev pub IsInjected : Map Text Text → Metric → Metric → Type 0
IsInjected constants before after =
    Distinct after.label
    × ((name : Text) → get after.label name ≡ or_else (get before.label name) (get constants name))
    × (after.sample ≡ before.sample)

abbrev pub AreInjected : Map Text Text → List Metric → List Metric → Type 0
AreInjected constants [] [] = Unit
AreInjected constants (m ∷ ms) (n ∷ ns) = IsInjected constants m n × AreInjected constants ms ns
AreInjected constants _ _ = ⊥

inject_metrics_lem :
    (constants : Map Text Text) (ms : List Metric)
    → All (λ m. Distinct (Metric.label m)) ms
    → AreInjected constants ms (inject_metrics constants ms)
unfolding inject_metrics inject_metric
inject_metrics_lem constants [] d = tt
inject_metrics_lem constants (m ∷ ms) d =
    let (e, h) = append_labels_lem constants m.label d.0 in
    let (e', h') = sort_labels_lem (append_labels constants m.label) e in
    ((e', λ j. h' j ∙ h j, refl), inject_metrics_lem constants ms d.1)

-- Where no series of a family has a label twice, `injectLabels` changes only the labels of its series,
-- in whatever order the constant ones come: afterwards no series has a label twice, each label that a
-- series had keeps its value, each constant label that it had not is there, and it has no other.
pub inject_labels_lem :
    (constants : Map Text Text) (mf : MetricFamily)
    → All (λ m. Distinct (Metric.label m)) mf.metric
    → let after = inject_labels constants mf in
      AreInjected constants mf.metric after.metric × (after.name ≡ mf.name) × (after.kind ≡ mf.kind)
unfolding inject_labels
inject_labels_lem constants mf d = (inject_metrics_lem constants mf.metric d, refl, refl)
