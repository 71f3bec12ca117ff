-- ===== src/Metrics/Merging.antt =====
-- pkg/controller/metrics.go, `familyMerger`: what the merge of a fleet's families holds.
use mathlib.Core.List.{append_assoc, append-nil}
use hostlink.Prelude.{
  ℕ, ◌≡◌, refl, sym, ap, ◌∙◌, subst, true, false, Option, none, some, List, [], ◌∷◌, ◌++◌, ◌==◌,
  if◌then◌else◌, Text, arith, Bool-cases, Option-cases, inl, inr, nat_comparable, text_comparable,
  ==_refl,
}
use hostlink.Map.{Map, get}
use hostlink.Map.Laws.{get-put}
use hostlink.Metrics.{Metric, MetricFamily, add, add_all}

-- The series of the families of a name and a type, in order.
unfoldable pub series : Text → ℕ → List MetricFamily → List Metric
series name kind [] = []
series name kind (mf ∷ mfs) =
    if mf.name == name
    then (if kind == mf.kind then mf.metric ++ series name kind mfs else series name kind mfs)
    else series name kind mfs

-- The first family of a name, with the series of all families of its name and type.
unfoldable pub merged_family : Text → List MetricFamily → Option MetricFamily
unfolding series
merged_family name [] = none
merged_family name (mf ∷ mfs) =
    if mf.name == name
    then some (record mf { metric = mf.metric ++ series name mf.kind mfs })
    else merged_family name mfs

-- Another name's family stays.
add_other :
    (mf : MetricFamily) (m : Map Text MetricFamily) (name : Text)
    → (mf.name == name) ≡ false
    → get (add mf m) name ≡ get m name
unfolding add
add_other mf m name other = elim (Bool-cases (mf.name == [])) [
  | inl nameless ↦ rw (nameless, add) refl
  | inr named ↦ elim (Option-cases (get m mf.name)) [
    | inl new ↦ rw (named, new, add) (ground (arith, get-put m mf.name name mf))
    | inr (f, old) ↦ elim (Bool-cases (f.kind == mf.kind)) [
      | inl agree ↦
          rw (named, old, agree, add)
            (ground (arith, get-put m mf.name name (record f { metric = f.metric ++ mf.metric })))
      | inr conflict ↦ rw (named, old, conflict, add) refl
    ]
  ]
]

add_new :
    (mf : MetricFamily) (m : Map Text MetricFamily)
    → (mf.name == []) ≡ false
    → get m mf.name ≡ none
    → get (add mf m) mf.name ≡ some mf
unfolding add
add_new mf m named new =
    rw (named, new, add) (ground (arith, get-put m mf.name mf.name mf, ==_refl mf.name))

add_old :
    (mf f : MetricFamily) (m : Map Text MetricFamily)
    → (mf.name == []) ≡ false
    → get m mf.name ≡ some f
    → get (add mf m) mf.name
      ≡ some (record f { metric = f.metric ++ (if f.kind == mf.kind then mf.metric else []) })
unfolding add
add_old mf f m named old = elim (Bool-cases (f.kind == mf.kind)) [
  | inl agree ↦
      rw (named, old, agree, add)
        (ground (
          arith,
          get-put m mf.name mf.name (record f { metric = f.metric ++ mf.metric }),
          ==_refl mf.name,
        ))
  | inr conflict ↦
      rw (named, old, conflict, add)
        (old ∙ ap (λ ms. some (record f { metric = ms })) (sym (append-nil f.metric)))
]

abbrev with_series : MetricFamily → List Metric → Option MetricFamily
with_series f ms = some (record f { metric = f.metric ++ ms })

series_other :
    (name : Text) (kind : ℕ) (mf : MetricFamily) (mfs : List MetricFamily)
    → (mf.name == name) ≡ false
    → series name kind mfs ≡ series name kind (mf ∷ mfs)
unfolding series
series_other name kind mf mfs other = rw (other, series) refl

series_none : (f : MetricFamily) (name : Text) → f.metric ≡ f.metric ++ series name f.kind []
unfolding series
series_none f name = sym (append-nil f.metric)

series_step :
    (name : Text) (f mf : MetricFamily) (mfs : List MetricFamily)
    → (mf.name == name) ≡ true
    → (f.metric ++ (if f.kind == mf.kind then mf.metric else [])) ++ series name f.kind mfs
      ≡ f.metric ++ series name f.kind (mf ∷ mfs)
unfolding series
series_step name f mf mfs same = elim (Bool-cases (f.kind == mf.kind)) [
  | inl agree ↦ rw (same, agree, series) (append_assoc f.metric mf.metric (series name f.kind mfs))
  | inr conflict ↦ rw (same, conflict, series) (rw (append-nil f.metric) refl)
]

add_all_old :
    (mfs : List MetricFamily) (f : MetricFamily) (m : Map Text MetricFamily) (name : Text)
    → (name == []) ≡ false
    → get m name ≡ some f
    → get (add_all mfs m) name ≡ some (record f { metric = f.metric ++ series name f.kind mfs })
unfolding add_all
add_all_old [] f m name named h =
    h ∙ ap (λ ms. some (record f { metric = ms })) (series_none f name)
add_all_old (mf ∷ mfs) f m name named h = elim (Bool-cases (mf.name == name)) [
  | inl same ↦
      let e : mf.name ≡ name = ground arith in
      let more = if f.kind == mf.kind then mf.metric else [] in
      let now : get (add mf m) name ≡ with_series f more =
        subst (λ n. get (add mf m) n ≡ with_series f more) e
          (add_old mf f m (subst (λ n. (n == []) ≡ false) (sym e) named)
            (subst (λ n. get m n ≡ some f) (sym e) h)) in
      add_all_old mfs (record f { metric = f.metric ++ more }) (add mf m) name named now
      ∙ ap (λ ms. some (record f { metric = ms })) (series_step name f mf mfs same)
  | inr other ↦
      add_all_old mfs f (add mf m) name named (add_other mf m name other ∙ h)
      ∙ ap (with_series f) (series_other name f.kind mf mfs other)
]

add_all_new :
    (mfs : List MetricFamily) (m : Map Text MetricFamily) (name : Text)
    → (name == []) ≡ false
    → get m name ≡ none
    → get (add_all mfs m) name ≡ merged_family name mfs
unfolding add_all merged_family
add_all_new [] m name named h = h
add_all_new (mf ∷ mfs) m name named h = elim (Bool-cases (mf.name == name)) [
  | inl same ↦
      let e : mf.name ≡ name = ground arith in
      let now : get (add mf m) name ≡ some mf =
        subst (λ n. get (add mf m) n ≡ some mf) e
          (add_new mf m (subst (λ n. (n == []) ≡ false) (sym e) named)
            (subst (λ n. get m n ≡ none) (sym e) h)) in
      rw (same, merged_family) (add_all_old mfs mf (add mf m) name named now)
  | inr other ↦
      rw (other, merged_family)
        (add_all_new mfs (add mf m) name named (add_other mf m name other ∙ h))
]

get_nothing : (name : Text) → get {V = MetricFamily} [] name ≡ none
unfolding get
get_nothing name = refl

-- The merge of any families, in the order in which the scrapes reach it, holds of each name the first
-- family, with the series of every family of that name and of the first one's type, in order; a name
-- that no family has is not in it.
pub add_all_lem :
    (mfs : List MetricFamily) (name : Text)
    → (name == []) ≡ false
    → get (add_all mfs []) name ≡ merged_family name mfs
add_all_lem mfs name named = add_all_new mfs [] name named (get_nothing name)
