-- ===== src/Bindings/States.antt =====
-- pkg/controller/bindings.go: the verdict of the activation barrier on each port.
use hostlink.Prelude.{
  ℕ, zero, suc, ◌≤◌, ◌≡◌, refl, ap, ◌∙◌, Bool, true, false, not, ◌&&◌, ◌||◌, Option, none, some,
  List, [], ◌∷◌, ◌++◌, map, if◌then◌else◌, ◌==◌, ==_refl, Text, nat_comparable, text_comparable, ok,
  length, length-drop, take, drop, arith,
}
use hostlink.Map.{Map, get, put}
use hostlink.Map.Laws.{get-put, Distinct}
use hostlink.Order.{member}
use hostlink.Ports.{PortMapping}
use hostlink.Bindings.{
  PortState, pending, active, suspended, bound_key, classify, resolve, bound_keys, is_set,
  note_bound, MGet, fetch_bound, bound_set, flag, all_bound, shared, resolve_redis_states, decide,
  states,
}

abbrev initial_state : PortMapping → PortState
initial_state m = if m.suspended then suspended else pending

get-classify :
    (ms : Map ℕ PortMapping) (result : Map ℕ PortState) (undecided : List ℕ) (p : ℕ)
    → Distinct ms
    → get (classify ms result undecided).0 p
      ≡ (elim (get ms p) [ none ↦ get result p | some m ↦ some (initial_state m) ])
unfolding classify get
get-classify [] result undecided p d = refl
get-classify ((k, m) ∷ ms) result undecided p d = ground (
  arith,
  get-put result k p (initial_state m),
  get-classify ms (put result k (initial_state m))
      (if m.suspended then undecided else k ∷ undecided) p d.1,
)

abbrev is_undecided : Option PortMapping → Bool
is_undecided none = false
is_undecided (some m) = not m.suspended

member-classify :
    (ms : Map ℕ PortMapping) (result : Map ℕ PortState) (undecided : List ℕ) (p : ℕ)
    → Distinct ms
    → member p (classify ms result undecided).1 ≡ (is_undecided (get ms p) || member p undecided)
unfolding classify get
member-classify [] result undecided p d = refl
member-classify ((k, m) ∷ ms) result undecided p d = ground (
  arith,
  member-classify ms (put result k (initial_state m))
      (if m.suspended then undecided else k ∷ undecided) p d.1,
)

get-resolve :
    (test : ℕ → Bool) (ports : List ℕ) (result : Map ℕ PortState) (p : ℕ)
    → get (resolve test ports result) p
      ≡ (if member p ports && test p then some active else get result p)
unfolding resolve
get-resolve test [] result p = refl
get-resolve test (q ∷ ports) result p = ground (
  arith,
  get-put result q p active,
  get-resolve test ports (if test q then put result q active else result) p,
)

unfoldable pub listed : Text → List Text → Bool
listed key [] = false
listed key (k ∷ ks) = k == key || listed key ks

listed-take-drop :
    (key : Text) (n : ℕ) (ks : List Text)
    → (listed key (take n ks) || listed key (drop n ks)) ≡ listed key ks
unfolding listed
listed-take-drop key zero ks = refl
listed-take-drop key (suc n) [] = refl
listed-take-drop key (suc n) (k ∷ ks) = ground (arith, listed-take-drop key n ks)

listed-append :
    (key : Text) (ks js : List Text) → listed key (ks ++ js) ≡ (listed key ks || listed key js)
unfolding listed
listed-append key [] js = refl
listed-append key (k ∷ ks) js = ground (arith, listed-append key ks js)

listed-map :
    (port : ℕ) (pod : Text) (pods : List Text)
    → listed pod pods ≡ true
    → listed (bound_key port pod) (map (bound_key port) pods) ≡ true
unfolding listed
listed-map port pod [] h = cc
listed-map port pod (q ∷ pods) h =
    ground (arith, listed-map port pod pods, ==_refl (bound_key port pod))

listed-bound_keys :
    (port : ℕ) (pod : Text) (ports : List ℕ) (pods : List Text)
    → member port ports ≡ true
    → listed pod pods ≡ true
    → listed (bound_key port pod) (bound_keys ports pods) ≡ true
unfolding bound_keys
listed-bound_keys port pod [] pods h k = cc
listed-bound_keys port pod (q ∷ ports) pods h k = ground (
  arith,
  listed-append (bound_key port pod) (map (bound_key q) pods) (bound_keys ports pods),
  listed-map port pod pods k,
  listed-bound_keys port pod ports pods,
)

get-note_bound :
    (store : Text → Option Text) (ks : List Text) (bound : Map Text Bool) (key : Text)
    → flag (get (note_bound ks (map store ks) bound) key)
      ≡ (if listed key ks then is_set (store key) else flag (get bound key))
unfolding note_bound listed
get-note_bound store [] bound key = refl
get-note_bound store (k ∷ ks) bound key = ground (
  arith,
  get-put bound k key (is_set (store k)),
  get-note_bound store ks (put bound k (is_set (store k))) key,
)

-- `MGET` replies with the value of each key, in order, as the store holds them.
abbrev pub Answers : MGet → (Text → Option Text) → Type 0
Answers mget store = (ks : List Text) → mget ks ≡ ok (map store ks)

if_or : (a b s t : Bool) → (if b then s else (if a then s else t)) ≡ (if a || b then s else t)
if_or true true s t = refl
if_or true false s t = refl
if_or false true s t = refl
if_or false false s t = refl

if_and : (a s : Bool) → (if a then s else false) ≡ (a && s)
if_and true s = refl
if_and false s = refl

fetch_bound_lem :
    (mget : MGet) (store : Text → Option Text) (f : ℕ) (ks : List Text) (bound : Map Text Bool)
    → Answers mget store
    → length ks ≤ f
    → (r : Map Text Bool) × (fetch_bound f mget ks bound ≡ ok r)
      × ((key : Text)
          → flag (get r key) ≡ (if listed key ks then is_set (store key) else flag (get bound key)))
unfolding fetch_bound listed
fetch_bound_lem mget store f [] bound a le = (bound, refl, λ key. refl)
fetch_bound_lem mget store zero (k ∷ ks) bound a le = absurd (omega arith)
fetch_bound_lem mget store (suc f) (k ∷ ks) bound a le =
    let batch = take 100 (k ∷ ks) in
    let (r, e, h) =
      fetch_bound_lem mget store f (drop 100 (k ∷ ks)) (note_bound batch (map store batch) bound) a
        (omega (arith, length-drop 100 (k ∷ ks))) in
    (
      r,
      rw (a batch) e,
      λ key.
          h key
          ∙ ap (λ z. if listed key (drop 100 (k ∷ ks)) then is_set (store key) else z)
              (get-note_bound store batch bound key)
          ∙ if_or (listed key batch) (listed key (drop 100 (k ∷ ks))) (is_set (store key))
              (flag (get bound key))
          ∙ ap (λ b. if b then is_set (store key) else flag (get bound key))
              (listed-take-drop key 100 (k ∷ ks)),
    )

bound_set_lem :
    (mget : MGet) (store : Text → Option Text) (ports : List ℕ) (pods : List Text)
    → Answers mget store
    → (r : Map Text Bool) × (bound_set mget ports pods ≡ ok r)
      × ((key : Text)
          → flag (get r key) ≡ (listed key (bound_keys ports pods) && is_set (store key)))
unfolding bound_set get
bound_set_lem mget store ports pods a =
    let ks = bound_keys ports pods in
    let (r, e, h) = fetch_bound_lem mget store (length ks) ks [] a (omega arith) in
    (r, e, λ key. h key ∙ if_and (listed key ks) (is_set (store key)))

-- Every pod has its key for the port in the store.
unfoldable pub all_stored : (Text → Option Text) → ℕ → List Text → Bool
all_stored store port [] = true
all_stored store port (pod ∷ pods) =
    is_set (store (bound_key port pod)) && all_stored store port pods

unfoldable pub all_listed : List Text → List Text → Bool
all_listed [] pods = true
all_listed (q ∷ qs) pods = listed q pods && all_listed qs pods

all_bound_lem :
    (r : Map Text Bool) (store : Text → Option Text) (port : ℕ) (ports : List ℕ)
    (all pods : List Text)
    → member port ports ≡ true
    → all_listed pods all ≡ true
    → ((key : Text) → flag (get r key) ≡ (listed key (bound_keys ports all) && is_set (store key)))
    → all_bound r port pods ≡ all_stored store port pods
unfolding all_bound all_stored all_listed
all_bound_lem r store port ports all [] m l h = refl
all_bound_lem r store port ports all (pod ∷ pods) m l h = ground (
  arith,
  h (bound_key port pod),
  listed-bound_keys port pod ports all m,
  all_bound_lem r store port ports all pods m,
)

all_listed_later :
    (q : Text) (qs pods : List Text) → all_listed qs pods ≡ true → all_listed qs (q ∷ pods) ≡ true
unfolding all_listed listed
all_listed_later q [] pods h = refl
all_listed_later q (x ∷ qs) pods h = ground (arith, all_listed_later q qs pods)

all_listed_refl : (pods : List Text) → all_listed pods pods ≡ true
unfolding all_listed listed
all_listed_refl [] = refl
all_listed_refl (q ∷ pods) =
    ground (arith, ==_refl q, all_listed_later q pods pods, all_listed_refl pods)

-- Some pod is alive, and every pod that is has bound the port.
abbrev pub is_ready : (Text → Option Text) → List Text → ℕ → Bool
is_ready store [] port = false
is_ready store (pod ∷ pods) port = all_stored store port (pod ∷ pods)

and_ap : (a b c : Bool) → (a ≡ true → b ≡ c) → (a && b) ≡ (a && c)
and_ap true b c h = h refl
and_ap false b c h = refl

decide_lem :
    (mget : MGet) (store : Text → Option Text) (pods : List Text) (u : List ℕ)
    (result : Map ℕ PortState)
    → Answers mget store
    → (r : Map ℕ PortState) × (decide (shared (ok pods) mget) u result ≡ ok r)
      × ((p : ℕ)
          → get r p ≡ (if member p u && is_ready store pods p then some active else get result p))
unfolding decide resolve_redis_states
decide_lem mget store pods [] result a = (result, refl, λ p. refl)
decide_lem mget store [] (q ∷ u) result a = (result, refl, λ p. ground arith)
decide_lem mget store (pod ∷ pods) (q ∷ u) result a =
    let (b, e, h) = bound_set_lem mget store (q ∷ u) (pod ∷ pods) a in
    (
      resolve (λ port. all_bound b port (pod ∷ pods)) (q ∷ u) result,
      rw e refl,
      λ p.
          get-resolve (λ port. all_bound b port (pod ∷ pods)) (q ∷ u) result p
          ∙ ap (λ t. if t then some active else get result p)
              (and_ap (member p (q ∷ u)) (all_bound b p (pod ∷ pods))
                (all_stored store p (pod ∷ pods))
                (λ m.
                  all_bound_lem b store p (q ∷ u) (pod ∷ pods) (pod ∷ pods) m
                    (all_listed_refl (pod ∷ pods)) h)),
    )

abbrev pub verdict : Bool → Option PortMapping → Option PortState
verdict ready none = none
verdict ready (some m) = some (if m.suspended then suspended else if ready then active else pending)

verdict_lem :
    (ready : Bool) (o : Option PortMapping)
    → (if is_undecided o && ready
        then some active
        else elim o [ none ↦ none | some m ↦ some (initial_state m) ])
      ≡ verdict ready o
verdict_lem ready none = refl
verdict_lem ready (some m) = ground arith

-- Where redis answers, the barrier has a state for exactly the mapped ports: suspended as the
-- mapping says, else active if a pod is alive and every live pod has its bound key for the port in
-- redis, else pending. Batches of 100 keys do not show.
pub states_lem :
    (mget : MGet) (store : Text → Option Text) (pods : List Text) (ms : Map ℕ PortMapping)
    → Answers mget store
    → Distinct ms
    → (r : Map ℕ PortState) × (states (shared (ok pods) mget) ms ≡ ok r)
      × ((p : ℕ) → get r p ≡ verdict (is_ready store pods p) (get ms p))
unfolding states get
states_lem mget store pods ms a d =
    let (r, e, h) = decide_lem mget store pods (classify ms [] []).1 (classify ms [] []).0 a in
    (
      r,
      e,
      λ p. ground (
        arith,
        h p,
        get-classify ms [] [] p d,
        member-classify ms [] [] p d,
        verdict_lem (is_ready store pods p) (get ms p),
      ),
    )
