-- ===== src/Bindings.antt =====
-- pkg/controller/bindings.go, `bindingTracker.states`: which public ports are safe to publish. What
-- redis answers is an argument: the pods that a scan finds, and the reply to an `MGET`.
pub mod States
use hostlink.Prelude.{
  ℕ, zero, suc, ◌*◌, ◌+◌, Bool, true, false, not, ◌&&◌, ◌||◌, Option, none, some, List, [], ◌∷◌,
  ◌++◌, map, if◌then◌else◌, ◌==◌, Text, codes, nat_comparable, text_comparable, Result, ok, err,
  ◌>>=◌, length, take, drop,
}
use hostlink.Map.{Map, get, put}
use hostlink.Decimal.{format_uint}
use hostlink.Order.{member}
use hostlink.Ports.{PortMapping, PortError, redis_failed}

pub data PortState : Type 0 where
  pending active suspended : PortState

-- `boundKey`
unfoldable pub bound_key : ℕ → Text → Text
bound_key port pod = codes "hostlink:bound:" ++ (format_uint port ++ b':' ∷ pod)

-- The loop over the mappings: the result so far, and the undecided ports, the last one first.
unfoldable pub classify : Map ℕ PortMapping → Map ℕ PortState → List ℕ → Map ℕ PortState × List ℕ
classify [] result undecided = (result, undecided)
classify ((port, m) ∷ rest) result undecided =
    classify rest (put result port (if m.suspended then suspended else pending))
      (if m.suspended then undecided else port ∷ undecided)

-- Marks the undecided ports that pass the test as active.
unfoldable pub resolve : (ℕ → Bool) → List ℕ → Map ℕ PortState → Map ℕ PortState
resolve test [] result = result
resolve test (port ∷ rest) result =
    resolve test rest (if test port then put result port active else result)

-- The keys of every port and pod, in the order of the nested loops of `boundSet`.
unfoldable pub bound_keys : List ℕ → List Text → List Text
bound_keys [] pods = []
bound_keys (port ∷ ports) pods = map (bound_key port) pods ++ bound_keys ports pods

abbrev pub is_set : Option Text → Bool
is_set none = false
is_set (some _) = true

-- The inner loop of `boundSet`: `bound[keys[start+index]] = value != nil`.
unfoldable pub note_bound : List Text → List (Option Text) → Map Text Bool → Map Text Bool
note_bound (key ∷ keys) (value ∷ values) bound =
    note_bound keys values (put bound key (is_set value))
note_bound _ _ bound = bound

abbrev pub port_scan_batch_size : ℕ
port_scan_batch_size = 100

-- `MGET`, or its error.
abbrev pub MGet : Type 0
MGet = List Text → Result PortError (List (Option Text))

-- The outer loop of `boundSet`, a batch of keys at a time. The fuel is the number of keys, and a batch
-- has one key at least, so the keys run out first.
unfoldable pub fetch_bound : ℕ → MGet → List Text → Map Text Bool → Result PortError (Map Text Bool)
fetch_bound f mget [] bound = ok bound
fetch_bound zero mget (key ∷ keys) bound = ok bound
fetch_bound (suc f) mget (key ∷ keys) bound =
    let batch = take port_scan_batch_size (key ∷ keys) in
    let later = drop port_scan_batch_size (key ∷ keys) in
    mget batch >>= λ values. fetch_bound f mget later (note_bound batch values bound)

unfoldable pub bound_set : MGet → List ℕ → List Text → Result PortError (Map Text Bool)
unfolding fetch_bound bound_keys
bound_set mget ports pods = let ks = bound_keys ports pods in fetch_bound (length ks) mget ks []

-- `bound[key]` on a map of Booleans: false where the key is missing.
abbrev pub flag : Option Bool → Bool
flag none = false
flag (some b) = b

-- The loop over the pods for one port.
unfoldable pub all_bound : Map Text Bool → ℕ → List Text → Bool
all_bound bound port [] = true
all_bound bound port (pod ∷ pods) =
    flag (get bound (bound_key port pod)) && all_bound bound port pods

-- How a tracker decides: there is none, it has no redis and looks at the ports bound here, or it asks
-- redis, where the first argument is what `livePods` returns.
pub data Tracker : Type 0 where
  disabled : Tracker
  local_only : List ℕ → Tracker
  shared : Result PortError (List Text) → MGet → Tracker

-- `resolveRedisStates`
unfoldable pub resolve_redis_states :
    Result PortError (List Text)
    → MGet
    → List ℕ
    → Map ℕ PortState
    → Result PortError (Map ℕ PortState)
unfolding bound_set resolve
resolve_redis_states live mget undecided result = do
  pods ← live
  elim pods [
    | [] ↦ ok result
    | pod ∷ rest ↦ do
      bound ← bound_set mget undecided (pod ∷ rest)
      ok (resolve (λ port. all_bound bound port (pod ∷ rest)) undecided result)
  ]

decide : Tracker → List ℕ → Map ℕ PortState → Result PortError (Map ℕ PortState)
unfolding resolve resolve_redis_states
decide t [] result = ok result
decide disabled (p ∷ undecided) result = ok result
decide (local_only bound) (p ∷ undecided) result =
    ok (resolve (λ port. member port bound) (p ∷ undecided) result)
decide (shared live mget) (p ∷ undecided) result =
    resolve_redis_states live mget (p ∷ undecided) result

unfoldable pub states : Tracker → Map ℕ PortMapping → Result PortError (Map ℕ PortState)
unfolding decide classify
states t mappings = let c = classify mappings [] [] in decide t c.1 c.0
