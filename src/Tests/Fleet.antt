-- ===== src/Tests/Fleet.antt =====
-- The agent's end of its stream, the routing to agents and the merge of their metrics at concrete
-- inputs.
use hostlink.Prelude.{
  ℕ, length, ◌≤◌, ◌≡◌, refl, true, false, Option, none, some, List, [], ◌∷◌, Text, codes, arith,
  All, ◌==◌, Result, ok, err, nat_comparable, text_comparable, Text-discrete, ℕ_discrete,
}
use hostlink.Map.{Map, get, put, delete}
use hostlink.Map.Laws.{get-put, get-delete}
use hostlink.AgentLink.{
  Round, start, Handler, Handlers, no_handlers, start_cancellable, finish_handler, cancel_inflight,
}
use hostlink.AgentLink.Backoff.{IsDelay, start-IsDelay}
use hostlink.AgentLink.Cancelling.{
  Runs, Reachable, none_yet, later, starts, cancel_inflight_lem, late_finish_lem,
}
use hostlink.Registry.{Directory, DirectoryLaws, Registry, add, find, locate}
use hostlink.Rest.{DispatchError, not_connected, dispatch}
use hostlink.Rest.Routing.{dispatch_lem}
use hostlink.Metrics.{MetricFamily, new_accumulator, add_all, target_up, add as add_family}
use hostlink.Metrics.Merging.{merged_family, add_all_lem}
use hostlink.Metrics.Scraping.{ingest_all, folded}
use hostlink.Metrics.Exporter.{scrape_max_body_size, answered, stream_target}
use hostlink.Metrics.EndToEnd.{reads_of, scrape_roundtrip}
use hostlink.Tunnel.{ReadError, no_error, at_eof}
use hostlink.Tunnel.Bytes.{content}

abbrev lowest : ℕ → ℕ
lowest n = 0

abbrev failing : Round
failing = record {
  connected = false;
  cancelled = false;
  int63n = lowest;
  cancelled_waiting = false;
}

abbrev sessions : List Round
sessions = failing ∷ record failing { connected = true } ∷ failing ∷ []

start-IsDelay_example : All IsDelay (start 0 sessions).0
start-IsDelay_example =
    start-IsDelay 0 sessions (omega arith) (λ n pos. pos, (λ n pos. pos, (λ n pos. pos, tt)))

abbrev pull : Handler
pull = record { request_id = codes "7"; running = true; cancelled = false }

abbrev pulling : Handlers
pulling = start_cancellable (codes "7") no_handlers

no_handler-Runs : (h : ℕ) (x : Handler) → Runs no_handlers h x → (codes "7" == x.request_id) ≡ false
unfolding get
no_handler-Runs h x r = let e = r.0 in absurd cc

pulling-Reachable : Reachable pulling
pulling-Reachable = later none_yet (starts (codes "7") no_handler-Runs)

pull-Runs : Runs pulling 0 pull
unfolding start_cancellable get put ℕ_discrete
pull-Runs = (refl, refl)

cancel_inflight_lem_example :
    let b = cancel_inflight (some (codes "7")) pulling in
    (get b.handlers 0 ≡ some (record pull { cancelled = true }))
    × ((g : ℕ) → (0 == g) ≡ false → get b.handlers g ≡ get pulling.handlers g)
    × (b.cancels ≡ pulling.cancels)
cancel_inflight_lem_example = cancel_inflight_lem 0 pull pulling-Reachable pull-Runs

late_finish_lem_example :
    let b = finish_handler 0 (start_cancellable (codes "7") pulling) in
    (Runs b pulling.made (record { request_id = codes "7"; running = true; cancelled = false }))
    × (cancel_inflight (some (codes "7")) b ≡ b)
late_finish_lem_example = late_finish_lem 0 pull pulling-Reachable pull-Runs

directory : Directory (Map Text Text)
directory = record { set = λ k v s. put s k v; look = λ s k. get s k; del = λ k s. delete s k }

directory-DirectoryLaws : DirectoryLaws directory
unfolding directory
directory-DirectoryLaws = record {
  look_set = λ k j v s. get-put s k j v;
  look_del = λ k j s. get-delete s k j;
}

abbrev pod_a : Registry
pod_a = record { redis = true; self_addr = codes "10.0.0.1:9444"; agents = [] }

abbrev pod_b : Registry
pod_b = record { redis = true; self_addr = codes "10.0.0.2:9444"; agents = [] }

other_pod : (codes "10.0.0.2:9444" == codes "10.0.0.1:9444") ≡ false
unfolding Text-discrete
other_pod = refl

named_pod : (codes "10.0.0.2:9444" == []) ≡ false
unfolding Text-discrete
named_pod = refl

nobody_here : find directory (codes "edge") pod_a ≡ none
unfolding get
nobody_here = refl

abbrev by_conn : ℕ → Result DispatchError ℕ
by_conn conn = ok conn

abbrev by_relay : Text → Result DispatchError ℕ
by_relay addr = ok 100

dispatch_lem_example :
    let ((held, s'), replaced) = add directory (codes "edge") 4 pod_b [] in
    (dispatch by_conn
        (some by_relay)
        (ok (locate directory (codes "edge") held s'))
        (codes "edge")
        held
      ≡ by_conn 4)
    × (dispatch by_conn
          (some by_relay)
          (ok (locate directory (codes "edge") pod_a s'))
          (codes "edge")
          pod_a
        ≡ by_relay (codes "10.0.0.2:9444"))
    × (dispatch by_conn none (ok (locate directory (codes "edge") pod_a s')) (codes "edge") pod_a
        ≡ err not_connected)
dispatch_lem_example =
    dispatch_lem directory directory-DirectoryLaws (codes "edge") 4 pod_a pod_b [] by_conn by_relay
      refl refl nobody_here named_pod other_pod

abbrev load : Text → ℕ → MetricFamily
load agent value = record {
  name = codes "load";
  help = [];
  kind = 1;
  metric = record { label = (codes "agent", agent) ∷ []; sample = value } ∷ [];
}

named_family : (codes "load" == []) ≡ false
unfolding Text-discrete
named_family = refl

abbrev scraped_families : List MetricFamily
scraped_families =
    load (codes "a") 3 ∷ load (codes "b") 5 ∷ record (load (codes "c") 9) { kind = 4 } ∷ []

add_all_lem_example :
    get (add_all scraped_families []) (codes "load") ≡ merged_family (codes "load") scraped_families
add_all_lem_example = add_all_lem scraped_families (codes "load") named_family

-- A body that is one family's name.
abbrev parse : Text → Option (List MetricFamily)
parse bytes = some (record (load [] 1) { name = bytes } ∷ [])

no_buffer : get (new_accumulator []).buffers (codes "node") ≡ none
unfolding get
no_buffer = refl

abbrev exposed : List (Text × ReadError)
exposed = (codes "lo", no_error) ∷ (codes "ad", at_eof) ∷ []

exposed_small : length (content exposed) ≤ scrape_max_body_size
unfolding content
exposed_small = omega arith

scrape_roundtrip_example :
    let frames =
      stream_target
        (codes "node")
        (codes "reset")
        (codes "status")
        (answered 200 (reads_of exposed)) in
    let after = ingest_all parse (codes "edge") frames (new_accumulator []) in
    let (merged, up) = folded parse (codes "edge") (content exposed) (codes "node") [] in
    (after.merged ≡ add_family (target_up parse (codes "edge") (codes "node") up) merged)
    × (get after.buffers (codes "node") ≡ none)
scrape_roundtrip_example =
    scrape_roundtrip parse (codes "edge") (codes "node") (codes "reset") (codes "status") exposed
      (new_accumulator []) tt exposed_small no_buffer
