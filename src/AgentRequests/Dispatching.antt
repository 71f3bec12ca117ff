-- ===== src/AgentRequests/Dispatching.antt =====
-- pkg/agent/agent.go and commands.go: each method has one way in which it is served.
use hostlink.Prelude.{
  ◌≡◌, ◌≢◌, refl, false, ◌==◌, Text, codes, arith, text_comparable, Text-discrete, ◌++◌,
}
use hostlink.AgentConn.{AgentResult}
use hostlink.AgentImages.{Answer, fails}
use hostlink.AgentRequests.{
  Method, images_list, images_pull, images_remove, fs_stat, fs_list, fs_read, fs_write, fs_mkdir,
  fs_remove, containers_list, containers_create, containers_inspect, containers_start,
  containers_stop, containers_restart, containers_remove, containers_logs, request_cancel,
  metrics_scrape, method_text, Started, cancels, cancellable, uploads, replies, answer_of,
  start_request,
}

-- The result event of a request, by what its handler returns.
abbrev pub result_of : Text → Answer → AgentResult
result_of request_id a = record {
  request_id = request_id;
  payload = a.payload;
  code = a.code;
  error = a.error;
}

-- How each method is meant to be served.
abbrev pub served : (Method → Answer) → Text → Method → Started
served run request_id images_list = replies (result_of request_id (run images_list))
served run request_id images_pull = cancellable images_pull
served run request_id images_remove = replies (result_of request_id (run images_remove))
served run request_id fs_stat = replies (result_of request_id (run fs_stat))
served run request_id fs_list = replies (result_of request_id (run fs_list))
served run request_id fs_read = cancellable fs_read
served run request_id fs_write = uploads
served run request_id fs_mkdir = replies (result_of request_id (run fs_mkdir))
served run request_id fs_remove = replies (result_of request_id (run fs_remove))
served run request_id containers_list = replies (result_of request_id (run containers_list))
served run request_id containers_create = replies (result_of request_id (run containers_create))
served run request_id containers_inspect = replies (result_of request_id (run containers_inspect))
served run request_id containers_start = replies (result_of request_id (run containers_start))
served run request_id containers_stop = replies (result_of request_id (run containers_stop))
served run request_id containers_restart = replies (result_of request_id (run containers_restart))
served run request_id containers_remove = replies (result_of request_id (run containers_remove))
served run request_id containers_logs = cancellable containers_logs
served run request_id request_cancel = cancels
served run request_id metrics_scrape = cancellable metrics_scrape

start_request-served :
    (run : Method → Answer) (request_id : Text) (m : Method)
    → start_request run request_id (method_text m) ≡ served run request_id m
unfolding start_request Text-discrete
start_request-served run request_id images_list = refl
start_request-served run request_id images_pull = refl
start_request-served run request_id images_remove = refl
start_request-served run request_id fs_stat = refl
start_request-served run request_id fs_list = refl
start_request-served run request_id fs_read = refl
start_request-served run request_id fs_write = refl
start_request-served run request_id fs_mkdir = refl
start_request-served run request_id fs_remove = refl
start_request-served run request_id containers_list = refl
start_request-served run request_id containers_create = refl
start_request-served run request_id containers_inspect = refl
start_request-served run request_id containers_start = refl
start_request-served run request_id containers_stop = refl
start_request-served run request_id containers_restart = refl
start_request-served run request_id containers_remove = refl
start_request-served run request_id containers_logs = refl
start_request-served run request_id request_cancel = refl
start_request-served run request_id metrics_scrape = refl

test_false :
    (method : Text) (m : Method) → method_text m ≢ method → (method == method_text m) ≡ false
test_false method m other = ground (arith)

module _ (run : Method → Answer) (request_id : Text) (method : Text)
    (other : (n : Method) → (method == method_text n) ≡ false) where
  answer_of-unknown : answer_of run method ≡ fails 501 (codes "unknown method: " ++ method)
  unfolding answer_of
  answer_of-unknown =
      rw
        (
          other images_list,
          other images_remove,
          other containers_list,
          other containers_create,
          other containers_inspect,
          other containers_start,
          other containers_stop,
          other containers_restart,
          other containers_remove,
          other fs_stat,
          other fs_list,
          other fs_mkdir,
          other fs_remove,
        )
        refl

  start_request-unknown :
      start_request run request_id method
      ≡ replies (result_of request_id (fails 501 (codes "unknown method: " ++ method)))
  unfolding start_request
  start_request-unknown =
      rw
        (
          other request_cancel,
          other images_pull,
          other fs_read,
          other metrics_scrape,
          other containers_logs,
          other fs_write,
          other images_list,
          other images_remove,
          other containers_list,
          other containers_create,
          other containers_inspect,
          other containers_start,
          other containers_stop,
          other containers_restart,
          other containers_remove,
          other fs_stat,
          other fs_list,
          other fs_mkdir,
          other fs_remove,
        )
        refl

-- Every method is served in its one way: a cancellation is done at once, the four streaming methods run
-- under a cancel, an upload with a registration, and each other method is answered by its own
-- handler. A text that is no method is answered with the code 501. Each answer has the request's id.
pub start_request_lem :
    (run : Method → Answer) (request_id : Text) (m : Method) (method : Text)
    → ((n : Method) → method_text n ≢ method)
    → (start_request run request_id (method_text m) ≡ served run request_id m)
      × (start_request run request_id method
          ≡ replies (result_of request_id (fails 501 (codes "unknown method: " ++ method))))
start_request_lem run request_id m method unknown = (
  start_request-served run request_id m,
  start_request-unknown run request_id method (λ n. test_false method n (unknown n)),
)
