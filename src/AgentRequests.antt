-- ===== src/AgentRequests.antt =====
-- pkg/agent/agent.go, `startRequest`, and pkg/agent/commands.go, `handleRequest`: which handler serves a
-- request. The handlers are a parameter.
pub mod Dispatching
use hostlink.Prelude.{
  Bool, true, false, [], ◌++◌, ◌==◌, if◌then◌else◌, Text, codes, text_comparable,
}
use hostlink.AgentConn.{AgentResult}
use hostlink.AgentImages.{Answer, fails}

-- The methods of pkg/agentapi.
pub data Method : Type 0 where
  images_list : Method
  images_pull : Method
  images_remove : Method
  fs_stat : Method
  fs_list : Method
  fs_read : Method
  fs_write : Method
  fs_mkdir : Method
  fs_remove : Method
  containers_list : Method
  containers_create : Method
  containers_inspect : Method
  containers_start : Method
  containers_stop : Method
  containers_restart : Method
  containers_remove : Method
  containers_logs : Method
  request_cancel : Method
  metrics_scrape : Method

unfoldable pub method_text : Method → Text
method_text images_list = codes "images.list"
method_text images_pull = codes "images.pull"
method_text images_remove = codes "images.remove"
method_text fs_stat = codes "fs.stat"
method_text fs_list = codes "fs.list"
method_text fs_read = codes "fs.read"
method_text fs_write = codes "fs.write"
method_text fs_mkdir = codes "fs.mkdir"
method_text fs_remove = codes "fs.remove"
method_text containers_list = codes "containers.list"
method_text containers_create = codes "containers.create"
method_text containers_inspect = codes "containers.inspect"
method_text containers_start = codes "containers.start"
method_text containers_stop = codes "containers.stop"
method_text containers_restart = codes "containers.restart"
method_text containers_remove = codes "containers.remove"
method_text containers_logs = codes "containers.logs"
method_text request_cancel = codes "request.cancel"
method_text metrics_scrape = codes "metrics.scrape"

-- What `startRequest` does: it cancels a request, starts a handler under a cancel or with a registration
-- for its chunks, or lets a single-shot handler reply.
pub data Started : Type 0 where
  cancels : Started
  cancellable : Method → Started
  uploads : Started
  replies : AgentResult → Started

-- The switch of `handleRequest`, given what the handlers return.
unfoldable pub answer_of : (Method → Answer) → Text → Answer
unfolding method_text
answer_of run method =
    if method == method_text images_list
    then run images_list
    else if method == method_text images_remove
    then run images_remove
    else if method == method_text containers_list
    then run containers_list
    else if method == method_text containers_create
    then run containers_create
    else if method == method_text containers_inspect
    then run containers_inspect
    else if method == method_text containers_start
    then run containers_start
    else if method == method_text containers_stop
    then run containers_stop
    else if method == method_text containers_restart
    then run containers_restart
    else if method == method_text containers_remove
    then run containers_remove
    else if method == method_text fs_stat
    then run fs_stat
    else if method == method_text fs_list
    then run fs_list
    else if method == method_text fs_mkdir
    then run fs_mkdir
    else if method == method_text fs_remove
    then run fs_remove
    else fails 501 (codes "unknown method: " ++ method)

-- `handleRequest`
unfoldable pub handle_request : (Method → Answer) → Text → Text → AgentResult
unfolding answer_of
handle_request run request_id method =
    let a = answer_of run method in
    record { request_id = request_id; payload = a.payload; code = a.code; error = a.error }

-- `startRequest`
unfoldable pub start_request : (Method → Answer) → Text → Text → Started
unfolding handle_request method_text
start_request run request_id method =
    if method == method_text request_cancel
    then cancels
    else if method == method_text images_pull
    then cancellable images_pull
    else if method == method_text fs_read
    then cancellable fs_read
    else if method == method_text metrics_scrape
    then cancellable metrics_scrape
    else if method == method_text containers_logs
    then cancellable containers_logs
    else if method == method_text fs_write
    then uploads
    else replies (handle_request run request_id method)
