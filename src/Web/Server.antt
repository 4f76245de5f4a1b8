-- ===== src/Web/Server.antt =====
-- src/rbwebserver.c: the task that accepts connections, its start and its stop, and the files that the
-- application adds.
pub mod Stops
pub mod Added
pub mod Backed
use rb3201_rbprotocol_librar.Prelude.{
  ℕ, zero, suc, ◌+◌, Bool, true, false, not, Option, none, some, List, [], ◌∷◌, ◌++◌, Bytes, codes,
  take, ◌==◌, if◌then◌else◌,
}
use rb3201_rbprotocol_librar.Prelude.Int.{ℤ}
use rb3201_rbprotocol_librar.Web.ReadLine.{Rio}
use rb3201_rbprotocol_librar.Web.Serve.{Write, Out, NotFoundResponse, writen}
use rb3201_rbprotocol_librar.Web.Request.{Uninitialised}
use rb3201_rbprotocol_librar.Web.Route.{FileSystem, Web, Handled}
use rb3201_rbprotocol_librar.Web.Process.{
  Processed, unended_process, waiting_process, overrun_process, processed, process,
}

-- `rb_web_set_extra_callback` and `rb_web_set_not_found_callback`
unfoldable pub rb_web_set_extra_callback : Web → Bool → Web
rb_web_set_extra_callback w has_callback = record w { has_extra_callback = has_callback }

unfoldable pub rb_web_set_not_found_callback : Web → Option (Bytes → NotFoundResponse) → Web
rb_web_set_not_found_callback w callback = record w { not_found_callback = callback }

-- `rb_web_start_no_spiffs`; the task is created besides.
unfoldable pub rb_web_start_no_spiffs : Web → Bytes → Web
rb_web_start_no_spiffs w working_directory_path = record w {
  working_directory = working_directory_path;
}

-- `rb_web_start`, with whether the file system is mounted and whether it could be; the flag is whether there
-- is a task.
unfoldable pub rb_web_start : Web → Bool → Bool → Web × Bool
rb_web_start w mounted registered =
    if mounted
    then (rb_web_start_no_spiffs w (codes "/data"), true)
    else if registered
    then (rb_web_start_no_spiffs w (codes "/data"), true)
    else (w, false)

-- `rb_web_stop` behind the end of the task.
unfoldable pub rb_web_stop : Web → Web
rb_web_stop w = record w {
  working_directory = codes "/notset";
  has_extra_callback = false;
  not_found_callback = none;
}

-- The name of a file in `rb_web_add_file`, cut to its buffer.
unfoldable pub added_name : Web → Bytes → Bytes
added_name w filename = take 255 (w.working_directory ++ (b'/' ∷ filename))

-- `rb_web_add_file`, where the file system gives an empty file for a name, or none: what the file holds, and
-- whether the result is ESP_OK.
unfoldable pub add_to : Option (List Write) → Bytes → Option Bytes × Bool
add_to none data_ = (none, false)
add_to (some writes) data_ =
    let (out, written) = writen (record { sent = []; writes = writes }) data_ in
    (some out.sent, written)

unfoldable pub rb_web_add_file :
    Web → (Bytes → Option (List Write)) → Bytes → Bytes → Option Bytes × Bool
rb_web_add_file w create filename data_ = add_to (create (added_name w filename)) data_

-- What `socket` gives to `open_listenfd`, and whether `setsockopt`, `bind`, `listen` and `fcntl` succeed.
pub record Listening : Type 0 where
  pub fd : Option ℕ
  pub reusable : Bool
  pub bound : Bool
  pub listens : Bool
  pub nonblocking : Bool

-- `open_listenfd`
unfoldable pub open_listenfd : Listening → Option ℕ
open_listenfd l =
    if not l.reusable
    then none
    else if not l.bound
    then none
    else if not l.listens
    then none
    else l.fd

-- A round of the task's loop: a notification with the task that waits, a connection with what its request needs, none, or an
-- error of `accept`.
pub data Event : Type 0 where
  stop_request : Option ℕ → Event
  connection : ℕ → Uninitialised → Rio → Out → ℤ → Event
  no_connection accept_failure : Event

-- What the task does: it closes a descriptor, hands a connection to the Websocket backend, or notifies the
-- task that stops it.
pub data Action : Type 0 where
  closes : ℕ → Action
  hands : Option ℕ → ℕ → Action
  notifies : ℕ → Action

-- What the task has done when it waits for more, hangs in a request, or has ended.
pub data ServerRun : Type 0 where
  serving : List Action → ServerRun
  hanging : List Action → ServerRun
  left : List Action → ServerRun

unfoldable pub behind : List Action → ServerRun → ServerRun
behind done_ (serving actions) = serving (done_ ++ actions)
behind done_ (hanging actions) = hanging (done_ ++ actions)
behind done_ (left actions) = left (done_ ++ actions)

-- The label `exit`.
unfoldable pub notify : Option ℕ → List Action
notify none = []
notify (some task) = notifies task ∷ []

-- What becomes of a connection, first in `process` and then behind it.
unfoldable pub after_process : Option ℕ → ℕ → Handled → List Action
after_process ws_protocol connfd h =
    (if h.closed then closes connfd ∷ [] else [])
    ++ (if h.upgraded then hands ws_protocol connfd ∷ [] else closes connfd ∷ [])

unfoldable pub follow_process : Option ℕ → ℕ → Processed → ServerRun → ServerRun
follow_process ws_protocol connfd unended_process later = hanging []
follow_process ws_protocol connfd waiting_process later = hanging []
follow_process ws_protocol connfd overrun_process later = hanging []
follow_process ws_protocol connfd (processed h) later =
    behind (after_process ws_protocol connfd h) later

-- The label `fail`: it waits for the notification.
unfoldable pub wait_stop : List Event → ServerRun
wait_stop [] = serving []
wait_stop (stop_request task ∷ events) = left (notify task)
wait_stop (connection fd u rp out z ∷ events) = wait_stop events
wait_stop (no_connection ∷ events) = wait_stop events
wait_stop (accept_failure ∷ events) = wait_stop events

module _ (unsigned signed : ℕ → Bytes) (mbedtls_sha1 mbedtls_base64_encode : Bytes → Bytes)
    (fs : FileSystem) (local_hostname : Bytes) (fuel : ℕ) (w : Web) where
  -- The loop of `tiny_web_task`; the fuel is for each request.
  unfoldable pub accept_loop : ℕ → List Event → ServerRun
  accept_loop listenfd [] = serving []
  accept_loop listenfd (stop_request task ∷ events) = left (closes listenfd ∷ notify task)
  accept_loop listenfd (connection connfd u rp out z ∷ events) =
      follow_process w.ws_protocol connfd
        (process unsigned signed mbedtls_sha1 mbedtls_base64_encode fs local_hostname fuel w u rp
          out z)
        (accept_loop listenfd events)
  accept_loop listenfd (no_connection ∷ events) = accept_loop listenfd events
  accept_loop listenfd (accept_failure ∷ events) = accept_loop listenfd events

  unfoldable pub with_listenfd : Bool → List Event → Option ℕ → ServerRun
  with_listenfd nonblocking events none = wait_stop events
  with_listenfd nonblocking events (some listenfd) =
      if listenfd == 0
      then wait_stop events
      else if not nonblocking
      then behind (closes listenfd ∷ []) (wait_stop events)
      else accept_loop listenfd events

  unfoldable pub tiny_web_task : Listening → List Event → ServerRun
  tiny_web_task l events = with_listenfd l.nonblocking events (open_listenfd l)
