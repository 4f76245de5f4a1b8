-- ===== src/Web/Route.antt =====
-- src/rbwebserver.c, src/rbwebsockets.c: files that are served, the handshake of a Websocket, and the
-- choice between the answers.
pub mod Files
use rb3201_rbprotocol_librar.Prelude.{
  ℕ, zero, suc, ◌+◌, ◌-◌, ◌^◌, min, Bool, true, false, not, Option, none, some, List, [], ◌∷◌, ◌++◌,
  Bytes, codes, length, take, drop, ltb, ◌==◌, if◌then◌else◌,
}
use rb3201_rbprotocol_librar.Prelude.Int.{ℤ, pos, ◌+ℤ◌, int32, ltb_ℤ}
use rb3201_rbprotocol_librar.Web.Serve.{
  Write, wrote, refused, Out, put, HttpRequest, NotFoundResponse, crlf, temporary_redirect,
  is_prefix, client_error, serve_headers_success, serve_not_found_cb, prepare_gzip,
}

-- What the file system gives: a descriptor for a name; whether it is of a regular file, and its size;
-- the bytes at a position, at most so many, or none for an error.
pub record FileSystem : Type 0 where
  pub open_file : Bytes → Option ℕ
  pub is_regular : ℕ → Bool
  pub size_of : ℕ → ℕ
  pub read_at : ℕ → ℕ → ℕ → Option Bytes

-- One `write`: the connection, and the number of bytes, or none for -1.
unfoldable pub write_once : Bytes → List Write → Bytes → Out × Option ℕ
write_once sent [] bytes = (record { sent = sent ++ bytes; writes = [] }, some (length bytes))
write_once sent (wrote n ∷ writes) bytes = (
  record { sent = sent ++ take (n + 1) bytes; writes = writes },
  some (min (n + 1) (length bytes)),
)
write_once sent (refused interrupted ∷ writes) bytes =
    (record { sent = sent; writes = writes }, none)

-- The loop of `sendfile`, on fuel: `count` shrinks in each round. `res` is none for -1; the variable is
-- not initialised in the source, so its first value is an argument.
unfoldable pub sendfile_loop : (ℕ → ℕ → Option Bytes) → ℕ → ℕ → Out → ℕ → ℕ → ℤ → Out × Option ℤ
sendfile_loop read zero bufsize out position count res = (out, some res)
sendfile_loop read (suc fuel) bufsize out position count res =
    let chunk = min count bufsize in
    let more : Out × Option ℤ = elim (read position chunk) [
      | none ↦ (out, none)
      | some bytes ↦
          let (out', written) = write_once out.sent out.writes bytes in
          elim written [
            | none ↦ (out', none)
            | some n ↦
                sendfile_loop read fuel bufsize out' (position + length bytes) (count - chunk)
                  (int32 (res +ℤ pos n))
          ]
    ] in
    if count == 0 then (out, some res) else more

-- The position after `lseek`, which refuses a negative offset.
abbrev pub seek : ℕ → ℕ
seek offset = if ltb offset (2 ^ 31) then offset else 0

unfoldable pub sendfile : (ℕ → ℕ → Option Bytes) → ℕ → Out → ℕ → ℕ → ℤ → Out × Option ℤ
sendfile read bufsize out offset count uninitialised =
    sendfile_loop read count bufsize out (seek offset) count uninitialised

-- Whether a result of `sendfile` is above zero.
unfoldable pub is_positive : Option ℤ → Bool
is_positive none = false
is_positive (some res) = ltb_ℤ (pos 0) res

module _ (unsigned signed : ℕ → Bytes) where
  -- `serve_static`; the flag is whether it closes the connection.
  unfoldable pub serve_static : (ℕ → ℕ → Option Bytes) → Out → HttpRequest → ℕ → ℤ → Out × Bool
  serve_static read out req total_size uninitialised =
      let headed = serve_headers_success unsigned signed out req total_size in
      let (out', res) = sendfile read 256 headed req.offset (req.end - req.offset) uninitialised in
      if ltb req.offset req.end then (out', is_positive res) else (headed, false)

  -- `process_serve_file` with a file that is open.
  unfoldable pub serve_open : FileSystem → Out → HttpRequest → ℕ → ℤ → Out × Bool
  serve_open fs out req ffd uninitialised =
      let sized : HttpRequest = record req {
        end = if req.end == 0 then fs.size_of ffd else req.end;
      } in
      if fs.is_regular ffd
      then serve_static (fs.read_at ffd) out sized (fs.size_of ffd) uninitialised
      else (client_error unsigned out 400 (codes "Error") (codes "Unknow Error"), false)

  unfoldable pub serve_missing :
      Out → HttpRequest → Bytes → Option (Bytes → NotFoundResponse) → Out × Bool
  serve_missing out req working_directory not_found_callback =
      let (out', req', found) =
        serve_not_found_cb unsigned signed out req working_directory not_found_callback in
      if found
      then (out', false)
      else (client_error unsigned out' 404 (codes "Not found") (codes "File not found"), false)

  -- The test `ffd <= 0`.
  unfoldable pub serve_file_or_missing :
      FileSystem
      → Out
      → Bytes
      → Option (Bytes → NotFoundResponse)
      → ℤ
      → HttpRequest × Option ℕ
      → Out × Bool
  serve_file_or_missing fs out working_directory callback uninitialised (req, none) =
      serve_missing out req working_directory callback
  serve_file_or_missing fs out working_directory callback uninitialised (req, some ffd) =
      if ffd == 0
      then serve_missing out req working_directory callback
      else serve_open fs out req ffd uninitialised

  unfoldable pub process_serve_file :
      FileSystem → Out → HttpRequest → Bytes → Option (Bytes → NotFoundResponse) → ℤ → Out × Bool
  process_serve_file fs out req working_directory callback uninitialised =
      serve_file_or_missing fs out working_directory callback uninitialised
        (prepare_gzip fs.open_file req)

abbrev pub switching_resp : Bytes
switching_resp =
    codes "HTTP/1.1 101 Switching Protocols"
    ++ (crlf
        ++ (codes "Upgrade: websocket"
            ++ (crlf ++ (codes "Connection: Upgrade" ++ (crlf ++ codes "Sec-WebSocket-Accept: ")))))

abbrev pub ws_magic_key : Bytes
ws_magic_key = codes "258EAFA5-E914-47DA-95CA-C5AB0DC85B11"

-- mbedtls gives the hash and its text.
module _ (unsigned : ℕ → Bytes) (mbedtls_sha1 mbedtls_base64_encode : Bytes → Bytes) where
  -- `rb_web_handle_websocket_switch_request`; the flag is true for the result 0.
  unfoldable pub rb_web_handle_websocket_switch_request : Out → HttpRequest → Out × Bool
  rb_web_handle_websocket_switch_request out req =
      let accept = mbedtls_base64_encode (mbedtls_sha1 (req.ws_key ++ ws_magic_key)) in
      if not (req.ws_version == 13)
      then (client_error unsigned out 426 (codes "Upgrade Required") [], false)
      else (put (put (put out switching_resp) accept) (crlf ++ crlf), true)

-- Where a text occurs first.
unfoldable pub strstr : Bytes → Bytes → Option ℕ
strstr [] t = if is_prefix t [] then some 0 else none
strstr (x ∷ s) t =
    let later : Option ℕ = elim (strstr s t) [ none ↦ none | some i ↦ some (i + 1) ] in
    if is_prefix t (x ∷ s) then some 0 else later

-- The globals of the server.
pub record Web : Type 0 where
  pub ws_protocol : Option ℕ
  pub working_directory : Bytes
  pub has_extra_callback : Bool
  pub not_found_callback : Option (Bytes → NotFoundResponse)

-- `rb_web_set_wsprotocol` of an instance; NULL is `none`.
unfoldable pub rb_web_set_wsprotocol : Web → Option ℕ → Web
rb_web_set_wsprotocol w ws_instance = record w { ws_protocol = ws_instance }

unfoldable pub is_instance : Option ℕ → Option ℕ → Bool
is_instance none none = true
is_instance none (some b) = false
is_instance (some a) none = false
is_instance (some a) (some b) = a == b

unfoldable pub rb_web_clear_wsprotocol : Web → Option ℕ → Web
rb_web_clear_wsprotocol w ws_instance =
    if is_instance w.ws_protocol ws_instance then record w { ws_protocol = none } else w

-- What `process` does with a request: the connection, whether the result is 1, whether the connection
-- is closed, and the path that the extra callback is called with.
pub record Handled : Type 0 where
  pub out : Out
  pub upgraded : Bool
  pub closed : Bool
  pub extra_path : Option Bytes

unfoldable pub answered : Out × Bool → Handled
answered (out, closed) = record { out = out; upgraded = false; closed = closed; extra_path = none }

module _ (unsigned signed : ℕ → Bytes) (mbedtls_sha1 mbedtls_base64_encode : Bytes → Bytes)
    (fs : FileSystem) (local_hostname : Bytes) where
  unfoldable pub handle_upgrade : Web → Out → HttpRequest → Handled
  handle_upgrade w out req =
      let (out', switched) =
        rb_web_handle_websocket_switch_request unsigned mbedtls_sha1 mbedtls_base64_encode out
          req in
      elim w.ws_protocol [
        | none ↦ answered (client_error unsigned out 400 (codes "WS not enabled") [], false)
        | some p ↦ record { out = out'; upgraded = switched; closed = false; extra_path = none }
      ]

  unfoldable pub handle_extra : Web → Out → Bytes → Handled
  handle_extra w out path =
      if not w.has_extra_callback
      then answered (
        client_error unsigned out 400 (codes "Error") (codes "No extra_path_callback specified."),
        false,
      )
      else record { out = out; upgraded = false; closed = true; extra_path = some path }

  -- `process` behind `parse_request`.
  unfoldable pub route : Web → Out → HttpRequest → ℤ → Handled
  route w out req uninitialised =
      let at = length w.working_directory in
      let file =
        process_serve_file unsigned signed fs out req w.working_directory w.not_found_callback
          uninitialised in
      if req.non_local_hostname
      then answered (temporary_redirect out local_hostname, false)
      else if not (req.ws_version == 0)
      then handle_upgrade w out req
      else elim (strstr req.filename (codes "/extra/")) [
        | none ↦ answered file
        | some i ↦
            if i == at then handle_extra w out (drop (at + 7) req.filename) else answered file
      ]
