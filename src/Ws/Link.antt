-- ===== src/Ws/Link.antt =====
-- `ProtBackendWs` and its neighbours: the registration with the web server, and a message that is sent
-- to a client.
pub mod Queue
pub mod Runs
use rb3201_rbprotocol_librar.Prelude.{
  ℕ, Bool, not, some, List, [], ◌∷◌, Bytes, length, map, if◌then◌else◌,
}
use rb3201_rbprotocol_librar.Web.Route.{Web, rb_web_set_wsprotocol, rb_web_clear_wsprotocol}
use rb3201_rbprotocol_librar.Ws.Frame.{frame_header}
use rb3201_rbprotocol_librar.Ws.Clients.{Conn, close_client_locked}

-- `ProtBackendWs::start` of an instance.
unfoldable pub start : Web → ℕ → Bool → Web
start web this register_with_webserver =
    if register_with_webserver then rb_web_set_wsprotocol web (some this) else web

-- The destructor: the clients, of which none is left, are closed in their order.
unfoldable pub destroy : Web → ℕ → List Conn → Web × List Conn × List ℕ
destroy web this clients =
    (rb_web_clear_wsprotocol web (some this), [], map (λ c. c.client.fd) clients)

-- `send_from_queue`, with whether the two calls of `send` succeed: the clients, and what is handed to
-- the socket.
unfoldable pub send_from_queue : List Conn → ℕ → Bytes → Bool → Bool → List Conn × List Bytes
send_from_queue clients fd buf header_sent payload_sent =
    let header = frame_header (length buf) in
    if not header_sent
    then (close_client_locked fd clients, header ∷ [])
    else if not payload_sent
    then (close_client_locked fd clients, header ∷ buf ∷ [])
    else (clients, header ∷ buf ∷ [])
