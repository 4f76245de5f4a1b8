-- ===== src/Ws/Link/Runs.antt =====
-- Runs of `ProtBackendWs`: clients that join, calls of `recv_iter` and messages that are sent, in any
-- order.
use rb3201_rbprotocol_librar.Prelude.{ℕ, false, Bool, true, Option, List, [], ◌∷◌, Bytes, All}
use rb3201_rbprotocol_librar.Json.Parse.{JsmnResult}
use rb3201_rbprotocol_librar.Ws.Client.{Client, Socket}
use rb3201_rbprotocol_librar.Ws.Clients.{Conn, conn, add_client, recv_iter}
use rb3201_rbprotocol_librar.Ws.Clients.Ready.{
  IsReady, add_client-All, close_client_locked-All, recv_iter-All,
}
use rb3201_rbprotocol_librar.Ws.Link.{send_from_queue}

module _ {F : Type 0} (strtod : Bytes → Option F) (jsmn_parse : Bytes → ℕ → JsmnResult) where
  -- Between two calls the sockets of the clients may get any bytes, or break.
  pub data Arrives : List Conn → List Conn → Type 0 where
    nobody : Arrives [] []
    more :
        (c : Client) (s s' : Socket) (cs cs' : List Conn)
        → Arrives cs cs'
        → Arrives (conn c s ∷ cs) (conn c s' ∷ cs')

  pub data Run : List Conn → Type 0 where
    started : Run []
    added :
        (clients : List Conn) (fd : ℕ) (s : Socket) → Run clients → Run (add_client clients fd s)
    delivered :
        (clients clients' : List Conn) → Run clients → Arrives clients clients' → Run clients'
    polled : (clients : List Conn) → Run clients → Run (recv_iter strtod jsmn_parse clients).clients
    sent :
        (clients : List Conn) (fd : ℕ) (buf : Bytes) (header_sent payload_sent : Bool)
        → Run clients
        → Run (send_from_queue clients fd buf header_sent payload_sent).0

  Arrives-All : (cs cs' : List Conn) → Arrives cs cs' → All IsReady cs → All IsReady cs'
  Arrives-All _ _ nobody h = tt
  Arrives-All _ _ (more c s s' cs cs' a) (r, h) = (r, Arrives-All cs cs' a h)

  send_from_queue-All :
      (clients : List Conn) (fd : ℕ) (buf : Bytes) (header_sent payload_sent : Bool)
      → All IsReady clients
      → All IsReady (send_from_queue clients fd buf header_sent payload_sent).0
  unfolding send_from_queue
  send_from_queue-All clients fd buf false p h = close_client_locked-All fd clients h
  send_from_queue-All clients fd buf true false h = close_client_locked-All fd clients h
  send_from_queue-All clients fd buf true true h = h

  -- After every run from the start, with clients that join, bytes that arrive, calls of `recv_iter` and
  -- messages sent in any order, no client is in the state FULLY_RECEIVED, whatever the parser says of a
  -- payload: `recv_iter` starts with no client in the state that `process_client` calls unreachable.
  pub Run-IsReady : (clients : List Conn) → Run clients → All IsReady clients
  Run-IsReady _ started = tt
  Run-IsReady _ (added clients fd s run) = add_client-All clients fd s (Run-IsReady clients run)
  Run-IsReady _ (delivered clients clients' run a) =
      Arrives-All clients clients' a (Run-IsReady clients run)
  Run-IsReady _ (polled clients run) =
      recv_iter-All strtod jsmn_parse clients (Run-IsReady clients run)
  Run-IsReady _ (sent clients fd buf h p run) =
      send_from_queue-All clients fd buf h p (Run-IsReady clients run)
