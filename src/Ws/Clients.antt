-- ===== src/Ws/Clients.antt =====
-- The list of clients: `addClient`, `close_client` and `recv_iter`.
pub mod Ready
use rb3201_rbprotocol_librar.Prelude.{
  ℕ, Bool, true, false, not, Option, none, some, List, [], ◌∷◌, ◌++◌, Bytes, ◌==◌, if◌then◌else◌,
}
use rb3201_rbprotocol_librar.Json.Value.{Members}
use rb3201_rbprotocol_librar.Json.Parse.{JsmnResult, parse_packet}
use rb3201_rbprotocol_librar.Protocol.State.{ProtocolAddr, ws}
use rb3201_rbprotocol_librar.Ws.Client.{
  Client, ClientState, initial, fully_received, len1, mask, payload_data, Socket, Progress,
  new_client, opcode, process_client,
}

-- A client with its socket.
pub record Conn : Type 0 where
  pub client : Client
  pub socket : Socket

abbrev pub conn : Client → Socket → Conn
conn c s = record { client = c; socket = s }

unfoldable pub add_client : List Conn → ℕ → Socket → List Conn
unfolding new_client
add_client clients fd s = clients ++ (conn (new_client fd) s ∷ [])

-- `close_client_locked`: the first client with the descriptor.
unfoldable pub close_client_locked : ℕ → List Conn → List Conn
close_client_locked fd [] = []
close_client_locked fd (c ∷ cs) =
    let rest = close_client_locked fd cs in if c.client.fd == fd then cs else c ∷ rest

unfoldable pub is_full : ClientState → Bool
is_full fully_received = true
is_full initial = false
is_full len1 = false
is_full mask = false
is_full payload_data = false

-- `(1 << 7) | WS_OPCODE_CLOSE, 0`
abbrev pub close_header : Bytes
close_header = 0x88 ∷ 0 ∷ []

-- What a call leaves: the clients, the packet with its sender, and the bytes written to a client.
pub record Received (F : Type 0) : Type 0 where
  pub clients : List Conn
  pub packet : Option (ProtocolAddr × Members F)
  pub written : List (ℕ × Bytes)

abbrev pub with_sender : {F : Type 0} → ℕ → Option (Members F) → Option (ProtocolAddr × Members F)
with_sender fd none = none
with_sender fd (some pkt) = some (ws fd, pkt)

module _ {F : Type 0} (strtod : Bytes → Option F) (jsmn_parse : Bytes → ℕ → JsmnResult) where
  -- The client with a full message stands between those before and those behind it.
  unfoldable pub process_client_fully_received_locked :
      List Conn → Client → Socket → List Conn → Received F
  unfolding close_client_locked parse_packet
  process_client_fully_received_locked before c s behind =
      let client : Client = record c { state = initial } in
      let clients = before ++ (conn client s ∷ behind) in
      if opcode client == 8
      then record {
        clients = close_client_locked client.fd clients;
        packet = none;
        written = (client.fd, close_header) ∷ [];
      }
      else record {
        clients = clients;
        packet = with_sender client.fd (parse_packet strtod jsmn_parse client.payload);
        written = [];
      }

  -- The loop, with the clients that it has passed.
  unfoldable pub recv_loop : List Conn → List Conn → Received F
  unfolding process_client is_full process_client_fully_received_locked
  recv_loop passed [] = record { clients = passed; packet = none; written = [] }
  recv_loop passed (c ∷ cs) =
      let p = process_client c.client c.socket in
      let without = recv_loop passed cs in
      let next = recv_loop (passed ++ (conn p.client p.socket ∷ [])) cs in
      if not p.alive
      then without
      else if is_full p.client.state
      then process_client_fully_received_locked passed p.client p.socket cs
      else next

  unfoldable pub recv_iter : List Conn → Received F
  unfolding recv_loop
  recv_iter clients = recv_loop [] clients
