-- ===== src/Ws/Link/Queue.antt =====
-- A queued message reaches its client as one frame, or the client is dropped.
use mathlib.Core.List.{append-nil}
use rb3201_rbprotocol_librar.Prelude.{
  ℕ, ◌^◌, ◌<◌, ◌≡◌, refl, Bool, true, false, some, List, [], ◌∷◌, ◌++◌, Bytes, All, length,
  append_assoc, ◌&&◌, if◌then◌else◌,
}
use rb3201_rbprotocol_librar.Ws.Frame.{frame_header}
use rb3201_rbprotocol_librar.Ws.Frame.Read.{read_frame, read_frame-frame_header}
use rb3201_rbprotocol_librar.Ws.Clients.{Conn, close_client_locked}
use rb3201_rbprotocol_librar.Ws.Clients.Ready.{IsReady, close_client_locked-All}
use rb3201_rbprotocol_librar.Ws.Link.{send_from_queue}

-- The bytes that go to the socket one after the other.
abbrev pub joined : List Bytes → Bytes
joined [] = []
joined (b ∷ bs) = b ++ joined bs

-- Where both sends succeed, the clients stay as they are, and a reader of frames finds exactly the message
-- in what was handed to the socket, with anything that follows it; where one fails, the client with
-- that descriptor is taken out. Clients that wait for a state that `process_client` handles still do.
-- The message has fewer than 65536 bytes.
pub send_from_queue-read_frame :
    (clients : List Conn) (fd : ℕ) (buf rest : Bytes) (header_sent payload_sent : Bool)
    → length buf < 2 ^ 16
    → All IsReady clients
    → All IsReady (send_from_queue clients fd buf header_sent payload_sent).0
      × ((send_from_queue clients fd buf header_sent payload_sent).0
          ≡ (if header_sent && payload_sent then clients else close_client_locked fd clients))
      × (read_frame (joined (send_from_queue clients fd buf true true).1 ++ rest)
          ≡ some (buf, rest))
unfolding send_from_queue
send_from_queue-read_frame clients fd buf rest header_sent payload_sent small ready =
    (kept header_sent payload_sent, same header_sent payload_sent, read)
  where
    read : read_frame ((frame_header (length buf) ++ (buf ++ [])) ++ rest) ≡ some (buf, rest)
    read =
        rw (append-nil buf, append_assoc (frame_header (length buf)) buf rest)
          (read_frame-frame_header buf rest small)

    kept : (h p : Bool) → All IsReady (send_from_queue clients fd buf h p).0
    kept false p = close_client_locked-All fd clients ready
    kept true false = close_client_locked-All fd clients ready
    kept true true = ready

    same :
        (h p : Bool)
        → (send_from_queue clients fd buf h p).0
          ≡ (if h && p then clients else close_client_locked fd clients)
    same false p = refl
    same true false = refl
    same true true = refl
