-- ===== src/Tests/Ws.antt =====
-- A Websocket client and frames on concrete inputs.
use rb3201_rbprotocol_librar.Json.Parse.{JsmnResult, tokens, jsmn_object}
use rb3201_rbprotocol_librar.Json.Parse.Layout.{token}
use rb3201_rbprotocol_librar.Ws.Clients.{
  Conn, conn, add_client, close_client_locked, recv_iter, is_full,
}
use rb3201_rbprotocol_librar.Ws.Clients.Ready.{IsReady}
use rb3201_rbprotocol_librar.Prelude.{
  ℕ, All, List, Option, ◌≡◌, refl, true, false, some, none, [], ◌∷◌, ◌++◌, Bytes, codes, arith,
}
use rb3201_rbprotocol_librar.Ws.Link.{send_from_queue}
use rb3201_rbprotocol_librar.Ws.Link.Runs.{started, added, polled, sent, Run-IsReady}
use rb3201_rbprotocol_librar.Ws.Link.Queue.{joined, send_from_queue-read_frame}
use rb3201_rbprotocol_librar.Ws.Frame.Read.{read_frame}
use rb3201_rbprotocol_librar.Ws.Client.{
  mask, fully_received, arrived, progress, new_client, unmask_from,
}
use rb3201_rbprotocol_librar.Ws.Client.Message.{polls, polls-client_frame}

abbrev key : Bytes
key = 1 ∷ 2 ∷ 3 ∷ 4 ∷ []

-- "Hello" under the key, and one byte of the next frame.
polls-client_frame_example :
    polls 3 (new_client 7) (arrived (0x81 ∷ 133 ∷ 1 ∷ 2 ∷ 3 ∷ 4 ∷ (codes "Igohn" ++ (0x81 ∷ []))))
    ≡ progress
        (record (new_client 7) {
          flags = 0x81;
          masking_key = key;
          payload = codes "Hello";
          state = fully_received;
        })
        (arrived (0x81 ∷ []))
        true
unfolding new_client unmask_from
polls-client_frame_example =
    polls-client_frame (new_client 7) 0x81 key (codes "Igohn") (0x81 ∷ []) refl (omega arith)
      (omega arith)

-- A tokeniser that finds the one empty object.
abbrev one_object : Bytes → ℕ → JsmnResult
one_object buf n = tokens (token jsmn_object 0 2 0 ∷ [])

abbrev no_number : Bytes → Option ℕ
no_number s = none

-- The one client waits for the key of an empty last frame.
abbrev waiting : List Conn
waiting = conn (record (new_client 7) { flags = 0x81; state = mask }) (arrived key) ∷ []

-- A client joins, its last frame is read, and a message to it fails.
abbrev joins : List Conn
joins = add_client [] 7 (arrived (0x81 ∷ 128 ∷ key))

abbrev polled_once : List Conn
polled_once = (recv_iter no_number one_object joins).clients

Run-IsReady_example : All IsReady (send_from_queue polled_once 7 (codes "hi") true false).0
Run-IsReady_example =
    Run-IsReady no_number one_object (send_from_queue polled_once 7 (codes "hi") true false).0 (
      sent polled_once 7 (codes "hi") true false
        (polled joins (added [] 7 (arrived (0x81 ∷ 128 ∷ key)) started)))

-- The second send to the client fails, and it is taken out.
send_from_queue-read_frame_example :
    All IsReady (send_from_queue waiting 7 (codes "hi") true false).0
    × ((send_from_queue waiting 7 (codes "hi") true false).0 ≡ [])
    × (read_frame (joined (send_from_queue waiting 7 (codes "hi") true true).1 ++ (5 ∷ []))
        ≡ some (codes "hi", 5 ∷ []))
unfolding is_full new_client close_client_locked
send_from_queue-read_frame_example =
    send_from_queue-read_frame waiting 7 (codes "hi") (5 ∷ []) true false (omega arith) (refl, tt)
