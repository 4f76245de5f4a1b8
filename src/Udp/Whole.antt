-- ===== src/Udp/Whole.antt =====
-- A datagram is read whole, however small the buffer was.
use rb3201_rbprotocol_librar.Prelude.{
  ℕ, zero, suc, ◌+◌, ◌*◌, ◌%◌, ◌^◌, min, ◌≤◌, ◌<◌, ◌≡◌, refl, true, Option, some, [], ◌∷◌, Bytes,
  length, take_all, ltb, leb, ◌⊎◌, if◌then◌else◌, arith, Bool-cases, inl, inr, lt→ltb,
}
use rb3201_rbprotocol_librar.Json.Value.{Members, NumberOps, object}
use rb3201_rbprotocol_librar.Json.Text.{serialize}
use rb3201_rbprotocol_librar.Json.Parse.{JsmnResult, tokens, nomem, parse_packet, packet_of}
use rb3201_rbprotocol_librar.Json.Parse.Layout.{tokens_of}
use rb3201_rbprotocol_librar.Json.Parse.Steps.{IsPrintable}
use rb3201_rbprotocol_librar.Json.Parse.RoundTrip.{parse-serialize}
use rb3201_rbprotocol_librar.Protocol.State.{Protocol, udp}
use rb3201_rbprotocol_librar.Protocol.Send.Effects.{carrier}
use rb3201_rbprotocol_librar.Protocol.Tasks.{send_item, datagram}
use rb3201_rbprotocol_librar.Udp.{message, no_message, peek_loop, from, recv_iter}

-- A buffer that is large enough, and no larger than it has to be.
abbrev pub IsFit : ℕ → ℕ → ℕ → Type 0
IsFit len size grown = (len < grown) × ((grown ≡ size) ⊎ (grown ≤ len + 16))

peek_loop-IsFit :
    (fuel size : ℕ) (message_text : Bytes)
    → length message_text < size + 16 * fuel
    → (grown : ℕ) × (peek_loop (suc fuel) size message_text ≡ (grown, message_text))
      × IsFit (length message_text) size grown
unfolding peek_loop
peek_loop-IsFit zero size message_text h =
    let short : length message_text < size = omega arith in
    let all : min (length message_text) size ≡ length message_text = omega arith in
    (
      size,
      rw
          (
            all,
            lt→ltb (length message_text) size short,
            take_all (length message_text) message_text (omega arith),
          )
          refl,
      (short, inl refl),
    )
peek_loop-IsFit (suc fuel) size message_text h =
    elim (Bool-cases (ltb (min (length message_text) size) size)) [
      | inl fits ↦
          let short : length message_text < size = ground arith in
          let all : min (length message_text) size ≡ length message_text = omega arith in
          (
            size,
            rw (fits, all, take_all (length message_text) message_text (omega arith)) refl,
            (short, inl refl),
          )
      | inr full ↦
          let long : size ≤ length message_text = ground arith in
          let (grown, e, (room, near)) =
            peek_loop-IsFit fuel (size + 16) message_text (omega arith) in
          (grown, rw (full, peek_loop, e) refl, (room, inr (omega arith)))
    ]

-- Receiving a datagram from a peer gives the packet that the parser finds in the whole of it, with
-- the peer's address, and takes it away. The buffer, of whatever size it was, is as large as the datagram
-- needs, and grows past that by at most 16 bytes.
pub recv_iter_whole :
    {F : Type 0} (strtod : Bytes → Option F) (jsmn_parse : Bytes → ℕ → JsmnResult)
    (size ip port : ℕ) (message_text : Bytes)
    → (grown : ℕ) × (recv_iter strtod jsmn_parse size (message ip port message_text) true
        ≡ (grown, no_message, from ip port (parse_packet strtod jsmn_parse message_text)))
      × IsFit (length message_text) size grown
unfolding recv_iter
recv_iter_whole strtod jsmn_parse size ip port message_text =
    let (grown, e, fit) =
      peek_loop-IsFit (length message_text + 1) size message_text (omega arith) in
    (grown, rw e refl, fit)

-- A packet that waits in the send queue for a UDP peer goes out as one datagram, and a device that
-- receives this datagram handles the packet as it was sent. The packet prints to fewer than 65536
-- bytes and at most 64 tokens; its names are in order, names and strings hold no byte that is escaped,
-- a name has at most 254 bytes, and the text of each number reads back. jsmn returns the tokens of
-- the text where they fit, and JSMN_ERROR_NOMEM where they do not.
pub recv_iter-send_item :
    {F : Type 0} (nums : NumberOps F) (strtod : Bytes → Option F)
    (jsmn_parse : Bytes → ℕ → JsmnResult) (p : Protocol F) (ms : Members F)
    (ip port size ip' port' : ℕ)
    → p.has_udp ≡ true
    → IsPrintable nums strtod (object ms)
    → length (serialize nums (object ms)) < 2 ^ 16
    → length (tokens_of nums 0 (object ms)) ≤ 64
    → ((n : ℕ)
        → jsmn_parse (serialize nums (object ms)) n ≡ (
            if leb (length (tokens_of nums 0 (object ms))) n
            then tokens (tokens_of nums 0 (object ms))
            else nomem))
    → (text : Bytes) × (send_item nums p (udp ip port) (carrier nums (udp ip port) ms)
        ≡ datagram ip port text ∷ [])
      × ((recv_iter strtod jsmn_parse size (message ip' port' text) true).2
          ≡ some (udp ip' port', ms))
unfolding send_item parse_packet packet_of from
recv_iter-send_item nums strtod jsmn_parse p ms ip port size ip' port' on h short few jsmn =
    let text = serialize nums (object ms) in
    let cut : length text % 2 ^ 16 ≡ length text = omega arith in
    let fits : leb (length (tokens_of nums 0 (object ms))) 64 ≡ true = ground arith in
    let (grown, e, fit) = recv_iter_whole strtod jsmn_parse size ip' port' text in
    let read = rw fits at (parse-serialize nums strtod jsmn_parse ms h jsmn) in
    (text, rw (on, cut, take_all (length text) text (omega arith)) refl, rw (e, read) refl)
