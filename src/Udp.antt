-- ===== src/Udp.antt =====
-- src/rbprotocoludp.h, src/rbprotocoludp.cpp: `recv_iter` of the UDP backend.
pub mod Whole
use rb3201_rbprotocol_librar.Prelude.{
  ℕ, zero, suc, ◌+◌, min, Bool, true, false, not, Option, none, some, List, [], ◌∷◌, Bytes, length,
  take, ltb, if◌then◌else◌,
}
use rb3201_rbprotocol_librar.Json.Value.{Members}
use rb3201_rbprotocol_librar.Json.Parse.{JsmnResult, parse_packet}
use rb3201_rbprotocol_librar.Protocol.State.{ProtocolAddr, udp}

-- What `recvfrom` finds: nothing or an error, or a datagram with the address and port of its sender.
pub data Pending : Type 0 where
  no_message : Pending
  message : ℕ → ℕ → Bytes → Pending

-- The loop that peeks, on fuel: the size of the buffer grows by 16 until the datagram, which `recvfrom`
-- cuts to the buffer, leaves room in it. The result is the size and the bytes in the buffer.
unfoldable pub peek_loop : ℕ → ℕ → Bytes → ℕ × Bytes
peek_loop zero size datagram = (size, [])
peek_loop (suc fuel) size datagram =
    let received_len = min (length datagram) size in
    let again = peek_loop fuel (size + 16) datagram in
    if ltb received_len size then (size, take received_len datagram) else again

-- The packet that came from an address.
unfoldable pub from : {F : Type 0} → ℕ → ℕ → Option (Members F) → Option (ProtocolAddr × Members F)
from ip port none = none
from ip port (some pkt) = some (udp ip port, pkt)

module _ {F : Type 0} (strtod : Bytes → Option F) (jsmn_parse : Bytes → ℕ → JsmnResult) where
  -- `recv_iter` with a buffer of some size, on the messages that wait at the socket; the flag is
  -- whether the second `recvfrom`, which takes the message away, succeeds. The results are the size of
  -- the buffer, the messages left, and the packet.
  unfoldable pub recv_iter : ℕ → Pending → Bool → ℕ × Pending × Option (ProtocolAddr × Members F)
  unfolding peek_loop from parse_packet
  recv_iter size no_message pop_ok = (size, no_message, none)
  recv_iter size (message ip port datagram) pop_ok =
      let (grown, bytes) = peek_loop (suc (length datagram + 1)) size datagram in
      if not pop_ok
      then (grown, message ip port datagram, none)
      else (grown, no_message, from ip port (parse_packet strtod jsmn_parse bytes))
