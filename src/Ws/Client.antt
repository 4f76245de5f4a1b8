-- ===== src/Ws/Client.antt =====
-- One client of the Websocket backend: `read_at_least`, `process_client_header`, `process_client`.
pub mod Payload
pub mod Message
use rb3201_rbprotocol_librar.Prelude.{
  ℕ, zero, suc, ◌+◌, ◌-◌, ◌*◌, ◌/◌, ◌%◌, ◌^◌, min, Bool, true, false, not, [], ◌∷◌, ◌++◌, Bytes,
  length, take, drop, replicate, get_or, ltb, leb, ◌==◌, if◌then◌else◌, bit_xor,
}

pub data ClientState : Type 0 where
  initial len1 mask payload_data fully_received : ClientState

pub record Client : Type 0 where
  pub payload : Bytes
  pub masking_key : Bytes
  pub remaining_payload_len : ℕ
  pub fd : ℕ
  pub flags : ℕ
  pub state : ClientState

-- What the socket holds: the bytes that arrived and were not read, or an error of `recv`. A socket
-- with no bytes, open or closed by the peer, is `arrived []`.
pub data Socket : Type 0 where
  broken : Socket
  arrived : Bytes → Socket

-- The constructor.
unfoldable pub new_client : ℕ → Client
new_client fd = record {
  payload = [];
  masking_key = replicate 4 0;
  remaining_payload_len = 0;
  fd = fd;
  flags = 0;
  state = initial;
}

-- `flags >> 7`, `flags & 0xF`
abbrev pub fin : Client → Bool
fin c = leb 1 (c.flags / 128)

abbrev pub opcode : Client → ℕ
opcode c = c.flags % 16

-- The result of `read_at_least`: -1, 0 with the bytes that the peek left in the buffer, or the bytes
-- read with what is left on the socket.
pub data ReadResult : Type 0 where
  failed : ReadResult
  too_few : Bytes → ReadResult
  got : Bytes → Bytes → ReadResult

unfoldable pub read_at_least : Socket → ℕ → ReadResult
read_at_least broken n = failed
read_at_least (arrived bytes) n =
    if ltb (length bytes) n then too_few bytes else got (take n bytes) (drop n bytes)

-- A client and its socket after a call; the flag is false for the result -1.
pub record Progress : Type 0 where
  pub client : Client
  pub socket : Socket
  pub alive : Bool

abbrev pub progress : Client → Socket → Bool → Progress
progress c s b = record { client = c; socket = s; alive = b }

-- `buf[0]`, `buf[1]` of the two bytes read.
abbrev pub byte : Bytes → ℕ → ℕ
byte buf i = get_or buf i 0

unfoldable pub process_client_header : Client → Bytes → Client × Bool
process_client_header c buf =
    let len0 = byte buf 1 % 128 in
    let flagged : Client = record c { flags = byte buf 0 } in
    if byte buf 1 / 128 == 0 then (flagged, false) else if leb 127 len0 then (flagged, false) else (
      record flagged {
        remaining_payload_len = if ltb len0 126 then len0 else c.remaining_payload_len;
        state = if ltb len0 126 then mask else len1;
        payload = if not (opcode flagged == 0) then [] else c.payload;
      },
      true,
    )

-- The `for` loop over the bytes of one read: byte `i` is combined with key byte `i % 4`.
unfoldable pub unmask_from : ℕ → Bytes → Bytes → Bytes
unmask_from i key [] = []
unmask_from i key (b ∷ bs) = bit_xor b (get_or key (i % 4) 0) ∷ unmask_from (i + 1) key bs

-- `payload[payload_idx] = …; ++payload_idx` for each of the bytes.
unfoldable pub overwrite : ℕ → Bytes → Bytes → Bytes
overwrite at bs payload = take at payload ++ (bs ++ drop (at + length bs) payload)

-- The state behind a finished payload.
abbrev pub finished : Client → ClientState
finished c = if fin c then fully_received else initial

-- The loop of `ClientState::DATA`, on fuel: each round reads at least one byte.
unfoldable pub data_loop : ℕ → Client → Socket → Progress
unfolding read_at_least unmask_from overwrite
data_loop zero c s = progress c s true
data_loop (suc fuel) c s = elim (read_at_least s (min c.remaining_payload_len 64)) [
  | failed ↦ progress c s false
  | too_few peeked ↦ progress c s true
  | got bs rest ↦
      let at = (length c.payload - c.remaining_payload_len) % 2 ^ 16 in
      let left = c.remaining_payload_len - length bs in
      let filled : Client = record c {
        payload = overwrite at (unmask_from 0 c.masking_key bs) c.payload;
        remaining_payload_len = left;
      } in
      let again = data_loop fuel filled (arrived rest) in
      if left == 0
      then progress (record filled { state = finished c }) (arrived rest) true
      else again
]

-- `case ClientState::MASK` with the key read.
unfoldable pub process_mask : Client → Bytes → Bytes → Progress
process_mask c key rest =
    let keyed : Client = record c { masking_key = key } in
    let total_payload_size = length c.payload + c.remaining_payload_len in
    if c.remaining_payload_len == 0
    then progress (record keyed { state = finished c }) (arrived rest) true
    else if ltb (32 * 1024) total_payload_size
    then progress keyed (arrived rest) false
    else progress
        (record keyed {
          payload = c.payload ++ replicate c.remaining_payload_len 0;
          state = payload_data;
        })
        (arrived rest) true

unfoldable pub process_client : Client → Socket → Progress
unfolding read_at_least process_client_header process_mask data_loop
process_client c s = elim c.state [
  | initial ↦ elim (read_at_least s 2) [
    | failed ↦ progress c s false
    | too_few peeked ↦ progress c s true
    | got buf rest ↦ let (d, alive) = process_client_header c buf in progress d (arrived rest) alive
  ]
  | len1 ↦ elim (read_at_least s 2) [
    | failed ↦ progress c s false
    | too_few peeked ↦ progress c s true
    | got buf rest ↦
        progress (record c { remaining_payload_len = byte buf 0 * 256 + byte buf 1; state = mask })
          (arrived rest) true
  ]
  | mask ↦ elim (read_at_least s 4) [
    | failed ↦ progress c s false
    | too_few peeked ↦ progress (record c { masking_key = overwrite 0 peeked c.masking_key }) s true
    | got key rest ↦ process_mask c key rest
  ]
  | payload_data ↦ data_loop (c.remaining_payload_len + 1) c s
  | fully_received ↦ progress (record c { state = initial }) s true
]
