-- ===== src/Dns/Server.antt =====
-- src/rbdns.h and src/rbdns.cpp: the start and the stop of the DNS responder, and its task.
pub mod Questions
pub mod Reached
use rb3201_rbprotocol_librar.Prelude.{
  ℕ, zero, suc, ◌+◌, ◌-◌, ◌*◌, ◌/◌, ◌%◌, ◌^◌, min, Bool, true, false, not, Option, none, some, List,
  [], ◌∷◌, ◌++◌, Bytes, length, take, replicate, ltb, leb, ◌==◌, if◌then◌else◌,
}
use rb3201_rbprotocol_librar.Net.{Effect, closed}
use rb3201_rbprotocol_librar.Dns.{
  dns_msg_size_limit, answer_size, word_at, Outcome, undefined, ignored, done, process_dns_question,
}

-- The members of `DnsServer`. `F` is the type of the functions that give the address; `tasks` is the number of
-- bodies of its task that run.
pub record DnsServer (F : Type 0) : Type 0 where
  pub local_hostname : Bytes
  pub get_local_ip : Option F
  pub socket : Option ℕ
  pub has_task : Bool
  pub tasks : ℕ

-- What `socket` gives, and whether `bind` succeeds.
pub record Binding : Type 0 where
  pub fd : Option ℕ
  pub bound : Bool

unfoldable pub close_socket : Option ℕ → List Effect
close_socket none = []
close_socket (some fd) = closed fd ∷ []

module _ {F : Type 0} where
  -- `DnsServer::DnsServer`
  abbrev pub new_server : DnsServer F
  new_server = record {
    local_hostname = [];
    get_local_ip = none;
    socket = none;
    has_task = false;
    tasks = 0;
  }

  unfoldable pub or_default : F → Option F → F
  or_default wifi_ip none = wifi_ip
  or_default wifi_ip (some f) = f

  unfoldable pub start_with : DnsServer F → Option ℕ → Bool → DnsServer F × List Effect
  start_with s none bound = (record s { socket = none }, [])
  start_with s (some fd) bound =
      if not bound
      then (record s { socket = none }, closed fd ∷ [])
      else (record s { socket = some fd; has_task = true; tasks = s.tasks + 1 }, [])

  -- `start`, where `wifi_ip` is `WiFi::getIp`.
  unfoldable pub start : F → DnsServer F → Bytes → Option F → Binding → DnsServer F × List Effect
  start wifi_ip s hostname get_ip b =
      if s.has_task
      then (s, [])
      else start_with
          (record s { local_hostname = hostname; get_local_ip = some (or_default wifi_ip get_ip) })
          b.fd b.bound

  unfoldable pub stop : DnsServer F → DnsServer F × List Effect
  stop s =
      if not s.has_task
      then (s, [])
      else (record s { socket = none; has_task = false }, close_socket s.socket)

-- What the second `recvfrom` of `receivePacket` says.
pub data Pop : Type 0 where
  popped pop_ebadf pop_failure : Pop

-- What the first one finds: nothing yet, EBADF as on a socket that is closed, another error, or a datagram.
pub data Poll : Type 0 where
  nothing ebadf failure : Poll
  datagram : Bytes → Pop → Poll

-- The results of `receivePacket`: it waits for more, -EBADF, -1, or the bytes of a packet, with the size of the
-- buffer and what is still to come.
pub data Packet : Type 0 where
  waits : Packet
  no_socket : Packet
  no_packet : ℕ → List Poll → Packet
  packet : Bytes → ℕ → List Poll → Packet

-- The size of the buffer behind the loop of `receivePacket` for a datagram of `len` bytes, and the number of bytes that
-- `recvfrom` gave: those that fit.
unfoldable pub peek_size : ℕ → ℕ → ℕ → ℕ × ℕ
peek_size zero size len = (size, min len size)
peek_size (suc fuel) size len =
    let msg_size = min len size in
    let more = peek_size fuel msg_size len in
    if leb msg_size size
    then (size, msg_size)
    else if ltb dns_msg_size_limit msg_size
    then (size, msg_size)
    else more

unfoldable pub pop_packet : Bytes → ℕ × ℕ → Pop → List Poll → Packet
pop_packet message (size, msg_size) pop_ebadf polls = no_socket
pop_packet message (size, msg_size) pop_failure polls = no_packet size polls
pop_packet message (size, msg_size) popped polls =
    if ltb dns_msg_size_limit msg_size
    then no_packet size polls
    else packet (take msg_size message) size polls

unfoldable pub receive_packet : List Poll → ℕ → Packet
receive_packet [] size = waits
receive_packet (nothing ∷ polls) size = receive_packet polls size
receive_packet (ebadf ∷ polls) size = no_socket
receive_packet (failure ∷ polls) size = no_packet size polls
receive_packet (datagram message pop ∷ polls) size =
    pop_packet message (peek_size 2 size (length message)) pop polls

-- The size of the buffer behind `processDnsQuestion`.
unfoldable pub processed_size : Bytes → ℕ → ℕ
processed_size buff req_size =
    let full_reply_len = word_at buff 4 * answer_size + req_size in
    if not ((word_at buff 2 / 2 ^ 11) % 16 == 0)
    then length buff
    else if ltb dns_msg_size_limit full_reply_len
    then length buff
    else length buff + (full_reply_len - length buff)

-- What `sendto` says.
pub data SendResult : Type 0 where
  replied reply_ebadf reply_failure : SendResult

-- What the task has sent when it ends, waits for more, has undefined behaviour, or has used up its fuel.
pub data Run : Type 0 where
  ended waiting undefined_behaviour unfinished : List Bytes → Run

unfoldable pub after_reply : Bytes → Run → Run
after_reply b (ended bs) = ended (b ∷ bs)
after_reply b (waiting bs) = waiting (b ∷ bs)
after_reply b (undefined_behaviour bs) = undefined_behaviour (b ∷ bs)
after_reply b (unfinished bs) = unfinished (b ∷ bs)

-- A reply is sent, and the task goes on unless the socket is closed.
unfoldable pub send_reply : Bytes → SendResult → Run → Run
send_reply b replied later = after_reply b later
send_reply b reply_ebadf later = ended []
send_reply b reply_failure later = later

-- The loop of `taskBody` on fuel, one packet each round, with the address for each packet, and what `sendto` will say for it.
unfoldable pub task_body : ℕ → ℕ → List Poll → (ℕ → Bytes) → (ℕ → SendResult) → Run
task_body zero size polls ip sendto = unfinished []
task_body (suc fuel) size polls ip sendto = elim (receive_packet polls size) [
  | waits ↦ waiting []
  | no_socket ↦ ended []
  | no_packet size' rest ↦ task_body fuel size' rest ip sendto
  | packet message size' rest ↦
      let buff = message ++ replicate (size' - length message) 0 in
      let later = task_body fuel (processed_size buff (length message)) rest ip sendto in
      elim (process_dns_question buff (length message) (ip fuel)) [
        | undefined ↦ undefined_behaviour []
        | ignored ↦ later
        | done (reply, reply_size) ↦ send_reply (take reply_size reply) (sendto fuel) later
      ]
]
