-- ===== src/Protocol/Send.antt =====
-- The overloads of `send`, `send_mustarrive` and `send_log`.
pub mod Effects
use rb3201_rbprotocol_librar.Prelude.{
  ℕ, suc, ◌+◌, ◌-◌, ◌%◌, ◌^◌, Bool, true, false, Option, none, some, List, [], ◌∷◌, ◌++◌, Bytes,
  codes, length, take, ltb, leb, ◌==◌, if◌then◌else◌,
}
use rb3201_rbprotocol_librar.Prelude.Int.{ℤ, pos, negsuc, ◌+ℤ◌, int32}
use rb3201_rbprotocol_librar.Json.Value.{
  Value, Members, NumberOps, object, string, number, no_members,
}
use rb3201_rbprotocol_librar.Json.Key.{strdup}
use rb3201_rbprotocol_librar.Json.Object.{set}
use rb3201_rbprotocol_librar.Json.Text.{serialize}
use rb3201_rbprotocol_librar.Protocol.State.{
  ProtocolAddr, QueueItem, MustArrive, Protocol, uint32_max, queue_length, get_possessed_addr,
}

-- `vsnprintf(buf, size, fmt, args)` stores the text, cut to leave room for the terminator.
abbrev pub vsnprintf : ℕ → Bytes → Bytes
vsnprintf size text = take (size - 1) text

-- `send_log(fmt, args)` down to the string that it passes on, where `text` is the whole text that
-- the format stands for. The second read of `args` is taken to see the same arguments.
unfoldable pub log_text : Bytes → Bytes
log_text text =
    let fmt_len = length text in
    if leb 256 fmt_len then strdup (vsnprintf (fmt_len + 1) text) else strdup (vsnprintf 256 text)

module _ {F : Type 0} where
  -- `obj == NULL`: a new object.
  unfoldable pub or_new : Option (Members F) → Members F
  or_new none = no_members
  or_new (some obj) = obj

  -- `m_write_counter++`
  unfoldable pub count_write : Protocol F → Protocol F
  count_write p = record p { write_counter = int32 (p.write_counter +ℤ pos 1) }

module _ {F : Type 0} (nums : NumberOps F) where
  -- `send(addr, buf, size)`: the item is dropped if the queue stays full.
  unfoldable pub send_buf : Protocol F → ProtocolAddr → Bytes → Protocol F
  send_buf p addr buf =
      let it : QueueItem = record { addr = addr; buf = buf; size = length buf % 2 ^ 16 } in
      if length buf == 0
      then p
      else if ltb (length p.send_queue) queue_length
      then record p { send_queue = p.send_queue ++ (it ∷ []) }
      else p

  -- `obj->set("n", new Number(n))`
  unfoldable pub stamp : Protocol F → Members F → Members F
  stamp p obj = set obj (codes "n") (number (nums.of_int p.write_counter))

  -- `send(addr, obj)`. The caller's object keeps the counter: it is `stamp p obj` from then on.
  unfoldable pub send_object : Protocol F → ProtocolAddr → Members F → Protocol F
  unfolding stamp count_write send_buf
  send_object p addr obj = send_buf (count_write p) addr (serialize nums (object (stamp p obj)))

  -- `send(addr, cmd, obj)`
  unfoldable pub send_command : Protocol F → ProtocolAddr → Bytes → Option (Members F) → Protocol F
  unfolding or_new send_object
  send_command p addr cmd obj = send_object p addr (set (or_new obj) (codes "c") (string cmd))

  -- `send(cmd, obj)`
  unfoldable pub send : Protocol F → Bytes → Option (Members F) → Protocol F
  unfolding get_possessed_addr send_command
  send p cmd obj = elim (get_possessed_addr p) [
    | none ↦ p
    | some addr ↦ send_command p addr cmd obj
  ]

  -- The packet of a must-arrive message with its command and its id.
  unfoldable pub mustarrive_packet : Protocol F → Bytes → Option (Members F) → Members F
  unfolding or_new
  mustarrive_packet p cmd params =
      set (set (or_new params) (codes "c") (string cmd)) (codes "e")
        (number (nums.of_int (pos p.mustarrive_e)))

  -- The part of `send_mustarrive` under its mutex. The entry of the queue is the object that `send`
  -- then stamps, so it holds the stamped packet.
  unfoldable pub enqueue_mustarrive : Protocol F → ProtocolAddr → Members F → Protocol F
  unfolding send_object
  enqueue_mustarrive p addr params =
      let mr : MustArrive F = record { pkt = stamp p params; id = p.mustarrive_e; attempts = 0 } in
      send_object
        (record p {
          mustarrive_e = (p.mustarrive_e + 1) % 2 ^ 32;
          mustarrive_queue = p.mustarrive_queue ++ (mr ∷ []);
        })
        addr params

  unfoldable pub send_mustarrive : Protocol F → Bytes → Option (Members F) → Protocol F × ℕ
  unfolding get_possessed_addr enqueue_mustarrive mustarrive_packet
  send_mustarrive p cmd params = elim (get_possessed_addr p) [
    | none ↦ (p, uint32_max)
    | some addr ↦ (enqueue_mustarrive p addr (mustarrive_packet p cmd params), p.mustarrive_e)
  ]

  -- `send_log(str)`
  unfoldable pub send_log : Protocol F → Bytes → Protocol F
  unfolding send_mustarrive
  send_log p str =
      (send_mustarrive p (codes "log") (some (set no_members (codes "msg") (string str)))).0
