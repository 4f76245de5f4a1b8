-- ===== src/Protocol/Send/Effects.antt =====
-- What the sends change: the queue, within its length, and the counter; nothing else.
use rb3201_rbprotocol_librar.Prelude.{
  ◌+◌, ◌%◌, ◌^◌, ◌≤◌, ◌≡◌, refl, ◌⊎◌, inl, inr, true, false, some, Option, List, [], ◌∷◌, ◌++◌,
  Bytes, codes, length, length-append, ltb, ltb→lt, Bool-cases, ◌==◌, arith, if◌then◌else◌,
}
use rb3201_rbprotocol_librar.Prelude.Int.{pos, ◌+ℤ◌, int32}
use rb3201_rbprotocol_librar.Json.Value.{Members, NumberOps, object, string, no_members}
use rb3201_rbprotocol_librar.Json.Object.{set}
use rb3201_rbprotocol_librar.Json.Text.{serialize}
use rb3201_rbprotocol_librar.Protocol.State.{
  ProtocolAddr, QueueItem, Protocol, uint32_max, queue_length, is_addr_empty,
}
use rb3201_rbprotocol_librar.Protocol.Send.{
  send_buf, stamp, count_write, send_object, enqueue_mustarrive, mustarrive_packet, send_mustarrive,
  send_log,
}

module _ {F : Type 0} (nums : NumberOps F) where
  -- The queue after an item was offered to it.
  abbrev pub offer : List QueueItem → QueueItem → List QueueItem
  offer items it = if ltb (length items) queue_length then items ++ (it ∷ []) else items

  -- The item that carries an object.
  abbrev pub carrier : ProtocolAddr → Members F → QueueItem
  carrier addr obj =
      let buf = serialize nums (object obj) in
      record { addr = addr; buf = buf; size = length buf % 2 ^ 16 }

  serialize_not_empty : (obj : Members F) → (length (serialize nums (object obj)) == 0) ≡ false
  unfolding serialize
  serialize_not_empty obj = ground arith

  pub send_buf-eq :
      (p : Protocol F) (addr : ProtocolAddr) (obj : Members F)
      → send_buf nums p addr (serialize nums (object obj))
        ≡ record p { send_queue = offer p.send_queue (carrier addr obj) }
  unfolding send_buf
  send_buf-eq p addr obj = elim (Bool-cases (ltb (length p.send_queue) queue_length)) [
    | inl e ↦ rw (e, serialize_not_empty obj)
    | inr e ↦ rw (e, serialize_not_empty obj)
  ]

  -- `send(addr, obj)` counts the write and offers one item, with the counter before it, to the
  -- queue.
  pub send_object-eq :
      (p : Protocol F) (addr : ProtocolAddr) (obj : Members F)
      → send_object nums p addr obj ≡ record p {
        write_counter = int32 (p.write_counter +ℤ pos 1);
        send_queue = offer p.send_queue (carrier addr (stamp nums p obj));
      }
  unfolding send_object
  send_object-eq p addr obj = send_buf-eq (count_write p) addr (stamp nums p obj)

  pub enqueue_mustarrive-eq :
      (p : Protocol F) (addr : ProtocolAddr) (obj : Members F)
      → enqueue_mustarrive nums p addr obj ≡ record p {
        mustarrive_e = (p.mustarrive_e + 1) % 2 ^ 32;
        mustarrive_queue =
            p.mustarrive_queue
            ++ (record { pkt = stamp nums p obj; id = p.mustarrive_e; attempts = 0 } ∷ []);
        write_counter = int32 (p.write_counter +ℤ pos 1);
        send_queue = offer p.send_queue (carrier addr (stamp nums p obj));
      }
  unfolding enqueue_mustarrive stamp
  enqueue_mustarrive-eq p addr obj = send_object-eq _ addr obj

  pub offer-le :
      (items : List QueueItem) (it : QueueItem)
      → length items ≤ queue_length
      → length (offer items it) ≤ queue_length
  offer-le items it h = elim (Bool-cases (ltb (length items) queue_length)) [
    | inl e ↦ rw e (omega (arith, length-append items (it ∷ []), ltb→lt _ _ e))
    | inr e ↦ rw e h
  ]

  -- `send_mustarrive` either finds no address and does nothing, or enqueues its packet.
  pub send_mustarrive-cases :
      (p : Protocol F) (cmd : Bytes) (params : Option (Members F))
      → ((is_addr_empty p.possessed_addr ≡ true)
          × (send_mustarrive nums p cmd params ≡ (p, uint32_max)))
        ⊎ ((is_addr_empty p.possessed_addr ≡ false)
            × (send_mustarrive nums p cmd params ≡ (
              enqueue_mustarrive nums p p.possessed_addr (mustarrive_packet nums p cmd params),
              p.mustarrive_e,
            )))
  unfolding send_mustarrive
  send_mustarrive-cases p cmd params = elim (Bool-cases (is_addr_empty p.possessed_addr)) [
    | inl e ↦ inl (e, rw (e, send_mustarrive))
    | inr e ↦ inr (e, rw (e, send_mustarrive))
  ]

  pub send_log-send_mustarrive :
      (p : Protocol F) (text : Bytes)
      → send_log nums p text
        ≡ (send_mustarrive nums p
            (codes "log")
            (some (set no_members (codes "msg") (string text)))).0
  unfolding send_log
  send_log-send_mustarrive p text = refl
