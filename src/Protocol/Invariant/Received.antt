-- ===== src/Protocol/Invariant/Received.antt =====
-- The invariant of `Protocol`, and that a message sent and a packet received keep it.
use rb3201_rbprotocol_librar.Prelude.{
  ℕ, ◌+◌, ◌%◌, ◌^◌, ◌≤◌, ◌<◌, ◌≡◌, refl, ap, ◌⊎◌, inl, inr, Bool, false, ◌||◌, some, Option, [],
  Bytes, codes, length, Bool-cases, arith,
}
use rb3201_rbprotocol_librar.Json.Value.{Members, NumberOps, no_members, string}
use rb3201_rbprotocol_librar.Json.Object.{set, contains}
use rb3201_rbprotocol_librar.Json.Key.Order.{equal_bytes}
use rb3201_rbprotocol_librar.Protocol.State.{ProtocolAddr, Protocol, queue_length, is_addr_empty}
use rb3201_rbprotocol_librar.Protocol.Send.{
  send_object, stamp, mustarrive_packet, send_mustarrive, send_log, log_text,
}
use rb3201_rbprotocol_librar.Protocol.Send.Effects.{
  send_buf-eq, send_object-eq, enqueue_mustarrive-eq, offer-le, send_mustarrive-cases, carrier,
}
use rb3201_rbprotocol_librar.Protocol.Handle.{
  handle_msg, handle_counted, take_possession, confirm, deliver, confirm_packet, found_packet,
  possessed_text, is_possess, counter_of, command, is_repeated, e_of, erase_id,
}
use rb3201_rbprotocol_librar.Protocol.Handle.Stages.{accept_counter-cases}
use rb3201_rbprotocol_librar.Protocol.Invariant.Entries.{Ordered, Ordered-snoc, Ordered-erase_id}

module _ {F : Type 0} where
  pub record Inv (p : Protocol F) : Type 0 where
    pub bounded : length p.send_queue ≤ queue_length
    pub ordered : Ordered 0 p.mustarrive_e p.mustarrive_queue
    pub owned : (p.mustarrive_queue ≡ []) ⊎ (is_addr_empty p.possessed_addr ≡ false)

  -- The invariant, with the next id at most `k`.
  abbrev pub Good : ℕ → Protocol F → Type 0
  Good k p = Inv p × (p.mustarrive_e ≤ k)

  still_owned :
      (p : Protocol F) (e : ℕ)
      → (p.mustarrive_queue ≡ []) ⊎ (is_addr_empty p.possessed_addr ≡ false)
      → (erase_id e p.mustarrive_queue ≡ []) ⊎ (is_addr_empty p.possessed_addr ≡ false)
  unfolding erase_id
  still_owned p e (inl z) = inl (ap (erase_id e) z)
  still_owned p e (inr h) = inr h

module _ {F : Type 0} (nums : NumberOps F) where
  pub send_object-Good :
      (k : ℕ) (p : Protocol F) (addr : ProtocolAddr) (obj : Members F)
      → Good k p
      → Good k (send_object nums p addr obj)
  send_object-Good k p addr obj (v, h) = rw (send_object-eq nums p addr obj) (
    record {
      bounded = offer-le nums p.send_queue (carrier nums addr (stamp nums p obj)) v.bounded;
      ordered = v.ordered;
      owned = v.owned;
    },
    h,
  )

  pub send_mustarrive-Good :
      (k : ℕ) (p : Protocol F) (cmd : Bytes) (params : Option (Members F))
      → Good k p
      → k + 1 < 2 ^ 32
      → Good (k + 1) (send_mustarrive nums p cmd params).0
  send_mustarrive-Good k p cmd params (v, h) room = elim (send_mustarrive-cases nums p cmd params) [
    | inl (e, s) ↦ rw s (v, omega arith)
    | inr (e, s) ↦
        let obj = mustarrive_packet nums p cmd params in
        let next : (p.mustarrive_e + 1) % 2 ^ 32 ≡ p.mustarrive_e + 1 = omega arith in
        rw (s, enqueue_mustarrive-eq nums p p.possessed_addr obj, next)
          (
            record {
              bounded =
                  offer-le nums p.send_queue (carrier nums p.possessed_addr (stamp nums p obj))
                    v.bounded;
              ordered = Ordered-snoc 0 p.mustarrive_e p.mustarrive_queue _ refl refl v.ordered;
              owned = inr e;
            },
            omega arith,
          )
  ]

  pub send_log-Good :
      (k : ℕ) (p : Protocol F) (text : Bytes)
      → Good k p
      → k + 1 < 2 ^ 32
      → Good (k + 1) (send_log nums p text)
  unfolding send_log
  send_log-Good k p text v room =
      send_mustarrive-Good k p (codes "log") (some (set no_members (codes "msg") (string text))) v
        room

  take_possession-Good :
      (k : ℕ) (p : Protocol F) (addr : ProtocolAddr) (possess : Bool)
      → Good k p
      → Good k (take_possession p addr possess)
  unfolding take_possession
  take_possession-Good k p addr possess (v, h) =
      elim (Bool-cases (is_addr_empty p.possessed_addr || possess)) [
        | inl e ↦
            rw e
              (record { bounded = v.bounded; ordered = omega arith; owned = inl refl }, omega arith)
        | inr e ↦ rw e (v, h)
      ]

  deliver-Good :
      (k : ℕ) (p : Protocol F) (pkt : Members F)
      → Good k p
      → k + 1 < 2 ^ 32
      → Good (k + 1) (deliver nums p pkt).0
  unfolding deliver
  deliver-Good k p pkt (v, h) room = elim (Bool-cases (is_possess pkt)) [
    | inl e ↦ rw e (send_log-Good k p (log_text (possessed_text p.name)) (v, h) room)
    | inr e ↦ rw e (v, omega arith)
  ]

  confirm-Good :
      (k : ℕ) (p : Protocol F) (addr : ProtocolAddr) (pkt : Members F)
      → Good k p
      → k + 1 < 2 ^ 32
      → Good (k + 1) (confirm nums p addr pkt).0
  unfolding confirm
  confirm-Good k p addr pkt (v, h) room =
      let (w, l) = send_object-Good k p addr (confirm_packet nums pkt) (v, h) in
      elim (Bool-cases (contains pkt (codes "f"))) [
        | inl f ↦ elim (Bool-cases (is_repeated nums p pkt)) [
          | inl e ↦ rw (f, e) (w, omega arith)
          | inr e ↦
              rw (f, e)
                (deliver-Good k _ pkt
                  (record { bounded = w.bounded; ordered = w.ordered; owned = w.owned }, l) room)
        ]
        | inr f ↦ elim (Bool-cases (contains pkt (codes "e"))) [
          | inl e ↦
              rw (f, e)
                (
                  record {
                    bounded = v.bounded;
                    ordered =
                        Ordered-erase_id 0 p.mustarrive_e (e_of nums pkt) p.mustarrive_queue
                          v.ordered;
                    owned = still_owned p (e_of nums pkt) v.owned;
                  },
                  omega arith,
                )
          | inr e ↦ rw (f, e) (deliver-Good k p pkt (v, h) room)
        ]
      ]

  handle_counted-Good :
      (k : ℕ) (p : Protocol F) (addr : ProtocolAddr) (pkt : Members F)
      → Good k p
      → k + 1 < 2 ^ 32
      → Good (k + 1) (handle_counted nums p addr pkt).0
  unfolding handle_counted
  handle_counted-Good k p addr pkt (v, h) room =
      elim (accept_counter-cases p (is_possess pkt) (counter_of nums pkt)) [
        | inl e ↦ rw (e, handle_counted) (v, omega arith)
        | inr (r, w, e) ↦
            rw (e, handle_counted)
              (confirm-Good k _ addr pkt
                (take_possession-Good k _ addr (is_possess pkt)
                  (record { bounded = v.bounded; ordered = v.ordered; owned = v.owned }, h))
                room)
      ]

  pub handle_msg-Good :
      (k : ℕ) (p : Protocol F) (addr : ProtocolAddr) (pkt : Members F)
      → Good k p
      → k + 1 < 2 ^ 32
      → Good (k + 1) (handle_msg nums p addr pkt).0
  unfolding handle_msg
  handle_msg-Good k p addr pkt (v, h) room =
      elim (Bool-cases (equal_bytes (command pkt) (codes "discover"))) [
        | inl d ↦
            rw (d, send_buf-eq nums p addr (found_packet p))
              (
                record {
                  bounded =
                      offer-le nums p.send_queue (carrier nums addr (found_packet p)) v.bounded;
                  ordered = v.ordered;
                  owned = v.owned;
                },
                omega arith,
              )
        | inr d ↦ elim (Bool-cases (contains pkt (codes "n"))) [
          | inl n ↦ rw (d, n) (handle_counted-Good k p addr pkt (v, h) room)
          | inr n ↦ rw (d, n) (v, omega arith)
        ]
      ]
