-- ===== src/Protocol/Handle/Possession.antt =====
-- A device that is taken over starts afresh.
use rb3201_rbprotocol_librar.Prelude.{
  ℕ, ◌≡◌, refl, ap, sym, ◌∙◌, ◌⊎◌, inl, inr, Bool, true, false, not, ◌&&◌, ◌||◌, Option, some, [],
  ◌∷◌, Bytes, codes, Bool-cases, true_ne_false, arith, if◌then◌else◌,
}
use rb3201_rbprotocol_librar.Prelude.Int.{ℤ, pos, negsuc, ◌+ℤ◌, int32}
use rb3201_rbprotocol_librar.Json.Value.{Members, NumberOps, no_members, string, number}
use rb3201_rbprotocol_librar.Json.Object.{set, contains}
use rb3201_rbprotocol_librar.Json.Key.Order.{equal_bytes, equal_bytes_iff}
use rb3201_rbprotocol_librar.Protocol.State.{
  ProtocolAddr, no_addr, udp, ws, Protocol, uint32_max, is_addr_empty, is_addr_same,
}
use rb3201_rbprotocol_librar.Protocol.Send.{send_log, log_text, or_new, stamp, mustarrive_packet}
use rb3201_rbprotocol_librar.Protocol.Send.Effects.{
  send_object-eq, send_mustarrive-cases, send_log-send_mustarrive, enqueue_mustarrive-eq,
}
use rb3201_rbprotocol_librar.Protocol.Handle.Stages.{
  handle_counted-some, handle_msg-handle_counted, confirm_numbered, confirm_plain, deliver-send_log,
}
use rb3201_rbprotocol_librar.Protocol.Handle.{
  handle_msg, accept_counter, take_possession, confirm, deliver, confirm_packet, possessed_text,
  is_possess, counter_of, command, f_of,
}

pub is_addr_same_sound : (a b : ProtocolAddr) → is_addr_same a b ≡ true → a ≡ b
unfolding is_addr_same
is_addr_same_sound no_addr no_addr h = refl
is_addr_same_sound (udp ip port) (udp ip' port') h = ground arith
is_addr_same_sound (ws fd) (ws fd') h = ground arith
is_addr_same_sound _ _ h = absurd (ground arith)

or_true : (b : Bool) → (b || true) ≡ true
or_true b = ground arith

and_false : (b : Bool) → (b && false) ≡ false
and_false b = ground arith

address_after : (a b : ProtocolAddr) → (if not (is_addr_same a b) then b else a) ≡ b
address_after a b = elim (Bool-cases (is_addr_same a b)) [
  | inl e ↦ rw e (is_addr_same_sound a b e)
  | inr e ↦ rw e
]

module _ {F : Type 0} where
  possess_not_discover :
      (pkt : Members F)
      → is_possess pkt ≡ true
      → equal_bytes (command pkt) (codes "discover") ≡ false
  unfolding equal_bytes
  possess_not_discover pkt h = rw ((equal_bytes_iff (command pkt) (codes "possess")).0 h)

  accept_counter_possess :
      (p : Protocol F) (counter : ℤ)
      → accept_counter p true counter
        ≡ some (record p { read_counter = pos 0; write_counter = pos 0 })
  unfolding accept_counter
  accept_counter_possess p counter = ground arith

  taken : Protocol F → ProtocolAddr → Protocol F
  taken p addr = record p {
    possessed_addr = addr;
    mustarrive_e = 0;
    mustarrive_f = uint32_max;
    write_counter = negsuc 0;
    read_counter = negsuc 0;
    mustarrive_queue = [];
  }

  take_possession-taken :
      (p : Protocol F) (addr : ProtocolAddr) → take_possession p addr true ≡ taken p addr
  unfolding take_possession taken
  take_possession-taken p addr =
      rw (or_true (is_addr_empty p.possessed_addr), address_after p.possessed_addr addr)

module _ {F : Type 0} (nums : NumberOps F) where
  -- The packet of a log message with the id 0 and a counter.
  abbrev pub log_packet : Bytes → ℤ → Members F
  log_packet text n =
      set
        (set (set (set no_members (codes "msg") (string text)) (codes "c") (string (codes "log")))
          (codes "e") (number (nums.of_int (pos 0))))
        (codes "n") (number (nums.of_int n))

  -- The state of a device that was just taken over from `addr`, where `n` is the counter of the
  -- log message: its counters, its next id, the last must-arrive number of the peer, and the log
  -- message as the only entry.
  pub record IsTaken (addr : ProtocolAddr) (f : ℕ) (n : ℤ) (text : Bytes) (q : Protocol F)
      : Type 0 where
    pub address : q.possessed_addr ≡ addr
    pub counter : q.read_counter ≡ negsuc 0
    pub written : q.write_counter ≡ int32 (n +ℤ pos 1)
    pub next_id : q.mustarrive_e ≡ 1
    pub last_f : q.mustarrive_f ≡ f
    pub entries : q.mustarrive_queue ≡ record { pkt = log_packet text n; id = 0; attempts = 0 } ∷ []

  send_log-IsTaken :
      (q : Protocol F) (addr : ProtocolAddr) (f : ℕ) (n : ℤ) (text : Bytes)
      → is_addr_empty addr ≡ false
      → q.possessed_addr ≡ addr
      → q.read_counter ≡ negsuc 0
      → q.write_counter ≡ n
      → q.mustarrive_e ≡ 0
      → q.mustarrive_f ≡ f
      → q.mustarrive_queue ≡ []
      → IsTaken addr f n text (send_log nums q text)
  unfolding stamp mustarrive_packet or_new
  send_log-IsTaken q addr f n text ne a c w e l m =
      let msg : Option (Members F) = some (set no_members (codes "msg") (string text)) in
      let obj = mustarrive_packet nums q (codes "log") msg in
      elim (send_mustarrive-cases nums q (codes "log") msg) [
        | inl (z, s) ↦ absurd (true_ne_false (sym z ∙ ap is_addr_empty a ∙ ne))
        | inr (z, s) ↦
            rw
              (
                send_log-send_mustarrive nums q text,
                s,
                enqueue_mustarrive-eq nums q q.possessed_addr obj,
              )
              (record {
                address = a;
                counter = c;
                written = rw w;
                next_id = rw e;
                last_f = l;
                entries = rw (m, e, w);
              })
      ]

  deliver-IsTaken :
      (q : Protocol F) (addr : ProtocolAddr) (f : ℕ) (n : ℤ) (pkt : Members F)
      → is_addr_empty addr ≡ false
      → is_possess pkt ≡ true
      → q.possessed_addr ≡ addr
      → q.read_counter ≡ negsuc 0
      → q.write_counter ≡ n
      → q.mustarrive_e ≡ 0
      → q.mustarrive_f ≡ f
      → q.mustarrive_queue ≡ []
      → IsTaken addr f n (log_text (possessed_text q.name)) (deliver nums q pkt).0
        × ((deliver nums q pkt).1 ≡ (if q.has_callback then (command pkt, pkt) ∷ [] else []))
  deliver-IsTaken q addr f n pkt ne po a c w e l m =
      let text = log_text (possessed_text q.name) in
      rw (deliver-send_log nums q addr pkt po)
        (send_log-IsTaken q addr f n text ne a c w e l m, refl)

  confirm-IsTaken :
      (t : Protocol F) (addr : ProtocolAddr) (pkt : Members F)
      → is_addr_empty addr ≡ false
      → is_possess pkt ≡ true
      → (contains pkt (codes "f") || not (contains pkt (codes "e"))) ≡ true
      → let r = confirm nums (taken t addr) addr pkt in
        IsTaken addr
          (if contains pkt (codes "f") then f_of nums pkt else uint32_max)
          (if contains pkt (codes "f") then pos 0 else negsuc 0)
          (log_text (possessed_text t.name))
          r.0
        × (r.1 ≡ (if t.has_callback then (command pkt, pkt) ∷ [] else []))
  unfolding taken
  confirm-IsTaken t addr pkt ne po h = elim (Bool-cases (contains pkt (codes "f"))) [
    | inl f ↦
        rw
          (
            confirm_numbered nums (taken t addr) addr pkt f (and_false _),
            send_object-eq nums (taken t addr) addr (confirm_packet nums pkt),
            f,
          )
          (deliver-IsTaken _ addr (f_of nums pkt) (pos 0) pkt ne po refl refl refl refl refl refl)
    | inr f ↦
        rw
          (
            confirm_plain nums (taken t addr) addr pkt f
                (plain f (Bool-cases (contains pkt (codes "e")))),
            f,
          )
          (deliver-IsTaken (taken t addr) addr uint32_max (negsuc 0) pkt ne po refl refl refl refl
            refl refl)
  ]
    where
      plain :
          contains pkt (codes "f") ≡ false
          → (contains pkt (codes "e") ≡ true) ⊎ (contains pkt (codes "e") ≡ false)
          → contains pkt (codes "e") ≡ false
      plain f (inl e) = absurd (true_ne_false (sym h ∙ rw (f, e)))
      plain f (inr e) = e

  -- A "possess" packet with a counter, that is no bare confirmation, takes the device over from any
  -- state, whoever had it: the sender becomes the owner, the pending messages of the former owner are
  -- dropped, and so are its counters: the last one read is -1, and the packets that are sent count from
  -- -1 again. The one entry is the log message of the possession, with id 0 and the counter 0 if a
  -- confirmation went before it, or -1 if not; the next counter is one more. The last must-arrive
  -- number is that of the packet, or none, and the callback sees the command. The sender has an address.
  pub handle_msg_possess :
      (p : Protocol F) (addr : ProtocolAddr) (pkt : Members F)
      → is_addr_empty addr ≡ false
      → is_possess pkt ≡ true
      → contains pkt (codes "n") ≡ true
      → (contains pkt (codes "f") || not (contains pkt (codes "e"))) ≡ true
      → let r = handle_msg nums p addr pkt in
        IsTaken addr
          (if contains pkt (codes "f") then f_of nums pkt else uint32_max)
          (if contains pkt (codes "f") then pos 0 else negsuc 0)
          (log_text (possessed_text p.name))
          r.0
        × (r.1 ≡ (if p.has_callback then (command pkt, pkt) ∷ [] else []))
  handle_msg_possess p addr pkt ne po n h =
      let q : Protocol F = record p { read_counter = pos 0; write_counter = pos 0 } in
      rw
        (
          handle_msg-handle_counted nums p addr pkt (possess_not_discover pkt po) n,
          handle_counted-some nums p addr pkt q
              (rw po (accept_counter_possess p (counter_of nums pkt))),
          po,
          take_possession-taken q addr,
        )
        (confirm-IsTaken q addr pkt ne po h)
