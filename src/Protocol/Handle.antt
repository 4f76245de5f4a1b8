-- ===== src/Protocol/Handle.antt =====
-- `handle_msg`, in the stages between its early returns.
pub mod Stages
pub mod Duplicates
pub mod Possession
pub mod Completion
use rb3201_rbprotocol_librar.Prelude.{
  ℕ, suc, Bool, true, false, not, ◌&&◌, ◌||◌, Option, none, some, List, [], ◌∷◌, ◌++◌, Bytes, codes,
  ltb, leb, ◌==◌, if◌then◌else◌,
}
use rb3201_rbprotocol_librar.Prelude.Int.{ℤ, pos, negsuc, ◌-ℤ◌, ltb_ℤ, eqb_ℤ, u32, int32}
use rb3201_rbprotocol_librar.Json.Value.{
  Value, Members, NumberOps, object, string, number, no_members,
}
use rb3201_rbprotocol_librar.Json.Key.Order.{equal_bytes}
use rb3201_rbprotocol_librar.Json.Object.{set, contains, get_string, get_int}
use rb3201_rbprotocol_librar.Json.Text.{serialize}
use rb3201_rbprotocol_librar.Protocol.State.{
  ProtocolAddr, MustArrive, Protocol, uint32_max, is_addr_same, is_addr_empty,
}
use rb3201_rbprotocol_librar.Protocol.Send.{send_buf, send_object, send_log, log_text}

-- The calls of `m_callback`, in order.
abbrev pub Calls : Type 0 → Type 0
Calls F = List (Bytes × Members F)

-- The loop under `contains("e")`: the first entry with the id is deleted.
unfoldable pub erase_id : {F : Type 0} → ℕ → List (MustArrive F) → List (MustArrive F)
erase_id e [] = []
erase_id e (m ∷ ms) = if m.id == e then ms else m ∷ erase_id e ms

-- `"The device %s has been possessed!\n"`
unfoldable pub possessed_text : Bytes → Bytes
possessed_text name = codes "The device " ++ (name ++ codes " has been possessed!\n")

module _ {F : Type 0} where
  abbrev pub command : Members F → Bytes
  command pkt = get_string pkt (codes "c") []

  abbrev pub is_possess : Members F → Bool
  is_possess pkt = equal_bytes (command pkt) (codes "possess")

  unfoldable pub found_packet : Protocol F → Members F
  found_packet p =
      set
        (set
          (set (set no_members (codes "c") (string (codes "found"))) (codes "owner")
            (string p.owner))
          (codes "name") (string p.name))
        (codes "desc") (string p.desc)

  -- The counters; `none` is the early return on a packet that came too late.
  unfoldable pub accept_counter : Protocol F → Bool → ℤ → Option (Protocol F)
  accept_counter p possess counter =
      if eqb_ℤ counter (negsuc 0) || possess
      then some (record p { read_counter = pos 0; write_counter = pos 0 })
      else if ltb_ℤ counter p.read_counter && ltb_ℤ (int32 (p.read_counter -ℤ counter)) (pos 25)
      then none
      else some (record p { read_counter = counter })

  -- The block under `is_addr_empty(m_possessed_addr) || isPossessCmd`.
  unfoldable pub take_possession : Protocol F → ProtocolAddr → Bool → Protocol F
  unfolding is_addr_same is_addr_empty
  take_possession p addr possess =
      if is_addr_empty p.possessed_addr || possess
      then record p {
        possessed_addr =
            if not (is_addr_same p.possessed_addr addr) then addr else p.possessed_addr;
        mustarrive_e = 0;
        mustarrive_f = uint32_max;
        write_counter = negsuc 0;
        read_counter = negsuc 0;
        mustarrive_queue = [];
      }
      else p

module _ {F : Type 0} (nums : NumberOps F) where
  -- `int counter = pkt->getInt("n")`
  abbrev pub counter_of : Members F → ℤ
  counter_of pkt = int32 (get_int nums pkt (codes "n") (pos 0))

  -- The reply that confirms a must-arrive packet.
  unfoldable pub confirm_packet : Members F → Members F
  confirm_packet pkt =
      set (set no_members (codes "c") (string (command pkt))) (codes "f")
        (number (nums.of_int (get_int nums pkt (codes "f") (pos 0))))

  -- `f` and `e` as the 32-bit words that the code compares.
  abbrev pub f_of : Members F → ℕ
  f_of pkt = u32 (get_int nums pkt (codes "f") (pos 0))

  abbrev pub e_of : Members F → ℕ
  e_of pkt = u32 (get_int nums pkt (codes "e") (pos 0))

  -- `f <= m_mustarrive_f && m_mustarrive_f != 0xFFFFFFFF`
  abbrev pub is_repeated : Protocol F → Members F → Bool
  is_repeated p pkt = leb (f_of pkt) p.mustarrive_f && not (p.mustarrive_f == uint32_max)

  -- Behind the confirmations: the log of a possession, and the callback.
  unfoldable pub deliver : Protocol F → Members F → Protocol F × Calls F
  unfolding send_log log_text possessed_text
  deliver p pkt =
      let q = if is_possess pkt then send_log nums p (log_text (possessed_text p.name)) else p in
      (q, (if p.has_callback then (command pkt, pkt) ∷ [] else []))

  -- The branches on "f" and "e", and what follows them.
  unfoldable pub confirm : Protocol F → ProtocolAddr → Members F → Protocol F × Calls F
  unfolding contains confirm_packet send_object erase_id deliver
  confirm p addr pkt =
      let replied = send_object nums p addr (confirm_packet pkt) in
      if contains pkt (codes "f")
      then (if is_repeated p pkt
          then (replied, [])
          else deliver (record replied { mustarrive_f = f_of pkt }) pkt)
      else if contains pkt (codes "e")
      then (record p { mustarrive_queue = erase_id (e_of pkt) p.mustarrive_queue }, [])
      else deliver p pkt

  -- From the test for the counter on.
  unfoldable pub handle_counted : Protocol F → ProtocolAddr → Members F → Protocol F × Calls F
  unfolding accept_counter take_possession confirm
  handle_counted p addr pkt = elim (accept_counter p (is_possess pkt) (counter_of pkt)) [
    | none ↦ (p, [])
    | some q ↦ confirm (take_possession q addr (is_possess pkt)) addr pkt
  ]

  unfoldable pub handle_msg : Protocol F → ProtocolAddr → Members F → Protocol F × Calls F
  unfolding found_packet send_buf contains handle_counted
  handle_msg p addr pkt =
      if equal_bytes (command pkt) (codes "discover")
      then (send_buf nums p addr (serialize nums (object (found_packet p))), [])
      else if not (contains pkt (codes "n"))
      then (p, [])
      else handle_counted p addr pkt
