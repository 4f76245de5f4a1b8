-- ===== src/Protocol/Handle/Stages.antt =====
-- What the first stages of `handle_msg` change.
use rb3201_rbprotocol_librar.Prelude.{
  ◌≡◌, ◌⊎◌, inl, inr, Bool, true, false, ◌&&◌, ◌||◌, none, some, [], ◌∷◌, codes, if◌then◌else◌,
  Bool-cases,
}
use rb3201_rbprotocol_librar.Prelude.Int.{ℤ, pos, negsuc, eqb_ℤ, ltb_ℤ, ◌-ℤ◌, int32}
use rb3201_rbprotocol_librar.Json.Value.{Members, NumberOps, object}
use rb3201_rbprotocol_librar.Json.Object.{contains}
use rb3201_rbprotocol_librar.Json.Text.{serialize}
use rb3201_rbprotocol_librar.Json.Key.Order.{equal_bytes}
use rb3201_rbprotocol_librar.Protocol.State.{Protocol, ProtocolAddr}
use rb3201_rbprotocol_librar.Protocol.Send.{send_buf, send_object, send_log, log_text}
use rb3201_rbprotocol_librar.Protocol.Handle.{
  accept_counter, take_possession, confirm, handle_counted, handle_msg, found_packet, is_possess,
  counter_of, command, confirm_packet, deliver, is_repeated, f_of, e_of, erase_id, possessed_text,
}

module _ {F : Type 0} where
  -- The counters are all that the first stage changes.
  pub accept_counter-cases :
      (p : Protocol F) (possess : Bool) (counter : ℤ)
      → (accept_counter p possess counter ≡ none)
        ⊎ ((r : ℤ) × (w : ℤ) × (accept_counter p possess counter
              ≡ some (record p { read_counter = r; write_counter = w })))
  unfolding accept_counter
  accept_counter-cases p possess counter = elim (Bool-cases (eqb_ℤ counter (negsuc 0) || possess)) [
    | inl e ↦ inr (pos 0, pos 0, rw e)
    | inr e ↦
        elim (Bool-cases
          (ltb_ℤ counter p.read_counter && ltb_ℤ (int32 (p.read_counter -ℤ counter)) (pos 25))) [
            | inl d ↦ inl (rw (e, d))
            | inr d ↦ inr (counter, p.write_counter, rw (e, d))
          ]
  ]

module _ {F : Type 0} (nums : NumberOps F) (p : Protocol F) (addr : ProtocolAddr)
    (pkt : Members F) where
  pub handle_counted-none :
      accept_counter p (is_possess pkt) (counter_of nums pkt) ≡ none
      → handle_counted nums p addr pkt ≡ (p, [])
  unfolding handle_counted
  handle_counted-none e = rw (e, handle_counted)

  pub handle_counted-some :
      (q : Protocol F)
      → accept_counter p (is_possess pkt) (counter_of nums pkt) ≡ some q
      → handle_counted nums p addr pkt
        ≡ confirm nums (take_possession q addr (is_possess pkt)) addr pkt
  unfolding handle_counted
  handle_counted-some q e = rw (e, handle_counted)

  pub handle_msg-discover :
      equal_bytes (command pkt) (codes "discover") ≡ true
      → handle_msg nums p addr pkt
        ≡ (send_buf nums p addr (serialize nums (object (found_packet p))), [])
  unfolding handle_msg
  handle_msg-discover d = rw d

  pub handle_msg_uncounted :
      equal_bytes (command pkt) (codes "discover") ≡ false
      → contains pkt (codes "n") ≡ false
      → handle_msg nums p addr pkt ≡ (p, [])
  unfolding handle_msg
  handle_msg_uncounted d n = rw (d, n)

  pub handle_msg-handle_counted :
      equal_bytes (command pkt) (codes "discover") ≡ false
      → contains pkt (codes "n") ≡ true
      → handle_msg nums p addr pkt ≡ handle_counted nums p addr pkt
  unfolding handle_msg
  handle_msg-handle_counted d n = rw (d, n)

  pub confirm_repeated :
      contains pkt (codes "f") ≡ true
      → is_repeated nums p pkt ≡ true
      → confirm nums p addr pkt ≡ (send_object nums p addr (confirm_packet nums pkt), [])
  unfolding confirm
  confirm_repeated f e = rw (f, e)

  pub confirm_numbered :
      contains pkt (codes "f") ≡ true
      → is_repeated nums p pkt ≡ false
      → confirm nums p addr pkt
        ≡ deliver nums
            (record (send_object nums p addr (confirm_packet nums pkt)) {
              mustarrive_f = f_of nums pkt;
            })
            pkt
  unfolding confirm
  confirm_numbered f e = rw (f, e)

  pub confirm-erase_id :
      contains pkt (codes "f") ≡ false
      → contains pkt (codes "e") ≡ true
      → confirm nums p addr pkt
        ≡ (record p { mustarrive_queue = erase_id (e_of nums pkt) p.mustarrive_queue }, [])
  unfolding confirm
  confirm-erase_id f e = rw (f, e)

  pub confirm_plain :
      contains pkt (codes "f") ≡ false
      → contains pkt (codes "e") ≡ false
      → confirm nums p addr pkt ≡ deliver nums p pkt
  unfolding confirm
  confirm_plain f e = rw (f, e)

  pub deliver-send_log :
      is_possess pkt ≡ true
      → deliver nums p pkt ≡ (
        send_log nums p (log_text (possessed_text p.name)),
        (if p.has_callback then (command pkt, pkt) ∷ [] else []),
      )
  unfolding deliver
  deliver-send_log po = rw po
