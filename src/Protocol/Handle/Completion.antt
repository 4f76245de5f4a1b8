-- ===== src/Protocol/Handle/Completion.antt =====
-- The must-arrive messages of the device: from `send_mustarrive` to the peer's confirmation.
use rb3201_rbprotocol_librar.Prelude.{
  ℕ, ◌^◌, ◌<◌, ◌≡◌, ◌≢◌, refl, ap, sym, ◌∙◌, inl, inr, true, false, none, some, Option, [], ◌∷◌,
  ◌++◌, Bytes, codes, ◌==◌, ==_refl, ==_ne, if_same, true_ne_false, arith,
}
use rb3201_rbprotocol_librar.Prelude.Int.{pos, u32}
use rb3201_rbprotocol_librar.Json.Value.{Members, NumberOps, string, number}
use rb3201_rbprotocol_librar.Json.Key.{clip}
use rb3201_rbprotocol_librar.Json.Key.Order.{equal_bytes, IsText}
use rb3201_rbprotocol_librar.Json.Object.{contains, get, set, get_int}
use rb3201_rbprotocol_librar.Json.Object.Sorted.{IsValid, get-set, set-remove-IsValid}
use rb3201_rbprotocol_librar.Protocol.State.{
  ProtocolAddr, MustArrive, Protocol, uint32_max, is_addr_empty, is_mustarrive_complete, no_entry,
}
use rb3201_rbprotocol_librar.Protocol.Send.{
  send_mustarrive, stamp, mustarrive_packet, enqueue_mustarrive, or_new,
}
use rb3201_rbprotocol_librar.Protocol.Send.Effects.{send_mustarrive-cases, enqueue_mustarrive-eq}
use rb3201_rbprotocol_librar.Protocol.Invariant.Entries.{
  Ordered, no_entry-erase_id, no_entry-erase_id_ne, no_entry-snoc,
}
use rb3201_rbprotocol_librar.Protocol.Handle.Stages.{
  accept_counter-cases, handle_counted-some, handle_msg-handle_counted, confirm-erase_id,
}
use rb3201_rbprotocol_librar.Protocol.Handle.{
  handle_msg, accept_counter, take_possession, is_possess, counter_of, command, e_of,
}

module _ {F : Type 0} (nums : NumberOps F) where
  take_possession-owned :
      (p : Protocol F) (addr : ProtocolAddr)
      → is_addr_empty p.possessed_addr ≡ false
      → take_possession p addr false ≡ p
  unfolding take_possession
  take_possession-owned p addr h = rw h

  complete-no_entry :
      (p : Protocol F) (id : ℕ)
      → id < uint32_max
      → is_mustarrive_complete p id ≡ no_entry id p.mustarrive_queue
  unfolding is_mustarrive_complete
  complete-no_entry p id h = ground arith

  -- A message that an owned device sends is pending under the id that the caller gets, and the
  -- message changes the state of no other id. Both ids are below the largest one.
  pub send_mustarrive_pending :
      (p : Protocol F) (cmd : Bytes) (params : Option (Members F)) (other : ℕ)
      → is_addr_empty p.possessed_addr ≡ false
      → p.mustarrive_e < uint32_max
      → other < uint32_max
      → other ≢ p.mustarrive_e
      → let (q, id) = send_mustarrive nums p cmd params in
        (id ≡ p.mustarrive_e)
        × (is_mustarrive_complete q id ≡ false)
        × (is_mustarrive_complete q other ≡ is_mustarrive_complete p other)
  send_mustarrive_pending p cmd params other owned small low ne =
      elim (send_mustarrive-cases nums p cmd params) [
        | inl (z, s) ↦ absurd (true_ne_false (sym z ∙ owned))
        | inr (z, s) ↦
            let obj = mustarrive_packet nums p cmd params in
            let q = enqueue_mustarrive nums p p.possessed_addr obj in
            let entry : MustArrive F = record {
              pkt = stamp nums p obj;
              id = p.mustarrive_e;
              attempts = 0;
            } in
            let entries : q.mustarrive_queue ≡ p.mustarrive_queue ++ (entry ∷ []) =
              ap (λ (x : Protocol F). x.mustarrive_queue)
                (enqueue_mustarrive-eq nums p p.possessed_addr obj) in
            rw s (
              refl,
              complete-no_entry q p.mustarrive_e small
                  ∙ ap (no_entry p.mustarrive_e) entries
                  ∙ no_entry-snoc p.mustarrive_e p.mustarrive_queue entry
                  ∙ rw (==_refl p.mustarrive_e),
              complete-no_entry q other low
                  ∙ ap (no_entry other) entries
                  ∙ no_entry-snoc other p.mustarrive_queue entry
                  ∙ (rw (==_ne other p.mustarrive_e ne))
                  ∙ sym (complete-no_entry p other low),
            )
      ]

  -- A packet of the peer that confirms an id, and reaches that stage, ends the message with that
  -- id, changes the state of no other id, and does not reach the callback. The entries are in the
  -- order that every run of the protocol keeps.
  pub handle_msg_confirms :
      (lo : ℕ) (p q : Protocol F) (addr : ProtocolAddr) (pkt : Members F) (other : ℕ)
      → Ordered lo p.mustarrive_e p.mustarrive_queue
      → is_addr_empty p.possessed_addr ≡ false
      → is_possess pkt ≡ false
      → equal_bytes (command pkt) (codes "discover") ≡ false
      → contains pkt (codes "n") ≡ true
      → contains pkt (codes "f") ≡ false
      → contains pkt (codes "e") ≡ true
      → accept_counter p false (counter_of nums pkt) ≡ some q
      → other ≢ e_of nums pkt
      → let r = handle_msg nums p addr pkt in
        (is_mustarrive_complete r.0 (e_of nums pkt) ≡ true)
        × (is_mustarrive_complete r.0 other ≡ is_mustarrive_complete p other)
        × (r.1 ≡ [])
  unfolding is_mustarrive_complete
  handle_msg_confirms lo p q addr pkt other o owned np nd n f e ac ne =
      elim (accept_counter-cases p false (counter_of nums pkt)) [
        | inl z ↦ absurd (none_ne_some (sym z ∙ ac))
        | inr (r, w, z) ↦
            let q' : Protocol F = record p { read_counter = r; write_counter = w } in
            rw
              (
                handle_msg-handle_counted nums p addr pkt nd n,
                handle_counted-some nums p addr pkt q' (rw np z),
                np,
                take_possession-owned q' addr owned,
                confirm-erase_id nums q' addr pkt f e,
              )
              (
                rw (no_entry-erase_id (e_of nums pkt) lo p.mustarrive_e p.mustarrive_queue o)
                    (if_same (e_of nums pkt == uint32_max) true),
                rw (
                    no_entry-erase_id_ne (e_of nums pkt) other p.mustarrive_queue
                      (==_ne (e_of nums pkt) other (λ x. ne (sym x)))),
                refl,
              )
      ]
    where
      none_ne_some : none ≡ some q → ⊥
      none_ne_some x = cc

  e_key : IsText (codes "e")
  e_key = omega arith

  n_key : IsText (codes "n")
  n_key = omega arith

  c_key : IsText (codes "c")
  c_key = omega arith

  other_keys :
      (equal_bytes (clip (codes "n")) (clip (codes "e")) ≡ false)
      × (equal_bytes (clip (codes "e")) (clip (codes "e")) ≡ true)
  unfolding equal_bytes clip
  other_keys = (refl, refl)

  get_int-get :
      (pkt : Members F) (key : Bytes) (x : F)
      → get pkt key ≡ some (number x)
      → get_int nums pkt key (pos 0) ≡ nums.to_int x
  unfolding get_int
  get_int-get pkt key x h = rw (h, get_int)

  -- The packet that goes out, and that the entry keeps for its resends, carries the id under "e",
  -- so a peer that sends the number back confirms this message. The caller's object has text keys
  -- in order, and the id survives the conversion to a float and back, as small numbers do.
  pub e_of-mustarrive_packet :
      (p : Protocol F) (cmd : Bytes) (params : Option (Members F))
      → IsValid (or_new params)
      → p.mustarrive_e < 2 ^ 32
      → nums.to_int (nums.of_int (pos p.mustarrive_e)) ≡ pos p.mustarrive_e
      → e_of nums (stamp nums p (mustarrive_packet nums p cmd params)) ≡ p.mustarrive_e
  unfolding stamp mustarrive_packet
  e_of-mustarrive_packet p cmd params v small exact =
      let o1 = set (or_new params) (codes "c") (string cmd) in
      let v1 = (set-remove-IsValid (or_new params) (codes "c") (string cmd) v c_key).0 in
      let x = nums.of_int (pos p.mustarrive_e) in
      let o2 = set o1 (codes "e") (number x) in
      let v2 = (set-remove-IsValid o1 (codes "e") (number x) v1 e_key).0 in
      let n = number (nums.of_int p.write_counter) in
      let found : get (set o2 (codes "n") n) (codes "e") ≡ some (number x) =
        get-set o2 (codes "n") (codes "e") n v2 n_key e_key
        ∙ (rw (
          other_keys.0,
          get-set o1 (codes "e") (codes "e") (number x) v1 e_key e_key,
          other_keys.1,
        )) in
      ap u32 (get_int-get (set o2 (codes "n") n) (codes "e") x found ∙ exact) ∙ omega arith
