-- ===== src/Protocol/Handle/Duplicates.antt =====
-- The must-arrive packets of the peer: which of them reach the callback.
use rb3201_rbprotocol_librar.Prelude.{
  ℕ, ◌<◌, ◌≡◌, ◌≢◌, refl, ◌⊎◌, inl, inr, true, false, not, ◌&&◌, List, [], ◌∷◌, ◌++◌, codes, All,
  leb, ◌==◌, Bool-cases, arith, if◌then◌else◌,
}
use rb3201_rbprotocol_librar.Json.Value.{Members, NumberOps}
use rb3201_rbprotocol_librar.Json.Object.{contains}
use rb3201_rbprotocol_librar.Json.Key.Order.{equal_bytes}
use rb3201_rbprotocol_librar.Protocol.State.{ProtocolAddr, Protocol, uint32_max, is_addr_empty}
use rb3201_rbprotocol_librar.Protocol.Send.Effects.{send_object-eq, send_buf-eq}
use rb3201_rbprotocol_librar.Protocol.Handle.Stages.{
  accept_counter-cases, handle_counted-none, handle_counted-some, handle_msg-discover,
  handle_msg_uncounted, handle_msg-handle_counted,
}
use rb3201_rbprotocol_librar.Protocol.Handle.{
  Calls, handle_msg, handle_counted, take_possession, confirm, deliver, confirm_packet,
  found_packet, is_possess, counter_of, command, is_repeated, f_of,
}

-- Strictly increasing from above `floor`, where `uint32_max` stands for no number yet.
abbrev pub Rising : ℕ → List ℕ → Type 0
Rising floor [] = Unit
Rising floor (x ∷ xs) = ((floor ≡ uint32_max) ⊎ (floor < x)) × (x ≢ uint32_max) × Rising x xs

module _ {F : Type 0} where
  -- The device has an owner and a callback.
  pub record IsOwned (p : Protocol F) : Type 0 where
    pub address : is_addr_empty p.possessed_addr ≡ false
    pub callback : p.has_callback ≡ true

module _ {F : Type 0} (nums : NumberOps F) where
  -- `recv_task` over the packets that the backends return.
  unfoldable pub receive_all : Protocol F → List (ProtocolAddr × Members F) → Protocol F × Calls F
  receive_all p [] = (p, [])
  receive_all p ((addr, pkt) ∷ pkts) =
      let (q, calls) = handle_msg nums p addr pkt in
      let (r, more) = receive_all q pkts in (r, calls ++ more)

  -- The "f" numbers of the packets handed to the callback, in order.
  unfoldable pub delivered : Calls F → List ℕ
  delivered [] = []
  delivered ((cmd, pkt) ∷ calls) =
      if contains pkt (codes "f") then f_of nums pkt ∷ delivered calls else delivered calls

  delivered-append : (a b : Calls F) → delivered (a ++ b) ≡ delivered a ++ delivered b
  unfolding delivered
  delivered-append [] b = refl
  delivered-append ((cmd, pkt) ∷ a) b = ground (arith, delivered-append a b)

  -- A packet that is no new possession, and whose "f" is a number.
  abbrev pub IsOrdinary : Members F → Type 0
  IsOrdinary pkt = (is_possess pkt ≡ false) × (f_of nums pkt ≢ uint32_max)

  -- One packet delivers nothing, or no must-arrive packet, or a must-arrive packet above the last.
  abbrev Outcome : Protocol F → Members F → Protocol F × Calls F → Type 0
  Outcome p pkt r =
      IsOwned r.0
      × (((delivered r.1 ≡ []) × (r.0.mustarrive_f ≡ p.mustarrive_f))
          ⊎ ((delivered r.1 ≡ f_of nums pkt ∷ [])
              × (r.0.mustarrive_f ≡ f_of nums pkt)
              × ((p.mustarrive_f ≡ uint32_max) ⊎ (p.mustarrive_f < f_of nums pkt))))

  deliver-eq :
      (p : Protocol F) (pkt : Members F)
      → is_possess pkt ≡ false
      → p.has_callback ≡ true
      → deliver nums p pkt ≡ (p, (command pkt, pkt) ∷ [])
  unfolding deliver
  deliver-eq p pkt np cb = rw (np, cb)

  not_repeated :
      (p : Protocol F) (pkt : Members F)
      → is_repeated nums p pkt ≡ false
      → (p.mustarrive_f ≡ uint32_max) ⊎ (p.mustarrive_f < f_of nums pkt)
  not_repeated p pkt h = last (f_of nums pkt) p.mustarrive_f h
    where
      last : (f m : ℕ) → (leb f m && not (m == uint32_max)) ≡ false → (m ≡ uint32_max) ⊎ (m < f)
      last f m e = ground arith

  deliver_numbered :
      (p q : Protocol F) (pkt : Members F)
      → IsOwned q
      → is_possess pkt ≡ false
      → contains pkt (codes "f") ≡ true
      → q.mustarrive_f ≡ f_of nums pkt
      → (p.mustarrive_f ≡ uint32_max) ⊎ (p.mustarrive_f < f_of nums pkt)
      → Outcome p pkt (deliver nums q pkt)
  unfolding delivered
  deliver_numbered p q pkt o np f e h = rw (deliver-eq q pkt np o.callback) (o, inr (rw f, e, h))

  deliver_plain :
      (p q : Protocol F) (pkt : Members F)
      → IsOwned q
      → is_possess pkt ≡ false
      → contains pkt (codes "f") ≡ false
      → q.mustarrive_f ≡ p.mustarrive_f
      → Outcome p pkt (deliver nums q pkt)
  unfolding delivered
  deliver_plain p q pkt o np f e = rw (deliver-eq q pkt np o.callback) (o, inl (rw f, e))

  confirm-Outcome :
      (p q : Protocol F) (addr : ProtocolAddr) (pkt : Members F)
      → IsOwned q
      → q.mustarrive_f ≡ p.mustarrive_f
      → is_possess pkt ≡ false
      → Outcome p pkt (confirm nums q addr pkt)
  unfolding confirm delivered
  confirm-Outcome p q addr pkt o m np = elim (Bool-cases (contains pkt (codes "f"))) [
    | inl f ↦ elim (Bool-cases (is_repeated nums q pkt)) [
      | inl e ↦
          rw (f, e, send_object-eq nums q addr (confirm_packet nums pkt))
            (record { address = o.address; callback = o.callback }, inl (refl, m))
      | inr e ↦
          rw (f, e, send_object-eq nums q addr (confirm_packet nums pkt))
            (deliver_numbered p _ pkt (record { address = o.address; callback = o.callback }) np f
              refl (rw m at (not_repeated q pkt e)))
    ]
    | inr f ↦ elim (Bool-cases (contains pkt (codes "e"))) [
      | inl e ↦ rw (f, e) (record { address = o.address; callback = o.callback }, inl (refl, m))
      | inr e ↦ rw (f, e) (deliver_plain p q pkt o np f m)
    ]
  ]

  take_possession-IsOwned :
      (p : Protocol F) (addr : ProtocolAddr)
      → is_addr_empty p.possessed_addr ≡ false
      → take_possession p addr false ≡ p
  unfolding take_possession
  take_possession-IsOwned p addr h = rw h

  handle_counted-Outcome :
      (p : Protocol F) (addr : ProtocolAddr) (pkt : Members F)
      → IsOwned p
      → is_possess pkt ≡ false
      → Outcome p pkt (handle_counted nums p addr pkt)
  handle_counted-Outcome p addr pkt o np =
      elim (accept_counter-cases p (is_possess pkt) (counter_of nums pkt)) [
        | inl e ↦
            rw (handle_counted-none nums p addr pkt e) (o, inl (unfold delivered in refl, refl))
        | inr (r, w, e) ↦
            let q : Protocol F = record p { read_counter = r; write_counter = w } in
            rw
              (
                handle_counted-some nums p addr pkt q e,
                np,
                take_possession-IsOwned q addr o.address,
              )
              (confirm-Outcome p q addr pkt (record { address = o.address; callback = o.callback })
                refl np)
      ]

  handle_msg-Outcome :
      (p : Protocol F) (addr : ProtocolAddr) (pkt : Members F)
      → IsOwned p
      → is_possess pkt ≡ false
      → Outcome p pkt (handle_msg nums p addr pkt)
  handle_msg-Outcome p addr pkt o np =
      elim (Bool-cases (equal_bytes (command pkt) (codes "discover"))) [
        | inl d ↦
            rw (handle_msg-discover nums p addr pkt d, send_buf-eq nums p addr (found_packet p))
              (
                record { address = o.address; callback = o.callback },
                inl (unfold delivered in refl, refl),
              )
        | inr d ↦ elim (Bool-cases (contains pkt (codes "n"))) [
          | inl n ↦
              rw (handle_msg-handle_counted nums p addr pkt d n)
                (handle_counted-Outcome p addr pkt o np)
          | inr n ↦
              rw (handle_msg_uncounted nums p addr pkt d n)
                (o, inl (unfold delivered in refl, refl))
        ]
      ]

  -- While one peer owns the device, the must-arrive packets that reach the callback carry strictly
  -- increasing "f" numbers, above the last one seen before: a packet that is sent again is
  -- delivered once. The device has a callback, and no packet takes possession or has the number
  -- 0xFFFFFFFF.
  pub delivered-receive_all :
      (p : Protocol F) (pkts : List (ProtocolAddr × Members F))
      → IsOwned p
      → All (λ m. IsOrdinary m.1) pkts
      → Rising p.mustarrive_f (delivered (receive_all p pkts).1)
  unfolding receive_all
  delivered-receive_all p [] o h = unfold delivered in tt
  delivered-receive_all p ((addr, pkt) ∷ pkts) o ((np, nf), h) =
      let (q, calls) = handle_msg nums p addr pkt in
      let (owned, outcome) = handle_msg-Outcome p addr pkt o np in
      let later = delivered-receive_all q pkts owned h in
      rw (delivered-append calls (receive_all q pkts).1) (elim outcome [
        | inl (d, m) ↦ rw d (rw m at later)
        | inr (d, m, above) ↦ rw d (above, nf, rw m at later)
      ])
