-- ===== src/Protocol/Invariant/Steps.antt =====
-- The invariant of `Protocol`, kept by every sequence of its methods.
use rb3201_rbprotocol_librar.Prelude.{
  ltb, ltb→lt, not, ◌&&◌, ℕ, zero, suc, ◌+◌, ◌^◌, ◌≤◌, ◌<◌, ◌≡◌, refl, ap, ◌⊎◌, inl, inr, Bool,
  false, Option, List, [], ◌∷◌, Bytes, codes, length, Bool-cases, arith,
}
use rb3201_rbprotocol_librar.Json.Value.{Members, NumberOps, string}
use rb3201_rbprotocol_librar.Json.Object.{set}
use rb3201_rbprotocol_librar.Protocol.State.{
  ProtocolConfig, EspErr, start, stop, failed, queue_length, QueueItem, Protocol, is_addr_empty,
  new_protocol,
}
use rb3201_rbprotocol_librar.Protocol.Send.{send, or_new}
use rb3201_rbprotocol_librar.Protocol.Tasks.{send_batch, resend_loop, resend_mustarrive_locked}
use rb3201_rbprotocol_librar.Protocol.Tasks.Resend.{kept, resend-eq, kept-Ordered}
use rb3201_rbprotocol_librar.Protocol.Invariant.{
  started, stopped, stop_wait, Event, received, sent, posted, logged, drained, resent, step, run,
}
use rb3201_rbprotocol_librar.Protocol.Invariant.Received.{
  Inv, Good, send_object-Good, send_mustarrive-Good, send_log-Good, handle_msg-Good,
}

module _ {F : Type 0} (nums : NumberOps F) where
  send-Good :
      (k : ℕ) (p : Protocol F) (cmd : Bytes) (obj : Option (Members F))
      → Good k p
      → Good k (send nums p cmd obj)
  unfolding send
  send-Good k p cmd obj (v, h) = elim (Bool-cases (is_addr_empty p.possessed_addr)) [
    | inl e ↦ rw (e, send) (v, h)
    | inr e ↦
        rw (e, send)
          (send_object-Good nums k p p.possessed_addr (set (or_new obj) (codes "c") (string cmd))
            (v, h))
  ]

  send_batch-eq :
      (i : ℕ) (p : Protocol F) (items : List QueueItem)
      → (l : List QueueItem) × ((send_batch nums i p items).0 ≡ record p { send_queue = l })
        × (length l ≤ length items)
  unfolding send_batch
  send_batch-eq zero p items = (items, refl, omega arith)
  send_batch-eq (suc i) p [] = ([], refl, omega arith)
  send_batch-eq (suc i) p (it ∷ items) =
      let (l, e, b) = send_batch-eq i p items in
      elim (Bool-cases (is_addr_empty it.addr)) [
        | inl x ↦ (items, rw x, omega arith)
        | inr x ↦ (l, rw x e, omega arith)
      ]

  send_batch-Good :
      (k i : ℕ) (p : Protocol F) → Good k p → Good k (send_batch nums i p p.send_queue).0
  send_batch-Good k i p (v, h) =
      let (l, e, b) = send_batch-eq i p p.send_queue in
      rw e (record { bounded = omega (arith, v.bounded); ordered = v.ordered; owned = v.owned }, h)

  still_kept :
      (p : Protocol F)
      → (p.mustarrive_queue ≡ []) ⊎ (is_addr_empty p.possessed_addr ≡ false)
      → (kept nums p p.mustarrive_queue ≡ []) ⊎ (is_addr_empty p.possessed_addr ≡ false)
  unfolding resend_loop
  still_kept p (inl z) = inl (ap (kept nums p) z)
  still_kept p (inr h) = inr h

  resend-Good : (k : ℕ) (p : Protocol F) → Good k p → Good k (resend_mustarrive_locked nums p).0
  resend-Good k p (v, h) = rw (resend-eq nums p) (
    record {
      bounded = v.bounded;
      ordered = kept-Ordered nums 0 p.mustarrive_e p p.mustarrive_queue v.ordered;
      owned = still_kept p v.owned;
    },
    h,
  )

  start-Good :
      (k : ℕ) (p : Protocol F) (cfg : ProtocolConfig) (r : EspErr × Bool)
      → Good k p
      → Good k (start p cfg r).0
  unfolding start
  start-Good k p cfg r (v, h) = elim (Bool-cases p.task_send) [
    | inl e ↦ rw e (record { bounded = v.bounded; ordered = v.ordered; owned = v.owned }, h)
    | inr e ↦ elim (Bool-cases (not cfg.enable_udp && not cfg.enable_ws)) [
      | inl none_on ↦
          rw (e, none_on) (record { bounded = v.bounded; ordered = v.ordered; owned = v.owned }, h)
      | inr some_on ↦ elim (Bool-cases (cfg.enable_udp && failed r.0)) [
        | inl bad ↦
            rw (e, some_on, bad)
              (record { bounded = v.bounded; ordered = v.ordered; owned = v.owned }, h)
        | inr good ↦
            rw (e, some_on, good)
              (record { bounded = v.bounded; ordered = v.ordered; owned = v.owned }, h)
      ]
    ]
  ]

  stop-Good : (k : ℕ) (p : Protocol F) → Good k p → Good k (stop_wait p (stop p))
  unfolding stop stop_wait
  stop-Good k p (v, h) = elim (Bool-cases (not p.task_send)) [
    | inl e ↦ rw e (record { bounded = v.bounded; ordered = v.ordered; owned = v.owned }, h)
    | inr e ↦ elim (Bool-cases (ltb (length p.send_queue) queue_length)) [
      | inl room ↦
          let short = ltb→lt (length p.send_queue) queue_length room in
          rw (e, room) (record { bounded = short; ordered = v.ordered; owned = v.owned }, h)
      | inr full ↦
          rw (e, full) (record { bounded = v.bounded; ordered = v.ordered; owned = v.owned }, h)
    ]
  ]

  step-Good :
      (k : ℕ) (p : Protocol F) (e : Event F)
      → Good k p
      → k + 1 < 2 ^ 32
      → Good (k + 1) (step nums p e)
  unfolding step
  step-Good k p (received addr pkt) v room = handle_msg-Good nums k p addr pkt v room
  step-Good k p (sent cmd obj) v room = raise (send-Good k p cmd obj v)
    where
      raise : {q : Protocol F} → Good k q → Good (k + 1) q
      raise (w, h) = (w, omega arith)
  step-Good k p (posted cmd obj) v room = send_mustarrive-Good nums k p cmd obj v room
  step-Good k p (logged text) v room = send_log-Good nums k p text v room
  step-Good k p (drained n) v room = let (w, h) = send_batch-Good k n p v in (w, omega arith)
  step-Good k p resent v room = let (w, h) = resend-Good k p v in (w, omega arith)
  step-Good k p (started cfg r) v room = let (w, h) = start-Good k p cfg r v in (w, omega arith)
  step-Good k p stopped v room = let (w, h) = stop-Good k p v in (w, omega arith)

  run-Good :
      (k : ℕ) (p : Protocol F) (es : List (Event F))
      → Good k p
      → k + length es < 2 ^ 32
      → Inv (run nums p es)
  unfolding run
  run-Good k p [] (v, h) room = v
  run-Good k p (e ∷ es) v room =
      run-Good (k + 1) (step nums p e) es (step-Good k p e v (omega arith)) (omega arith)

  -- After any sequence of calls on a new protocol, the send queue holds at most 32 items, the ids
  -- of the must-arrive entries increase and lie below the next id, each entry has been tried fewer
  -- than 15 times, and entries exist only under a possessed address. The sequence is shorter than
  -- 2 ^ 32, so that no id repeats.
  pub run-new_protocol-Inv :
      (owner name desc : Bytes) (callback : Bool) (es : List (Event F))
      → length es < 2 ^ 32
      → Inv (run nums (new_protocol owner name desc callback) es)
  unfolding new_protocol
  run-new_protocol-Inv owner name desc callback es room =
      run-Good 0 (new_protocol owner name desc callback) es
        (record { bounded = omega arith; ordered = omega arith; owned = inl refl }, omega arith)
        (omega arith)
