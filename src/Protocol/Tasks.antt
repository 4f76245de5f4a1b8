-- ===== src/Protocol/Tasks.antt =====
-- `resend_mustarrive_locked` and the rounds of the two tasks.
pub mod Resend
pub mod Batch
use rb3201_rbprotocol_librar.Prelude.{
  ℕ, zero, suc, ◌+◌, ◌/◌, ◌%◌, ◌^◌, Bool, true, false, Option, none, some, List, [], ◌∷◌, ◌++◌,
  Bytes, codes, take, leb, if◌then◌else◌,
}
use rb3201_rbprotocol_librar.Prelude.Int.{ℤ}
use rb3201_rbprotocol_librar.Json.Value.{Members, NumberOps, object}
use rb3201_rbprotocol_librar.Json.Text.{serialize}
use rb3201_rbprotocol_librar.Ws.Frame.{frame_header}
use rb3201_rbprotocol_librar.Protocol.State.{
  ProtocolAddr, no_addr, udp, ws, QueueItem, MustArrive, Protocol, must_arrive_attempts,
  is_addr_empty,
}
use rb3201_rbprotocol_librar.Protocol.Send.{stamp, count_write}
use rb3201_rbprotocol_librar.Protocol.Handle.{Calls, handle_msg}

-- What goes to a socket: a datagram to an address and port, or the bytes for a Websocket client.
pub data Sent : Type 0 where
  datagram : ℕ → ℕ → Bytes → Sent
  frame : ℕ → Bytes → Sent

-- `MS_TO_TICKS`, for a tick of `tick_ms` milliseconds.
unfoldable pub ms_to_ticks : ℕ → ℕ → ℕ
ms_to_ticks tick_ms ms = if leb tick_ms ms then ms / tick_ms else 1

module _ {F : Type 0} (nums : NumberOps F) where
  -- The body of the loop up to the count of attempts, where `addr` is the possessed address. With
  -- none the source reads an address that was never written; the queue is then empty.
  unfoldable pub resend_to :
      Protocol F → ProtocolAddr → Members F → Protocol F × Members F × List Sent
  unfolding stamp count_write
  resend_to p (udp ip port) pkt =
      if p.has_udp
      then (
        count_write p,
        stamp nums p pkt,
        datagram ip port (serialize nums (object (stamp nums p pkt))) ∷ [],
      )
      else (p, pkt, [])
  resend_to p no_addr pkt = (p, pkt, [])
  resend_to p (ws fd) pkt = (p, pkt, [])

  -- `if (++(*itr).attempts >= MUST_ARRIVE_ATTEMPTS)` erase, else keep.
  unfoldable pub keep_entry : MustArrive F → Members F → List (MustArrive F) → List (MustArrive F)
  keep_entry m pkt kept =
      if leb must_arrive_attempts (m.attempts + 1)
      then kept
      else record m { pkt = pkt; attempts = m.attempts + 1 } ∷ kept

  unfoldable pub resend_loop :
      Protocol F → List (MustArrive F) → Protocol F × List (MustArrive F) × List Sent
  unfolding resend_to keep_entry
  resend_loop p [] = (p, [], [])
  resend_loop p (m ∷ ms) =
      let (q, pkt, out) = resend_to p p.possessed_addr m.pkt in
      let (r, kept, outs) = resend_loop q ms in (r, keep_entry m pkt kept, out ++ outs)

  unfoldable pub resend_mustarrive_locked : Protocol F → Protocol F × List Sent
  unfolding resend_loop
  resend_mustarrive_locked p =
      let (q, kept, out) = resend_loop p p.mustarrive_queue in
      (record q { mustarrive_queue = kept }, out)

  -- The switch on the kind of an item that was taken from the queue.
  unfoldable pub send_item : Protocol F → ProtocolAddr → QueueItem → List Sent
  send_item p (udp ip port) it =
      if p.has_udp then datagram ip port (take it.size it.buf) ∷ [] else []
  send_item p (ws fd) it =
      if p.has_ws then frame fd (frame_header it.size) ∷ frame fd (take it.size it.buf) ∷ [] else []
  send_item p no_addr it = []

  -- The inner loop of `send_task`: at most so many items, up to an empty queue, or up to the item
  -- with no address, which ends the task.
  unfoldable pub send_batch : ℕ → Protocol F → List QueueItem → Protocol F × List Sent × Bool
  unfolding is_addr_empty send_item
  send_batch zero p items = (record p { send_queue = items }, [], false)
  send_batch (suc i) p [] = (record p { send_queue = [] }, [], false)
  send_batch (suc i) p (it ∷ items) =
      let rest : Protocol F × List Sent × Bool =
        (let (q, outs, exit) = send_batch i p items in (q, send_item p it.addr it ++ outs, exit)) in
      if is_addr_empty it.addr then (record p { send_queue = items }, [], true) else rest

  -- `if (m_mustarrive_queue.size() != 0) resend_mustarrive_locked()`
  unfoldable pub resend_pending : Protocol F → List (MustArrive F) → Protocol F × List Sent
  unfolding resend_mustarrive_locked
  resend_pending p [] = (p, [])
  resend_pending p (m ∷ ms) = resend_mustarrive_locked p

  -- One round of `send_task` at tick `now`, with the next resend due at `next`; the clock reads
  -- `later` when the new due time is set. The flag says that the task ends.
  unfoldable pub send_task_round : ℕ → ℕ → ℕ → ℕ → Protocol F → Protocol F × List Sent × ℕ × Bool
  unfolding send_batch resend_pending ms_to_ticks
  send_task_round tick_ms now later next p =
      let (q, outs, exit) = send_batch 16 p p.send_queue in
      if exit
      then (q, outs, next, true)
      else if leb next now
      then (let (r, more) = resend_pending q q.mustarrive_queue in
          (r, outs ++ more, (later + ms_to_ticks tick_ms 100) % 2 ^ 32, false))
      else (q, outs, next, false)

  -- The messages that the backends' `recv_iter` return in one round of `recv_task`.
  unfoldable pub recv_one :
      Protocol F → Bool → Option (ProtocolAddr × Members F) → Protocol F × Calls F
  unfolding handle_msg
  recv_one p true (some (addr, pkt)) = handle_msg nums p addr pkt
  recv_one p _ _ = (p, [])

  unfoldable pub recv_task_round :
      Protocol F
      → Option (ProtocolAddr × Members F)
      → Option (ProtocolAddr × Members F)
      → Protocol F × Calls F
  unfolding recv_one
  recv_task_round p from_udp from_ws =
      let (q, calls) = recv_one p p.has_udp from_udp in
      let (r, more) = recv_one q q.has_ws from_ws in (r, calls ++ more)
