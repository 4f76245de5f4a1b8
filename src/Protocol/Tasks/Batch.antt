-- ===== src/Protocol/Tasks/Batch.antt =====
-- The sending task: first in, first out, until it is told to end.
use rb3201_rbprotocol_librar.Prelude.{
  ℕ, zero, suc, ◌≡◌, refl, true, false, some, List, [], ◌∷◌, ◌++◌, All, take, drop, length, ◌<◌,
  lt→ltb,
}
use rb3201_rbprotocol_librar.Json.Value.{NumberOps}
use rb3201_rbprotocol_librar.Protocol.State.{
  QueueItem, Protocol, queue_length, is_addr_empty, stop, stop_item,
}
use rb3201_rbprotocol_librar.Protocol.Tasks.{Sent, send_item, send_batch}

module _ {F : Type 0} (nums : NumberOps F) where
  -- What the items put on the sockets, in their order.
  abbrev pub sent_by : Protocol F → List QueueItem → List Sent
  sent_by p [] = []
  sent_by p (it ∷ items) = send_item nums p it.addr it ++ sent_by p items

  -- Items that have an address leave the queue in the order in which they entered it, at most
  -- `i` of them, each once, and what is left keeps its order.
  pub send_batch_fifo :
      (i : ℕ) (p : Protocol F) (items : List QueueItem)
      → All (λ (it : QueueItem). is_addr_empty it.addr ≡ false) items
      → send_batch nums i p items
        ≡ (record p { send_queue = drop i items }, sent_by p (take i items), false)
  unfolding send_batch
  send_batch_fifo zero p items h = refl
  send_batch_fifo (suc i) p [] h = refl
  send_batch_fifo (suc i) p (it ∷ items) (a, h) = rw (a, send_batch_fifo i p items h)

  -- `stop` on a running protocol with room in the queue returns at once. It makes the sending task
  -- end before anything else is sent, leaves the queue as it was, and takes the backends away.
  stop-send_batch :
      (i : ℕ) (p : Protocol F)
      → p.task_send ≡ true
      → length p.send_queue < queue_length
      → (q : Protocol F) × (stop p ≡ some q)
        × (send_batch nums (suc i) q q.send_queue
            ≡ (record q { send_queue = p.send_queue }, [], true))
        × (q.task_send ≡ false)
        × (q.has_udp ≡ false)
        × (q.has_ws ≡ false)
  unfolding stop send_batch
  stop-send_batch i p running room = (
    record p {
      send_queue = stop_item ∷ p.send_queue;
      has_udp = false;
      has_ws = false;
      task_send = false;
      task_recv = false;
    },
    rw (running, lt→ltb (length p.send_queue) queue_length room),
    refl,
    refl,
    refl,
    refl,
  )
