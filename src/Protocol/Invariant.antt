-- ===== src/Protocol/Invariant.antt =====
-- The methods of `Protocol` as steps, and what holds after every sequence of them.
pub mod Entries
pub mod Received
pub mod Steps
use rb3201_rbprotocol_librar.Prelude.{
  Bool, ℕ, suc, ◌+◌, ◌%◌, ◌^◌, ◌≤◌, ◌<◌, ◌≡◌, refl, ◌⊎◌, inl, inr, true, false, not, none, some,
  Option, List, [], ◌∷◌, ◌++◌, Bytes, length, All, Bool-cases, arith,
}
use rb3201_rbprotocol_librar.Prelude.Int.{pos}
use rb3201_rbprotocol_librar.Json.Value.{Members, NumberOps}
use rb3201_rbprotocol_librar.Protocol.State.{
  ProtocolConfig, EspErr, start, stop, ProtocolAddr, no_addr, udp, ws, QueueItem, MustArrive,
  Protocol, queue_length, must_arrive_attempts, is_addr_empty, get_possessed_addr,
}
use rb3201_rbprotocol_librar.Protocol.Send.{send, send_mustarrive, send_log}
use rb3201_rbprotocol_librar.Protocol.Handle.{handle_msg}
use rb3201_rbprotocol_librar.Protocol.Tasks.{send_batch, resend_mustarrive_locked}

-- One call of a method, by the application or by a task.
pub data Event (F : Type 0) : Type 0 where
  received : ProtocolAddr → Members F → Event F
  sent : Bytes → Option (Members F) → Event F
  posted : Bytes → Option (Members F) → Event F
  logged : Bytes → Event F
  drained : ℕ → Event F
  resent : Event F
  started : ProtocolConfig → EspErr × Bool → Event F
  stopped : Event F

-- While `stop` waits for room in the queue, nothing has changed.
unfoldable pub stop_wait : {F : Type 0} → Protocol F → Option (Protocol F) → Protocol F
stop_wait p none = p
stop_wait p (some q) = q

module _ {F : Type 0} (nums : NumberOps F) where
  unfoldable pub step : Protocol F → Event F → Protocol F
  step p (received addr pkt) = (handle_msg nums p addr pkt).0
  step p (sent cmd obj) = send nums p cmd obj
  step p (posted cmd obj) = (send_mustarrive nums p cmd obj).0
  step p (logged text) = send_log nums p text
  step p (drained n) = (send_batch nums n p p.send_queue).0
  step p resent = (resend_mustarrive_locked nums p).0
  step p (started cfg udp_result) = (start p cfg udp_result).0
  step p stopped = stop_wait p (stop p)

  unfoldable pub run : Protocol F → List (Event F) → Protocol F
  run p [] = p
  run p (e ∷ es) = run (step p e) es
