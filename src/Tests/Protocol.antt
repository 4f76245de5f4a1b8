-- ===== src/Tests/Protocol.antt =====
-- The protocol on concrete packets, and its theorems at inputs that meet their premises.
use rb3201_rbprotocol_librar.Prelude.{◌≡◌, refl, true, false, none, [], ◌∷◌, codes, List, arith}
use rb3201_rbprotocol_librar.Prelude.Int.{ℤ, pos, negsuc}
use rb3201_rbprotocol_librar.Protocol.State.{
  QueueItem, new_protocol, is_mustarrive_complete, uint32_max,
}
use rb3201_rbprotocol_librar.Protocol.Send.{send_mustarrive, or_new, stamp, mustarrive_packet}
use rb3201_rbprotocol_librar.Protocol.Handle.{handle_msg, e_of}
use rb3201_rbprotocol_librar.Protocol.Handle.Duplicates.{
  receive_all, delivered, Rising, delivered-receive_all,
}
use rb3201_rbprotocol_librar.Protocol.Handle.Possession.{IsTaken, handle_msg_possess}
use rb3201_rbprotocol_librar.Protocol.Handle.Completion.{
  handle_msg_confirms, send_mustarrive_pending, e_of-mustarrive_packet,
}
use rb3201_rbprotocol_librar.Protocol.Invariant.{Event, posted, received, resent, run}
use rb3201_rbprotocol_librar.Protocol.Invariant.Received.{Inv}
use rb3201_rbprotocol_librar.Protocol.Invariant.Steps.{run-new_protocol-Inv}
use rb3201_rbprotocol_librar.Protocol.Tasks.{send_batch, datagram}
use rb3201_rbprotocol_librar.Protocol.Tasks.Batch.{send_batch_fifo, sent_by}
use rb3201_rbprotocol_librar.Protocol.Tasks.Resend.{passes, passes-is_mustarrive_complete}
use rb3201_rbprotocol_librar.Tests.Inputs.{
  evaluation, whole_numbers, robot, owned, phone, possess_packet, ping, confirmation,
}

-- A repeated packet is confirmed and not delivered.
ping_twice :
    delivered whole_numbers
      (receive_all whole_numbers owned
        ((phone, ping 0 4) ∷ (phone, ping 0 5) ∷ (phone, ping 1 6) ∷ [])).1
    ≡ 0 ∷ 1 ∷ []
unfolding evaluation receive_all delivered
ping_twice = refl

-- The first datagram after a possession.
first_log :
    (send_batch whole_numbers 1
      (handle_msg whole_numbers robot phone possess_packet).0
      (handle_msg whole_numbers robot phone possess_packet).0.send_queue).1
    ≡ datagram 7 4000
        (codes "{\"c\":\"log\",\"e\":0,\"msg\":\"The device bot has been possessed!\\n\",\"n\":-1}")
      ∷ []
unfolding evaluation send_batch
first_log = refl

delivered-receive_all_example : Rising uint32_max (
    delivered whole_numbers
      (receive_all whole_numbers owned ((phone, ping 0 4) ∷ (phone, ping 0 5) ∷ [])).1)
unfolding evaluation
delivered-receive_all_example =
    delivered-receive_all whole_numbers owned ((phone, ping 0 4) ∷ (phone, ping 0 5) ∷ [])
      (record { address = refl; callback = refl }) ((refl, omega arith), ((refl, omega arith), tt))

handle_msg_possess_example :
    IsTaken whole_numbers phone uint32_max
      (negsuc 0)
      (codes "The device bot has been possessed!\n")
      (handle_msg whole_numbers robot phone possess_packet).0
unfolding evaluation
handle_msg_possess_example =
    (handle_msg_possess whole_numbers robot phone possess_packet refl refl refl refl).0

handle_msg_confirms_example :
    is_mustarrive_complete (handle_msg whole_numbers owned phone (confirmation 4 5)).0 4 ≡ true
unfolding evaluation
handle_msg_confirms_example =
    (handle_msg_confirms whole_numbers 0 owned (record owned { read_counter = pos 5 }) phone
      (confirmation 4 5) 6 (omega arith) refl refl refl refl refl refl refl (omega arith)).0

send_mustarrive_pending_example :
    is_mustarrive_complete (send_mustarrive whole_numbers owned (codes "hi") none).0 7 ≡ false
unfolding evaluation
send_mustarrive_pending_example =
    (send_mustarrive_pending whole_numbers owned (codes "hi") none 4 refl (omega arith)
      (omega arith) (omega arith)).1

e_of-mustarrive_packet_example :
    e_of whole_numbers
      (stamp whole_numbers owned (mustarrive_packet whole_numbers owned (codes "hi") none))
    ≡ 7
unfolding evaluation or_new
e_of-mustarrive_packet_example =
    e_of-mustarrive_packet whole_numbers owned (codes "hi") none
      (record { named = tt; sorted = tt }) (omega arith) refl

abbrev history : List (Event ℤ)
history =
    received phone possess_packet
    ∷ posted (codes "hi") none
    ∷ resent
    ∷ received phone (ping 0 1)
    ∷ []

run-new_protocol-Inv_example :
    Inv (run whole_numbers (new_protocol (codes "me") (codes "bot") (codes "toy") true) history)
run-new_protocol-Inv_example =
    run-new_protocol-Inv whole_numbers (codes "me") (codes "bot") (codes "toy") true history
      (omega arith)

passes-is_mustarrive_complete_example :
    is_mustarrive_complete (passes whole_numbers 15 owned) 4 ≡ true
unfolding evaluation
passes-is_mustarrive_complete_example =
    (passes-is_mustarrive_complete whole_numbers 0 owned 4 (omega arith)).1

abbrev two_items : List QueueItem
two_items =
    record { addr = phone; buf = codes "ab"; size = 2 }
    ∷ record { addr = phone; buf = codes "c"; size = 1 }
    ∷ []

send_batch_fifo_example :
    send_batch whole_numbers 16 owned two_items
    ≡ (record owned { send_queue = [] }, sent_by whole_numbers owned two_items, false)
unfolding evaluation
send_batch_fifo_example = send_batch_fifo whole_numbers 16 owned two_items (refl, (refl, tt))
