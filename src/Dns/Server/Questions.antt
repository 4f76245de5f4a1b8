-- ===== src/Dns/Server/Questions.antt =====
-- The DNS responder's task on what arrives at its socket.
use rb3201_rbprotocol_librar.Prelude.{
  ℕ, zero, suc, ◌+◌, ◌-◌, ◌*◌, ◌/◌, ◌%◌, ◌^◌, min, ◌≤◌, ◌<◌, ◌≡◌, refl, ap, ◌∙◌, true, false, List,
  [], ◌∷◌, ◌++◌, Bytes, length, take, take_all, replicate, ltb, leb, bit_or, arith,
}
use rb3201_rbprotocol_librar.Dns.{
  dns_msg_size_limit, header_size, answer_size, out_buf_size, done, process_dns_question,
}
use rb3201_rbprotocol_librar.Dns.Name.{encode, IsLabels}
use rb3201_rbprotocol_librar.Dns.Question.{header, question, answer}
use rb3201_rbprotocol_librar.Dns.Answer.{process_dns_question-answer}
use rb3201_rbprotocol_librar.Dns.Server.{
  Poll, nothing, datagram, popped, packet, peek_size, pop_packet, receive_packet, processed_size,
  SendResult, send_reply, task_body,
}

-- Polls that find nothing, in front of others.
abbrev pub after_waits : ℕ → List Poll → List Poll
after_waits zero polls = polls
after_waits (suc n) polls = nothing ∷ after_waits n polls

take-min : (size : ℕ) (xs : Bytes) → take (min (length xs) size) xs ≡ take size xs
take-min zero xs = let e : min (length xs) 0 ≡ 0 = omega arith in rw e refl
take-min (suc size) [] = let e : min 0 (suc size) ≡ 0 = omega arith in rw e refl
take-min (suc size) (x ∷ xs) =
    let e : min (suc (length xs)) (suc size) ≡ suc (min (length xs) size) = omega arith in
    rw e (ap (◌∷◌ x) (take-min size xs))

-- The packet that the task gets is what of a datagram fits in the buffer, after however many polls: a longer one is cut, and
-- the buffer stays as large as it is. It has 256 bytes at most.
receive_packet_cut :
    (n size : ℕ) (message : Bytes) (rest : List Poll)
    → size ≤ dns_msg_size_limit
    → receive_packet (after_waits n (datagram message popped ∷ rest)) size
      ≡ packet (take size message) size rest
unfolding receive_packet pop_packet peek_size
receive_packet_cut zero size message rest small =
    let len = length message in
    let fits : leb (min len size) size ≡ true = ground arith in
    let few : ltb dns_msg_size_limit (min len size) ≡ false = ground arith in
    rw (fits, few) (ap (λ m. packet m size rest) (take-min size message))
receive_packet_cut (suc n) size message rest small = receive_packet_cut n size message rest small

task_body-packet :
    (fuel size : ℕ) (polls : List Poll) (ip : ℕ → Bytes) (sendto : ℕ → SendResult) (message : Bytes)
    (size' : ℕ) (rest : List Poll) (reply : Bytes) (reply_size : ℕ) (out : Bytes)
    → receive_packet polls size ≡ packet message size' rest
    → process_dns_question
        (message ++ replicate (size' - length message) 0)
        (length message)
        (ip fuel)
      ≡ done (reply, reply_size)
    → take reply_size reply ≡ out
    → task_body (suc fuel) size polls ip sendto
      ≡ send_reply out (sendto fuel) (
          task_body fuel
            (processed_size (message ++ replicate (size' - length message) 0) (length message))
            rest
            ip
            sendto)
unfolding task_body
task_body-packet fuel size polls ip sendto message size' rest reply reply_size out received answered
      text =
    rw (task_body, received, answered, text) refl

-- A query with one question for an address is answered as soon as it arrives, and the task goes on with what comes
-- then: the reply that it sends holds the question as it was, marked as a reply with one answer, and the
-- answer with the address that the application gives. The query fits in the buffer, which has 256 bytes
-- at most, its name has labels that are not empty and takes at most 64 bytes, and it is a standard
-- query with no more records.
pub task_body-answer :
    (fuel n size : ℕ) (rest : List Poll) (ip : ℕ → Bytes) (sendto : ℕ → SendResult)
    (id0 id1 f0 f1 an0 an1 ns0 ns1 ar0 ar1 : ℕ) (l : Bytes) (ls : List Bytes) (c0 c1 : ℕ)
    → let q = question (encode (l ∷ ls)) c0 c1 in
      let query = header id0 id1 f0 f1 an0 an1 ns0 ns1 ar0 ar1 q in
      size ≤ dns_msg_size_limit
      → length query ≤ size
      → IsLabels (l ∷ ls)
      → length (encode (l ∷ ls)) ≤ out_buf_size
      → c0 < 256
      → c1 < 256
      → ((f0 * 256 + f1) / 2 ^ 11) % 16 ≡ 0
      → length (ip fuel) ≡ 4
      → (size' : ℕ) × (task_body
            (suc fuel)
            size
            (after_waits n (datagram query popped ∷ rest))
            ip
            sendto
          ≡ send_reply
              (header id0 id1 (bit_or f0 128) f1 0 1 0 0 0 0 (q ++ answer c0 c1 (ip fuel)))
              (sendto fuel)
              (task_body fuel size' rest ip sendto))
task_body-answer fuel n size rest ip sendto id0 id1 f0 f1 an0 an1 ns0 ns1 ar0 ar1 l ls c0 c1 small
      fits h name_fits h0 h1 standard four =
    let q = question (encode (l ∷ ls)) c0 c1 in
    let query = header id0 id1 f0 f1 an0 an1 ns0 ns1 ar0 ar1 q in
    let size_q : length query ≡ header_size + length q = omega arith in
    let unused = replicate {A = ℕ} (size - length query) 0 in
    let received =
      receive_packet_cut n size query rest small
      ∙ ap (λ m. packet m size rest) (take_all size query fits) in
    let (buff, replied_, text) =
      process_dns_question-answer id0 id1 f0 f1 an0 an1 ns0 ns1 ar0 ar1 l ls c0 c1 (ip fuel) unused
        h name_fits h0 h1 standard four in
    (
      processed_size (query ++ unused) (length query),
      task_body-packet fuel size (after_waits n (datagram query popped ∷ rest)) ip sendto query size
          rest buff (header_size + length q + answer_size)
          (header id0 id1 (bit_or f0 128) f1 0 1 0 0 0 0 (q ++ answer c0 c1 (ip fuel))) received
          (ap (λ m. process_dns_question (query ++ unused) m (ip fuel)) size_q ∙ replied_) text,
    )
