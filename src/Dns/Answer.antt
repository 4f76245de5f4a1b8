-- ===== src/Dns/Answer.antt =====
-- The reply of `processDnsQuestion` to a query with one question for an address.
use rb3201_rbprotocol_librar.Prelude.{
  ℕ, ◌+◌, ◌-◌, ◌*◌, ◌/◌, ◌%◌, ◌^◌, ◌≤◌, ◌<◌, ◌≡◌, refl, ap, ◌∙◌, false, List, [], ◌∷◌, ◌++◌, Bytes,
  length, take, drop, replicate, append_assoc, length-append, ltb, bit_or, arith,
}
use rb3201_rbprotocol_librar.Dns.{
  Progress, done, header_size, answer_size, out_buf_size, dns_msg_size_limit, parse_dns_name,
  word_at, store, htons, question_loop, finish_reply, mark_reply, process_dns_question,
}
use rb3201_rbprotocol_librar.Dns.Name.{encode, dotted, IsLabels, parse_dns_name-encode}
use rb3201_rbprotocol_librar.Dns.Question.{
  question, header, answer, take-append, question_loop-question,
}

-- A standard query that fits comes as far as the end of the loop.
process_dns_question-finish :
    (buff marked : Bytes) (req_size : ℕ) (ip : Bytes) (p : Progress)
    → mark_reply buff ≡ marked
    → (word_at buff 2 / 2 ^ 11) % 16 ≡ 0
    → word_at buff 4 * answer_size + req_size ≤ dns_msg_size_limit
    → question_loop
        (word_at buff 4)
        (record {
          buff = marked ++ replicate (word_at buff 4 * answer_size + req_size - length marked) 0;
          cur_question = header_size;
          cur_ans = req_size;
          answer_count = 0;
        })
        req_size
        ip
      ≡ done p
    → process_dns_question buff req_size ip ≡ finish_reply p req_size
unfolding process_dns_question
process_dns_question-finish buff marked req_size ip p m standard fits e =
    let small : ltb dns_msg_size_limit (word_at buff 4 * answer_size + req_size) ≡ false =
      ground (arith, fits) in
    rw (process_dns_question, m, standard, small, e) refl

-- Nothing is left of the request behind its questions.
finish_reply-whole :
    (p : Progress) (req_size : ℕ)
    → p.cur_question ≡ req_size
    → finish_reply p req_size
      ≡ done (store 6 (htons p.answer_count) p.buff, p.answer_count * answer_size + req_size)
unfolding finish_reply
finish_reply-whole p req_size e =
    let whole : ltb p.cur_question req_size ≡ false = ground arith in rw whole refl

mark_reply-header :
    (id0 id1 f0 f1 an0 an1 ns0 ns1 ar0 ar1 : ℕ) (rest : Bytes)
    → mark_reply (header id0 id1 f0 f1 an0 an1 ns0 ns1 ar0 ar1 rest)
      ≡ header id0 id1 (bit_or f0 128) f1 an0 an1 0 0 0 0 rest
unfolding mark_reply store
mark_reply-header id0 id1 f0 f1 an0 an1 ns0 ns1 ar0 ar1 rest = refl

store-header :
    (id0 id1 f0 f1 an0 an1 : ℕ) (rest : Bytes)
    → store 6 (htons 1) (header id0 id1 f0 f1 an0 an1 0 0 0 0 rest)
      ≡ header id0 id1 f0 f1 0 1 0 0 0 0 rest
unfolding store
store-header id0 id1 f0 f1 an0 an1 rest = refl

-- A query with one question for an address is answered in full: the request comes back with its id,
-- the response bit set and the counts 1, 1, 0, 0, the question as it was, and behind it an
-- answer that points at the question's name and holds the class, 300 seconds and the address. The
-- name has labels that are not empty and takes at most 64 bytes in front of the zero that ends it, the
-- operation is a standard query, the address has 4 bytes, and there are no more records.
pub process_dns_question-answer :
    (id0 id1 f0 f1 an0 an1 ns0 ns1 ar0 ar1 : ℕ) (l : Bytes) (ls : List Bytes) (c0 c1 : ℕ)
    (ip unused : Bytes)
    → IsLabels (l ∷ ls)
    → length (encode (l ∷ ls)) ≤ out_buf_size
    → c0 < 256
    → c1 < 256
    → ((f0 * 256 + f1) / 2 ^ 11) % 16 ≡ 0
    → length ip ≡ 4
    → (buff : Bytes) × (process_dns_question
          (header id0 id1 f0 f1 an0 an1 ns0 ns1 ar0 ar1
            (question (encode (l ∷ ls)) c0 c1 ++ unused))
          (header_size + length (question (encode (l ∷ ls)) c0 c1))
          ip
        ≡ done (buff, header_size + length (question (encode (l ∷ ls)) c0 c1) + answer_size))
      × (take (header_size + length (question (encode (l ∷ ls)) c0 c1) + answer_size) buff
          ≡ header id0 id1
              (bit_or f0 128)
              f1
              0
              1
              0
              0
              0
              0
              (question (encode (l ∷ ls)) c0 c1 ++ answer c0 c1 ip))
process_dns_question-answer id0 id1 f0 f1 an0 an1 ns0 ns1 ar0 ar1 l ls c0 c1 ip unused h fits h0 h1
      standard four =
    let q = question (encode (l ∷ ls)) c0 c1 in
    let n = header_size + length q in
    let size_q : length q ≡ length (encode (l ∷ ls)) + 5 =
      length-append (encode (l ∷ ls)) (0 ∷ (0 ∷ 1 ∷ c0 ∷ c1 ∷ [])) in
    let request = header id0 id1 f0 f1 an0 an1 ns0 ns1 ar0 ar1 (q ++ unused) in
    let pre = header id0 id1 (bit_or f0 128) f1 an0 an1 0 0 0 0 [] in
    let zeros = replicate {A = ℕ} (1 * answer_size + n - length (pre ++ (q ++ unused))) 0 in
    let behind = drop (length (answer c0 c1 ip)) (unused ++ zeros) in
    let p : Progress = record {
      buff = pre ++ (q ++ (answer c0 c1 ip ++ behind));
      cur_question = n;
      cur_ans = n + answer_size;
      answer_count = 1;
    } in
    let read =
      parse_dns_name-encode pre l ls ((0 ∷ 1 ∷ c0 ∷ c1 ∷ []) ++ (unused ++ zeros)) (length q) h
        (omega (arith, size_q)) fits in
    let shape : q ++ (unused ++ zeros)
        ≡ encode (l ∷ ls) ++ (0 ∷ ((0 ∷ 1 ∷ c0 ∷ c1 ∷ []) ++ (unused ++ zeros))) =
      append_assoc (encode (l ∷ ls)) (0 ∷ (0 ∷ 1 ∷ c0 ∷ c1 ∷ [])) (unused ++ zeros) in
    let looped =
      question_loop-question pre (encode (l ∷ ls)) c0 c1 ip (unused ++ zeros) (dotted l ls) refl
        fits h0 h1 (ap (λ b. parse_dns_name (pre ++ b) header_size (length q)) shape ∙ read) in
    let run =
      process_dns_question-finish request (pre ++ (q ++ unused)) n ip p
        (mark_reply-header id0 id1 f0 f1 an0 an1 ns0 ns1 ar0 ar1 (q ++ unused)) standard
        (omega (arith, size_q, fits))
        (ap
            (λ b.
              question_loop 1
                (record {
                  buff = pre ++ b;
                  cur_question = header_size;
                  cur_ans = n;
                  answer_count = 0;
                })
                n ip)
            (append_assoc q unused zeros)
          ∙ looped) in
    let total : 1 * answer_size + n ≡ n + answer_size = omega arith in
    let counted =
      store-header id0 id1 (bit_or f0 128) f1 an0 an1 (q ++ (answer c0 c1 ip ++ behind)) in
    let buff = header id0 id1 (bit_or f0 128) f1 0 1 0 0 0 0 (q ++ (answer c0 c1 ip ++ behind)) in
    let pre' = header id0 id1 (bit_or f0 128) f1 0 1 0 0 0 0 [] in
    (
      buff,
      run ∙ finish_reply-whole p n refl ∙ rw (counted, total) refl,
      take-append (n + answer_size) (pre' ++ q) (answer c0 c1 ip) behind (omega (arith, four)),
    )
