-- ===== src/Tests/Dns.antt =====
-- Names and a query, on concrete inputs.
use rb3201_rbprotocol_librar.Prelude.{
  ◌≡◌, ◌≤◌, length, refl, List, [], ◌∷◌, ◌++◌, Bytes, codes, take, replicate, arith,
}
use rb3201_rbprotocol_librar.Dns.{
  process_dns_question, mark_reply, store, question_loop, name_loop, answer_question, answer_to,
  finish_reply, parse_dns_name, overrun, done,
}
use rb3201_rbprotocol_librar.Dns.Name.{encode, parse_dns_name-overrun}
use rb3201_rbprotocol_librar.Dns.Question.{header, question, answer}
use rb3201_rbprotocol_librar.Dns.Bounds.{process_dns_question_fits}
use rb3201_rbprotocol_librar.Dns.Answer.{process_dns_question-answer}

abbrev host : List Bytes
host = codes "local" ∷ []

-- A label of 32 bytes and one of 31.
parse_dns_name-overrun_example :
    parse_dns_name
      (codes "head" ++ (encode (replicate 32 b'a' ∷ replicate 31 b'b' ∷ []) ++ (0 ∷ [])))
      4
      80
    ≡ overrun
parse_dns_name-overrun_example =
    parse_dns_name-overrun (codes "head") (replicate 32 b'a') (replicate 31 b'b' ∷ []) [] 80
      (omega arith, (omega arith, tt)) (omega arith) refl

-- "robot.local", a query that asks for recursion, in a buffer of 64 bytes.
process_dns_question-answer_example :
    (buff : Bytes) × (process_dns_question
        (header 171 205 1 0 0 0 0 0 0 0
          (question (encode (codes "robot" ∷ host)) 0 1 ++ replicate 35 0))
        29
        (10 ∷ 0 ∷ 0 ∷ 1 ∷ [])
      ≡ done (buff, 45))
    × (take 45 buff
        ≡ header 171 205 129 0 0 1 0 0 0 0
            (question (encode (codes "robot" ∷ host)) 0 1 ++ answer 0 1 (10 ∷ 0 ∷ 0 ∷ 1 ∷ [])))
process_dns_question-answer_example =
    process_dns_question-answer 171 205 1 0 0 0 0 0 0 0 (codes "robot") host 0 1
      (10 ∷ 0 ∷ 0 ∷ 1 ∷ []) (replicate 35 0) (omega arith, (omega arith, tt)) (omega arith)
      (omega arith) (omega arith) refl refl

-- A query for the address of "a", in a buffer of its own size.
abbrev query : Bytes
query = header 1 2 1 0 0 0 0 0 0 0 (question (encode (codes "a" ∷ [])) 0 1)

abbrev reply : Bytes
reply =
    header 1 2 129 0 0 1 0 0 0 0
      (question (encode (codes "a" ∷ [])) 0 1 ++ answer 0 1 (10 ∷ 0 ∷ 0 ∷ 1 ∷ []))

process_dns_question_fits_example : (35 ≤ 256) × (35 ≤ length reply)
unfolding process_dns_question mark_reply store question_loop parse_dns_name name_loop
    answer_question answer_to finish_reply
process_dns_question_fits_example =
    process_dns_question_fits query 19 (10 ∷ 0 ∷ 0 ∷ 1 ∷ []) reply 35 (omega arith) refl refl
