-- ===== src/Dns/Bounds.antt =====
-- The reply of `processDnsQuestion` stays in its buffer and in the size of a message.
use rb3201_rbprotocol_librar.Prelude.{
  ℕ, zero, suc, ◌+◌, ◌-◌, ◌*◌, ◌/◌, ◌%◌, ◌^◌, ◌≤◌, ◌≡◌, refl, ap, ◌∙◌, false, inl, inr, [], ◌∷◌,
  ◌++◌, Bytes, length, take, drop, replicate, length-append, length-take, length-drop, ltb, ◌==◌,
  if◌then◌else◌, Bool-cases, bit_or, get_or, arith,
}
use rb3201_rbprotocol_librar.Dns.{
  NameResult, overrun, rejected, name, Progress, Outcome, undefined, ignored, done, header_size,
  question_size, answer_size, dns_msg_size_limit, parse_dns_name, word_at, store, htons, answer_to,
  answer_question, question_loop, finish_reply, mark_reply, process_dns_question,
}

length-store :
    (at : ℕ) (bs buff : Bytes)
    → at + length bs ≤ length buff
    → length (store at bs buff) ≡ length buff
unfolding store
length-store at bs buff h = omega (
  arith,
  h,
  length-append (take at buff) (bs ++ drop (at + length bs) buff),
  length-append bs (drop (at + length bs) buff),
  length-take at buff,
  length-drop (at + length bs) buff,
)

length-answer_to :
    (q clazz : ℕ) (ip : Bytes) → length ip ≡ 4 → length (answer_to q clazz ip) ≡ answer_size
unfolding answer_to
length-answer_to q clazz ip h = omega (arith, h)

-- The next answer and those of the questions left have room behind the request.
record HasRoom (p : Progress) (left req_size : ℕ) : Type 0 where
  room : (p.answer_count + left) * answer_size + req_size ≤ length p.buff
  next : p.cur_ans ≡ req_size + p.answer_count * answer_size

-- What a part of the loop leaves.
abbrev Grows : Progress → ℕ → ℕ → Outcome Progress → Type 0
Grows p left req_size undefined = Unit
Grows p left req_size ignored = Unit
Grows p left req_size (done p') =
    (length p'.buff ≡ length p.buff) × (p'.answer_count ≤ p.answer_count + left)

answer_question-HasRoom :
    (p : Progress) (left req_size name_end : ℕ) (ip : Bytes)
    → length ip ≡ 4
    → HasRoom p (suc left) req_size
    → (length (answer_question p name_end ip).buff ≡ length p.buff)
      × ((answer_question p name_end ip).answer_count ≤ p.answer_count + 1)
      × HasRoom (answer_question p name_end ip) left req_size
unfolding answer_question
answer_question-HasRoom p left req_size name_end ip four h =
    elim (Bool-cases (word_at p.buff name_end == 1)) [
      | inr other ↦
          rw other (refl, omega arith, record { room = omega (arith, h.room); next = h.next })
      | inl address ↦
          let bs = answer_to p.cur_question (word_at p.buff (name_end + 2)) ip in
          let kept : length (store p.cur_ans bs p.buff) ≡ length p.buff =
            length-store p.cur_ans bs p.buff (
              omega (
                arith,
                h.room,
                h.next,
                length-answer_to p.cur_question (word_at p.buff (name_end + 2)) ip four,
              )) in
          rw address (
            kept,
            omega arith,
            record { room = omega (arith, h.room, kept); next = omega (arith, h.next) },
          )
    ]

Grows-suc :
    (p p' : Progress) (left req_size : ℕ) (o : Outcome Progress)
    → length p'.buff ≡ length p.buff
    → p'.answer_count ≤ p.answer_count + 1
    → Grows p' left req_size o
    → Grows p (suc left) req_size o
Grows-suc p p' left req_size undefined same few h = tt
Grows-suc p p' left req_size ignored same few h = tt
Grows-suc p p' left req_size (done p'') same few (kept, more) = (kept ∙ same, omega arith)

question_loop-Grows :
    (left : ℕ) (p : Progress) (req_size : ℕ) (ip : Bytes)
    → length ip ≡ 4
    → HasRoom p left req_size
    → Grows p left req_size (question_loop left p req_size ip)
unfolding question_loop
question_loop-Grows zero p req_size ip four h = (refl, omega arith)
question_loop-Grows (suc left) p req_size ip four h =
    go (parse_dns_name p.buff p.cur_question ((req_size + 2 ^ 32 - p.cur_question) % 2 ^ 32))
      (λ p' room. question_loop-Grows left p' req_size ip four room)
  where
    go :
        (r : NameResult)
        → ((p' : Progress)
            → HasRoom p' left req_size
            → Grows p' left req_size (question_loop left p' req_size ip))
        → Grows p (suc left) req_size (elim r [
          | overrun ↦ undefined
          | rejected ↦ ignored
          | name hostname name_end ↦
              if ltb (length p.buff) (name_end + question_size)
              then undefined
              else question_loop left (answer_question p name_end ip) req_size ip
        ])
    go overrun ih = tt
    go rejected ih = tt
    go (name hostname name_end) ih =
        elim (Bool-cases (ltb (length p.buff) (name_end + question_size))) [
          | inl behind ↦ rw behind tt
          | inr inside ↦
              let (same, few, room) = answer_question-HasRoom p left req_size name_end ip four h in
              rw inside (
                Grows-suc p (answer_question p name_end ip) left req_size
                  (question_loop left (answer_question p name_end ip) req_size ip) same few
                  (ih (answer_question p name_end ip) room))
        ]

-- A reply lies in its buffer and in the bound.
abbrev IsBounded : ℕ → Outcome (Bytes × ℕ) → Type 0
IsBounded bound undefined = Unit
IsBounded bound ignored = Unit
IsBounded bound (done (reply, len)) = (len ≤ bound) × (len ≤ length reply)

finish_reply-IsBounded :
    (p : Progress) (req_size bound : ℕ)
    → header_size ≤ length p.buff
    → p.answer_count * answer_size + req_size ≤ length p.buff
    → p.answer_count * answer_size + req_size ≤ bound
    → IsBounded bound (finish_reply p req_size)
unfolding finish_reply
finish_reply-IsBounded p req_size bound head room few =
    let counted = store 6 (htons p.answer_count) p.buff in
    let kept : length counted ≡ length p.buff =
      length-store 6 (htons p.answer_count) p.buff (omega arith) in
    let extra = req_size - p.cur_question in
    elim (Bool-cases (ltb p.cur_question req_size)) [
      | inr whole ↦ rw whole (omega arith, omega (arith, kept))
      | inl more ↦ elim (Bool-cases (ltb (length counted) (req_size + extra))) [
        | inl outside ↦ rw (more, outside) tt
        | inr inside ↦
            let moved = take extra (drop req_size counted) in
            let fits : p.cur_question + length moved ≤ length counted =
              ground (arith, kept, length-take extra (drop req_size counted)) in
            rw (more, inside)
              (omega arith, omega (arith, kept, length-store p.cur_question moved counted fits))
      ]
    ]

bounded :
    (bound : ℕ) (o : Outcome Progress) (f : Progress → Outcome (Bytes × ℕ)) (p : Progress)
    (left req_size : ℕ)
    → Grows p left req_size o
    → ((p' : Progress)
        → length p'.buff ≡ length p.buff
        → p'.answer_count ≤ p.answer_count + left
        → IsBounded bound (f p'))
    → IsBounded bound (elim o [ undefined ↦ undefined | ignored ↦ ignored | done p' ↦ f p' ])
bounded bound undefined f p left req_size h k = tt
bounded bound ignored f p left req_size h k = tt
bounded bound (done p') f p left req_size (same, few) k = k p' same few

length-mark_reply :
    (buff : Bytes) → header_size ≤ length buff → length (mark_reply buff) ≡ length buff
unfolding mark_reply
length-mark_reply buff h =
    let flags = bit_or (get_or buff 2 0) 128 ∷ [] in
    let first = length-store 2 flags buff (omega arith) in
    omega (
      arith,
      first,
      length-store 8 (0 ∷ 0 ∷ 0 ∷ 0 ∷ []) (store 2 flags buff) (omega (arith, first)),
    )

length-replicate : (n : ℕ) → length (replicate {A = ℕ} n 0) ≡ n
length-replicate zero = refl
length-replicate (suc n) = omega (arith, length-replicate n)

ltb_le : (m n : ℕ) → ltb m n ≡ false → n ≤ m
ltb_le m n h = ground arith

-- The loop and what follows, from a header that is marked.
loop-IsBounded :
    (n req_size : ℕ) (marked ip : Bytes)
    → header_size ≤ length marked
    → length ip ≡ 4
    → n * answer_size + req_size ≤ dns_msg_size_limit
    → IsBounded dns_msg_size_limit
        (elim (question_loop n
          (record {
            buff = marked ++ replicate (n * answer_size + req_size - length marked) 0;
            cur_question = header_size;
            cur_ans = req_size;
            answer_count = 0;
          })
          req_size
          ip) [ undefined ↦ undefined | ignored ↦ ignored | done p ↦ finish_reply p req_size ])
loop-IsBounded n req_size marked ip head four few =
    let zeros = replicate {A = ℕ} (n * answer_size + req_size - length marked) 0 in
    let size : length (marked ++ zeros)
        ≡ length marked + (n * answer_size + req_size - length marked) =
      length-append marked zeros
      ∙ ap (◌+◌ (length marked)) (length-replicate (n * answer_size + req_size - length marked)) in
    let start : Progress = record {
      buff = marked ++ zeros;
      cur_question = header_size;
      cur_ans = req_size;
      answer_count = 0;
    } in
    let room : HasRoom start n req_size = record {
      room = omega (arith, size);
      next = omega arith;
    } in
    bounded dns_msg_size_limit (question_loop n start req_size ip) (λ p. finish_reply p req_size)
      start n req_size (question_loop-Grows n start req_size ip four room)
      (λ p same less.
        finish_reply-IsBounded p req_size dns_msg_size_limit (omega (arith, size, same, head))
          (omega (arith, size, same, less)) (omega (arith, less, few)))

process_dns_question-IsBounded :
    (buff : Bytes) (req_size : ℕ) (ip : Bytes)
    → header_size ≤ length buff
    → length ip ≡ 4
    → IsBounded dns_msg_size_limit (process_dns_question buff req_size ip)
unfolding process_dns_question
process_dns_question-IsBounded buff req_size ip head four =
    elim (Bool-cases ((word_at buff 2 / 2 ^ 11) % 16 == 0)) [
      | inr other ↦ rw (process_dns_question, other) tt
      | inl standard ↦
          elim (Bool-cases (ltb dns_msg_size_limit (word_at buff 4 * answer_size + req_size))) [
            | inl large ↦ rw (process_dns_question, standard, large) tt
            | inr small ↦
                rw (process_dns_question, standard, small)
                  (loop-IsBounded (word_at buff 4) req_size (mark_reply buff) ip
                    (omega (arith, length-mark_reply buff head)) four
                    (ltb_le dns_msg_size_limit (word_at buff 4 * answer_size + req_size) small))
          ]
    ]

-- The reply to a request, whatever its bytes are, lies in the buffer, and has at most the 256 bytes of a
-- message. The buffer holds a header, and the address has 4 bytes.
pub process_dns_question_fits :
    (buff : Bytes) (req_size : ℕ) (ip reply : Bytes) (len : ℕ)
    → header_size ≤ length buff
    → length ip ≡ 4
    → process_dns_question buff req_size ip ≡ done (reply, len)
    → (len ≤ dns_msg_size_limit) × (len ≤ length reply)
process_dns_question_fits buff req_size ip reply len head four e =
    rw e at (process_dns_question-IsBounded buff req_size ip head four)
