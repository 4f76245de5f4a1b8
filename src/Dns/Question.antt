-- ===== src/Dns/Question.antt =====
-- The loop of `processDnsQuestion` over a request with one question for an address.
use rb3201_rbprotocol_librar.Prelude.{
  ℕ, suc, ◌+◌, ◌-◌, ◌*◌, ◌/◌, ◌%◌, ◌^◌, ◌≤◌, ◌<◌, ◌≡◌, refl, ap, ◌∙◌, false, [], ◌∷◌, ◌++◌, Bytes,
  length, take, drop, get_or, append_assoc, length-append, take-length, drop-length, drop-drop, ltb,
  arith,
}
use rb3201_rbprotocol_librar.Dns.{
  Progress, done, name, header_size, question_size, answer_size, out_buf_size, parse_dns_name,
  word_at, store, htons, answer_to, answer_question, question_loop,
}

-- A question of type A: the labels of a name, the zero that ends it, and the two bytes of its class.
abbrev pub question : Bytes → ℕ → ℕ → Bytes
question labels c0 c1 = labels ++ (0 ∷ (0 ∷ 1 ∷ c0 ∷ c1 ∷ []))

abbrev pub header : (id0 id1 f0 f1 an0 an1 ns0 ns1 ar0 ar1 : ℕ) → Bytes → Bytes
header id0 id1 f0 f1 an0 an1 ns0 ns1 ar0 ar1 rest =
    id0 ∷ id1 ∷ f0 ∷ f1 ∷ 0 ∷ 1 ∷ an0 ∷ an1 ∷ ns0 ∷ ns1 ∷ ar0 ∷ ar1 ∷ rest

-- The answer: a pointer to the name at byte 12, type A, the class, 300 seconds, and the address.
abbrev pub answer : ℕ → ℕ → Bytes → Bytes
answer c0 c1 ip = 192 ∷ 12 ∷ 0 ∷ 1 ∷ c0 ∷ c1 ∷ 0 ∷ 0 ∷ 1 ∷ 44 ∷ 0 ∷ 4 ∷ ip

get_or-append :
    (pre : Bytes) (k : ℕ) (s : Bytes) (d : ℕ) → get_or (pre ++ s) (length pre + k) d ≡ get_or s k d
get_or-append [] k s d = ap (λ i. get_or s i d) (omega arith)
get_or-append (x ∷ pre) k s d =
    let e : length (x ∷ pre) + k ≡ suc (length pre + k) = omega arith in
    rw e (get_or-append pre k s d)

-- Bytes are assigned behind the first part of a buffer.
store-append :
    (pre bs s : Bytes) → store (length pre) bs (pre ++ s) ≡ pre ++ (bs ++ drop (length bs) s)
unfolding store
store-append pre bs s =
    rw (take-length pre s, drop-drop (length pre) (length bs) (pre ++ s), drop-length pre s) refl

pub take-append :
    (n : ℕ) (xs ys zs : Bytes) → n ≡ length xs + length ys → take n (xs ++ (ys ++ zs)) ≡ xs ++ ys
take-append n xs ys zs e =
    rw (e, ← length-append xs ys, ← append_assoc xs ys zs) (take-length (xs ++ ys) zs)

htons-bytes : (c0 c1 : ℕ) → c0 < 256 → c1 < 256 → htons (c0 * 256 + c1) ≡ c0 ∷ c1 ∷ []
htons-bytes c0 c1 h0 h1 =
    let e0 : ((c0 * 256 + c1) / 256) % 256 ≡ c0 = omega arith in
    let e1 : (c0 * 256 + c1) % 256 ≡ c1 = omega arith in rw (e0, e1) refl

answer_to-bytes :
    (c0 c1 : ℕ) (ip : Bytes)
    → c0 < 256
    → c1 < 256
    → answer_to header_size (c0 * 256 + c1) ip ≡ answer c0 c1 ip
unfolding answer_to
answer_to-bytes c0 c1 ip h0 h1 =
    ap (λ b. 192 ∷ 12 ∷ 0 ∷ 1 ∷ (b ++ (0 ∷ 0 ∷ 1 ∷ 44 ∷ 0 ∷ 4 ∷ ip))) (htons-bytes c0 c1 h0 h1)

-- A question of type A is answered at `cur_ans`.
answer_question-address :
    (p : Progress) (name_end clazz : ℕ) (ip : Bytes)
    → word_at p.buff name_end ≡ 1
    → word_at p.buff (name_end + 2) ≡ clazz
    → answer_question p name_end ip ≡ record {
      buff = store p.cur_ans (answer_to p.cur_question clazz ip) p.buff;
      cur_question = name_end + question_size;
      cur_ans = p.cur_ans + answer_size;
      answer_count = p.answer_count + 1;
    }
unfolding answer_question
answer_question-address p name_end clazz ip a c = rw (a, c) refl

-- A round of the loop, behind the name of the question.
question_loop-name :
    (left : ℕ) (p : Progress) (req_end : ℕ) (ip hostname : Bytes) (name_end : ℕ)
    → parse_dns_name p.buff p.cur_question ((req_end + 2 ^ 32 - p.cur_question) % 2 ^ 32)
      ≡ name hostname name_end
    → name_end + question_size ≤ length p.buff
    → question_loop (suc left) p req_end ip
      ≡ question_loop left (answer_question p name_end ip) req_end ip
unfolding question_loop
question_loop-name left p req_end ip hostname name_end e held =
    let inside : ltb (length p.buff) (name_end + question_size) ≡ false = ground arith in
    rw (question_loop, e, inside) refl

question_loop-end :
    (p : Progress) (req_end : ℕ) (ip : Bytes) → question_loop 0 p req_end ip ≡ done p
unfolding question_loop
question_loop-end p req_end ip = refl

module _ (pre labels : Bytes) (c0 c1 : ℕ) (ip tail : Bytes) where
  -- The bytes behind the name.
  get_or-question :
      (at k : ℕ)
      → at ≡ length pre + length labels + 1 + k
      → get_or (pre ++ (question labels c0 c1 ++ tail)) at 0 ≡ get_or (0 ∷ 1 ∷ c0 ∷ c1 ∷ tail) k 0
  get_or-question at k where_at =
      let size : length (pre ++ labels) ≡ length pre + length labels = length-append pre labels in
      let e : at ≡ length (pre ++ labels) + suc k = omega (arith, size) in
      rw
        (
          append_assoc labels (0 ∷ (0 ∷ 1 ∷ c0 ∷ c1 ∷ [])) tail,
          ← append_assoc pre labels (0 ∷ 0 ∷ 1 ∷ c0 ∷ c1 ∷ tail),
          e,
        )
        (get_or-append (pre ++ labels) (suc k) (0 ∷ 0 ∷ 1 ∷ c0 ∷ c1 ∷ tail) 0)

  -- What the loop makes of the question behind the header `pre`.
  answer_question-question :
      (name_end : ℕ)
      → name_end ≡ header_size + length labels + 1
      → length pre ≡ header_size
      → c0 < 256
      → c1 < 256
      → answer_question
          (record {
            buff = pre ++ (question labels c0 c1 ++ tail);
            cur_question = header_size;
            cur_ans = header_size + length (question labels c0 c1);
            answer_count = 0;
          })
          name_end
          ip
        ≡ record {
          buff =
              pre
              ++ (question labels c0 c1
                  ++ (answer c0 c1 ip ++ drop (length (answer c0 c1 ip)) tail));
          cur_question = header_size + length (question labels c0 c1);
          cur_ans = header_size + length (question labels c0 c1) + answer_size;
          answer_count = 1;
        }
  answer_question-question name_end where_end size h0 h1 =
      let q = question labels c0 c1 in
      let t0 = get_or-question name_end 0 (omega arith) in
      let t1 = get_or-question (name_end + 1) 1 (omega arith) in
      let t2 = get_or-question (name_end + 2) 2 (omega arith) in
      let t3 = get_or-question (name_end + 2 + 1) 3 (omega arith) in
      let behind : name_end + question_size ≡ header_size + length q =
        omega (arith, length-append labels (0 ∷ (0 ∷ 1 ∷ c0 ∷ c1 ∷ []))) in
      let head : header_size + length q ≡ length (pre ++ q) = omega (arith, length-append pre q) in
      let stored : store (header_size + length q) (answer_to header_size (c0 * 256 + c1) ip)
            (pre ++ (q ++ tail))
          ≡ pre ++ (q ++ (answer c0 c1 ip ++ drop (length (answer c0 c1 ip)) tail)) =
        rw
          (
            answer_to-bytes c0 c1 ip h0 h1,
            head,
            ← append_assoc pre q tail,
            store-append (pre ++ q) (answer c0 c1 ip) tail,
            append_assoc pre q (answer c0 c1 ip ++ drop (length (answer c0 c1 ip)) tail),
          )
          refl in
      answer_question-address
        (record {
          buff = pre ++ (q ++ tail);
          cur_question = header_size;
          cur_ans = header_size + length q;
          answer_count = 0;
        })
        name_end (c0 * 256 + c1) ip (rw (t0, t1) refl) (rw (t2, t3) refl)
      ∙ rw (stored, behind) refl

  -- The loop over the only question.
  pub question_loop-question :
      (hostname : Bytes)
      → length pre ≡ header_size
      → length labels ≤ out_buf_size
      → c0 < 256
      → c1 < 256
      → parse_dns_name
          (pre ++ (question labels c0 c1 ++ tail))
          header_size
          (length (question labels c0 c1))
        ≡ name hostname (header_size + length labels + 1)
      → question_loop 1
          (record {
            buff = pre ++ (question labels c0 c1 ++ tail);
            cur_question = header_size;
            cur_ans = header_size + length (question labels c0 c1);
            answer_count = 0;
          })
          (header_size + length (question labels c0 c1))
          ip
        ≡ done (record {
          buff =
              pre
              ++ (question labels c0 c1
                  ++ (answer c0 c1 ip ++ drop (length (answer c0 c1 ip)) tail));
          cur_question = header_size + length (question labels c0 c1);
          cur_ans = header_size + length (question labels c0 c1) + answer_size;
          answer_count = 1;
        })
  question_loop-question hostname size fits h0 h1 read =
      let q = question labels c0 c1 in
      let size_q : length q ≡ length labels + 5 =
        length-append labels (0 ∷ (0 ∷ 1 ∷ c0 ∷ c1 ∷ [])) in
      let left : (header_size + length q + 2 ^ 32 - header_size) % 2 ^ 32 ≡ length q =
        omega (arith, size_q, fits) in
      let held : header_size + length labels + 1 + question_size ≤ length (pre ++ (q ++ tail)) =
        omega (arith, length-append pre (q ++ tail), length-append q tail, size_q, size) in
      question_loop-name 0
        (record {
          buff = pre ++ (q ++ tail);
          cur_question = header_size;
          cur_ans = header_size + length q;
          answer_count = 0;
        })
        (header_size + length q) ip hostname (header_size + length labels + 1) (rw left read) held
      ∙ rw (answer_question-question (header_size + length labels + 1) refl size h0 h1)
          (question_loop-end _ (header_size + length q) ip)
