-- ===== src/Dns.antt =====
-- src/rbdns.cpp: the DNS responder's reading of a question and its reply.
pub mod Name
pub mod Question
pub mod Answer
pub mod Bounds
pub mod Server
use rb3201_rbprotocol_librar.Prelude.{
  ℕ, zero, suc, ◌+◌, ◌-◌, ◌*◌, ◌/◌, ◌%◌, ◌^◌, min, Bool, true, false, not, ◌&&◌, ◌||◌, Option, none,
  some, List, [], ◌∷◌, ◌++◌, Bytes, length, take, drop, get_or, replicate, ltb, leb, ◌==◌,
  if◌then◌else◌, bit_or,
}

-- `DNS_MSG_SIZE_LIMIT`, the sizes of the packed structures, and of `out_buf`
abbrev pub dns_msg_size_limit : ℕ
dns_msg_size_limit = 256

abbrev pub header_size : ℕ
header_size = 12

abbrev pub question_size : ℕ
question_size = 4

abbrev pub answer_size : ℕ
answer_size = 16

abbrev pub out_buf_size : ℕ
out_buf_size = 64

-- The results of `parseDnsName`: a read behind the buffer or a write behind `out_buf`, NULL, or the
-- name and the offset behind it.
pub data NameResult : Type 0 where
  overrun : NameResult
  rejected : NameResult
  name : Bytes → ℕ → NameResult

-- The loop of `parseDnsName`, on fuel: each round writes at least two bytes of `out_buf`. The bytes
-- from `label` on are given, with their offset; `out` is what has been written.
unfoldable pub name_loop : ℕ → Bytes → ℕ → ℕ → Bytes → NameResult
name_loop zero label at maxlen out = overrun
name_loop (suc fuel) [] at maxlen out = overrun
name_loop (suc fuel) (label_len ∷ bytes) at maxlen out =
    let written = out ++ (take label_len bytes ++ (b'.' ∷ [])) in
    let next = at + (label_len + 1) in
    let left = (maxlen + 2 ^ 32 - (label_len + 1)) % 2 ^ 32 in
    let again = name_loop fuel (drop label_len bytes) next left written in
    if ltb maxlen label_len || (label_len == 0)
    then rejected
    else if leb (length bytes) label_len || ltb out_buf_size (length out + (label_len + 1))
    then overrun
    else if get_or (drop label_len bytes) 0 0 == 0
    then name (take (length written - 1) written) (next + 1)
    else again

unfoldable pub parse_dns_name : Bytes → ℕ → ℕ → NameResult
parse_dns_name buff at maxlen =
    name_loop out_buf_size (drop at buff) at (min maxlen out_buf_size) []

-- `ntohs` of the two bytes at an offset.
abbrev pub word_at : Bytes → ℕ → ℕ
word_at buff at = get_or buff at 0 * 256 + get_or buff (at + 1) 0

-- Bytes that are assigned at an offset.
unfoldable pub store : ℕ → Bytes → Bytes → Bytes
store at bs buff = take at buff ++ (bs ++ drop (at + length bs) buff)

abbrev pub htons : ℕ → Bytes
htons n = (n / 256) % 256 ∷ n % 256 ∷ []

-- The answer to the question at an offset, with the address as its four bytes lie in memory.
unfoldable pub answer_to : ℕ → ℕ → Bytes → Bytes
answer_to question clazz ip =
    htons (bit_or 0xC000 question)
    ++ (htons 1 ++ (htons clazz ++ (0 ∷ 0 ∷ 1 ∷ 44 ∷ (htons 4 ++ ip))))

-- The buffer, `cur_question_ptr`, `cur_ans_ptr` and `answer_count`.
pub record Progress : Type 0 where
  pub buff : Bytes
  pub cur_question : ℕ
  pub cur_ans : ℕ
  pub answer_count : ℕ

-- What became of a request: undefined behaviour, -1, or a value.
pub data Outcome (A : Type 0) : Type 0 where
  undefined : Outcome A
  ignored : Outcome A
  done : A → Outcome A

-- A question whose name ends at an offset: only those of type A get an answer.
unfoldable pub answer_question : Progress → ℕ → Bytes → Progress
answer_question p name_end ip =
    if not (word_at p.buff name_end == 1)
    then record p { cur_question = name_end + question_size }
    else record {
      buff = store p.cur_ans (answer_to p.cur_question (word_at p.buff (name_end + 2)) ip) p.buff;
      cur_question = name_end + question_size;
      cur_ans = p.cur_ans + answer_size;
      answer_count = p.answer_count + 1;
    }

-- The loop over the questions, of a request that ends at `req_end`.
unfoldable pub question_loop : ℕ → Progress → ℕ → Bytes → Outcome Progress
question_loop zero p req_end ip = done p
question_loop (suc left) p req_end ip =
    elim (parse_dns_name p.buff p.cur_question ((req_end + 2 ^ 32 - p.cur_question) % 2 ^ 32)) [
      | overrun ↦ undefined
      | rejected ↦ ignored
      | name hostname name_end ↦
          let next = question_loop left (answer_question p name_end ip) req_end ip in
          if ltb (length p.buff) (name_end + question_size) then undefined else next
    ]

-- Behind the loop: the count of answers, and the rest of the request is dropped. The second part of
-- the result is the length of the reply.
unfoldable pub finish_reply : Progress → ℕ → Outcome (Bytes × ℕ)
finish_reply p req_size =
    let counted = store 6 (htons p.answer_count) p.buff in
    let extra = req_size - p.cur_question in
    if not (ltb p.cur_question req_size)
    then done (counted, p.answer_count * answer_size + req_size)
    else if ltb (length counted) (req_size + extra)
    then undefined
    else done (
      store p.cur_question (take extra (drop req_size counted)) counted,
      p.answer_count * answer_size + (req_size - extra),
    )

-- `header->flags |= QR_FLAG`, and no name servers or additional records
unfoldable pub mark_reply : Bytes → Bytes
mark_reply buff = store 8 (0 ∷ 0 ∷ 0 ∷ 0 ∷ []) (store 2 (bit_or (get_or buff 2 0) 128 ∷ []) buff)

-- `processDnsQuestion` on a buffer that holds the header.
unfoldable pub process_dns_question : Bytes → ℕ → Bytes → Outcome (Bytes × ℕ)
process_dns_question buff req_size ip =
    let question_count = word_at buff 4 in
    let full_reply_len = question_count * answer_size + req_size in
    let marked = mark_reply buff in
    let resized = marked ++ replicate (full_reply_len - length marked) 0 in
    let start : Progress = record {
      buff = resized;
      cur_question = header_size;
      cur_ans = req_size;
      answer_count = 0;
    } in
    if not ((word_at buff 2 / 2 ^ 11) % 16 == 0)
    then ignored
    else if ltb dns_msg_size_limit full_reply_len
    then ignored
    else elim (question_loop question_count start req_size ip) [
      | undefined ↦ undefined
      | ignored ↦ ignored
      | done p ↦ finish_reply p req_size
    ]
