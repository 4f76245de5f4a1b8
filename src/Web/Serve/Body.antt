-- ===== src/Web/Serve/Body.antt =====
-- What a connection gets: `writen` under short writes, and the range of a text that is served.
use mathlib.Core.List.{append-nil}
use rb3201_rbprotocol_librar.Prelude.{
  ℕ, zero, suc, ◌+◌, ◌-◌, ◌%◌, ◌^◌, ◌≤◌, ◌<◌, ◌≡◌, refl, sym, ap, ◌∙◌, min, true, false, ◌⊎◌, inl,
  inr, some, List, [], ◌∷◌, ◌++◌, Bytes, length, take, drop, ltb, leb, ◌==◌, append_assoc,
  true_ne_false, take-append-drop, length-take, length-drop, drop-drop, Bool-cases, arith,
}
use rb3201_rbprotocol_librar.Web.Serve.{
  Write, wrote, refused, Out, write_loop, writen, put, HttpRequest, NotFoundResponse,
  success_headers, serve_headers_success, chunk_loop, with_range, answer_with, serve_not_found_cb,
}

write_loop_prefix :
    (writes : List Write) (bytes sent : Bytes)
    → (rest : Bytes) × ((write_loop writes bytes sent).0.sent ++ rest ≡ sent ++ bytes)
      × ((write_loop writes bytes sent).1 ≡ true → rest ≡ [])
unfolding write_loop
write_loop_prefix writes [] sent = ([], refl, λ e. refl)
write_loop_prefix [] (b ∷ bytes) sent = ([], append-nil (sent ++ (b ∷ bytes)), λ e. refl)
write_loop_prefix (wrote n ∷ writes) (b ∷ bytes) sent =
    let (rest, e, all) = write_loop_prefix writes (drop n bytes) (sent ++ (b ∷ take n bytes)) in
    (
      rest,
      e
          ∙ append_assoc sent (b ∷ take n bytes) (drop n bytes)
          ∙ ap (λ s. sent ++ (b ∷ s)) (take-append-drop n bytes),
      all,
    )
write_loop_prefix (refused true ∷ writes) (b ∷ bytes) sent =
    write_loop_prefix writes (b ∷ bytes) sent
write_loop_prefix (refused false ∷ writes) (b ∷ bytes) sent =
    (b ∷ bytes, refl, λ e. absurd (true_ne_false (sym e)))

-- However short the writes are and however often they are interrupted, `writen` sends the bytes in
-- order and each once: all of them if it succeeds, and a first part of them if it fails.
pub writen_prefix :
    (out : Out) (bytes : Bytes)
    → (rest : Bytes) × ((writen out bytes).0.sent ++ rest ≡ out.sent ++ bytes)
      × ((writen out bytes).1 ≡ true → rest ≡ [])
unfolding writen
writen_prefix out bytes = write_loop_prefix out.writes bytes out.sent

-- Every write takes what it is given.
put-sent :
    (sent bytes : Bytes)
    → put (record { sent = sent; writes = [] }) bytes ≡ record { sent = sent ++ bytes; writes = [] }
unfolding put writen write_loop
put-sent sent [] = rw (append-nil sent) refl
put-sent sent (b ∷ bytes) = refl

pub put-open :
    (out : Out) (bytes : Bytes)
    → out.writes ≡ []
    → put out bytes ≡ record { sent = out.sent ++ bytes; writes = [] }
unfolding put writen
put-open out bytes e = rw e (put-sent out.sent bytes)

take-nil : (n : ℕ) → take {A = ℕ} n [] ≡ []
take-nil zero = refl
take-nil (suc n) = refl

pub take_split : (k n : ℕ) (xs : Bytes) → k ≤ n → take k xs ++ take (n - k) (drop k xs) ≡ take n xs
take_split zero n xs h = ap (λ m. take m xs) (omega arith)
take_split (suc k) zero xs h = absurd (omega arith)
take_split (suc k) (suc n) [] h = take-nil (suc n - suc k)
take_split (suc k) (suc n) (x ∷ xs) h =
    let e : suc n - suc k ≡ n - k = omega arith in
    rw e (ap (◌∷◌ x) (take_split k n xs (omega arith)))

chunk_loop-body :
    (fuel : ℕ) (sent content : Bytes) (pos end : ℕ)
    → end ≤ fuel + pos
    → chunk_loop fuel (record { sent = sent; writes = [] }) content pos end
      ≡ record { sent = sent ++ take (end - pos) (drop pos content); writes = [] }
unfolding chunk_loop
chunk_loop-body zero sent content pos end h =
    let nothing : end - pos ≡ 0 = omega arith in rw (nothing, append-nil sent) refl
chunk_loop-body (suc fuel) sent content pos end h = elim (Bool-cases (ltb pos end)) [
  | inr over ↦
      let nothing : end - pos ≡ 0 = ground arith in rw (over, nothing, append-nil sent) refl
  | inl goes_on ↦
      let k = min (end - pos) 256 in
      let some_byte : 1 ≤ k = ground arith in
      let step =
        chunk_loop-body fuel (sent ++ take k (drop pos content)) content (pos + k) end
          (omega arith) in
      let left : end - (pos + k) ≡ (end - pos) - k = omega arith in
      let joined : (sent ++ take k (drop pos content))
            ++ take (end - (pos + k)) (drop (pos + k) content)
          ≡ sent ++ take (end - pos) (drop pos content) =
        rw (left, drop-drop pos k content)
          (append_assoc sent (take k (drop pos content))
              (take ((end - pos) - k) (drop k (drop pos content)))
            ∙ ap (◌++◌ sent) (take_split k (end - pos) (drop pos content) (omega arith))) in
      rw (goes_on, put-sent sent (take k (drop pos content)))
        (step ∙ ap (λ s. record { sent = s; writes = [] }) joined)
]

-- The bytes of a text from one position up to another.
abbrev pub range : Bytes → ℕ → ℕ → Bytes
range content pos end = take (end - pos) (drop pos content)

with_range-end :
    (req : HttpRequest) (nfr : NotFoundResponse)
    → req.offset < length nfr.content
    → (req.end ≡ 0) ⊎ (req.offset ≤ req.end)
    → ((with_range req nfr).end ≤ length nfr.content) × (req.offset ≤ (with_range req nfr).end)
unfolding with_range
with_range-end req nfr inside ordered = (ground arith, ground arith)

module _ (unsigned signed : ℕ → Bytes) (out : Out) (req : HttpRequest) where
  -- A text that the application gives for a missing file is sent behind its headers from the offset of
  -- the request up to its end, or to the end of the text if the request names none or one behind it;
  -- the length that the headers print is that of the bytes sent. The offset lies in the text and not behind
  -- the requested end, the text has fewer than 2^31 bytes, and no write is short.
  serve_not_found_cb-range :
      (working_directory : Bytes) (not_found_callback : Bytes → NotFoundResponse)
      (nfr : NotFoundResponse)
      → not_found_callback (drop (length working_directory) req.filename) ≡ nfr
      → out.writes ≡ []
      → req.offset < length nfr.content
      → length nfr.content < 2 ^ 31
      → (req.end ≡ 0) ⊎ (req.offset ≤ req.end)
      → (served : HttpRequest) × (body : Bytes) × (served ≡ with_range req nfr)
        × (serve_not_found_cb unsigned signed out req working_directory (some not_found_callback)
            ≡ (
              record {
                sent =
                    out.sent
                    ++ (success_headers unsigned signed served (length nfr.content) ++ body);
                writes = [];
              },
              served,
              true,
            ))
        × (body ≡ range nfr.content req.offset served.end)
        × ((served.end + 2 ^ 32 - req.offset) % 2 ^ 32 ≡ length body)
  unfolding serve_not_found_cb answer_with serve_headers_success
  serve_not_found_cb-range working_directory callback nfr named whole inside short ordered =
      let served = with_range req nfr in
      let content = nfr.content in
      let (few, behind) = with_range-end req nfr inside ordered in
      let some_bytes : (length content == 0) ≡ false = ground arith in
      let starts : leb (length content) req.offset ≡ false = ground arith in
      let headers = success_headers unsigned signed served (length content) in
      let body = range content req.offset served.end in
      let headed = put-open out headers whole in
      let looped =
        chunk_loop-body served.end (out.sent ++ headers) content req.offset served.end
          (omega arith) in
      let total : length body ≡ served.end - req.offset = omega (
        arith,
        length-take (served.end - req.offset) (drop req.offset content),
        length-drop req.offset content,
      ) in
      (
        served,
        body,
        refl,
        rw
            (
              named,
              answer_with,
              some_bytes,
              starts,
              headed,
              looped,
              append_assoc out.sent headers body,
            )
            refl,
        refl,
        omega (arith, total),
      )
