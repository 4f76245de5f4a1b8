-- ===== src/Web/Process/Path.antt =====
-- The path of a request line.
use rb3201_rbprotocol_librar.Prelude.{
  ℕ, zero, suc, ◌/◌, ◌%◌, ◌≤◌, ◌<◌, ◌≡◌, refl, ap, ◌∙◌, Bool, true, false, inl, inr, [], ◌∷◌, ◌++◌,
  Bytes, codes, All, All-append, length, length-append, append_assoc, ◌==◌, if◌then◌else◌,
  Bool-cases, true_ne_false, ==_ne, arith,
}
use rb3201_rbprotocol_librar.Web.Scan.{scan_request_line, take_word, stored}
use rb3201_rbprotocol_librar.Web.UrlDecode.{is_space, skip_space}
use rb3201_rbprotocol_librar.Web.UrlDecode.RoundTrip.{encode, hex_digit, AreTextBytes}
use rb3201_rbprotocol_librar.Web.Request.{before_query, path_of}
use rb3201_rbprotocol_librar.Web.Request.Lines.{IsText, newline}

-- A byte that stands for itself in the path of a request line.
pub record IsPathByte (c : ℕ) : Type 0 where
  pub solid : is_space c ≡ false
  pub no_query : (c == b'?') ≡ false
  pub nonzero : (c == 0) ≡ false

hex_digit-IsPathByte : (d : ℕ) → d < 16 → IsPathByte (hex_digit d)
hex_digit-IsPathByte d h = record {
  solid = ground arith;
  no_query = ground arith;
  nonzero = ground arith;
}

pub encode-IsPathByte :
    (keep : ℕ → Bool) (s : Bytes)
    → ((b : ℕ) → keep b ≡ true → IsPathByte b)
    → AreTextBytes s
    → All IsPathByte (encode keep s)
unfolding encode
encode-IsPathByte keep [] k h = tt
encode-IsPathByte keep (b ∷ s) k (small, h) = elim (Bool-cases (keep b)) [
  | inl e ↦ rw e (k b e, encode-IsPathByte keep s k h)
  | inr e ↦ rw e (
    record { solid = refl; no_query = refl; nonzero = refl },
    (
      hex_digit-IsPathByte (b / 16) (omega arith),
      (hex_digit-IsPathByte (b % 16) (omega arith), encode-IsPathByte keep s k h),
    ),
  )
]

take_word-solid :
    (n : ℕ) (p s : Bytes)
    → All IsPathByte p
    → length p ≤ n
    → take_word n (p ++ (32 ∷ s)) ≡ (p, 32 ∷ s)
unfolding take_word
take_word-solid zero [] s h fits = refl
take_word-solid zero (c ∷ p) s h fits = absurd (omega arith)
take_word-solid (suc n) [] s h fits = refl
take_word-solid (suc n) (c ∷ p) s (solid, h) fits =
    rw (solid.solid, take_word-solid n p s h (omega arith)) refl

skip_space-solid : (c : ℕ) (s : Bytes) → is_space c ≡ false → skip_space (c ∷ s) ≡ c ∷ s
unfolding skip_space
skip_space-solid c s h = rw h refl

skip_space_one : (c : ℕ) (s : Bytes) → is_space c ≡ false → skip_space (32 ∷ c ∷ s) ≡ c ∷ s
unfolding skip_space
skip_space_one c s h = rw h refl

-- Two words and what is behind them.
scan_request_line-words :
    (c d : ℕ) (m p s method uri : Bytes)
    → All IsPathByte (c ∷ m)
    → All IsPathByte (d ∷ p)
    → length m < 9
    → length p < 127
    → scan_request_line ((c ∷ m) ++ (32 ∷ ((d ∷ p) ++ (32 ∷ s)))) method uri ≡ (c ∷ m, d ∷ p)
unfolding scan_request_line stored
scan_request_line-words c d m p s method uri first second short fits =
    rw
      (
        skip_space-solid c (m ++ (32 ∷ ((d ∷ p) ++ (32 ∷ s)))) first.0.solid,
        take_word-solid 9 (c ∷ m) ((d ∷ p) ++ (32 ∷ s)) first (omega arith),
        skip_space_one d (p ++ (32 ∷ s)) second.0.solid,
        take_word-solid 127 (d ∷ p) s second (omega arith),
      )
      refl

before_query_plain : (p : Bytes) → All IsPathByte p → before_query p ≡ p
unfolding before_query
before_query_plain [] h = refl
before_query_plain (c ∷ p) (plain, h) = rw (plain.no_query, before_query_plain p h) refl

slash_name : (p : Bytes) → 1 ≤ length p → (if length p == 0 then codes "index.html" else p) ≡ p
slash_name p h = let e : (length p == 0) ≡ false = ground arith in rw e refl

pub path_of-slash : (p : Bytes) → All IsPathByte p → 1 ≤ length p → path_of (b'/' ∷ p) ≡ p
unfolding path_of
path_of-slash [] h some_byte = absurd (omega arith)
path_of-slash (c ∷ p) h some_byte =
    rw (path_of, before_query_plain (c ∷ p) h) (slash_name (c ∷ p) some_byte)

abbrev pub request_line : Bytes → Bytes
request_line p = codes "GET /" ++ (p ++ (codes " HTTP/1.1" ++ (13 ∷ [])))

pub scan_request_line-request_line :
    (p method uri : Bytes)
    → All IsPathByte p
    → length p < 127
    → scan_request_line (newline (request_line p)) method uri ≡ (codes "GET", b'/' ∷ p)
scan_request_line-request_line p method uri h fits =
    let letter : IsPathByte b'G' = record { solid = refl; no_query = refl; nonzero = refl } in
    let second : IsPathByte b'E' = record { solid = refl; no_query = refl; nonzero = refl } in
    let third : IsPathByte b'T' = record { solid = refl; no_query = refl; nonzero = refl } in
    let slash : IsPathByte b'/' = record { solid = refl; no_query = refl; nonzero = refl } in
    ap (λ x. scan_request_line (codes "GET /" ++ x) method uri)
      (append_assoc p (codes " HTTP/1.1" ++ (13 ∷ [])) (10 ∷ []))
    ∙ scan_request_line-words b'G' b'/' (codes "ET") p (codes "HTTP/1.1" ++ (13 ∷ 10 ∷ [])) method
        uri (letter, (second, (third, tt))) (slash, h) (omega arith) fits

IsPathByte-ordinary : (p : Bytes) → All IsPathByte p → All (λ (c : ℕ). (c == 10) ≡ false) p
IsPathByte-ordinary [] h = tt
IsPathByte-ordinary (c ∷ p) (plain, h) =
    (==_ne 10 c (λ e. true_ne_false (ap is_space e ∙ plain.solid)), IsPathByte-ordinary p h)

IsPathByte-nonzero : (p : Bytes) → All IsPathByte p → All (λ (c : ℕ). (c == 0) ≡ false) p
IsPathByte-nonzero [] h = tt
IsPathByte-nonzero (c ∷ p) (plain, h) = (plain.nonzero, IsPathByte-nonzero p h)

pub request_line-IsText : (p : Bytes) → All IsPathByte p → length p < 127 → IsText (request_line p)
request_line-IsText p h fits =
    let tail = codes " HTTP/1.1" ++ (13 ∷ []) in
    record {
      long = omega (arith, length-append p tail);
      fits = omega (arith, length-append p tail);
      ordinary = (
        refl,
        (
          refl,
          (
            refl,
            (
              refl,
              (
                refl,
                All-append (λ (c : ℕ). (c == 10) ≡ false) p tail (IsPathByte-ordinary p h)
                    (
                      refl,
                      (refl, (refl, (refl, (refl, (refl, (refl, (refl, (refl, (refl, tt))))))))),
                    ),
              ),
            ),
          ),
        ),
      );
      nonzero = (
        refl,
        (
          refl,
          (
            refl,
            (
              refl,
              (
                refl,
                All-append (λ (c : ℕ). (c == 0) ≡ false) p tail (IsPathByte-nonzero p h)
                    (
                      refl,
                      (refl, (refl, (refl, (refl, (refl, (refl, (refl, (refl, (refl, tt))))))))),
                    ),
              ),
            ),
          ),
        ),
      );
    }
