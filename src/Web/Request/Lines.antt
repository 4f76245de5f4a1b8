-- ===== src/Web/Request/Lines.antt =====
-- `parse_request` takes the lines of a request one by one, whatever pieces they arrive in.
use rb3201_rbprotocol_librar.Prelude.{
  ℕ, zero, suc, ◌+◌, ◌≤◌, ◌<◌, ◌≡◌, refl, true, false, List, [], ◌∷◌, ◌++◌, Bytes, All, All-append,
  length, length-append, drop, get_or, append_assoc, ◌==◌, arith,
}
use rb3201_rbprotocol_librar.Json.Key.{strdup}
use rb3201_rbprotocol_librar.Web.ReadLine.{Rio, line, no_data, rio_readlineb}
use rb3201_rbprotocol_librar.Web.ReadLine.Chunks.{IsOpen, stream, rio_readlineb-IsLine}
use rb3201_rbprotocol_librar.Web.Scan.{scan_request_line}
use rb3201_rbprotocol_librar.Web.Serve.{is_prefix}
use rb3201_rbprotocol_librar.Web.Request.{
  maxline, Headers, read_into, header_line, unended, ended, goes_on, header_loop, finish_request,
  Uninitialised, initial_headers, parse_request, unended_request,
}

-- The text of a line in front of its newline: two characters or more that fit in the buffer, and no
-- newline or zero byte among them.
pub record IsText (t : Bytes) : Type 0 where
  pub long : 2 ≤ length t
  pub fits : length t + 1 < maxline
  pub ordinary : All (λ (c : ℕ). (c == 10) ≡ false) t
  pub nonzero : All (λ (c : ℕ). (c == 0) ≡ false) t

abbrev pub newline : Bytes → Bytes
newline t = t ++ (10 ∷ [])

-- Lines in a stream, up to the empty one.
abbrev pub block : List Bytes → Bytes → Bytes
block [] rest = 13 ∷ 10 ∷ rest
block (t ∷ ts) rest = t ++ (10 ∷ block ts rest)

-- The lines, each taken as a string of its own.
abbrev pub take_lines : Bytes → List Bytes → Headers → Headers
take_lines local_hostname [] h = h
take_lines local_hostname (t ∷ ts) h =
    take_lines local_hostname ts (header_line local_hostname (newline t) h)

get_or-append : (t s : Bytes) (i : ℕ) → i < length t → get_or (t ++ s) i 0 ≡ get_or t i 0
get_or-append [] s i h = absurd (omega arith)
get_or-append (c ∷ t) s zero h = refl
get_or-append (c ∷ t) s (suc i) h = get_or-append t s i (omega arith)

get_or-All :
    (t : Bytes) (i : ℕ)
    → All (λ (c : ℕ). (c == 10) ≡ false) t
    → i < length t
    → (get_or t i 0 == 10) ≡ false
get_or-All [] i a h = absurd (omega arith)
get_or-All (c ∷ t) zero (e, a) h = e
get_or-All (c ∷ t) (suc i) (e, a) h = get_or-All t i a (omega arith)

strdup-append : (t s : Bytes) → All (λ (c : ℕ). (c == 0) ≡ false) t → strdup (t ++ (0 ∷ s)) ≡ t
unfolding strdup
strdup-append [] s a = refl
strdup-append (c ∷ t) s (e, a) = rw (strdup, e, strdup-append t s a) refl

pub strdup-nonzero : (t : Bytes) → All (λ (c : ℕ). (c == 0) ≡ false) t → strdup t ≡ t
unfolding strdup
strdup-nonzero [] a = refl
strdup-nonzero (c ∷ t) (e, a) = rw (strdup, e, strdup-nonzero t a) refl

-- What the buffer holds behind the terminator does not matter.
header_line-append :
    (local_hostname t s : Bytes) (h : Headers)
    → 3 ≤ length t
    → All (λ (c : ℕ). (c == 0) ≡ false) t
    → header_line local_hostname (t ++ (0 ∷ s)) h ≡ header_line local_hostname t h
unfolding header_line
header_line-append local_hostname t s h long a =
    rw
      (
        header_line,
        strdup-append t s a,
        get_or-append t (0 ∷ s) 0 (omega arith),
        get_or-append t (0 ∷ s) 1 (omega arith),
        get_or-append t (0 ∷ s) 2 (omega arith),
        strdup-nonzero t a,
      )
      refl

goes_on-line : (t s : Bytes) → IsText t → goes_on (newline t ++ s) ≡ true
unfolding goes_on
goes_on-line t s h =
    rw
      (
        append_assoc t (10 ∷ []) s,
        get_or-append t (10 ∷ s) 0 (omega (arith, h.long)),
        get_or-append t (10 ∷ s) 1 (omega (arith, h.long)),
        get_or-All t 0 h.ordinary (omega (arith, h.long)),
        get_or-All t 1 h.ordinary (omega (arith, h.long)),
      )
      refl

-- The empty line ends the headers and changes nothing.
goes_on_empty : (s : Bytes) → goes_on (13 ∷ 10 ∷ s) ≡ false
unfolding goes_on
goes_on_empty s = refl

header_line_empty :
    (local_hostname s : Bytes) (h : Headers) → header_line local_hostname (13 ∷ 10 ∷ 0 ∷ s) h ≡ h
unfolding header_line strdup is_prefix
header_line_empty local_hostname s h = refl

newline-long : (t : Bytes) → IsText t → 3 ≤ length (newline t)
newline-long t h = omega (arith, length-append t (10 ∷ []), h.long)

newline-nonzero : (t : Bytes) → IsText t → All (λ (c : ℕ). (c == 0) ≡ false) (newline t)
newline-nonzero t h = All-append (λ (c : ℕ). (c == 0) ≡ false) t (10 ∷ []) h.nonzero (refl, tt)

header_loop-block :
    (ts : List Bytes) (fuel : ℕ) (local_hostname buf rest : Bytes) (rp : Rio) (h : Headers)
    → length ts + 2 ≤ fuel
    → goes_on buf ≡ true
    → IsOpen rp.socket
    → stream rp ≡ block ts rest
    → All IsText ts
    → (rp' : Rio) × (header_loop fuel local_hostname buf rp h
        ≡ ended (take_lines local_hostname ts h) rp')
      × (stream rp' ≡ rest)
      × IsOpen rp'.socket
unfolding header_loop read_into
header_loop-block ts zero local_hostname buf rest rp h enough more open_ e all =
    absurd (omega arith)
header_loop-block [] (suc zero) local_hostname buf rest rp h enough more open_ e all =
    absurd (omega arith)
header_loop-block [] (suc (suc fuel)) local_hostname buf rest rp h enough more open_ e all =
    let (rp', read, s, open') =
      rio_readlineb-IsLine rp (13 ∷ []) rest maxline open_ e (refl, tt) (omega arith) in
    (
      rp',
      rw
          (
            header_loop,
            more,
            read,
            goes_on_empty (0 ∷ drop 3 buf),
            header_line_empty local_hostname (drop 3 buf) h,
          )
          refl,
      s,
      open',
    )
header_loop-block (t ∷ ts) (suc fuel) local_hostname buf rest rp h enough more open_ e (text, all) =
    let (rp', read, s, open') =
      rio_readlineb-IsLine rp t (block ts rest) maxline open_ e text.ordinary text.fits in
    let stale = drop (length (newline t) + 1) buf in
    let next =
      header_loop-block ts fuel local_hostname (newline t ++ (0 ∷ stale)) rest rp'
        (header_line local_hostname (newline t) h) (omega arith) (goes_on-line t (0 ∷ stale) text)
        open' s all in
    (
      next.0,
      rw
          (
            header_loop,
            more,
            read,
            header_line-append local_hostname (newline t) stale h (newline-long t text)
                (newline-nonzero t text),
          )
          next.1,
      next.2,
      next.3,
    )

-- A request is read line by line, whatever pieces its bytes arrive in and whatever waits lie between
-- them: the first line gives the method and the path, each of the others counts as a header of its own, in
-- their order, and the bytes behind the empty line are left in the stream. Every line but the empty one
-- has two characters or more, fits in the buffer, and holds no zero byte; the loop gets two
-- rounds more than there are headers.
pub parse_request-block :
    (fuel : ℕ) (local_hostname working_directory : Bytes) (u : Uninitialised) (rp : Rio)
    (first : Bytes) (ts : List Bytes) (rest : Bytes)
    → length ts + 2 ≤ fuel
    → IsOpen rp.socket
    → stream rp ≡ first ++ (10 ∷ block ts rest)
    → IsText first
    → All IsText ts
    → (rp' : Rio) × (parse_request fuel local_hostname working_directory u rp
        ≡ finish_request working_directory
            (scan_request_line (newline first) u.method u.uri)
            (ended (take_lines local_hostname ts (initial_headers u)) rp'))
      × (stream rp' ≡ rest)
      × IsOpen rp'.socket
unfolding parse_request read_into
parse_request-block fuel local_hostname working_directory u rp first ts rest enough open_ e text
      all =
    let (rp', read, s, open') =
      rio_readlineb-IsLine rp first (block ts rest) maxline open_ e text.ordinary text.fits in
    let stale = drop (length (newline first) + 1) u.buf in
    let (rp'', looped, left, open'') =
      header_loop-block ts fuel local_hostname (newline first ++ (0 ∷ stale)) rest rp'
        (initial_headers u) enough (goes_on-line first (0 ∷ stale) text) open' s all in
    (
      rp'',
      rw
          (
            parse_request,
            read,
            strdup-append (newline first) stale (newline-nonzero first text),
            looped,
          )
          refl,
      left,
      open'',
    )

-- Lines that are read one after the other from a stream, up to another state of it.
abbrev pub Reads : Rio → List Bytes → Rio → Type 0
Reads rp [] rp' = rp ≡ rp'
Reads rp (t ∷ ts) rp' =
    (n : ℕ) × (next : Rio) × (rio_readlineb rp maxline ≡ line (newline t) n next)
    × Reads next ts rp'

header_loop-unended :
    (fuel : ℕ) (ts : List Bytes) (local_hostname buf : Bytes) (rp rp' : Rio) (h : Headers)
    → goes_on buf ≡ true
    → All IsText ts
    → Reads rp ts rp'
    → rio_readlineb rp' maxline ≡ no_data
    → header_loop fuel local_hostname buf rp h ≡ unended
unfolding header_loop read_into
header_loop-unended zero ts local_hostname buf rp rp' h more texts reads closed = refl
header_loop-unended (suc fuel) [] local_hostname buf rp rp' h more texts same closed =
    rw (header_loop, more, rw (← same) at closed)
      (header_loop-unended fuel [] local_hostname buf rp rp' (header_line local_hostname buf h) more
        tt same closed)
header_loop-unended (suc fuel) (t ∷ ts) local_hostname buf rp rp' h more (text, texts)
      (n, next, read, reads) closed =
    let buf' = newline t ++ (0 ∷ drop (length (newline t) + 1) buf) in
    rw (header_loop, more, read)
      (header_loop-unended fuel ts local_hostname buf' next rp' (header_line local_hostname buf' h)
        (goes_on-line t (0 ∷ drop (length (newline t) + 1) buf) text) texts reads closed)

-- A request whose stream ends behind its first line or behind any of its headers, before the empty line, is
-- never done: however many rounds the loop gets, it reads on. Its lines have two characters or
-- more, and no zero byte.
pub parse_request-unended :
    (fuel : ℕ) (local_hostname working_directory : Bytes) (u : Uninitialised) (rp rp' : Rio)
    (first : Bytes) (ts : List Bytes)
    → IsText first
    → All IsText ts
    → Reads rp (first ∷ ts) rp'
    → rio_readlineb rp' maxline ≡ no_data
    → parse_request fuel local_hostname working_directory u rp ≡ unended_request
unfolding parse_request read_into finish_request
parse_request-unended fuel local_hostname working_directory u rp rp' first ts text texts
      (n, next, read, reads) closed =
    let stale = drop (length (newline first) + 1) u.buf in
    rw
      (
        parse_request,
        read,
        header_loop-unended fuel ts local_hostname (newline first ++ (0 ∷ stale)) next rp'
            (initial_headers u) (goes_on-line first (0 ∷ stale) text) texts reads closed,
      )
      refl
