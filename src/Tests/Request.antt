-- ===== src/Tests/Request.antt =====
-- Whole requests of the web server on concrete inputs.
use rb3201_rbprotocol_librar.Prelude.{
  ℕ, ◌≤◌, ◌<◌, ◌≡◌, refl, Bool, true, false, ◌&&◌, ◌||◌, leb, inr, none, some, List, [], ◌∷◌, ◌++◌,
  Bytes, codes, All, length, take, drop, ◌==◌, if◌then◌else◌, arith, Bool-cases, inl, sym,
  true_ne_false,
}
use rb3201_rbprotocol_librar.Prelude.Int.{pos}
use rb3201_rbprotocol_librar.Web.ReadLine.{Rio, eagain, eintr, chunk, rio_readlineb}
use rb3201_rbprotocol_librar.Web.ReadLine.Chunks.{IsOpen, stream, bytes_of}
use rb3201_rbprotocol_librar.Web.Scan.{scan_request_line}
use rb3201_rbprotocol_librar.Web.Scan.Range.{range_text}
use rb3201_rbprotocol_librar.Web.Request.{
  Uninitialised, ended, header_line, initial_headers, finish_request, parse_request,
  unended_request,
}
use rb3201_rbprotocol_librar.Web.Request.Lines.{
  IsText, newline, take_lines, parse_request-block, parse_request-unended,
}
use rb3201_rbprotocol_librar.Web.Request.Ranges.{header_line-range_text}
use rb3201_rbprotocol_librar.Web.Scan.{
  scan_range, scan_start, scan_end, strip, scan_integer, to_long, to_unsigned,
}
use rb3201_rbprotocol_librar.Web.Request.{with_scanned, one_more}
use rb3201_rbprotocol_librar.Json.Key.{strdup}
use rb3201_rbprotocol_librar.Json.Key.Order.{equal_bytes}
use rb3201_rbprotocol_librar.Web.UrlDecode.RoundTrip.{encode}
use rb3201_rbprotocol_librar.Web.Serve.{HttpRequest, is_prefix, occurs, success_headers}
use rb3201_rbprotocol_librar.Web.UrlDecode.{url_decode, filename_size}
use rb3201_rbprotocol_librar.Web.UrlDecode.Bounds.{url_decode_fits}
use rb3201_rbprotocol_librar.Web.Serve.Body.{range}
use rb3201_rbprotocol_librar.Web.Route.{FileSystem, Web, Handled}
use rb3201_rbprotocol_librar.Web.Process.{processed, process}
use rb3201_rbprotocol_librar.Web.Process.File.{IsStored, IsServable, process-encode}

none_of : (ℕ → Bool) → Bytes → Bool
none_of p [] = true
none_of p (c ∷ t) = let rest = none_of p t in if p c then false else rest

none_of-All : (p : ℕ → Bool) (t : Bytes) → none_of p t ≡ true → All (λ (c : ℕ). p c ≡ false) t
unfolding none_of
none_of-All p [] h = tt
none_of-All p (c ∷ t) h = elim (Bool-cases (p c)) [
  | inl e ↦ absurd (true_ne_false (sym (rw e at h)))
  | inr e ↦ (e, none_of-All p t (rw e at h))
]

-- "GET /a" with two headers, in pieces.
abbrev first_line : Bytes
first_line = codes "GET /a HTTP/1.1" ++ (13 ∷ [])

abbrev agent : Bytes
agent = codes "User-Agent: x" ++ (13 ∷ [])

abbrev whole : Rio
whole = record {
  unread = [];
  socket =
      chunk (codes "GET /a HT")
      ∷ eagain
      ∷ chunk (codes "TP/1.1" ++ (13 ∷ 10 ∷ codes "Range: bytes=2-5"))
      ∷ eintr
      ∷ chunk (13 ∷ 10 ∷ (agent ++ (10 ∷ 13 ∷ 10 ∷ codes "rest")))
      ∷ [];
}

abbrev headers : List Bytes
headers = range_text (2 ∷ []) (5 ∷ []) ∷ agent ∷ []

abbrev stale : Uninitialised
stale = record { buf = 7 ∷ []; method = []; uri = []; filename = []; ws_key = []; ws_version = 13 }

IsText_lem :
    (t : Bytes)
    → 2 ≤ length t
    → length t < 255
    → none_of (λ c. c == 10) t ≡ true
    → none_of (λ c. c == 0) t ≡ true
    → IsText t
IsText_lem t long fits ordinary nonzero = record {
  long = long;
  fits = omega (arith, fits);
  ordinary = none_of-All (λ c. c == 10) t ordinary;
  nonzero = none_of-All (λ c. c == 0) t nonzero;
}

headers-IsText : All IsText headers
unfolding none_of
headers-IsText = (
  IsText_lem (range_text (2 ∷ []) (5 ∷ [])) (omega arith) (omega arith) refl refl,
  (IsText_lem agent (omega arith) (omega arith) refl refl, tt),
)

parse_request-block_example :
    (rp' : Rio) × (parse_request 4 (codes "robot") (codes "/www") stale whole
      ≡ finish_request
          (codes "/www")
          (scan_request_line (newline first_line) [] [])
          (ended (take_lines (codes "robot") headers (initial_headers stale)) rp'))
    × (stream rp' ≡ codes "rest")
    × IsOpen rp'.socket
unfolding none_of IsOpen bytes_of
parse_request-block_example =
    parse_request-block 4 (codes "robot") (codes "/www") stale whole first_line headers
      (codes "rest") (omega arith) tt refl
      (IsText_lem first_line (omega arith) (omega arith) refl refl) headers-IsText

header_line-range_text_example :
    header_line (codes "robot") (newline (range_text (2 ∷ []) (5 ∷ []))) (initial_headers stale)
    ≡ record (initial_headers stale) {
      req = record (initial_headers stale).req { offset = 2; end = 6 };
    }
header_line-range_text_example =
    header_line-range_text (codes "robot") (initial_headers stale) 2 5 [] [] (omega arith, tt)
      (omega arith, tt) (omega arith) (omega arith) (omega arith)

-- The other side is gone behind the first header.
abbrev cut_off : Rio
cut_off = record {
  unread = [];
  socket = chunk (first_line ++ (10 ∷ (agent ++ (10 ∷ [])))) ∷ chunk [] ∷ [];
}

parse_request-unended_example :
    parse_request 1000 (codes "robot") (codes "/www") stale cut_off ≡ unended_request
unfolding none_of rio_readlineb
parse_request-unended_example =
    parse_request-unended 1000 (codes "robot") (codes "/www") stale cut_off
      (record { unread = []; socket = chunk [] ∷ [] }) first_line (agent ∷ [])
      (IsText_lem first_line (omega arith) (omega arith) refl refl)
      (IsText_lem agent (omega arith) (omega arith) refl refl, tt)
      (
        17,
        record { unread = agent ++ (10 ∷ []); socket = chunk [] ∷ [] },
        refl,
        (15, record { unread = []; socket = chunk [] ∷ [] }, refl, refl),
      )
      refl

-- Letters and digits stand for themselves.
abbrev keep : ℕ → Bool
keep b = ((leb 48 b && leb b 57) || (leb 65 b && leb b 90)) || (leb 97 b && leb b 122)

-- The name "a b" is the file with descriptor 7, of the text "some text".
abbrev files : FileSystem
files = record {
  open_file = λ path. if equal_bytes path (codes "/www/a b") then some 7 else none;
  is_regular = λ fd. true;
  size_of = λ fd. 9;
  read_at = λ fd at count. some (take count (drop at (codes "some text")));
}

abbrev server : Web
server = record {
  ws_protocol = none;
  working_directory = codes "/www";
  has_extra_callback = false;
  not_found_callback = none;
}

-- A number as one byte stands for its print.
abbrev print : ℕ → Bytes
print n = n ∷ []

abbrev asking : Rio
asking = record {
  unread = [];
  socket =
      chunk (codes "GET /a%")
      ∷ eagain
      ∷ chunk (codes "20b HTTP/1.1" ++ (13 ∷ 10 ∷ codes "Range: bytes=2-5"))
      ∷ eintr
      ∷ chunk (13 ∷ 10 ∷ (agent ++ (10 ∷ 13 ∷ 10 ∷ codes "rest")))
      ∷ [];
}

abbrev robot : Bytes
robot = codes "robot"

name-IsStored : IsStored files server keep (codes "a b") 7 (codes "some text")
unfolding encode is_prefix equal_bytes
name-IsStored = record {
  path_bytes =
      λ b h. record { solid = ground arith; no_query = ground arith; nonzero = ground arith };
  percent = refl;
  bytes = omega arith;
  some_byte = omega arith;
  short_path = omega arith;
  short_name = omega arith;
  other = refl;
  there = refl;
  nonzero = refl;
  regular = refl;
  size = refl;
  readable = λ at count. refl;
  small = omega arith;
}

headers-IsServable :
    IsServable (take_lines robot headers (initial_headers stale)) (codes "some text")
unfolding header_line with_scanned scan_range scan_start scan_end strip scan_integer to_long
    to_unsigned is_prefix occurs strdup one_more
headers-IsServable = record {
  local = refl;
  no_upgrade = refl;
  plain = refl;
  inside = omega arith;
  ordered = inr (omega arith, omega arith);
}

process-encode_example :
    (handled : Handled) × (served : HttpRequest) × (process print print
        (λ x. x)
        (λ x. x)
        files
        robot
        4
        server
        stale
        asking
        (record { sent = []; writes = [] })
        (pos 0)
      ≡ processed handled)
    × (handled.out ≡ record {
      sent =
          success_headers print print served 9
          ++ range
              (codes "some text")
              (take_lines robot headers (initial_headers stale)).req.offset
              served.end;
      writes = [];
    })
    × (handled.upgraded ≡ false)
    × (served.filename ≡ codes "/www/a b")
    × (served.offset ≡ (take_lines robot headers (initial_headers stale)).req.offset)
    × (served.end ≡ (
        if (take_lines robot headers (initial_headers stale)).req.end == 0
        then 9
        else (take_lines robot headers (initial_headers stale)).req.end))
unfolding encode IsOpen bytes_of
process-encode_example =
    process-encode print print (λ x. x) (λ x. x) files robot server 4 stale asking
      (record { sent = []; writes = [] }) (pos 0) keep (codes "a b") headers (codes "rest") 7
      (codes "some text") (omega arith) tt refl headers-IsText name-IsStored headers-IsServable refl

-- A decoded zero byte ends the name.
url_decode_fits_example :
    (name : Bytes) × (url_decode (codes "/www") (codes "a.html%00.png") filename_size
      ≡ some (codes "/www/" ++ name))
    × (length (codes "/www/" ++ name) < filename_size)
url_decode_fits_example =
    url_decode_fits (codes "/www") (codes "a.html%00.png") filename_size (ground arith)
      (omega arith) (omega arith)
