-- ===== src/Web/Request.antt =====
-- `parse_request` of src/rbwebserver.c.
pub mod Lines
pub mod Ranges
use rb3201_rbprotocol_librar.Prelude.{
  ℕ, zero, suc, ◌+◌, ◌%◌, ◌^◌, Bool, true, false, not, ◌&&◌, ◌||◌, Option, none, some, List, [],
  ◌∷◌, ◌++◌, Bytes, codes, length, take, drop, get_or, ◌==◌, if◌then◌else◌,
}
use rb3201_rbprotocol_librar.Prelude.Int.{ℤ, pos}
use rb3201_rbprotocol_librar.Json.Key.{strdup}
use rb3201_rbprotocol_librar.Json.Key.Order.{equal_bytes}
use rb3201_rbprotocol_librar.Web.ReadLine.{
  Rio, Line, line, no_data, failed, unfinished, rio_readlineb,
}
use rb3201_rbprotocol_librar.Web.Scan.{scan_request_line, scan_range, scan_integer, to_long}
use rb3201_rbprotocol_librar.Web.UrlDecode.{url_decode, filename_size}
use rb3201_rbprotocol_librar.Web.Host.{is_local_host}
use rb3201_rbprotocol_librar.Web.Serve.{HttpRequest, is_prefix, occurs}

-- `MAXLINE`
abbrev pub maxline : ℕ
maxline = 256

-- The request so far, and `websocket_upgrade_headers`, a `uint8_t`.
pub record Headers : Type 0 where
  pub req : HttpRequest
  pub upgrades : ℕ

-- The bytes of `buf` and the stream after `rio_readlineb`, or none while it waits. A line is stored
-- with its terminator; at the end of the stream `buf` stays as it is; with an error it gets no
-- terminator.
unfoldable pub read_into : Bytes → Rio → Line → Option (Bytes × Rio)
read_into buf rp (line text n rest) = some (text ++ (0 ∷ drop (length text + 1) buf), rest)
read_into buf rp no_data = some (buf, rp)
read_into buf rp (failed part rest) = some (part ++ drop (length part) buf, rest)
read_into buf rp unfinished = none

-- `if (req->end != 0) req->end++`
unfoldable pub with_scanned : HttpRequest → ℕ × ℕ → HttpRequest
with_scanned req (offset, end) = record req {
  offset = offset;
  end = if end == 0 then 0 else (end + 1) % 2 ^ 32;
}

-- `sscanf(buf + 23, "%ld", &req->ws_version)`
unfoldable pub with_version : HttpRequest → Option (ℤ × Bytes) → HttpRequest
with_version req none = req
with_version req (some (z, rest)) = record req { ws_version = to_long z }

unfoldable pub one_more : Headers → Headers
one_more h = record h { upgrades = (h.upgrades + 1) % 256 }

-- The body of the loop over the headers, behind the reading of a line into `buf`.
unfoldable pub header_line : Bytes → Bytes → Headers → Headers
header_line local_hostname buf h =
    let s = strdup buf in
    if (get_or buf 0 0 == b'R') && ((get_or buf 1 0 == b'a') && (get_or buf 2 0 == b'n'))
    then record h { req = with_scanned h.req (scan_range s h.req.offset h.req.end) }
    else if is_prefix (codes "Accept-Encoding: ") s && occurs (codes "gzip") (drop 17 s)
    then record h { req = record h.req { serving_gzip = true } }
    else if is_prefix (codes "Upgrade: websocket") s
    then one_more h
    else if is_prefix (codes "Connection: ") s && occurs (codes "Upgrade") (drop 12 s)
    then one_more h
    else if (length s == 45) && is_prefix (codes "Sec-WebSocket-Key: ") s
    then record (one_more h) { req = record h.req { ws_key = take 24 (drop 19 s) } }
    else if is_prefix (codes "Sec-WebSocket-Version: ") s
    then record h { req = with_version h.req (scan_integer (drop 23 s)) }
    else if is_prefix (codes "Host: ") s
    then record h {
      req = record h.req { non_local_hostname = not (is_local_host (drop 6 s) local_hostname) };
    }
    else h

-- What the loop comes to: more rounds than its fuel, a wait for a socket that says no more, or its end.
pub data Loop : Type 0 where
  unended : Loop
  waits : Loop
  ended : Headers → Rio → Loop

-- `buf[0] != '\n' && buf[1] != '\n'`
unfoldable pub goes_on : Bytes → Bool
goes_on buf = not (get_or buf 0 0 == 10) && not (get_or buf 1 0 == 10)

-- The loop over the headers, on fuel.
unfoldable pub header_loop : ℕ → Bytes → Bytes → Rio → Headers → Loop
header_loop zero local_hostname buf rp h = unended
header_loop (suc fuel) local_hostname buf rp h =
    let next : Loop = elim (read_into buf rp (rio_readlineb rp maxline)) [
      | none ↦ waits
      | some (buf', rp') ↦
          header_loop fuel local_hostname buf' rp' (header_line local_hostname buf' h)
    ] in
    if goes_on buf then next else ended h rp

-- The version is dropped if not all headers were received.
unfoldable pub checked_version : Bytes → Headers → HttpRequest
checked_version method h =
    if not (h.req.ws_version == 0)
      && (not (h.upgrades == 3) || not (equal_bytes method (codes "GET")))
    then record h.req { ws_version = 0 }
    else h.req

-- The text before the first question mark.
unfoldable pub before_query : Bytes → Bytes
before_query [] = []
before_query (c ∷ s) = let rest = c ∷ before_query s in if c == b'?' then [] else rest

-- `filename`, which points into `uri`.
unfoldable pub path_of : Bytes → Bytes
path_of [] = []
path_of (c ∷ path) =
    if not (c == b'/')
    then c ∷ path
    else if length path == 0
    then codes "index.html"
    else before_query path

-- The results of `parse_request`: `overrun` if `url_decode` reads or writes where it must not.
pub data Parse : Type 0 where
  unended_request : Parse
  waiting_request : Parse
  overrun : Parse
  request : HttpRequest → Rio → Parse

unfoldable pub named : HttpRequest → Rio → Option Bytes → Parse
named req rp none = overrun
named req rp (some filename) = request (record req { filename = filename }) rp

-- Behind the loop over the headers.
unfoldable pub finish_request : Bytes → Bytes × Bytes → Loop → Parse
finish_request working_directory (method, uri) unended = unended_request
finish_request working_directory (method, uri) waits = waiting_request
finish_request working_directory (method, uri) (ended h rp) =
    named (checked_version method h) rp (url_decode working_directory (path_of uri) filename_size)

-- What the arrays and the fields hold before `parse_request` stores into them.
pub record Uninitialised : Type 0 where
  pub buf : Bytes
  pub method : Bytes
  pub uri : Bytes
  pub filename : Bytes
  pub ws_key : Bytes
  pub ws_version : ℕ

abbrev pub initial_headers : Uninitialised → Headers
initial_headers u = record {
  req = record {
    filename = u.filename;
    offset = 0;
    end = 0;
    serving_gzip = false;
    ws_key = u.ws_key;
    ws_version = u.ws_version;
    non_local_hostname = false;
  };
  upgrades = 0;
}

-- `parse_request`; the fuel is for its loop.
unfoldable pub parse_request : ℕ → Bytes → Bytes → Uninitialised → Rio → Parse
parse_request fuel local_hostname working_directory u rp =
    elim (read_into u.buf rp (rio_readlineb rp maxline)) [
      | none ↦ waiting_request
      | some (buf, rp') ↦
          finish_request working_directory (scan_request_line (strdup buf) u.method u.uri)
            (header_loop fuel local_hostname buf rp' (initial_headers u))
    ]
