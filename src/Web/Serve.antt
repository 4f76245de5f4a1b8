-- ===== src/Web/Serve.antt =====
-- src/rbwebserver.c: writing to a connection, and the answers to a request that names no file.
pub mod Body
use rb3201_rbprotocol_librar.Prelude.{
  ℕ, zero, suc, ◌+◌, ◌-◌, ◌%◌, ◌^◌, min, Bool, true, false, not, ◌&&◌, ◌||◌, Option, none, some,
  List, [], ◌∷◌, ◌++◌, Bytes, codes, length, take, drop, ltb, leb, ◌==◌, if◌then◌else◌,
}
use rb3201_rbprotocol_librar.Json.Key.Order.{equal_bytes}
use rb3201_rbprotocol_librar.Web.UrlDecode.{filename_size}
use rb3201_rbprotocol_librar.Web.MimeType.{get_mime_type}

-- What one `write` does: it takes so many bytes and one more, or fails. The flag is whether `errno` is
-- EINTR then.
pub data Write : Type 0 where
  wrote : ℕ → Write
  refused : Bool → Write

-- A connection: what was sent, and what the next writes do. Where the list ends, each write takes
-- all that it is given.
pub record Out : Type 0 where
  pub sent : Bytes
  pub writes : List Write

-- The loop of `writen`. The flag is false for the result -1.
unfoldable pub write_loop : List Write → Bytes → Bytes → Out × Bool
write_loop writes [] sent = (record { sent = sent; writes = writes }, true)
write_loop [] (b ∷ bytes) sent = (record { sent = sent ++ (b ∷ bytes); writes = [] }, true)
write_loop (wrote n ∷ writes) (b ∷ bytes) sent =
    write_loop writes (drop n bytes) (sent ++ (b ∷ take n bytes))
write_loop (refused true ∷ writes) (b ∷ bytes) sent = write_loop writes (b ∷ bytes) sent
write_loop (refused false ∷ writes) (b ∷ bytes) sent =
    (record { sent = sent; writes = writes }, false)

unfoldable pub writen : Out → Bytes → Out × Bool
writen out bytes = write_loop out.writes bytes out.sent

-- A call of `writen` whose result is ignored.
unfoldable pub put : Out → Bytes → Out
put out bytes = (writen out bytes).0

-- `http_request`; `offset` is the bit pattern of an `off_t` of 32 bits.
pub record HttpRequest : Type 0 where
  pub filename : Bytes
  pub offset : ℕ
  pub end : ℕ
  pub serving_gzip : Bool
  pub ws_key : Bytes
  pub ws_version : ℕ
  pub non_local_hostname : Bool

-- `not_found_response_t`; NULL is the empty text.
pub record NotFoundResponse : Type 0 where
  pub content : Bytes
  pub is_gzipped : Bool

abbrev pub crlf : Bytes
crlf = 13 ∷ 10 ∷ []

abbrev pub redirect_response : Bytes
redirect_response = codes "HTTP/1.1 302 Temporary Redirect" ++ (crlf ++ codes "Location: http://")

unfoldable pub temporary_redirect : Out → Bytes → Out
temporary_redirect out location = put (put (put out redirect_response) location) (crlf ++ crlf)

-- `strstr`: whether a text occurs in another.
unfoldable pub is_prefix : Bytes → Bytes → Bool
is_prefix [] s = true
is_prefix (c ∷ t) [] = false
is_prefix (c ∷ t) (x ∷ s) = (x == c) && is_prefix t s

unfoldable pub occurs : Bytes → Bytes → Bool
occurs t [] = is_prefix t []
occurs t (x ∷ s) = is_prefix t (x ∷ s) || occurs t s

-- The loop over the chunks of an answer, on fuel: each round writes a byte at least.
unfoldable pub chunk_loop : ℕ → Out → Bytes → ℕ → ℕ → Out
chunk_loop zero out content pos end = out
chunk_loop (suc fuel) out content pos end =
    let chunk = min (end - pos) 256 in
    let rest =
      chunk_loop fuel (put out (take chunk (drop pos content))) content (pos + chunk) end in
    if not (ltb pos end) then out else rest

-- The request with the range that is served of a text.
unfoldable pub with_range : HttpRequest → NotFoundResponse → HttpRequest
with_range req nfr = record req {
  serving_gzip = nfr.is_gzipped;
  end = if (req.end == 0) || ltb (length nfr.content) req.end then length nfr.content else req.end;
}

-- The print of `%u`.
module _ (unsigned : ℕ → Bytes) where
  unfoldable pub client_error : Out → ℕ → Bytes → Bytes → Out
  client_error out status msg longmsg = put out (
      codes "HTTP/1.1 "
      ++ (unsigned status
          ++ (codes " "
              ++ (msg
                  ++ (crlf
                      ++ (codes "Content-length: "
                          ++ (unsigned (length longmsg) ++ (crlf ++ (crlf ++ longmsg)))))))))

-- The prints of `%u` and `%ld`, the second of a bit pattern.
module _ (unsigned signed : ℕ → Bytes) where
  -- The first line of the answer, and what it says of the range.
  unfoldable pub range_line : HttpRequest → ℕ → Bytes
  range_line req total_size =
      if ltb 0 req.offset && ltb req.offset (2 ^ 31)
      then codes "HTTP/1.1 206 Partial"
        ++ (crlf
            ++ (codes "Content-Range: bytes "
                ++ (signed req.offset
                    ++ (codes "-"
                        ++ (unsigned req.end ++ (codes "/" ++ (unsigned total_size ++ crlf)))))))
      else codes "HTTP/1.1 200 OK" ++ (crlf ++ (codes "Accept-Ranges: bytes" ++ crlf))

  unfoldable pub gzip_line : Bool → Bytes
  gzip_line true = codes "Content-Encoding: gzip" ++ crlf
  gzip_line false = []

  -- The text that `serve_headers_success` collects in its buffer.
  unfoldable pub success_headers : HttpRequest → ℕ → Bytes
  success_headers req total_size =
      range_line req total_size
      ++ (gzip_line req.serving_gzip
          ++ (codes "Content-Length: "
              ++ (unsigned ((req.end + 2 ^ 32 - req.offset) % 2 ^ 32)
                  ++ (crlf
                      ++ ((if occurs (codes ".json") req.filename
                            then codes "Cache-Control: no-store"
                            else codes "Cache-Control: private,max-age=259200")
                          ++ (crlf
                              ++ (codes "Content-Type: "
                                  ++ (get_mime_type req.filename ++ (crlf ++ crlf)))))))))

  unfoldable pub serve_headers_success : Out → HttpRequest → ℕ → Out
  serve_headers_success out req total_size = put out (success_headers req total_size)

  -- The answer of the callback; the flag is the result.
  unfoldable pub answer_with : Out → HttpRequest → NotFoundResponse → Out × HttpRequest × Bool
  answer_with out req nfr =
      let served = with_range req nfr in
      let headed = serve_headers_success out served (length nfr.content) in
      if length nfr.content == 0
      then (out, req, false)
      else if leb (length nfr.content) req.offset
      then (headed, served, true)
      else (chunk_loop served.end headed nfr.content req.offset served.end, served, true)

  -- With `not_found_callback`, where there is one.
  unfoldable pub serve_not_found_cb :
      Out → HttpRequest → Bytes → Option (Bytes → NotFoundResponse) → Out × HttpRequest × Bool
  serve_not_found_cb out req working_directory none = (out, req, false)
  serve_not_found_cb out req working_directory (some not_found_callback) =
      answer_with out req (not_found_callback (drop (length working_directory) req.filename))

-- `prepare_gzip`: the request and the descriptor that is opened, where `open_file` is what the file
-- system gives for a name.
unfoldable pub open_zipped : (Bytes → Option ℕ) → HttpRequest → Option ℕ → HttpRequest × Option ℕ
open_zipped open_file req (some fd) = (req, some fd)
open_zipped open_file req none = (record req { serving_gzip = false }, open_file req.filename)

unfoldable pub prepare_gzip : (Bytes → Option ℕ) → HttpRequest → HttpRequest × Option ℕ
prepare_gzip open_file req =
    let fnlen = length req.filename in
    let plain = open_zipped open_file req none in
    let zipped = open_zipped open_file req (open_file (req.filename ++ codes ".gz")) in
    if not req.serving_gzip
    then plain
    else if ltb fnlen 3 || leb filename_size (fnlen + 4)
    then plain
    else if equal_bytes (drop (fnlen - 3) req.filename) (codes ".gz")
    then plain
    else zipped
