-- ===== src/Web/Route/Files.antt =====
-- Files that are served: what the headers announce is what is sent.
use mathlib.Core.List.{append-nil}
use rb3201_rbprotocol_librar.Prelude.{
  ℕ, zero, suc, ◌+◌, ◌-◌, ◌%◌, ◌^◌, ◌≤◌, ◌<◌, ◌≡◌, refl, ap, ◌∙◌, min, true, false, ◌||◌, ◌⊎◌, inl,
  inr, Option, some, [], ◌++◌, Bytes, codes, length, take, drop, ltb, leb, ◌==◌, if◌then◌else◌,
  append_assoc, ==_iff, length-append, length-take, length-drop, drop-drop, Bool-cases,
  Option-cases, arith,
}
use rb3201_rbprotocol_librar.Prelude.Int.{ℤ, pos, ◌+ℤ◌, int32}
use rb3201_rbprotocol_librar.Web.UrlDecode.{filename_size}
use rb3201_rbprotocol_librar.Web.Serve.{
  Out, HttpRequest, success_headers, serve_headers_success, open_zipped, prepare_gzip,
}
use rb3201_rbprotocol_librar.Web.Serve.Body.{put-open, take_split, range}
use rb3201_rbprotocol_librar.Json.Key.Order.{equal_bytes}
use rb3201_rbprotocol_librar.Web.Route.{
  write_once, sendfile_loop, sendfile, seek, serve_static, FileSystem, serve_open,
}

-- Reads of a regular file give what is there.
abbrev pub IsContent : (ℕ → ℕ → Option Bytes) → Bytes → Type 0
IsContent read content =
    (position count : ℕ) → read position count ≡ some (take count (drop position content))

sendfile_loop-range :
    (read : ℕ → ℕ → Option Bytes) (content : Bytes)
    → IsContent read content
    → (fuel : ℕ) (sent : Bytes) (position count : ℕ) (res : ℤ) → position + count ≤ length content
    → count ≤ fuel
    → (sendfile_loop read fuel 256 (record { sent = sent; writes = [] }) position count res).0
      ≡ record { sent = sent ++ take count (drop position content); writes = [] }
unfolding sendfile_loop write_once
sendfile_loop-range read content h zero sent position count res inside enough =
    let none_left : count ≡ 0 = omega arith in rw (none_left, append-nil sent) refl
sendfile_loop-range read content h (suc fuel) sent position count res inside enough =
    elim (Bool-cases (count == 0)) [
      | inl ends ↦
          let none_left : count ≡ 0 = (==_iff count 0).0 ends in
          rw (none_left, append-nil sent) refl
      | inr goes_on ↦
          let k = min count 256 in
          let rest = drop position content in
          let some_byte : 1 ≤ k = ground arith in
          let size : length (take k rest) ≡ k =
            omega (arith, length-take k rest, length-drop position content, inside) in
          let next =
            sendfile_loop-range read content h fuel (sent ++ take k rest) (position + k) (count - k)
              (int32 (res +ℤ pos k)) (omega (arith, inside)) (omega (arith, some_byte, enough)) in
          let joined : (sent ++ take k rest) ++ take (count - k) (drop (position + k) content)
              ≡ sent ++ take count rest =
            rw (drop-drop position k content) (
              append_assoc sent (take k rest) (take (count - k) (drop k rest))
              ∙ ap (◌++◌ sent) (take_split k count rest (omega arith))) in
          rw (goes_on, h position k, size)
            (next ∙ ap (λ s. record { sent = s; writes = [] }) joined)
    ]

serve_static-range :
    (unsigned signed : ℕ → Bytes) (read : ℕ → ℕ → Option Bytes) (out : Out) (req : HttpRequest)
    (total_size : ℕ) (uninitialised : ℤ) (content : Bytes)
    → IsContent read content
    → out.writes ≡ []
    → req.offset < req.end
    → req.end ≤ length content
    → length content < 2 ^ 31
    → (serve_static unsigned signed read out req total_size uninitialised).0 ≡ record {
      sent =
          out.sent
          ++ (success_headers unsigned signed req total_size ++ range content req.offset req.end);
      writes = [];
    }
unfolding serve_static sendfile serve_headers_success
serve_static-range unsigned signed read out req total_size uninitialised content h whole ordered
      inside short =
    let headers = success_headers unsigned signed req total_size in
    let some_bytes : ltb req.offset req.end ≡ true = ground arith in
    let sought : seek req.offset ≡ req.offset = ground arith in
    let sent =
      sendfile_loop-range read content h (req.end - req.offset) (out.sent ++ headers) req.offset
        (req.end - req.offset) uninitialised (omega arith) (omega arith) in
    rw
      (
        some_bytes,
        sought,
        put-open out headers whole,
        sent,
        append_assoc out.sent headers (range content req.offset req.end),
      )
      refl

module _ (unsigned signed : ℕ → Bytes) (fs : FileSystem) (out : Out) (req : HttpRequest)
    (ffd : ℕ) where
  -- A regular file that is open is sent behind its headers from the offset of the request up to its end, or
  -- to the end of the file if the request names none; the length that the headers print is that of
  -- the bytes sent, whatever the uninitialised result of `sendfile` was. The range is not empty
  -- and lies in the file, the file has fewer than 2^31 bytes and is read without errors, and no write is
  -- short.
  pub serve_open-range :
      (uninitialised : ℤ) (content : Bytes)
      → fs.is_regular ffd ≡ true
      → fs.size_of ffd ≡ length content
      → IsContent (fs.read_at ffd) content
      → out.writes ≡ []
      → req.offset < length content
      → length content < 2 ^ 31
      → (req.end ≡ 0) ⊎ ((req.offset < req.end) × (req.end ≤ length content))
      → (served : HttpRequest) × (body : Bytes) × ((serve_open unsigned signed fs out req ffd
            uninitialised).0
          ≡ record {
            sent = out.sent ++ (success_headers unsigned signed served (length content) ++ body);
            writes = [];
          })
        × (served ≡ record req { end = if req.end == 0 then length content else req.end })
        × (body ≡ range content req.offset served.end)
        × ((served.end + 2 ^ 32 - req.offset) % 2 ^ 32 ≡ length body)
  unfolding serve_open
  serve_open-range uninitialised content regular size h whole inside short ordered =
      let last = if req.end == 0 then length content else req.end in
      let served : HttpRequest = record req { end = last } in
      let some_bytes : req.offset < last = ground arith in
      let few : last ≤ length content = ground arith in
      let body = range content req.offset last in
      let total : length body ≡ last - req.offset = omega (
        arith,
        length-take (last - req.offset) (drop req.offset content),
        length-drop req.offset content,
      ) in
      (
        served,
        body,
        rw (serve_open, regular, size)
            (serve_static-range unsigned signed (fs.read_at ffd) out served (length content)
              uninitialised content h whole some_bytes few short),
        refl,
        refl,
        omega (arith, total),
      )

-- The compressed file is announced exactly if it is the one that is opened: either the request accepts
-- gzip and the descriptor is that of the name with ".gz", which fits the buffer of the name, or
-- gzip is not announced and the descriptor is that of the name itself.
prepare_gzip_announced :
    (open_file : Bytes → Option ℕ) (req : HttpRequest)
    → (((prepare_gzip open_file req).0.serving_gzip ≡ true)
        × (req.serving_gzip ≡ true)
        × ((prepare_gzip open_file req).1 ≡ open_file (req.filename ++ codes ".gz"))
        × (length (req.filename ++ codes ".gz") < filename_size))
      ⊎ (((prepare_gzip open_file req).0.serving_gzip ≡ false)
          × ((prepare_gzip open_file req).1 ≡ open_file req.filename))
unfolding prepare_gzip open_zipped
prepare_gzip_announced open_file req = elim (Bool-cases req.serving_gzip) [
  | inr plain ↦ inr (rw plain (refl, refl))
  | inl wanted ↦
      elim (Bool-cases
        (ltb (length req.filename) 3 || leb filename_size (length req.filename + 4))) [
          | inl unfit ↦ inr (rw (wanted, unfit) (refl, refl))
          | inr fits ↦
              elim (Bool-cases
                (equal_bytes (drop (length req.filename - 3) req.filename) (codes ".gz"))) [
                  | inl already ↦ inr (rw (wanted, fits, already) (refl, refl))
                  | inr other ↦ elim (Option-cases (open_file (req.filename ++ codes ".gz"))) [
                    | inl missing ↦ inr (rw (wanted, fits, other, missing) (refl, refl))
                    | inr (fd, there) ↦
                        inl (rw (wanted, fits, other, there) (refl, refl, refl, short fits))
                  ]
                ]
        ]
]
  where
    short :
        (ltb (length req.filename) 3 || leb filename_size (length req.filename + 4)) ≡ false
        → length (req.filename ++ codes ".gz") < filename_size
    short e = ground (arith, length-append req.filename (codes ".gz"), e)
