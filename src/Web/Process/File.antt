-- ===== src/Web/Process/File.antt =====
-- A request for a file, from the bytes on the socket to the bytes of the answer.
use rb3201_rbprotocol_librar.Prelude.{
  ℕ, suc, ◌+◌, ◌≤◌, ◌<◌, ◌^◌, ◌≡◌, refl, sym, ap, ◌∙◌, Bool, true, false, ◌⊎◌, inl, inr, Option,
  none, some, List, [], ◌∷◌, ◌++◌, Bytes, codes, All, length, drop, ◌==◌, ==_iff, if◌then◌else◌,
  Bool-cases, Option-cases, true_ne_false, ==_ne, arith,
}
use rb3201_rbprotocol_librar.Prelude.Int.{ℤ}
use rb3201_rbprotocol_librar.Web.ReadLine.{Rio}
use rb3201_rbprotocol_librar.Web.ReadLine.Chunks.{IsOpen, stream}
use rb3201_rbprotocol_librar.Web.UrlDecode.{filename_size}
use rb3201_rbprotocol_librar.Web.UrlDecode.RoundTrip.{encode, AreTextBytes, url_decode-encode}
use rb3201_rbprotocol_librar.Web.Serve.{
  Out, HttpRequest, is_prefix, success_headers, prepare_gzip, open_zipped,
}
use rb3201_rbprotocol_librar.Web.Serve.Body.{range}
use rb3201_rbprotocol_librar.Web.Request.{
  Headers, ended, finish_request, named, checked_version, request, Uninitialised, initial_headers,
}
use rb3201_rbprotocol_librar.Web.Request.Lines.{IsText, block, take_lines, parse_request-block}
use rb3201_rbprotocol_librar.Web.Route.{
  FileSystem, strstr, Web, Handled, answered, route, process_serve_file, serve_file_or_missing,
  serve_open,
}
use rb3201_rbprotocol_librar.Web.Route.Files.{IsContent, serve_open-range}
use rb3201_rbprotocol_librar.Web.Process.{processed, process_request, process}
use rb3201_rbprotocol_librar.Web.Process.Path.{
  IsPathByte, encode-IsPathByte, path_of-slash, request_line, scan_request_line-request_line,
  request_line-IsText,
}

abbrev pub Stands : Bytes → Bytes → Option ℕ → Type 0
Stands s t none = Unit
Stands s t (some i) = is_prefix t (drop i s) ≡ true

-- Where a text occurs, it stands.
strstr-Stands : (s t : Bytes) → Stands s t (strstr s t)
unfolding strstr
strstr-Stands [] t = elim (Bool-cases (is_prefix t [])) [ inl e ↦ rw (e) e | inr e ↦ rw (e) tt ]
strstr-Stands (x ∷ s) t = elim (Bool-cases (is_prefix t (x ∷ s))) [
  | inl e ↦ rw (e) e
  | inr e ↦ elim (Option-cases (strstr s t)) [
    | inl missing ↦ rw (e, missing) tt
    | inr (i, found) ↦
        let next : i + 1 ≡ suc i = omega arith in
        let later = rw found at (strstr-Stands s t) in rw (e, found, next) later
  ]
]

checked_version_plain :
    (method : Bytes) (h : Headers)
    → (h.upgrades == 3) ≡ false
    → checked_version method h ≡ record h.req { ws_version = 0 }
unfolding checked_version
checked_version_plain method h few = elim (Bool-cases (h.req.ws_version == 0)) [
  | inl none_ ↦
      rw none_ (ap (λ v. record h.req { ws_version = v }) ((==_iff h.req.ws_version 0).0 none_))
  | inr some_ ↦ rw (some_, few) refl
]

finish_request-encode :
    (keep : ℕ → Bool) (wd s : Bytes) (h : Headers) (rp : Rio)
    → ((b : ℕ) → keep b ≡ true → IsPathByte b)
    → keep b'%' ≡ false
    → AreTextBytes s
    → 1 ≤ length (encode keep s)
    → length wd + 1 + length s < filename_size
    → (h.upgrades == 3) ≡ false
    → finish_request wd (codes "GET", b'/' ∷ encode keep s) (ended h rp)
      ≡ request (record h.req { filename = (wd ++ (b'/' ∷ [])) ++ s; ws_version = 0 }) rp
unfolding finish_request named
finish_request-encode keep wd s h rp plain k bytes some_byte fits few =
    rw
      (
        finish_request,
        checked_version_plain (codes "GET") h few,
        path_of-slash (encode keep s) (encode-IsPathByte keep s plain bytes) some_byte,
        url_decode-encode keep wd s filename_size k bytes (omega arith) fits,
      )
      refl

drop-filename : (wd s : Bytes) → drop (length wd) ((wd ++ (b'/' ∷ [])) ++ s) ≡ b'/' ∷ s
drop-filename [] s = refl
drop-filename (c ∷ wd) s = drop-filename wd s

-- The directory of the extra callback is not where another name stands.
strstr_extra :
    (wd s : Bytes)
    → is_prefix (codes "extra/") s ≡ false
    → (i : ℕ) → strstr ((wd ++ (b'/' ∷ [])) ++ s) (codes "/extra/") ≡ some i
    → (i == length wd) ≡ false
unfolding is_prefix
strstr_extra wd s other i found = ==_ne (length wd) i (λ e. true_ne_false (
    sym (
      rw (found, ← e, drop-filename wd s) at
        (strstr-Stands ((wd ++ (b'/' ∷ [])) ++ s) (codes "/extra/")))
    ∙ other))

-- What the headers may ask for: the server itself, no Websocket, no compressed file, and a range that
-- lies in the file.
pub record IsServable (h : Headers) (content : Bytes) : Type 0 where
  pub local : h.req.non_local_hostname ≡ false
  pub no_upgrade : (h.upgrades == 3) ≡ false
  pub plain : h.req.serving_gzip ≡ false
  pub inside : h.req.offset < length content
  pub ordered : (h.req.end ≡ 0) ⊎ ((h.req.offset < h.req.end) × (h.req.end ≤ length content))

-- A name without a zero byte in the working directory, the bytes of its percent-encoding, and the regular file of that name.
pub record IsStored (fs : FileSystem) (w : Web) (keep : ℕ → Bool) (s : Bytes) (ffd : ℕ)
    (content : Bytes) : Type 0 where
  pub path_bytes : (b : ℕ) → keep b ≡ true → IsPathByte b
  pub percent : keep b'%' ≡ false
  pub bytes : AreTextBytes s
  pub some_byte : 1 ≤ length (encode keep s)
  pub short_path : length (encode keep s) < 127
  pub short_name : length w.working_directory + 1 + length s < filename_size
  pub other : is_prefix (codes "extra/") s ≡ false
  pub there : fs.open_file ((w.working_directory ++ (b'/' ∷ [])) ++ s) ≡ some ffd
  pub nonzero : (ffd == 0) ≡ false
  pub regular : fs.is_regular ffd ≡ true
  pub size : fs.size_of ffd ≡ length content
  pub readable : IsContent (fs.read_at ffd) content
  pub small : length content < 2 ^ 31

module _ (unsigned signed : ℕ → Bytes) (mbedtls_sha1 mbedtls_base64_encode : Bytes → Bytes)
    (fs : FileSystem) (local_hostname : Bytes) (w : Web) where
  process_serve_file_plain :
      (out : Out) (req : HttpRequest) (ffd : ℕ) (z : ℤ)
      → req.serving_gzip ≡ false
      → fs.open_file req.filename ≡ some ffd
      → (ffd == 0) ≡ false
      → process_serve_file unsigned signed fs out req w.working_directory w.not_found_callback z
        ≡ serve_open unsigned signed fs out req ffd z
  unfolding process_serve_file prepare_gzip open_zipped serve_file_or_missing
  process_serve_file_plain out req ffd z plain there nonzero = rw (plain, there, nonzero) refl

  route-file :
      (out : Out) (req : HttpRequest) (s : Bytes) (ffd : ℕ) (z : ℤ)
      → req.non_local_hostname ≡ false
      → req.ws_version ≡ 0
      → req.serving_gzip ≡ false
      → req.filename ≡ (w.working_directory ++ (b'/' ∷ [])) ++ s
      → is_prefix (codes "extra/") s ≡ false
      → fs.open_file req.filename ≡ some ffd
      → (ffd == 0) ≡ false
      → route unsigned signed mbedtls_sha1 mbedtls_base64_encode fs local_hostname w out req z
        ≡ answered (serve_open unsigned signed fs out req ffd z)
  unfolding route
  route-file out req s ffd z local version plain name other there nonzero =
      let file = process_serve_file_plain out req ffd z plain there nonzero in
      elim (Option-cases (strstr req.filename (codes "/extra/"))) [
        | inl missing ↦ rw (local, version, missing) (ap answered (rw (← local, ← version) file))
        | inr (i, found) ↦
            let elsewhere =
              strstr_extra w.working_directory s other i
                (ap (λ x. strstr x (codes "/extra/")) (sym name) ∙ found) in
            rw (local, version, found, elsewhere) (ap answered (rw (← local, ← version) file))
      ]

  -- A file that is asked for by the percent-encoding of its name is served, whatever pieces the request
  -- arrives in, whatever the arrays held before, and whatever other headers it has: the answer
  -- is the headers for that name followed by the bytes of the file from the offset that the request's headers
  -- come to, up to their end, or to the end of the file if they name none. The headers fit in
  -- the buffer line by line, name this server if any, do not accept gzip nor ask for a
  -- Websocket, and give a range in the file; the file is regular, readable and below 2^31 bytes, its name has no zero
  -- byte, fits and is not in the directory "extra/", and no write of the answer is short.
  pub process-encode :
      (fuel : ℕ) (u : Uninitialised) (rp : Rio) (out : Out) (z : ℤ) (keep : ℕ → Bool) (s : Bytes)
      (ts : List Bytes) (rest : Bytes) (ffd : ℕ) (content : Bytes)
      → length ts + 2 ≤ fuel
      → IsOpen rp.socket
      → stream rp ≡ request_line (encode keep s) ++ (10 ∷ block ts rest)
      → All IsText ts
      → IsStored fs w keep s ffd content
      → IsServable (take_lines local_hostname ts (initial_headers u)) content
      → out.writes ≡ []
      → let asked = (take_lines local_hostname ts (initial_headers u)).req in
        (handled : Handled) × (served : HttpRequest) × (process unsigned signed mbedtls_sha1
            mbedtls_base64_encode fs local_hostname fuel w u rp out z
          ≡ processed handled)
        × (handled.out ≡ record {
          sent =
              out.sent
              ++ (success_headers unsigned signed served (length content)
                  ++ range content asked.offset served.end);
          writes = [];
        })
        × (handled.upgraded ≡ false)
        × (served.filename ≡ (w.working_directory ++ (b'/' ∷ [])) ++ s)
        × (served.offset ≡ asked.offset)
        × (served.end ≡ (if asked.end == 0 then length content else asked.end))
  unfolding process process_request answered
  process-encode fuel u rp out z keep s ts rest ffd content enough open_ e texts stored_ servable
        whole =
      let p = encode keep s in
      let solid = encode-IsPathByte keep s stored_.path_bytes stored_.bytes in
      let h = take_lines local_hostname ts (initial_headers u) in
      let asked = h.req in
      let req : HttpRequest = record asked {
        filename = (w.working_directory ++ (b'/' ∷ [])) ++ s;
        ws_version = 0;
      } in
      let (rp', parsed, left, open') =
        parse_request-block fuel local_hostname w.working_directory u rp (request_line p) ts rest
          enough open_ e (request_line-IsText p solid stored_.short_path) texts in
      let scanned = scan_request_line-request_line p u.method u.uri solid stored_.short_path in
      let finished =
        finish_request-encode keep w.working_directory s h rp' stored_.path_bytes stored_.percent
          stored_.bytes stored_.some_byte stored_.short_name servable.no_upgrade in
      let routed =
        route-file out req s ffd z servable.local refl servable.plain refl stored_.other
          stored_.there stored_.nonzero in
      let (served, body, sent, same, what, announced) =
        serve_open-range unsigned signed fs out req ffd z content stored_.regular stored_.size
          stored_.readable whole servable.inside stored_.small servable.ordered in
      (
        answered (serve_open unsigned signed fs out req ffd z),
        served,
        rw (process, parsed, scanned, finished) (ap processed routed),
        rw⁻¹ what sent,
        refl,
        ap (λ (r : HttpRequest). r.filename) same,
        ap (λ (r : HttpRequest). r.offset) same,
        ap (λ (r : HttpRequest). r.end) same,
      )
