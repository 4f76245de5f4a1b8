-- ===== src/Tcp/Whole.antt =====
-- Which rounds of a connection lose what they read.
use rb3201_rbprotocol_librar.Prelude.{
  ℕ, zero, suc, ◌+◌, ◌-◌, ◌*◌, ◌/◌, ◌%◌, ◌≤◌, ◌<◌, ◌≡◌, refl, sym, ap, ◌∙◌, Bool, true, false, ◌||◌,
  ◌&&◌, inl, inr, some, [], ◌∷◌, ◌++◌, append_assoc, Bytes, length, length-append, length-take,
  length-drop, take_all, drop_all, take-append-drop, take, drop, leb, ltb, ◌==◌, ==_iff, leb→le,
  true_ne_false, if◌then◌else◌, Bool-cases, ltb→lt, arith,
}
use rb3201_rbprotocol_librar.Tcp.{TcpSocketReal}
use rb3201_rbprotocol_librar.Tcp.Read.{
  Ending, would_block, Conn, arrive, Received, received, at_ending, take_unread, recv, dropped,
  delivers, inner_loop, Visit, call_all, after_inner, read_round,
}

-- A connection on which nothing more arrives.
abbrev pub calm : Ending → Bytes → Conn
calm ending s = record { unread = s; arrivals = []; ending = ending }

recv-calm :
    (fd n : ℕ) (ending : Ending) (s : Bytes)
    → 1 ≤ length s
    → recv (some fd) n (calm ending s) ≡ (received (take n s), calm ending (drop n s))
unfolding recv take_unread arrive
recv-calm fd n ending [] some_byte = absurd (omega arith)
recv-calm fd n ending (b ∷ s) some_byte = refl

-- The buffer is filled, and grows.
inner_loop-grows :
    (fuel fd size : ℕ) (content : Bytes) (ending : Ending) (s : Bytes)
    → length content < size
    → size ≤ length content + length s
    → size < 1024
    → inner_loop (suc fuel) (some fd) size content (calm ending s)
      ≡ inner_loop fuel
          (some fd)
          (size + 16)
          (content ++ take (size - length content) s)
          (calm ending (drop (size - length content) s))
unfolding inner_loop
inner_loop-grows fuel fd size content ending s room filled small =
    let read = recv-calm fd (size - length content) ending s (omega arith) in
    let full : length (take (size - length content) s) ≡ size - length content =
      omega (arith, length-take (size - length content) s) in
    let again : (ltb (size - length content) (size - length content) || leb 1024 size) ≡ false =
      ground arith in
    rw (inner_loop, read, ap (λ (p : Received × Conn). p.1) read, full, again) refl

-- The buffer takes all there is.
inner_loop-fits :
    (fuel fd size : ℕ) (content : Bytes) (ending : Ending) (s : Bytes)
    → 1 ≤ length s
    → length content + length s < size
    → inner_loop (suc fuel) (some fd) size content (calm ending s)
      ≡ delivers (content ++ s) (calm ending [])
unfolding inner_loop
inner_loop-fits fuel fd size content ending s some_byte room =
    let read = recv-calm fd (size - length content) ending s some_byte in
    let all = take_all (size - length content) s (omega arith) in
    let nothing = drop_all (size - length content) s (omega arith) in
    let last : ltb (length s) (size - length content) ≡ true = ground arith in
    rw (inner_loop, read, ap (λ (p : Received × Conn). p.1) read, all, nothing, last) refl

filled-content :
    (size : ℕ) (content s : Bytes)
    → length content < size
    → size ≤ length content + length s
    → (length (content ++ take (size - length content) s) ≡ size)
      × (length (drop (size - length content) s) ≡ length content + length s - size)
      × ((content ++ take (size - length content) s) ++ drop (size - length content) s
          ≡ content ++ s)
filled-content size content s room filled = (
  omega (
    arith,
    length-append content (take (size - length content) s),
    length-take (size - length content) s,
  ),
  omega (arith, length-drop (size - length content) s),
  append_assoc content (take (size - length content) s) (drop (size - length content) s)
      ∙ ap (λ xs. content ++ xs) (take-append-drop (size - length content) s),
)

-- Sizes of the buffer in front of the last one.
abbrev pub IsPassed : ℕ → ℕ → Type 0
IsPassed size n = (k : ℕ) → n ≡ size + 16 * k → ⊥

inner_loop-whole :
    (fuel fd size : ℕ) (content : Bytes) (ending : Ending) (s : Bytes)
    → 1 ≤ fuel
    → 1040 ≤ size + 16 * fuel
    → length content < size
    → 1 ≤ length s
    → length content + length s < 1024
    → IsPassed size (length content + length s)
    → inner_loop fuel (some fd) size content (calm ending s)
      ≡ delivers (content ++ s) (calm ending [])
inner_loop-whole zero fd size content ending s some_fuel enough room some_byte few passed =
    absurd (omega arith)
inner_loop-whole (suc fuel) fd size content ending s some_fuel enough room some_byte few passed =
    let n = length content + length s in
    elim (Bool-cases (ltb n size)) [
      | inl fits ↦ inner_loop-fits fuel fd size content ending s some_byte (ltb→lt n size fits)
      | inr over ↦
          let filled : size ≤ n = ground (arith, over) in
          let above : size < n = ground (arith, passed 0) in
          let (full, left, joined) = filled-content size content s room filled in
          let later =
            inner_loop-whole fuel fd (size + 16) (content ++ take (size - length content) s) ending
              (drop (size - length content) s) (omega arith) (omega arith) (omega (arith, full))
              (omega (arith, left)) (omega (arith, full, left))
              (λ k e. passed (k + 1) (omega (arith, full, left, e))) in
          inner_loop-grows fuel fd size content ending s room filled (omega arith)
          ∙ (later ∙ ap (λ xs. delivers xs (calm ending [])) joined)
    ]

inner_loop-none_left :
    (fuel fd size : ℕ) (content : Bytes)
    → inner_loop (suc fuel) (some fd) size content (calm would_block [])
      ≡ dropped content would_block (calm would_block [])
unfolding inner_loop recv take_unread arrive at_ending
inner_loop-none_left fuel fd size content = refl

inner_loop-lost :
    (fuel fd size k : ℕ) (content s : Bytes)
    → 1040 ≤ size + 16 * fuel
    → length content < size
    → length content + length s ≡ size + 16 * k
    → length content + length s < 1024
    → inner_loop fuel (some fd) size content (calm would_block s)
      ≡ dropped (content ++ s) would_block (calm would_block [])
inner_loop-lost zero fd size k content s enough room exact few = absurd (omega arith)
inner_loop-lost (suc zero) fd size k content s enough room exact few = absurd (omega arith)
inner_loop-lost (suc (suc fuel)) fd size zero content s enough room exact few =
    let all = take_all (size - length content) s (omega arith) in
    let nothing = drop_all (size - length content) s (omega arith) in
    inner_loop-grows (suc fuel) fd size content would_block s room (omega arith) (omega arith)
    ∙ rw (all, nothing) (inner_loop-none_left fuel fd (size + 16) (content ++ s))
inner_loop-lost (suc fuel) fd size (suc k) content s enough room exact few =
    let (full, left, joined) = filled-content size content s room (omega arith) in
    let later =
      inner_loop-lost fuel fd (size + 16) k (content ++ take (size - length content) s)
        (drop (size - length content) s) (omega arith) (omega (arith, full))
        (omega (arith, full, left)) (omega (arith, full, left)) in
    inner_loop-grows fuel fd size content would_block s room (omega arith) (omega arith)
    ∙ (later ∙ ap (λ xs. dropped xs would_block (calm would_block [])) joined)

-- Whether a number of bytes is one of the sizes that a buffer of a capacity takes.
abbrev pub fills : ℕ → ℕ → Bool
fills size n = leb size n && ((n - size) % 16 == 0)

fills-exact : (size n : ℕ) → fills size n ≡ true → n ≡ size + 16 * ((n - size) / 16)
fills-exact size n h =
    let over : leb size n ≡ true = ground (arith, h) in
    let whole : ((n - size) % 16 == 0) ≡ true = ground (arith, h) in
    let none_left : (n - size) % 16 ≡ 0 = (==_iff ((n - size) % 16) 0).0 whole in
    omega (arith, leb→le size n over, none_left)

fills-IsPassed : (size n : ℕ) → fills size n ≡ false → IsPassed size n
fills-IsPassed size n h k e =
    let over : leb size n ≡ true = ground (arith, e) in
    let none_left : (n - size) % 16 ≡ 0 = omega (arith, e) in
    let whole : ((n - size) % 16 == 0) ≡ true = rw none_left refl in
    true_ne_false (sym (rw (over, whole) refl) ∙ h)

module _ {C : Type 0} (t : TcpSocketReal C) (v : Visit) (fd : ℕ) (s : Bytes) where
  -- A round of a connection that is open and quiet takes all the bytes that have arrived, if they are fewer than 1024: every
  -- callback gets them, unless their number is one of the sizes that the buffer takes, which are its
  -- capacity plus the multiples of 16; then no callback gets them, and they are gone.
  pub read_round_whole :
      t.fd ≡ some fd
      → 1 ≤ v.capacity
      → 1 ≤ length s
      → length s < 1024
      → read_round t v (calm would_block s)
        ≡ some (
          t,
          calm would_block [],
          (if fills v.capacity (length s) then [] else call_all t.callbacks s),
          [],
        )
  unfolding read_round after_inner
  read_round_whole e room some_byte few =
      let opened = ap (λ o. inner_loop 66 o v.capacity [] (calm would_block s)) e in
      let size : length {A = ℕ} [] + length s ≡ length s = omega arith in
      elim (Bool-cases (fills v.capacity (length s))) [
        | inl exact ↦ rw exact (
            ap (after_inner t v) (
              opened
              ∙ inner_loop-lost 66 fd v.capacity ((length s - v.capacity) / 16) [] s (omega arith)
                  (omega arith) (size ∙ fills-exact v.capacity (length s) exact) (omega arith)))
        | inr passed ↦ rw passed (
            ap (after_inner t v) (
              opened
              ∙ inner_loop-whole 66 fd v.capacity [] would_block s (omega arith) (omega arith)
                  (omega arith) some_byte (omega arith)
                  (λ k n. fills-IsPassed v.capacity (length s) passed k (sym size ∙ n))))
      ]
