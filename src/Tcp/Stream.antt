-- ===== src/Tcp/Stream.antt =====
-- What the callbacks of a connection get, against what arrives on it.
use rb3201_rbprotocol_librar.Prelude.{
  ℕ, zero, suc, ◌+◌, ◌-◌, ◌*◌, ◌≤◌, ◌<◌, ◌≡◌, refl, sym, ap, ◌∙◌, Bool, true, false, ◌||◌, inl, inr,
  Option, none, some, List, [], ◌∷◌, ◌++◌, append_assoc, Bytes, length, take, drop,
  take-append-drop, leb, ltb, if◌then◌else◌, Bool-cases, arith,
}
use rb3201_rbprotocol_librar.Net.{Effect}
use rb3201_rbprotocol_librar.Tcp.{TcpCallback, TcpSocketReal, is_some_fd}
use rb3201_rbprotocol_librar.Tcp.Read.{
  Ending, would_block, closed_by_peer, bad_descriptor, other_failure, Conn, arrive, Received,
  received, refused, at_ending, take_unread, recv, Inner, ran_out, dropped, delivers, inner_loop,
  Visit, TcpCall, call_all, after_inner, read_round, read_task,
}

unfoldable pub concat : List Bytes → Bytes
concat [] = []
concat (bytes ∷ later) = bytes ++ concat later

-- All the bytes that are unread and those that will arrive.
abbrev pub stream : Conn → Bytes
stream c = c.unread ++ concat c.arrivals

arrive-stream :
    (unread : Bytes) (arrivals : List Bytes) (ending : Ending)
    → let c : Conn = record { unread = unread; arrivals = arrivals; ending = ending } in
      stream (arrive c arrivals) ≡ stream c
unfolding arrive concat
arrive-stream unread [] ending = refl
arrive-stream unread (bytes ∷ later) ending = append_assoc unread bytes (concat later)

-- The bytes of a result of `recv`.
abbrev pub bytes_of : Received → Bytes
bytes_of (received bytes) = bytes
bytes_of (refused e) = []

at_ending-bytes_of : (ending : Ending) → bytes_of (at_ending ending) ≡ []
unfolding at_ending
at_ending-bytes_of would_block = refl
at_ending-bytes_of closed_by_peer = refl
at_ending-bytes_of bad_descriptor = refl
at_ending-bytes_of other_failure = refl

-- What `recv` does on an open connection: bytes of the stream, or the error that the connection ends in.
abbrev Reason : Ending → Received → Type 0
Reason ending (received bytes) = Unit
Reason ending (refused e) = e ≡ ending

abbrev Takes : Bytes → Ending → Received × Conn → Type 0
Takes s ending (r, c) = (bytes_of r ++ stream c ≡ s) × (c.ending ≡ ending) × Reason ending r

at_ending-Reason : (ending : Ending) → Reason ending (at_ending ending)
unfolding at_ending
at_ending-Reason would_block = refl
at_ending-Reason closed_by_peer = tt
at_ending-Reason bad_descriptor = refl
at_ending-Reason other_failure = refl

take_unread-Takes :
    (n : ℕ) (c : Conn) (unread : Bytes)
    → unread ≡ c.unread
    → Takes (stream c) c.ending (take_unread n c unread)
unfolding take_unread
take_unread-Takes n c [] e =
    (rw (at_ending-bytes_of c.ending) refl, refl, at_ending-Reason c.ending)
take_unread-Takes n c (b ∷ unread) e = (
  sym (append_assoc (take n (b ∷ unread)) (drop n (b ∷ unread)) (concat c.arrivals))
      ∙ ap (λ xs. xs ++ concat c.arrivals) (take-append-drop n (b ∷ unread) ∙ e),
  refl,
  tt,
)

arrive-ending : (c : Conn) (arrivals : List Bytes) → (arrive c arrivals).ending ≡ c.ending
unfolding arrive
arrive-ending c [] = refl
arrive-ending c (bytes ∷ later) = refl

Takes-along :
    (s s' : Bytes) (ending ending' : Ending) (p : Received × Conn)
    → s ≡ s'
    → ending ≡ ending'
    → Takes s ending p
    → Takes s' ending' p
Takes-along s s' ending ending' p same same' h = rw (← same, ← same') h

recv-Takes : (fd n : ℕ) (c : Conn) → Takes (stream c) c.ending (recv (some fd) n c)
unfolding recv
recv-Takes fd n c =
    let now = arrive c c.arrivals in
    Takes-along (stream now) (stream c) now.ending c.ending (take_unread n now now.unread)
      (arrive-stream c.unread c.arrivals c.ending) (arrive-ending c c.arrivals)
      (take_unread-Takes n now now.unread refl)

-- What an inner loop has taken, and what it leaves, are the content at its start and the stream; it ends.
abbrev pub Accounts : Bytes → Ending → Inner → Type 0
Accounts s ending ran_out = ⊥
Accounts s ending (dropped content e c) =
    (content ++ stream c ≡ s) × (c.ending ≡ ending) × (e ≡ ending)
Accounts s ending (delivers content c) = (content ++ stream c ≡ s) × (c.ending ≡ ending)

pub inner_loop-Accounts :
    (fuel fd size : ℕ) (content : Bytes) (c : Conn)
    → 1 ≤ fuel
    → 1040 ≤ size + 16 * fuel
    → Accounts (content ++ stream c) c.ending (inner_loop fuel (some fd) size content c)
unfolding inner_loop
inner_loop-Accounts zero fd size content c some_fuel enough = absurd (omega arith)
inner_loop-Accounts (suc fuel) fd size content c some_fuel enough =
    step (recv (some fd) (size - length content) c).0 (recv (some fd) (size - length content) c).1
      (recv-Takes fd (size - length content) c)
      (λ content' c' small.
        inner_loop-Accounts fuel fd (size + 16) content' c' (omega arith) (omega arith))
  where
    step :
        (r : Received) (c' : Conn)
        → Takes (stream c) c.ending (r, c')
        → ((content' : Bytes) (c' : Conn)
            → size < 1024
            → Accounts
                (content' ++ stream c')
                c'.ending
                (inner_loop fuel (some fd) (size + 16) content' c'))
        → Accounts (content ++ stream c) c.ending (elim r [
          | refused e ↦ dropped content e c'
          | received bytes ↦
              let more = inner_loop fuel (some fd) (size + 16) (content ++ bytes) c' in
              if ltb (length bytes) (size - length content) || leb 1024 size
              then delivers (content ++ bytes) c'
              else more
        ])
    step (refused e') c' (e, same, why) rec = (ap (◌++◌ content) e, same, why)
    step (received bytes) c' (e, same, why) rec =
        let joined : (content ++ bytes) ++ stream c' ≡ content ++ stream c =
          append_assoc content bytes (stream c') ∙ ap (◌++◌ content) e in
        elim (Bool-cases (ltb (length bytes) (size - length content) || leb 1024 size)) [
          | inl t ↦ rw t (joined, same)
          | inr f ↦ rw (f, ← joined, ← same) (rec (content ++ bytes) c' (ground arith))
        ]

pub inner_loop-open :
    (fd : ℕ) (o : Option ℕ) (size : ℕ) (c : Conn)
    → o ≡ some fd
    → Accounts (stream c) c.ending (inner_loop 66 o size [] c)
inner_loop-open fd o size c e =
    rw e (inner_loop-Accounts 66 fd size [] c (omega arith) (omega arith))

-- What a round took, and whether the callbacks got it.
pub record Piece : Type 0 where
  pub delivered : Bool
  pub bytes : Bytes

abbrev pub taken : List Piece → Bytes
taken [] = []
taken (p ∷ ps) = p.bytes ++ taken ps

module _ {C : Type 0} where
  abbrev pub calls_of : List (TcpCallback C) → List Piece → List (TcpCall C)
  calls_of cbs [] = []
  calls_of cbs (p ∷ ps) = (if p.delivered then call_all cbs p.bytes else []) ++ calls_of cbs ps

  -- A round on an open connection.
  abbrev Reads :
      TcpSocketReal C
      → Conn
      → Option (TcpSocketReal C × Conn × List (TcpCall C) × List Effect)
      → Type 0
  Reads t c none = ⊥
  Reads t c (some (t', c', calls, effects)) =
      (p : Piece) × (calls ≡ (if p.delivered then call_all t.callbacks p.bytes else []))
      × (p.bytes ++ stream c' ≡ stream c)
      × (c'.ending ≡ c.ending)
      × (t' ≡ t)

  after_inner-Reads :
      (t : TcpSocketReal C) (c : Conn) (v : Visit) (i : Inner)
      → (c.ending ≡ bad_descriptor → ⊥)
      → Accounts (stream c) c.ending i
      → Reads t c (after_inner t v i)
  unfolding after_inner
  after_inner-Reads t c v ran_out good h = h
  after_inner-Reads t c v (dropped content bad_descriptor c') good (h, same, why) =
      absurd (good (sym why))
  after_inner-Reads t c v (dropped content would_block c') good (h, same, why) =
      (record { delivered = false; bytes = content }, refl, h, same, refl)
  after_inner-Reads t c v (dropped content closed_by_peer c') good (h, same, why) =
      (record { delivered = false; bytes = content }, refl, h, same, refl)
  after_inner-Reads t c v (dropped content other_failure c') good (h, same, why) =
      (record { delivered = false; bytes = content }, refl, h, same, refl)
  after_inner-Reads t c v (delivers content c') good (h, same) =
      (record { delivered = true; bytes = content }, refl, h, same, refl)

  read_round-Reads :
      (t : TcpSocketReal C) (c : Conn) (v : Visit) (fd : ℕ)
      → t.fd ≡ some fd
      → (c.ending ≡ bad_descriptor → ⊥)
      → Reads t c (read_round t v c)
  unfolding read_round
  read_round-Reads t c v fd e good =
      after_inner-Reads t c v (inner_loop 66 t.fd v.capacity [] c) good
        (inner_loop-open fd t.fd v.capacity c e)

  Reads-some :
      (t : TcpSocketReal C) (c : Conn)
      (o : Option (TcpSocketReal C × Conn × List (TcpCall C) × List Effect))
      → Reads t c o
      → (p : Piece) × (c' : Conn) × (effects : List Effect) × (o
          ≡ some (t, c', (if p.delivered then call_all t.callbacks p.bytes else []), effects))
        × (p.bytes ++ stream c' ≡ stream c)
        × (c'.ending ≡ c.ending)
  Reads-some t c none h = absurd h
  Reads-some t c (some (t', c', calls, effects)) (p, called, h, same, kept) =
      (p, c', effects, rw (called, kept) refl, h, same)

  pub read_task-round :
      (t t' : TcpSocketReal C) {t'' : TcpSocketReal C} (c c' c'' : Conn) (v : Visit)
      (vs : List Visit) (calls calls' : List (TcpCall C)) (effects : List Effect)
      → read_round t v c ≡ some (t', c', calls, effects)
      → is_some_fd t'.fd ≡ true
      → read_task t' c' vs ≡ some (false, t'', c'', calls')
      → read_task t c (v ∷ vs) ≡ some (false, t'', c'', calls ++ calls')
  unfolding read_task
  read_task-round t t' c c' c'' v vs calls calls' effects done open_ later =
      rw (read_task, done, open_, later) refl

  -- What the rounds of an open connection take, in their order, and what they leave, are the stream
  -- that the connection had: each round takes a piece of it, either every callback gets that piece as its one
  -- call, in the order in which they stand, or no callback gets it, and the task goes on. Whatever
  -- the buffer's capacities are and whenever bytes arrive; the connection does not end in EBADF.
  pub read_task-stream :
      (vs : List Visit) (t : TcpSocketReal C) (c : Conn) (fd : ℕ)
      → t.fd ≡ some fd
      → (c.ending ≡ bad_descriptor → ⊥)
      → (ps : List Piece) × (c' : Conn) × (read_task t c vs
          ≡ some (false, t, c', calls_of t.callbacks ps))
        × (taken ps ++ stream c' ≡ stream c)
        × (length ps ≡ length vs)
  unfolding read_task is_some_fd
  read_task-stream [] t c fd e good = ([], c, refl, refl, refl)
  read_task-stream (v ∷ vs) t c fd e good =
      let (p, c', effects, done, h, same) =
        Reads-some t c (read_round t v c) (read_round-Reads t c v fd e good) in
      let (ps, c'', later, left, count) =
        read_task-stream vs t c' fd e (λ bad. good (sym same ∙ bad)) in
      let open_ : is_some_fd t.fd ≡ true = ap is_some_fd e in
      (
        p ∷ ps,
        c'',
        read_task-round t t c c' c'' v vs (if p.delivered then call_all t.callbacks p.bytes else [])
            (calls_of t.callbacks ps) effects done open_ later,
        append_assoc p.bytes (taken ps) (stream c'') ∙ (ap (λ xs. p.bytes ++ xs) left ∙ h),
        ap suc count,
      )
