-- ===== src/Tcp/Read.antt =====
-- `readTask` of src/rbtcp.cpp: rounds that read what has arrived and call the callbacks.
use rb3201_rbprotocol_librar.Prelude.{
  ℕ, zero, suc, ◌+◌, ◌-◌, Bool, true, false, ◌||◌, Option, none, some, List, [], ◌∷◌, ◌++◌, Bytes,
  length, take, drop, leb, ltb, if◌then◌else◌,
}
use rb3201_rbprotocol_librar.Net.{Effect}
use rb3201_rbprotocol_librar.Tcp.{
  Dial, open_socket, TcpCallback, TcpSocketReal, is_some_fd, close_fd,
}

-- What `recv` says where nothing is unread: EAGAIN or EWOULDBLOCK, the end of the stream, EBADF, or
-- another error.
pub data Ending : Type 0 where
  would_block closed_by_peer bad_descriptor other_failure : Ending

-- A connection: what has arrived and is unread, what arrives in front of each of the next calls of `recv`, and what
-- they say without any of it.
pub record Conn : Type 0 where
  pub unread : Bytes
  pub arrivals : List Bytes
  pub ending : Ending

unfoldable pub arrive : Conn → List Bytes → Conn
arrive c [] = c
arrive c (bytes ∷ later) = record c { unread = c.unread ++ bytes; arrivals = later }

-- The results of `recv`: bytes, or -1 with its `errno`.
pub data Received : Type 0 where
  received : Bytes → Received
  refused : Ending → Received

unfoldable pub at_ending : Ending → Received
at_ending would_block = refused would_block
at_ending closed_by_peer = received []
at_ending bad_descriptor = refused bad_descriptor
at_ending other_failure = refused other_failure

unfoldable pub take_unread : ℕ → Conn → Bytes → Received × Conn
take_unread n c [] = (at_ending c.ending, c)
take_unread n c (b ∷ unread) =
    (received (take n (b ∷ unread)), record c { unread = drop n (b ∷ unread) })

-- `recv(fd, ..., n, MSG_DONTWAIT)`; a negative descriptor is a bad one.
unfoldable pub recv : Option ℕ → ℕ → Conn → Received × Conn
recv none n c = (refused bad_descriptor, c)
recv (some fd) n c = let c' = arrive c c.arrivals in take_unread n c' c'.unread

-- What the inner loop comes to: more rounds than its fuel; an error, with what the buffer held; or the
-- content for the callbacks.
pub data Inner : Type 0 where
  ran_out : Inner
  dropped : Bytes → Ending → Conn → Inner
  delivers : Bytes → Conn → Inner

-- The inner loop on fuel, with `content` in a buffer of `size` bytes.
unfoldable pub inner_loop : ℕ → Option ℕ → ℕ → Bytes → Conn → Inner
inner_loop zero fd size content c = ran_out
inner_loop (suc fuel) fd size content c =
    let rest_size = size - length content in
    let (result, c') = recv fd rest_size c in
    elim result [
      | refused e ↦ dropped content e c'
      | received bytes ↦
          let more = inner_loop fuel fd (size + 16) (content ++ bytes) c' in
          if ltb (length bytes) rest_size || leb 1024 size
          then delivers (content ++ bytes) c'
          else more
    ]

-- The loop of `reopenSocketLocked`: no result while every attempt has failed.
unfoldable pub redial : List Dial → Option (ℕ × List Effect)
redial [] = none
redial (d ∷ ds) = elim (open_socket d).0 [
  | some fd ↦ some (fd, (open_socket d).1)
  | none ↦ elim (redial ds) [
    | none ↦ none
    | some (fd, effects) ↦ some (fd, (open_socket d).1 ++ effects)
  ]
]

unfoldable pub reopen_socket_locked : Option ℕ → List Dial → Option (ℕ × List Effect)
reopen_socket_locked fd ds = elim (redial ds) [
  | none ↦ none
  | some (fd', effects) ↦ some (fd', close_fd fd ++ effects)
]

-- What a round meets: the capacity of the buffer, what attempts to connect again will do, and the connection
-- that comes of them.
pub record Visit : Type 0 where
  pub capacity : ℕ
  pub dials : List Dial
  pub next : Conn

pub record TcpCall (C : Type 0) : Type 0 where
  pub callback : C
  pub content : Bytes

module _ {C : Type 0} where
  unfoldable pub call_all : List (TcpCallback C) → Bytes → List (TcpCall C)
  call_all [] content = []
  call_all (cb ∷ cbs) content =
      record { callback = cb.callback; content = content } ∷ call_all cbs content

  -- The rest of a round: the object, the connection, the calls, and what was closed; no result if
  -- the task keeps the mutex while no attempt to connect succeeds, or if the inner loop runs out of its fuel.
  unfoldable pub reconnected :
      TcpSocketReal C
      → Conn
      → Option (ℕ × List Effect)
      → Option (TcpSocketReal C × Conn × List (TcpCall C) × List Effect)
  reconnected t next none = none
  reconnected t next (some (fd, effects)) = some (record t { fd = some fd }, next, [], effects)

  unfoldable pub after_inner :
      TcpSocketReal C
      → Visit
      → Inner
      → Option (TcpSocketReal C × Conn × List (TcpCall C) × List Effect)
  after_inner t v ran_out = none
  after_inner t v (dropped content bad_descriptor c) =
      reconnected t v.next (reopen_socket_locked t.fd v.dials)
  after_inner t v (dropped content would_block c) = some (t, c, [], [])
  after_inner t v (dropped content closed_by_peer c) = some (t, c, [], [])
  after_inner t v (dropped content other_failure c) = some (t, c, [], [])
  after_inner t v (delivers content c) = some (t, c, call_all t.callbacks content, [])

  -- The body of the outer loop behind its delay.
  unfoldable pub read_round :
      TcpSocketReal C
      → Visit
      → Conn
      → Option (TcpSocketReal C × Conn × List (TcpCall C) × List Effect)
  read_round t v c = after_inner t v (inner_loop 66 t.fd v.capacity [] c)

  -- `readTask` from its delay on, for so many visits: whether the task has come to its end, with what it
  -- leaves and the calls. The condition of the loop is tested behind each round, before the next
  -- delay.
  unfoldable pub read_task :
      TcpSocketReal C
      → Conn
      → List Visit
      → Option (Bool × TcpSocketReal C × Conn × List (TcpCall C))
  read_task t c [] = some (false, t, c, [])
  read_task t c (v ∷ vs) = elim (read_round t v c) [
    | none ↦ none
    | some (t', c', calls, effects) ↦
        let rest = read_task t' c' vs in
        if is_some_fd t'.fd
        then elim rest [
          | none ↦ none
          | some (ended, t'', c'', calls') ↦ some (ended, t'', c'', calls ++ calls')
        ]
        else some (true, t', c', calls)
  ]
