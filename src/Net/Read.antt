-- ===== src/Net/Read.antt =====
-- `readTask` of src/rbudp.cpp: a round over the open sockets, and the calls of the callbacks.
use rb3201_rbprotocol_librar.Prelude.{
  ℕ, zero, suc, ◌+◌, ◌||◌, Option, none, some, List, [], ◌∷◌, ◌++◌, Bytes, min, length, take, ltb,
  leb, ◌==◌, if◌then◌else◌,
}
use rb3201_rbprotocol_librar.Net.{Callback, Udp, Sockets, Opening, Effect, closed, open_socket}

-- What the second `recvfrom`, which takes the datagram away, says.
pub data Popped : Type 0 where
  popped : Popped
  pop_ebadf pop_error : Popped

-- What a socket holds: nothing, or an error that is only printed; EBADF; a datagram with the text of
-- its source address.
pub data Pending : Type 0 where
  no_datagram bad_descriptor : Pending
  datagram : Bytes → Bytes → Popped → Pending

-- What a round meets at a socket: the capacity of the buffer, and what the attempts to open it again
-- will do.
pub record Visit : Type 0 where
  pub pending : Pending
  pub capacity : ℕ
  pub attempts : List Opening

pub record Call (C : Type 0) : Type 0 where
  pub callback : C
  pub content : Bytes
  pub source_ip : Bytes

-- The loop that reads a datagram into a buffer of `size` bytes, which grows to 1024 at least where it
-- has to. Each round adds 16 bytes.
unfoldable pub peek_capped : ℕ → ℕ → Bytes → Bytes
peek_capped zero size message = take size message
peek_capped (suc fuel) size message =
    let res = min (length message) size in
    let longer = peek_capped fuel (size + 16) message in
    if ltb res size || leb 1024 size then take res message else longer

-- The loop of `reopenSocketLocked`: no result while every attempt has failed.
unfoldable pub attempt : List Opening → Option (ℕ × List Effect)
attempt [] = none
attempt (o ∷ os) = elim (open_socket o).0 [
  | some fd ↦ some (fd, (open_socket o).1)
  | none ↦ elim (attempt os) [
    | none ↦ none
    | some (fd, effects) ↦ some (fd, (open_socket o).1 ++ effects)
  ]
]

unfoldable pub reopen_socket_locked : ℕ → List Opening → Option (ℕ × List Effect)
reopen_socket_locked fd os = elim (attempt os) [
  | none ↦ none
  | some (fd', effects) ↦ some (fd', closed fd ∷ effects)
]

module _ {C : Type 0} where
  -- The loop over the callbacks.
  unfoldable pub dispatch : List (Callback C) → ℕ → Bytes → Bytes → List (Call C)
  dispatch [] port content ip = []
  dispatch (cb ∷ cbs) port content ip =
      let calls = dispatch cbs port content ip in
      if cb.port == port
      then record { callback = cb.callback; content = content; source_ip = ip } ∷ calls
      else calls

  -- A visit that closes the descriptor and opens another one, with no calls.
  unfoldable pub reopened : Option (ℕ × List Effect) → Option (ℕ × List (Call C) × List Effect)
  reopened none = none
  reopened (some (fd, effects)) = some (fd, [], effects)

  -- The body of the loop over the sockets: the descriptor of the port from then on, the calls, and what
  -- was done to descriptors.
  unfoldable pub read_socket :
      List (Callback C)
      → ℕ
      → ℕ
      → ℕ
      → List Opening
      → Pending
      → Option (ℕ × List (Call C) × List Effect)
  read_socket cbs port fd capacity os no_datagram = some (fd, [], [])
  read_socket cbs port fd capacity os bad_descriptor = reopened (reopen_socket_locked fd os)
  read_socket cbs port fd capacity os (datagram message ip popped) =
      some (fd, dispatch cbs port (peek_capped 64 capacity message) ip, [])
  read_socket cbs port fd capacity os (datagram message ip pop_ebadf) =
      reopened (reopen_socket_locked fd os)
  read_socket cbs port fd capacity os (datagram message ip pop_error) = some (fd, [], [])

  -- What follows a visit.
  unfoldable pub follow :
      ℕ
      → Option (ℕ × List (Call C) × List Effect)
      → Option (Sockets × List (Call C) × List Effect)
      → Option (Sockets × List (Call C) × List Effect)
  follow port none later = none
  follow port (some (fd, calls, effects)) none = none
  follow port (some (fd, calls, effects)) (some (socks, calls', effects')) =
      some ((port, fd) ∷ socks, calls ++ calls', effects ++ effects')

  unfoldable pub read_sockets :
      List (Callback C) → Sockets → (ℕ → Visit) → Option (Sockets × List (Call C) × List Effect)
  read_sockets cbs [] visits = some ([], [], [])
  read_sockets cbs ((port, fd) ∷ socks) visits =
      let v = visits port in
      let later = read_sockets cbs socks visits in
      follow port (read_socket cbs port fd v.capacity v.attempts v.pending) later

  -- A round of `readTask`.
  unfoldable pub read_task : Udp C → (ℕ → Visit) → Option (Udp C × List (Call C) × List Effect)
  read_task u visits = elim (read_sockets u.callbacks u.open_sockets visits) [
    | none ↦ none
    | some (socks, calls, effects) ↦ some (record u { open_sockets = socks }, calls, effects)
  ]
