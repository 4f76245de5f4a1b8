-- ===== src/Net.antt =====
-- src/rbudp.h and src/rbudp.cpp: the class `Udp`, which lets several callbacks share the socket of
-- a port.
pub mod Served
pub mod Read
pub mod Balance
pub mod Restore
pub mod Run
pub mod Counted
pub mod Leaks
use rb3201_rbprotocol_librar.Prelude.{
  ℕ, ◌+◌, ◌^◌, ◌-◌, Bool, true, false, not, ◌||◌, Option, none, some, List, [], ◌∷◌, ◌++◌, ltb, leb,
  ◌==◌, if◌then◌else◌,
}

-- `CallbackInfo`, with its handle. `C` is the type of the functions.
pub record Callback (C : Type 0) : Type 0 where
  pub handle : ℕ
  pub callback : C
  pub port : ℕ

abbrev pub Sockets : Type 0
Sockets = List (ℕ × ℕ)

-- The members of `Udp`: the descriptors of the ports in order, and the callbacks in the order of
-- their handles.
pub record Udp (C : Type 0) : Type 0 where
  pub open_sockets : Sockets
  pub callbacks : List (Callback C)
  pub callback_id_counter : ℕ
  pub has_read_task : Bool

-- What `socket` gives, and whether `setsockopt` and `bind` succeed.
pub record Opening : Type 0 where
  pub fd : Option ℕ
  pub reusable : Bool
  pub bound : Bool

-- What happens to descriptors: `socket` creates one, `close` and `sendto` use it.
pub data Effect : Type 0 where
  created : ℕ → Effect
  closed : ℕ → Effect
  sent : ℕ → Effect

-- `openSocket`, with what it does to descriptors.
unfoldable pub open_fd : Option ℕ → Bool → Bool → Option ℕ × List Effect
open_fd none reusable bound = (none, [])
open_fd (some fd) reusable bound =
    if not reusable
    then (none, created fd ∷ closed fd ∷ [])
    else if not bound
    then (none, created fd ∷ closed fd ∷ [])
    else (some fd, created fd ∷ [])

unfoldable pub open_socket : Opening → Option ℕ × List Effect
unfolding open_fd
open_socket o = open_fd o.fd o.reusable o.bound

unfoldable pub find_socket : ℕ → Sockets → Option ℕ
find_socket port [] = none
find_socket port ((p, fd) ∷ socks) =
    let later = find_socket port socks in if p == port then some fd else later

-- `m_open_sockets[port] = fd` for a port that is not there.
unfoldable pub insert_socket : ℕ → ℕ → Sockets → Sockets
insert_socket port fd [] = (port, fd) ∷ []
insert_socket port fd ((p, fd') ∷ socks) =
    let later = (p, fd') ∷ insert_socket port fd socks in
    if ltb port p then (port, fd) ∷ (p, fd') ∷ socks else later

-- A map has one entry of a port at most.
unfoldable pub erase_socket : ℕ → Sockets → Sockets
erase_socket port [] = []
erase_socket port ((p, fd) ∷ socks) =
    let later = erase_socket port socks in if p == port then later else (p, fd) ∷ later

-- `send`: its result, of which `sendto` gives the last, and what it did with descriptors. The result
-- -1 is `none`.
unfoldable pub send_on : Option ℕ → Option ℕ × List Effect → (ℕ → Option ℕ) → Option ℕ × List Effect
send_on (some fd) opened sendto = (sendto fd, sent fd ∷ [])
send_on none (none, effects) sendto = (none, effects)
send_on none (some fd, effects) sendto = (sendto fd, effects ++ (sent fd ∷ closed fd ∷ []))

module _ {C : Type 0} where
  unfoldable pub send : Udp C → ℕ → Opening → (ℕ → Option ℕ) → Option ℕ × List Effect
  send u port opening sendto =
      send_on (find_socket port u.open_sockets) (open_socket opening) sendto

  -- The part of `onReceive` behind the socket. `++m_callback_id_counter` of the largest int has no
  -- defined value: no result.
  unfoldable pub register : Udp C → Sockets → ℕ → C → Option (ℕ × Udp C)
  register u socks port callback =
      if leb (2 ^ 31 - 1) u.callback_id_counter
      then none
      else some (
        u.callback_id_counter + 1,
        record {
          open_sockets = socks;
          callbacks =
              u.callbacks
              ++ (record { handle = u.callback_id_counter + 1; callback = callback; port = port }
                  ∷ []);
          callback_id_counter = u.callback_id_counter + 1;
          has_read_task = true;
        },
      )

  -- With a socket that is there, or the one that opens: the result -1 leaves all as it was.
  unfoldable pub register_on : Udp C → ℕ → C → Option ℕ → Option ℕ → Option (Option ℕ × Udp C)
  register_on u port callback (some fd) opened = elim (register u u.open_sockets port callback) [
    | none ↦ none
    | some (h, u') ↦ some (some h, u')
  ]
  register_on u port callback none none = some (none, u)
  register_on u port callback none (some fd) =
      elim (register u (insert_socket port fd u.open_sockets) port callback) [
        | none ↦ none
        | some (h, u') ↦ some (some h, u')
      ]

  unfoldable pub on_receive : Udp C → ℕ → C → Opening → Option (Option ℕ × Udp C)
  on_receive u port callback opening =
      register_on u port callback (find_socket port u.open_sockets) (open_socket opening).0

  -- What `onReceive` does to descriptors: it opens a socket for a port that has none.
  unfoldable pub on_receive_effects : Udp C → ℕ → Opening → List Effect
  on_receive_effects u port opening = elim (find_socket port u.open_sockets) [
    | some fd ↦ []
    | none ↦ (open_socket opening).1
  ]

  -- The callback of a handle, and the others.
  unfoldable pub take_callback : ℕ → List (Callback C) → Option (Callback C × List (Callback C))
  take_callback h [] = none
  take_callback h (cb ∷ cbs) =
      let later = take_callback h cbs in
      if cb.handle == h
      then some (cb, cbs)
      else elim later [ none ↦ none | some (found, others) ↦ some (found, cb ∷ others) ]

  -- Whether a callback is for a port.
  unfoldable pub serves : List (Callback C) → ℕ → Bool
  serves [] port = false
  serves (cb ∷ cbs) port = (cb.port == port) || serves cbs port

  -- The socket of a port that no callback needs is closed, with the descriptor that the erased
  -- entry reads as: the source erases it first.
  unfoldable pub drop_socket : Udp C → ℕ → (ℕ → ℕ) → Option ℕ → Udp C × List Effect
  drop_socket u port erased none = (u, [])
  drop_socket u port erased (some fd) =
      (record u { open_sockets = erase_socket port u.open_sockets }, closed (erased fd) ∷ [])

  unfoldable pub remove_taken :
      Udp C → (ℕ → ℕ) → Option (Callback C × List (Callback C)) → Udp C × List Effect
  remove_taken u erased none = (u, [])
  remove_taken u erased (some (info, others)) =
      let u' : Udp C = record u { callbacks = others } in
      if serves others info.port
      then (u', [])
      else drop_socket u' info.port erased (find_socket info.port u.open_sockets)

  unfoldable pub remove_callback : Udp C → ℕ → (ℕ → ℕ) → Udp C × List Effect
  remove_callback u handle erased = remove_taken u erased (take_callback handle u.callbacks)
