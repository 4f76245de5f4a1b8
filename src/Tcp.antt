-- ===== src/Tcp.antt =====
-- src/rbtcp.h and src/rbtcp.cpp: `TcpSocketReal`, a connection that a task reads for its callbacks.
pub mod Read
pub mod Callbacks
pub mod Stream
pub mod Whole
pub mod Endless
use rb3201_rbprotocol_librar.Prelude.{
  ℕ, zero, suc, ◌+◌, ◌-◌, ◌^◌, Bool, true, false, not, Option, none, some, List, [], ◌∷◌, ◌++◌, leb,
  ltb, ◌==◌, if◌then◌else◌,
}
use rb3201_rbprotocol_librar.Net.{Effect, closed, sent}

-- What `socket` gives, and whether `connect` succeeds.
pub record Dial : Type 0 where
  pub fd : Option ℕ
  pub connected : Bool

-- `Tcp::openSocket`, with what it closes; -1 is none.
unfoldable pub dial_fd : Option ℕ → Bool → Option ℕ × List Effect
dial_fd none connected = (none, [])
dial_fd (some fd) connected = if connected then (some fd, []) else (none, closed fd ∷ [])

unfoldable pub open_socket : Dial → Option ℕ × List Effect
unfolding dial_fd
open_socket d = dial_fd d.fd d.connected

-- An entry of `m_callbacks`. `C` is the type of the functions.
pub record TcpCallback (C : Type 0) : Type 0 where
  pub handle : ℕ
  pub callback : C

-- The members of `TcpSocketReal`; a negative `m_fd` is none.
pub record TcpSocketReal (C : Type 0) : Type 0 where
  pub fd : Option ℕ
  pub cb_counter : ℕ
  pub callbacks : List (TcpCallback C)
  pub has_read_task : Bool

unfoldable pub is_some_fd : Option ℕ → Bool
is_some_fd none = false
is_some_fd (some fd) = true

unfoldable pub close_fd : Option ℕ → List Effect
close_fd none = []
close_fd (some fd) = closed fd ∷ []

-- `send`, where `send` of lwIP gives the result, -1 for a descriptor below 0.
unfoldable pub send_on : Option ℕ → (ℕ → Option ℕ) → Option ℕ × List Effect
send_on none lwip_send = (none, [])
send_on (some fd) lwip_send = (lwip_send fd, sent fd ∷ [])

module _ {C : Type 0} where
  -- The constructor.
  unfoldable pub new_socket : Option ℕ → TcpSocketReal C
  new_socket fd = record { fd = fd; cb_counter = 0; callbacks = []; has_read_task = is_some_fd fd }

  -- `Tcp::connect`.
  unfoldable pub connect : Dial → TcpSocketReal C × List Effect
  connect d = (new_socket (open_socket d).0, (open_socket d).1)

  unfoldable pub is_open : TcpSocketReal C → Bool
  unfolding is_some_fd
  is_open t = is_some_fd t.fd

  -- The locked part of the destructor, which waits for the task behind it.
  unfoldable pub destroy : TcpSocketReal C → TcpSocketReal C × List Effect
  destroy t = (record t { fd = none }, close_fd t.fd)

  unfoldable pub send : TcpSocketReal C → (ℕ → Option ℕ) → Option ℕ × List Effect
  send t lwip_send = send_on t.fd lwip_send

  -- `m_callbacks[handle] = ...`, in the order of the handles.
  unfoldable pub insert_callback : ℕ → C → List (TcpCallback C) → List (TcpCallback C)
  insert_callback h callback [] = record { handle = h; callback = callback } ∷ []
  insert_callback h callback (cb ∷ cbs) =
      let new : TcpCallback C = record { handle = h; callback = callback } in
      let later = cb ∷ insert_callback h callback cbs in
      if ltb h cb.handle then new ∷ cb ∷ cbs else if h == cb.handle then new ∷ cbs else later

  -- `onReceive`. `++m_cbCounter` of the largest int has no defined value: no result.
  unfoldable pub on_receive : TcpSocketReal C → C → Option (ℕ × TcpSocketReal C)
  on_receive t callback =
      if leb (2 ^ 31 - 1) t.cb_counter
      then none
      else some (
        t.cb_counter + 1,
        record t {
          cb_counter = t.cb_counter + 1;
          callbacks = insert_callback (t.cb_counter + 1) callback t.callbacks;
        },
      )

  unfoldable pub erase_callback : ℕ → List (TcpCallback C) → List (TcpCallback C)
  erase_callback h [] = []
  erase_callback h (cb ∷ cbs) =
      let later = cb ∷ erase_callback h cbs in if cb.handle == h then cbs else later

  unfoldable pub remove_callback : TcpSocketReal C → ℕ → TcpSocketReal C
  remove_callback t handle = record t { callbacks = erase_callback handle t.callbacks }
