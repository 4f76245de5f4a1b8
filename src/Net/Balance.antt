-- ===== src/Net/Balance.antt =====
-- What is created and closed, in numbers, and which ports hold a descriptor.
pub mod Rounds
use rb3201_rbprotocol_librar.Prelude.{
  ℕ, ◌+◌, ◌≡◌, refl, Bool, true, false, inl, inr, Option, none, some, List, [], ◌∷◌, ◌++◌,
  Bool-cases, ◌==◌, ltb, if◌then◌else◌, arith, ==_iff, true_ne_false,
}
use rb3201_rbprotocol_librar.Net.{
  Sockets, Opening, Effect, created, closed, sent, open_fd, open_socket, find_socket, insert_socket,
  erase_socket,
}
use rb3201_rbprotocol_librar.Net.Served.{is_open, is_open-insert_socket, is_open-erase_socket}

abbrev pub one_if : Bool → ℕ
one_if b = if b then 1 else 0

abbrev pub opens : ℕ → List Effect → ℕ
opens g [] = 0
opens g (created fd ∷ es) = one_if (fd == g) + opens g es
opens g (closed fd ∷ es) = opens g es
opens g (sent fd ∷ es) = opens g es

abbrev pub closes : ℕ → List Effect → ℕ
closes g [] = 0
closes g (created fd ∷ es) = closes g es
closes g (closed fd ∷ es) = one_if (fd == g) + closes g es
closes g (sent fd ∷ es) = closes g es

-- How many ports have the descriptor.
abbrev pub holders : ℕ → Sockets → ℕ
holders g [] = 0
holders g ((port, fd) ∷ socks) = one_if (fd == g) + holders g socks

abbrev pub of_option : ℕ → Option ℕ → ℕ
of_option g none = 0
of_option g (some fd) = one_if (fd == g)

pub opens-append : (g : ℕ) (a b : List Effect) → opens g (a ++ b) ≡ opens g a + opens g b
opens-append g [] b = omega arith
opens-append g (created fd ∷ a) b = omega (arith, opens-append g a b)
opens-append g (closed fd ∷ a) b = opens-append g a b
opens-append g (sent fd ∷ a) b = opens-append g a b

pub closes-append : (g : ℕ) (a b : List Effect) → closes g (a ++ b) ≡ closes g a + closes g b
closes-append g [] b = omega arith
closes-append g (created fd ∷ a) b = closes-append g a b
closes-append g (closed fd ∷ a) b = omega (arith, closes-append g a b)
closes-append g (sent fd ∷ a) b = closes-append g a b

shut-tail :
    (p fd port : ℕ) (socks : Sockets)
    → is_open ((p, fd) ∷ socks) port ≡ false
    → ((p == port) ≡ false) × (is_open socks port ≡ false)
unfolding find_socket
shut-tail p fd port socks h = elim (Bool-cases (p == port)) [
  | inl same ↦ absurd (true_ne_false (rw (is_open, find_socket, same) at h))
  | inr other ↦ (other, rw (is_open, find_socket, other) at h)
]

pub holders-insert_socket :
    (g port fd : ℕ) (socks : Sockets)
    → holders g (insert_socket port fd socks) ≡ one_if (fd == g) + holders g socks
unfolding insert_socket
holders-insert_socket g port fd [] = refl
holders-insert_socket g port fd ((p, fd') ∷ socks) = elim (Bool-cases (ltb port p)) [
  | inl before ↦ rw before refl
  | inr behind ↦ rw behind (omega (arith, holders-insert_socket g port fd socks))
]

-- Each port has one entry.
abbrev pub IsMap : Sockets → Type 0
IsMap [] = Unit
IsMap ((port, fd) ∷ socks) = (is_open socks port ≡ false) × IsMap socks

pub insert_socket-IsMap :
    (port fd : ℕ) (socks : Sockets)
    → is_open socks port ≡ false
    → IsMap socks
    → IsMap (insert_socket port fd socks)
unfolding insert_socket find_socket
insert_socket-IsMap port fd [] shut m = (refl, tt)
insert_socket-IsMap port fd ((p, fd') ∷ socks) shut (one, m) = elim (Bool-cases (ltb port p)) [
  | inl before ↦ rw before (shut, (one, m))
  | inr behind ↦
      let (other, later) = shut-tail p fd' port socks shut in
      let elsewhere : (port == p) ≡ false = ground arith in
      rw behind (
        rw (is_open-insert_socket port fd socks p, elsewhere, one) refl,
        insert_socket-IsMap port fd socks later m,
      )
]

pub erase_socket-IsMap :
    (port : ℕ) (socks : Sockets) → IsMap socks → IsMap (erase_socket port socks)
unfolding erase_socket
erase_socket-IsMap port [] m = tt
erase_socket-IsMap port ((p, fd) ∷ socks) (one, m) = elim (Bool-cases (p == port)) [
  | inl same ↦ rw (erase_socket, same) (erase_socket-IsMap port socks m)
  | inr other ↦
      rw (erase_socket, other)
        (rw (is_open-erase_socket port socks p, one) refl, erase_socket-IsMap port socks m)
]

erase_socket_shut :
    (port : ℕ) (socks : Sockets) → is_open socks port ≡ false → erase_socket port socks ≡ socks
unfolding erase_socket
erase_socket_shut port [] e = refl
erase_socket_shut port ((p, fd) ∷ socks) e =
    let (other, later) = shut-tail p fd port socks e in
    rw (erase_socket, other, erase_socket_shut port socks later) refl

pub holders-erase_socket :
    (g port : ℕ) (socks : Sockets)
    → IsMap socks
    → holders g socks ≡ holders g (erase_socket port socks) + of_option g (find_socket port socks)
unfolding erase_socket find_socket
holders-erase_socket g port [] m = refl
holders-erase_socket g port ((p, fd) ∷ socks) (one, m) = elim (Bool-cases (p == port)) [
  | inl same ↦
      let shut : is_open socks port ≡ false = rw ((==_iff p port).0 same) at one in
      rw (erase_socket, find_socket, same, erase_socket_shut port socks shut) (omega arith)
  | inr other ↦
      rw (erase_socket, find_socket, other) (omega (arith, holders-erase_socket g port socks m))
]

pub open_socket_balance :
    (g : ℕ) (o : Opening)
    → opens g (open_socket o).1 ≡ closes g (open_socket o).1 + of_option g (open_socket o).0
unfolding open_socket open_fd
open_socket_balance g o = go o.fd o.reusable o.bound
  where
    go :
        (fd : Option ℕ) (reusable bound : Bool)
        → opens g (open_fd fd reusable bound).1
          ≡ closes g (open_fd fd reusable bound).1 + of_option g (open_fd fd reusable bound).0
    go none reusable bound = omega arith
    go (some fd) false bound = omega arith
    go (some fd) true false = omega arith
    go (some fd) true true = omega arith
