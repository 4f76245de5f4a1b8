-- ===== src/Web/ReadLine.antt =====
-- `rio_read` and `rio_readlineb`: lines of a request from a buffered socket.
pub mod Chunks
use rb3201_rbprotocol_librar.Prelude.{
  ℕ, zero, suc, ◌-◌, ◌+◌, List, [], ◌∷◌, ◌++◌, Bytes, ◌==◌, if◌then◌else◌,
}

-- What one `recv` does: bytes, none of them at the end of the stream, or an error with its `errno`.
pub data Recv : Type 0 where
  chunk : Bytes → Recv
  eagain eintr other_error : Recv

-- `rio_t`: the unread bytes of its buffer, and what the socket will do.
pub record Rio : Type 0 where
  pub unread : Bytes
  pub socket : List Recv

-- The results 1, 0 and -1 of `rio_read(rp, &c, 1)`; it waits for a socket that says no more.
pub data ReadChar : Type 0 where
  got : ℕ → Rio → ReadChar
  eof : ReadChar
  error : List Recv → ReadChar
  waiting : ReadChar

-- The refill of an empty buffer, and the first byte of it.
unfoldable pub refill : List Recv → ReadChar
refill [] = waiting
refill (chunk [] ∷ later) = eof
refill (chunk (c ∷ bytes) ∷ later) = got c (record { unread = bytes; socket = later })
refill (eagain ∷ later) = refill later
refill (eintr ∷ later) = refill later
refill (other_error ∷ later) = error later

unfoldable pub take_char : Bytes → List Recv → ReadChar
unfolding refill
take_char [] socket = refill socket
take_char (c ∷ bytes) socket = got c (record { unread = bytes; socket = socket })

unfoldable pub rio_read : Rio → ReadChar
unfolding take_char
rio_read rp = take_char rp.unread rp.socket

-- The results of `rio_readlineb`: the text in the buffer with the number returned, 0 with the buffer
-- as it was, or -1 with what was put into the buffer, without a terminator.
pub data Line : Type 0 where
  line : Bytes → ℕ → Rio → Line
  no_data : Line
  failed : Bytes → Rio → Line
  unfinished : Line

-- At the end of the stream in round `n`.
unfoldable pub at_eof : ℕ → Bytes → Rio → Line
at_eof n text rp = if n == 1 then no_data else line text n rp

-- The loop in round `n`, with so many rounds left and the text so far.
unfoldable pub line_loop : ℕ → ℕ → Bytes → Rio → Line
unfolding rio_read at_eof
line_loop zero n text rp = line text n rp
line_loop (suc left) n text rp = elim (rio_read rp) [
  | got c rest ↦
      let more = line_loop left (n + 1) (text ++ (c ∷ [])) rest in
      if c == 10 then line (text ++ (c ∷ [])) n rest else more
  | eof ↦ at_eof n text rp
  | error later ↦ failed text (record { unread = []; socket = later })
  | waiting ↦ unfinished
]

unfoldable pub rio_readlineb : Rio → ℕ → Line
unfolding line_loop
rio_readlineb rp maxlen = line_loop (maxlen - 1) 1 [] rp
