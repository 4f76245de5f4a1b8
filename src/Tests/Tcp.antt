-- ===== src/Tests/Tcp.antt =====
-- TCP connections on concrete inputs. A callback is a number.
use rb3201_rbprotocol_librar.Prelude.{
  ℕ, ◌≡◌, refl, true, false, none, some, List, [], ◌∷◌, ◌++◌, codes, length, replicate,
  if◌then◌else◌, arith,
}
use rb3201_rbprotocol_librar.Tcp.{TcpSocketReal, destroy, open_socket, dial_fd}
use rb3201_rbprotocol_librar.Tcp.Read.{
  would_block, bad_descriptor, Conn, Visit, TcpCall, call_all, redial, read_round, read_task,
}
use rb3201_rbprotocol_librar.Tcp.Stream.{Piece, taken, calls_of, stream, concat, read_task-stream}
use rb3201_rbprotocol_librar.Tcp.Whole.{calm, fills, read_round_whole}
use rb3201_rbprotocol_librar.Tcp.Endless.{destroy-read_task}

-- A connection with two callbacks, of which the first one has gone.
abbrev link : TcpSocketReal ℕ
link = record {
  fd = some 5;
  cb_counter = 3;
  callbacks = record { handle = 2; callback = 20 } ∷ record { handle = 3; callback = 30 } ∷ [];
  has_read_task = true;
}

abbrev quiet : Conn
quiet = calm would_block []

-- A buffer of 64 bytes; the second attempt to connect succeeds.
abbrev visit : Visit
visit = record {
  capacity = 64;
  dials = record { fd = none; connected = false } ∷ record { fd = some 6; connected = true } ∷ [];
  next = quiet;
}

-- Bytes that arrive in front of the second round.
abbrev busy : Conn
busy = record { unread = codes "hello"; arrivals = [] ∷ codes "world" ∷ []; ending = would_block }

would_block_ne : would_block ≡ bad_descriptor → ⊥
would_block_ne e = cc

read_task-stream_example :
    (ps : List Piece) × (c' : Conn) × (read_task link busy (visit ∷ visit ∷ [])
      ≡ some (false, link, c', calls_of link.callbacks ps))
    × (taken ps ++ stream c' ≡ codes "helloworld")
    × (length ps ≡ 2)
unfolding concat
read_task-stream_example = read_task-stream (visit ∷ visit ∷ []) link busy 5 refl would_block_ne

-- 80 bytes are the second size of the buffer.
abbrev eighty : List ℕ
eighty = replicate 80 1

read_round_whole_example :
    read_round link visit (calm would_block eighty)
    ≡ some (link, quiet, (if fills 64 80 then [] else call_all link.callbacks eighty), [])
read_round_whole_example =
    read_round_whole link visit 5 eighty refl (omega arith) (omega arith) (omega arith)

destroy-read_task_example :
    ((destroy link).0.fd ≡ none)
    × (t' : TcpSocketReal ℕ) × (c' : Conn) × (calls : List (TcpCall ℕ)) × (read_task
          (destroy link).0
          quiet
          (visit ∷ visit ∷ [])
        ≡ some (false, t', c', calls))
unfolding redial open_socket dial_fd
destroy-read_task_example =
    destroy-read_task (visit ∷ visit ∷ []) link quiet ((_, refl), ((_, refl), tt))
