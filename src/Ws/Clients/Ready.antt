-- ===== src/Ws/Clients/Ready.antt =====
-- What each call leaves of the states of the clients.
use rb3201_rbprotocol_librar.Prelude.{
  ℕ, ◌≡◌, refl, false, not, Option, List, [], ◌∷◌, ◌++◌, Bytes, All, All-append, ◌==◌, Bool-cases,
  inl, inr,
}
use rb3201_rbprotocol_librar.Json.Parse.{JsmnResult}
use rb3201_rbprotocol_librar.Ws.Client.{Client, Socket, initial, opcode, process_client}
use rb3201_rbprotocol_librar.Ws.Clients.{
  Conn, conn, add_client, close_client_locked, is_full, process_client_fully_received_locked,
  recv_loop, recv_iter,
}

-- The client is not in the state that `process_client` calls unreachable.
abbrev pub IsReady : Conn → Type 0
IsReady c = is_full c.client.state ≡ false

pub close_client_locked-All :
    (fd : ℕ) (cs : List Conn) → All IsReady cs → All IsReady (close_client_locked fd cs)
unfolding close_client_locked
close_client_locked-All fd [] h = tt
close_client_locked-All fd (c ∷ cs) (r, h) = elim (Bool-cases (c.client.fd == fd)) [
  | inl e ↦ rw e h
  | inr e ↦ rw e (r, close_client_locked-All fd cs h)
]

pub add_client-All :
    (clients : List Conn) (fd : ℕ) (s : Socket)
    → All IsReady clients
    → All IsReady (add_client clients fd s)
unfolding add_client is_full
add_client-All clients fd s h = All-append IsReady clients _ h (refl, tt)

module _ {F : Type 0} (strtod : Bytes → Option F) (jsmn_parse : Bytes → ℕ → JsmnResult) where
  full-All :
      (before : List Conn) (c : Client) (s : Socket) (behind : List Conn)
      → All IsReady before
      → All IsReady behind
      → All IsReady
          (process_client_fully_received_locked strtod jsmn_parse before c s behind).clients
  unfolding process_client_fully_received_locked is_full
  full-All before c s behind h h' =
      let all =
        All-append IsReady before (conn (record c { state = initial }) s ∷ behind) h (refl, h') in
      elim (Bool-cases (opcode c == 8)) [
        | inl e ↦ rw e (
            close_client_locked-All c.fd
              (before ++ (conn (record c { state = initial }) s ∷ behind)) all)
        | inr e ↦ rw e all
      ]

  recv_loop-All :
      (passed cs : List Conn)
      → All IsReady passed
      → All IsReady cs
      → All IsReady (recv_loop strtod jsmn_parse passed cs).clients
  unfolding recv_loop
  recv_loop-All passed [] h h' = h
  recv_loop-All passed (c ∷ cs) h (r, h') =
      let p = process_client c.client c.socket in
      elim (Bool-cases (not p.alive)) [
        | inl e ↦ rw (recv_loop, e) (recv_loop-All passed cs h h')
        | inr e ↦ elim (Bool-cases (is_full p.client.state)) [
          | inl f ↦ rw (recv_loop, e, f) (full-All passed p.client p.socket cs h h')
          | inr f ↦
              rw (recv_loop, e, f)
                (recv_loop-All (passed ++ (conn p.client p.socket ∷ [])) cs
                  (All-append IsReady passed (conn p.client p.socket ∷ []) h (f, tt)) h')
        ]
      ]

  pub recv_iter-All :
      (clients : List Conn)
      → All IsReady clients
      → All IsReady (recv_iter strtod jsmn_parse clients).clients
  unfolding recv_iter
  recv_iter-All clients h = recv_loop-All [] clients tt h
