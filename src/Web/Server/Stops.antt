-- ===== src/Web/Server/Stops.antt =====
-- The accepting task on its way to its end.
use rb3201_rbprotocol_librar.Prelude.{
  ℕ, ◌≡◌, refl, sym, ap, ◌∙◌, Bool, inl, inr, Option, none, some, List, [], ◌∷◌, ◌++◌, append_assoc,
  Bytes, All, ◌==◌, Bool-cases,
}
use rb3201_rbprotocol_librar.Web.Route.{FileSystem, Web, Handled}
use rb3201_rbprotocol_librar.Web.Process.{processed, process}
use rb3201_rbprotocol_librar.Web.Server.{
  Listening, open_listenfd, Event, stop_request, connection, no_connection, accept_failure, Action,
  closes, ServerRun, left, behind, notify, after_process, follow_process, wait_stop, accept_loop,
  with_listenfd, tiny_web_task,
}

behind-left :
    (done_ actions : List Action) (r : ServerRun) (last : List Action)
    → r ≡ left (actions ++ last)
    → behind done_ r ≡ left ((done_ ++ actions) ++ last)
unfolding behind
behind-left done_ actions r last e =
    ap (behind done_) e ∙ ap left (sym (append_assoc done_ actions last))

-- No task that stops this one, yet.
abbrev IsCalm : Event → Type 0
IsCalm (stop_request task) = ⊥
IsCalm (connection fd u rp out z) = Unit
IsCalm no_connection = Unit
IsCalm accept_failure = Unit

wait_stop-left :
    (es : List Event) (task : Option ℕ) (rest : List Event)
    → All IsCalm es
    → wait_stop (es ++ (stop_request task ∷ rest)) ≡ left (notify task)
unfolding wait_stop
wait_stop-left [] task rest calm = refl
wait_stop-left (stop_request other ∷ es) task rest (c, calm) = absurd c
wait_stop-left (connection fd u rp out z ∷ es) task rest (c, calm) =
    wait_stop-left es task rest calm
wait_stop-left (no_connection ∷ es) task rest (c, calm) = wait_stop-left es task rest calm
wait_stop-left (accept_failure ∷ es) task rest (c, calm) = wait_stop-left es task rest calm

module _ (unsigned signed : ℕ → Bytes) (mbedtls_sha1 mbedtls_base64_encode : Bytes → Bytes)
    (fs : FileSystem) (local_hostname : Bytes) (fuel : ℕ) (w : Web) where
  -- A request that gets its answer, or no connection.
  abbrev pub IsAnswered : Event → Type 0
  IsAnswered (stop_request task) = ⊥
  IsAnswered (connection fd u rp out z) =
      (h : Handled) × (process unsigned signed mbedtls_sha1 mbedtls_base64_encode fs local_hostname
          fuel w u rp out z
        ≡ processed h)
  IsAnswered no_connection = Unit
  IsAnswered accept_failure = Unit

  IsAnswered-IsCalm : (es : List Event) → All IsAnswered es → All IsCalm es
  IsAnswered-IsCalm [] a = tt
  IsAnswered-IsCalm (stop_request task ∷ es) (x, a) = absurd x
  IsAnswered-IsCalm (connection fd u rp out z ∷ es) (x, a) = (tt, IsAnswered-IsCalm es a)
  IsAnswered-IsCalm (no_connection ∷ es) (x, a) = (tt, IsAnswered-IsCalm es a)
  IsAnswered-IsCalm (accept_failure ∷ es) (x, a) = (tt, IsAnswered-IsCalm es a)

  accept_loop-left :
      (listenfd : ℕ) (es : List Event) (task : Option ℕ) (rest : List Event)
      → All IsAnswered es
      → (actions : List Action) × (accept_loop unsigned signed mbedtls_sha1 mbedtls_base64_encode fs
            local_hostname fuel w listenfd
            (es ++ (stop_request task ∷ rest))
          ≡ left (actions ++ (closes listenfd ∷ notify task)))
  unfolding accept_loop follow_process
  accept_loop-left listenfd [] task rest a = ([], refl)
  accept_loop-left listenfd (stop_request other ∷ es) task rest (x, a) = absurd x
  accept_loop-left listenfd (connection fd u rp out z ∷ es) task rest ((h, e), a) =
      let (actions, later) = accept_loop-left listenfd es task rest a in
      let loop =
        accept_loop unsigned signed mbedtls_sha1 mbedtls_base64_encode fs local_hostname fuel w
          listenfd (es ++ (stop_request task ∷ rest)) in
      (
        after_process w.ws_protocol fd h ++ actions,
        ap (λ p. follow_process w.ws_protocol fd p loop) e
            ∙ behind-left (after_process w.ws_protocol fd h) actions loop
                (closes listenfd ∷ notify task) later,
      )
  accept_loop-left listenfd (no_connection ∷ es) task rest (x, a) =
      accept_loop-left listenfd es task rest a
  accept_loop-left listenfd (accept_failure ∷ es) task rest (x, a) =
      accept_loop-left listenfd es task rest a

  with_listenfd-left :
      (nonblocking : Bool) (fd : Option ℕ) (es : List Event) (task : Option ℕ) (rest : List Event)
      → All IsAnswered es
      → (actions : List Action) × (with_listenfd unsigned signed mbedtls_sha1 mbedtls_base64_encode
            fs local_hostname fuel w nonblocking
            (es ++ (stop_request task ∷ rest))
            fd
          ≡ left (actions ++ notify task))
  unfolding with_listenfd behind
  with_listenfd-left nonblocking none es task rest a =
      ([], wait_stop-left es task rest (IsAnswered-IsCalm es a))
  with_listenfd-left nonblocking (some fd) es task rest a =
      let waited = wait_stop-left es task rest (IsAnswered-IsCalm es a) in
      elim (Bool-cases (fd == 0)) [
        | inl zero_ ↦ ([], rw zero_ waited)
        | inr other ↦ elim (Bool-cases nonblocking) [
          | inr blocking ↦ (closes fd ∷ [], rw (other, blocking, waited) refl)
          | inl fine ↦
              let (actions, e) = accept_loop-left fd es task rest a in
              (
                actions ++ (closes fd ∷ []),
                rw (other, fine)
                    (e ∙ ap left (sym (append_assoc actions (closes fd ∷ []) (notify task)))),
              )
        ]
      ]

  -- A stop of the server comes to an end: as soon as the task is notified it ends, and the last thing that
  -- it does is to notify the task that waits for it, whether or not it could listen, after any number of connections, each
  -- of which got its answer.
  pub tiny_web_task-left :
      (l : Listening) (es : List Event) (task : Option ℕ) (rest : List Event)
      → All IsAnswered es
      → (actions : List Action) × (tiny_web_task unsigned signed mbedtls_sha1 mbedtls_base64_encode
            fs local_hostname fuel w l
            (es ++ (stop_request task ∷ rest))
          ≡ left (actions ++ notify task))
  unfolding tiny_web_task
  tiny_web_task-left l es task rest a =
      with_listenfd-left l.nonblocking (open_listenfd l) es task rest a
