-- ===== src/Web/Process.antt =====
-- `process` of src/rbwebserver.c: one request of a connection, from its text to its answer.
pub mod Path
pub mod File
use rb3201_rbprotocol_librar.Prelude.{ℕ, Bytes}
use rb3201_rbprotocol_librar.Prelude.Int.{ℤ}
use rb3201_rbprotocol_librar.Web.ReadLine.{Rio}
use rb3201_rbprotocol_librar.Web.Serve.{Out}
use rb3201_rbprotocol_librar.Web.Request.{
  Uninitialised, Parse, unended_request, waiting_request, overrun, request, parse_request,
}
use rb3201_rbprotocol_librar.Web.Route.{FileSystem, Web, Handled, route}

-- What becomes of a request: more rounds than the fuel of `parse_request`, a wait for a socket that says
-- no more, a read or write where there must be none, or an answer.
pub data Processed : Type 0 where
  unended_process : Processed
  waiting_process : Processed
  overrun_process : Processed
  processed : Handled → Processed

module _ (unsigned signed : ℕ → Bytes) (mbedtls_sha1 mbedtls_base64_encode : Bytes → Bytes)
    (fs : FileSystem) (local_hostname : Bytes) where
  unfoldable pub process_request : Web → Out → ℤ → Parse → Processed
  process_request w out uninitialised unended_request = unended_process
  process_request w out uninitialised waiting_request = waiting_process
  process_request w out uninitialised overrun = overrun_process
  process_request w out uninitialised (request req rp) = processed (
      route unsigned signed mbedtls_sha1 mbedtls_base64_encode fs local_hostname w out req
        uninitialised)

  -- `process`, with the stream and the answers of the connection, and the uninitialised values of
  -- `parse_request` and `sendfile`.
  unfoldable pub process : ℕ → Web → Uninitialised → Rio → Out → ℤ → Processed
  process fuel w u rp out uninitialised =
      process_request w out uninitialised
        (parse_request fuel local_hostname w.working_directory u rp)
