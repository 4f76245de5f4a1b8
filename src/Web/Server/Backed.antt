-- ===== src/Web/Server/Backed.antt =====
-- Connections that are handed to the Websocket backend.
use rb3201_rbprotocol_librar.Prelude.{ℕ, ◌≡◌, ◌⊎◌, false, Option, some, List, Bytes}
use rb3201_rbprotocol_librar.Web.Route.{FileSystem, Web, Handled}
use rb3201_rbprotocol_librar.Web.Process.{
  Processed, unended_process, waiting_process, overrun_process, processed,
}
use rb3201_rbprotocol_librar.Web.Server.{
  Action, closes, hands, notifies, ServerRun, serving, hanging, left,
}

-- What becomes a Websocket has a backend.
abbrev IsBacked : Option ℕ → Handled → Type 0
IsBacked p h = (h.upgraded ≡ false) ⊎ ((backend : ℕ) × (p ≡ some backend))

abbrev pub HasBackend : Action → Type 0
HasBackend (closes fd) = Unit
HasBackend (hands p fd) = (backend : ℕ) × (p ≡ some backend)
HasBackend (notifies task) = Unit

abbrev pub actions_of : ServerRun → List Action
actions_of (serving actions) = actions
actions_of (hanging actions) = actions
actions_of (left actions) = actions

module _ (unsigned signed : ℕ → Bytes) (mbedtls_sha1 mbedtls_base64_encode : Bytes → Bytes)
    (fs : FileSystem) (local_hostname : Bytes) (w : Web) where
  abbrev AllBacked : Processed → Type 0
  AllBacked unended_process = Unit
  AllBacked waiting_process = Unit
  AllBacked overrun_process = Unit
  AllBacked (processed h) = IsBacked w.ws_protocol h
