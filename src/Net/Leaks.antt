-- ===== src/Net/Leaks.antt =====
-- No descriptor leaks: what a run opened and did not close is what the ports have.
use rb3201_rbprotocol_librar.Prelude.{ℕ, ◌+◌, ◌≡◌, Option, none, some, List, ◌++◌}
use rb3201_rbprotocol_librar.Net.{Udp, Sockets, Effect}
use rb3201_rbprotocol_librar.Net.Read.{Call}
use rb3201_rbprotocol_librar.Net.Run.{Run}
use rb3201_rbprotocol_librar.Net.Balance.{opens, closes, holders, IsMap}

-- As often as a descriptor was created it was closed, or a port has it.
abbrev pub IsBalanced : Sockets → List Effect → Type 0
IsBalanced socks done = (g : ℕ) → opens g done ≡ closes g done + holders g socks

abbrev IsTidy : {C : Type 0} → Udp C → List Effect → Type 0
IsTidy u done = IsMap u.open_sockets × IsBalanced u.open_sockets done

module _ {C : Type 0} where
  -- The sockets that a round leaves have one entry of a port.
  abbrev MapRound : Option (Sockets × List (Call C) × List Effect) → Type 0
  MapRound none = Unit
  MapRound (some (socks, calls, es)) = IsMap socks

  abbrev TidyRound : List Effect → Option (Udp C × List (Call C) × List Effect) → Type 0
  TidyRound done none = Unit
  TidyRound done (some (u, calls, es)) = IsTidy u (done ++ es)
