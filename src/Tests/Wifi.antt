-- ===== src/Tests/Wifi.antt =====
-- The Wifi set-up on concrete inputs.
use rb3201_rbprotocol_librar.Prelude.{ℕ, ◌≡◌, ltb, if◌then◌else◌, Bytes, codes, length, arith}
use rb3201_rbprotocol_librar.Wifi.{open_network, wpa2_psk, wait_for_ip}
use rb3201_rbprotocol_librar.Wifi.Config.{ap_config_same}
use rb3201_rbprotocol_librar.Wifi.Wait.{Seen, wait_for_ip-Seen}
use rb3201_rbprotocol_librar.Wifi.Netif
use rb3201_rbprotocol_librar.Wifi.Tcpip

abbrev name : Bytes
name = codes "robot"

abbrev pass : Bytes
pass = codes "password"

ap_config_same_example :
    (Netif.ap_config name pass 6 ≡ Tcpip.ap_config name pass 6)
    × (length (Netif.ap_config name pass 6).ssid ≡ 32)
    × (length (Netif.ap_config name pass 6).password ≡ 64)
    × ((Netif.ap_config name pass 6).authmode
        ≡ (if ltb (length pass) 8 then open_network else wpa2_psk))
ap_config_same_example = ap_config_same name pass 6

-- An address from the tick 8 on.
abbrev ip_at : ℕ → ℕ
ip_at now = if ltb now 8 then 0 else 1

wait_for_ip-Seen_example : Seen 5 ip_at 0 100 (wait_for_ip 5 ip_at 100)
wait_for_ip-Seen_example = wait_for_ip-Seen 5 ip_at 100 (omega arith)
