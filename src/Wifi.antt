-- ===== src/Wifi.antt =====
-- src/rbwifi.h, src/rbwifi_netif.cpp and src/rbwifi_tcpip.cpp: the class `WiFi`, with one file for each
-- version of the driver. `ESP_ERROR_CHECK` of a call that fails ends the program.
pub mod Netif
pub mod Tcpip
pub mod Config
pub mod Wait
use rb3201_rbprotocol_librar.Prelude.{
  ℕ, zero, suc, ◌+◌, ◌-◌, ◌/◌, ◌%◌, ◌^◌, Bool, true, false, not, List, [], ◌∷◌, ◌++◌, Bytes, length,
  take, drop, replicate, leb, ltb, ◌==◌, if◌then◌else◌,
}

pub data AuthMode : Type 0 where
  open_network wpa2_psk : AuthMode

-- The fields of `wifi_config_t` that are set. The arrays have 32 and 64 bytes.
pub record StaConfig : Type 0 where
  pub ssid : Bytes
  pub password : Bytes

pub record ApConfig : Type 0 where
  pub ssid : Bytes
  pub password : Bytes
  pub authmode : AuthMode
  pub channel : ℕ
  pub beacon_interval : ℕ
  pub max_connection : ℕ

-- Calls of the driver, in their order.
pub data DriverCall : Type 0 where
  initialise wifi_stop wifi_start wifi_connect : DriverCall
  destroy_netif create_sta create_ap : DriverCall
  mode_sta mode_ap set_bandwidth : DriverCall
  config_sta : StaConfig → DriverCall
  config_ap : ApConfig → DriverCall
  scan_start give_scan_done : DriverCall
  dhcp_client_start dhcp_client_stop dhcp_server_start dhcp_server_stop : DriverCall
  set_ip_info set_lease : DriverCall

-- Bytes at the front of an array.
abbrev pub overwrite : Bytes → Bytes → Bytes
overwrite s array = s ++ drop (length s) array

-- `snprintf(array, n, "%s", s)` into an array of zeros.
unfoldable pub snprintf : ℕ → Bytes → Bytes
snprintf n s = overwrite (take (n - 1) s ++ (0 ∷ [])) (replicate n 0)

-- The configuration in `connect`, the same in both files.
unfoldable pub sta_config : Bytes → Bytes → StaConfig
sta_config ssid pass = record { ssid = snprintf 32 ssid; password = snprintf 64 pass }

-- `init`, whose object is made once.
unfoldable pub init : Bool → List DriverCall
init initialised = if initialised then [] else initialise ∷ []

-- `getIpStr`, where `%lu` prints a number.
unfoldable pub get_ip_str : (ℕ → Bytes) → ℕ → Bytes
get_ip_str print ip = take 19 (
    print (ip % 256)
    ++ (b'.'
        ∷ (print ((ip / 2 ^ 8) % 256)
            ++ (b'.' ∷ (print ((ip / 2 ^ 16) % 256) ++ (b'.' ∷ print ((ip / 2 ^ 24) % 256)))))))

-- The loop of `waitForIp` on fuel, where `ip_at` is what `getIp` gives at a number of ticks: whether there is an
-- address, and when it was seen.
unfoldable pub wait_loop : ℕ → ℕ → (ℕ → ℕ) → ℕ → ℕ → Bool × ℕ
wait_loop zero step ip_at now max_delay = (not (ip_at now == 0), now)
wait_loop (suc fuel) step ip_at now max_delay =
    let more = wait_loop fuel step ip_at (now + step) (max_delay - step) in
    if not (ip_at now == 0) then (true, now) else if leb step max_delay then more else (false, now)

-- `waitForIp`, with `step` ticks in 50 milliseconds.
unfoldable pub wait_for_ip : ℕ → (ℕ → ℕ) → ℕ → Bool × ℕ
wait_for_ip step ip_at max_delay = wait_loop (max_delay / step) step ip_at 0 max_delay
