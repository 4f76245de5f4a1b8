-- ===== src/Wifi/Tcpip.antt =====
-- src/rbwifi_tcpip.cpp: `WiFi` over tcpip_adapter.
use rb3201_rbprotocol_librar.Prelude.{
  ℕ, ◌+◌, ◌*◌, ◌^◌, Bool, true, List, [], ◌∷◌, ◌++◌, Bytes, length, replicate, leb, if◌then◌else◌,
}
use rb3201_rbprotocol_librar.Wifi.{
  AuthMode, open_network, wpa2_psk, ApConfig, DriverCall, wifi_stop, wifi_start, wifi_connect,
  mode_sta, mode_ap, set_bandwidth, config_sta, config_ap, dhcp_client_start, dhcp_client_stop,
  dhcp_server_start, dhcp_server_stop, set_ip_info, set_lease, snprintf, sta_config, init,
}

-- Whether `init` has run, and `m_ip`.
pub record TcpipState : Type 0 where
  pub initialised : Bool
  pub ip : ℕ

unfoldable pub connect : TcpipState → Bytes → Bytes → TcpipState × List DriverCall
connect s ssid pass = (
  record s { initialised = true },
  init s.initialised
      ++ (wifi_stop ∷ mode_sta ∷ config_sta (sta_config ssid pass) ∷ wifi_start ∷ []),
)

unfoldable pub ap_password : Bytes → Bytes × AuthMode
ap_password pass =
    if leb 8 (length pass) then (snprintf 64 pass, wpa2_psk) else (replicate 64 0, open_network)

unfoldable pub ap_config : Bytes → Bytes → ℕ → ApConfig
ap_config ssid pass channel = record {
  ssid = snprintf 32 ssid;
  password = (ap_password pass).0;
  authmode = (ap_password pass).1;
  channel = channel;
  beacon_interval = 400;
  max_connection = 4;
}

unfoldable pub start_ap : TcpipState → Bytes → Bytes → ℕ → TcpipState × List DriverCall
start_ap s ssid pass channel = (
  record s { initialised = true },
  init s.initialised
      ++ (wifi_stop
          ∷ mode_ap
          ∷ config_ap (ap_config ssid pass channel)
          ∷ wifi_start
          ∷ set_bandwidth
          ∷ []),
)

pub data TcpipEvent : Type 0 where
  sta_start sta_stop sta_disconnected ap_start ap_stop other_event : TcpipEvent
  got_ip : ℕ → TcpipEvent

-- 192.168.0.1, with its first byte lowest.
abbrev pub ap_address : ℕ
ap_address = 192 + 168 * 2 ^ 8 + 1 * 2 ^ 24

-- `eventHandler_tcpip`
unfoldable pub event_handler : TcpipState → TcpipEvent → TcpipState × List DriverCall
event_handler s sta_start = (s, dhcp_client_start ∷ wifi_connect ∷ [])
event_handler s sta_stop = (s, dhcp_client_stop ∷ [])
event_handler s sta_disconnected = (record s { ip = 0 }, wifi_connect ∷ [])
event_handler s ap_start = (
  record s { ip = ap_address },
  dhcp_server_stop ∷ set_ip_info ∷ set_lease ∷ dhcp_server_start ∷ [],
)
event_handler s ap_stop = (record s { ip = 0 }, dhcp_server_stop ∷ [])
event_handler s other_event = (s, [])
event_handler s (got_ip ip) = (record s { ip = ip }, [])
