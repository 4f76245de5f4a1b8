-- ===== src/Wifi/Netif.antt =====
-- src/rbwifi_netif.cpp: `WiFi` over esp_netif.
use rb3201_rbprotocol_librar.Prelude.{
  ℕ, Bool, true, not, List, [], ◌∷◌, ◌++◌, Bytes, length, take, replicate, leb, ltb, if◌then◌else◌,
}
use rb3201_rbprotocol_librar.Wifi.{
  AuthMode, open_network, wpa2_psk, ApConfig, DriverCall, wifi_stop, wifi_start, wifi_connect,
  destroy_netif, create_sta, create_ap, mode_sta, mode_ap, set_bandwidth, config_sta, config_ap,
  scan_start, give_scan_done, overwrite, sta_config, init,
}

-- `gNetIf`, `gScanDoneEv`, whether `init` has run, and `m_ip`.
pub record NetifState : Type 0 where
  pub has_netif : Bool
  pub has_scan_event : Bool
  pub initialised : Bool
  pub ip : ℕ

unfoldable pub drop_netif : Bool → List DriverCall
drop_netif has_netif = if has_netif then destroy_netif ∷ [] else []

unfoldable pub connect : NetifState → Bytes → Bytes → NetifState × List DriverCall
connect s ssid pass = (
  record s { has_netif = true; initialised = true },
  init s.initialised
      ++ (wifi_stop
          ∷ (drop_netif s.has_netif
              ++ (create_sta ∷ mode_sta ∷ config_sta (sta_config ssid pass) ∷ wifi_start ∷ []))),
)

-- The password and the mode in `startAp`.
unfoldable pub ap_password : Bytes → Bytes × AuthMode
ap_password pass =
    let pass_len = if leb 64 (length pass) then 63 else length pass in
    if ltb (length pass) 8
    then (replicate 64 0, open_network)
    else (overwrite (take pass_len pass ++ (0 ∷ [])) (replicate 64 0), wpa2_psk)

unfoldable pub ap_ssid : Bytes → Bytes
ap_ssid ssid =
    let ssid_len = if leb 32 (length ssid) then 31 else length ssid in
    overwrite (take ssid_len ssid ++ (0 ∷ [])) (replicate 32 0)

unfoldable pub ap_config : Bytes → Bytes → ℕ → ApConfig
ap_config ssid pass channel = record {
  ssid = ap_ssid ssid;
  password = (ap_password pass).0;
  authmode = (ap_password pass).1;
  channel = channel;
  beacon_interval = 400;
  max_connection = 4;
}

-- `startAp`, with the address that the driver gives.
unfoldable pub start_ap : NetifState → Bytes → Bytes → ℕ → ℕ → NetifState × List DriverCall
start_ap s ssid pass channel ip = (
  record s { has_netif = true; initialised = true; ip = ip },
  init s.initialised
      ++ (wifi_stop
          ∷ (drop_netif s.has_netif
              ++ (create_ap
                  ∷ mode_ap
                  ∷ config_ap (ap_config ssid pass channel)
                  ∷ wifi_start
                  ∷ set_bandwidth
                  ∷ []))),
)

-- `esp_err_t`, as far as it is looked at.
pub data ScanErr : Type 0 where
  scan_ok not_started invalid_arg : ScanErr
  other_scan_error : ℕ → ScanErr

-- The second `esp_wifi_scan_start` of `scanAsync`, behind a `connect` with no target.
unfoldable pub scan_again : NetifState → ScanErr → ScanErr → NetifState × List DriverCall × ScanErr
scan_again s scan_ok second = (s, scan_start ∷ [], scan_ok)
scan_again s not_started second =
    let (s', calls) = connect s [] [] in (s', scan_start ∷ (calls ++ (scan_start ∷ [])), second)
scan_again s invalid_arg second = (s, scan_start ∷ [], invalid_arg)
scan_again s (other_scan_error n) second = (s, scan_start ∷ [], other_scan_error n)

-- `scanAsync` with the results of its calls of `esp_wifi_scan_start`; the flag is whether there is a place for
-- the event.
unfoldable pub scan_async :
    NetifState → Bool → ScanErr → ScanErr → NetifState × List DriverCall × ScanErr
scan_async s has_out first second =
    let (s', calls, err) =
      scan_again (record s { initialised = true; has_scan_event = true }) first second in
    if not has_out
    then (record s { initialised = true }, init s.initialised, invalid_arg)
    else (s', init s.initialised ++ calls, err)

-- What the driver gives behind a scan: the number of records or an error, and the records, with an error.
pub record ScanResults (A : Type 0) : Type 0 where
  pub num : ℕ
  pub num_err : ScanErr
  pub records : List A
  pub records_err : ScanErr

-- `scanSync` behind `scanAsync`: the records and `*err_out`.
unfoldable pub after_scan : {A : Type 0} → ScanErr → ScanResults A → List A × ScanErr
after_scan scan_ok r = elim r.num_err [
  | scan_ok ↦ (r.records, r.records_err)
  | not_started ↦ ([], not_started)
  | invalid_arg ↦ ([], invalid_arg)
  | other_scan_error n ↦ ([], other_scan_error n)
]
after_scan not_started r = ([], not_started)
after_scan invalid_arg r = ([], invalid_arg)
after_scan (other_scan_error n) r = ([], other_scan_error n)

unfoldable pub scan_sync :
    {A : Type 0}
    → NetifState
    → ScanErr
    → ScanErr
    → ScanResults A
    → NetifState × List DriverCall × (List A × ScanErr)
scan_sync s first second r =
    let (s', calls, err) = scan_async s true first second in (s', calls, after_scan err r)

-- The events of both handlers, with those that do nothing.
pub data NetifEvent : Type 0 where
  sta_start sta_disconnected scan_done other_event : NetifEvent
  got_ip : ℕ → NetifEvent

-- `eventHandler_netif_wifi` and `eventHandler_netif_ip`
unfoldable pub event_handler : NetifState → NetifEvent → NetifState × List DriverCall
event_handler s sta_start = (s, wifi_connect ∷ [])
event_handler s sta_disconnected = (record s { ip = 0 }, wifi_connect ∷ [])
event_handler s scan_done = (s, if s.has_scan_event then give_scan_done ∷ [] else [])
event_handler s other_event = (s, [])
event_handler s (got_ip ip) = (record s { ip = ip }, [])
