-- ===== src/Wifi/Config.antt =====
-- The access point that both files configure, and the address that the events leave.
use rb3201_rbprotocol_librar.Prelude.{
  ℕ, zero, suc, ◌+◌, ◌-◌, ◌≤◌, ◌≡◌, refl, sym, ap, ◌∙◌, min, true, false, inl, inr, [], ◌∷◌, ◌++◌,
  Bytes, length, length-append, length-take, length-drop, take, take_all, drop, replicate, leb, ltb,
  if◌then◌else◌, Bool-cases, arith,
}
use rb3201_rbprotocol_librar.Wifi.{AuthMode, open_network, wpa2_psk, overwrite, snprintf}
use rb3201_rbprotocol_librar.Wifi.Netif
use rb3201_rbprotocol_librar.Wifi.Tcpip

take_if : (n : ℕ) (s : Bytes) → take (if leb (suc n) (length s) then n else length s) s ≡ take n s
take_if n s = elim (Bool-cases (leb (suc n) (length s))) [
  | inl long ↦ rw long refl
  | inr short ↦
      rw short (take_all (length s) s (omega arith) ∙ sym (take_all n s (ground (arith, short))))
]

ap_ssid-snprintf : (ssid : Bytes) → Netif.ap_ssid ssid ≡ snprintf 32 ssid
unfolding Netif.ap_ssid snprintf
ap_ssid-snprintf ssid = ap (λ xs. overwrite (xs ++ (0 ∷ [])) (replicate 32 0)) (take_if 31 ssid)

ap_password_same : (pass : Bytes) → Netif.ap_password pass ≡ Tcpip.ap_password pass
unfolding Netif.ap_password Tcpip.ap_password snprintf
ap_password_same pass = elim (Bool-cases (leb 8 (length pass))) [
  | inl long ↦
      let enough : ltb (length pass) 8 ≡ false = ground (arith, long) in
      rw (long, enough)
        (ap (λ xs. (overwrite (xs ++ (0 ∷ [])) (replicate 64 0), wpa2_psk)) (take_if 63 pass))
  | inr short ↦ let few : ltb (length pass) 8 ≡ true = ground (arith, short) in rw (short, few) refl
]

length-replicate : (n : ℕ) → length {A = ℕ} (replicate n 0) ≡ n
length-replicate zero = refl
length-replicate (suc n) = ap suc (length-replicate n)

length-snprintf : (n : ℕ) (s : Bytes) → 1 ≤ n → length (snprintf n s) ≡ n
unfolding snprintf
length-snprintf n s some_room =
    let t = take (n - 1) s ++ (0 ∷ []) in
    let size : length t ≡ min (n - 1) (length s) + 1 =
      omega (arith, length-append (take (n - 1) s) (0 ∷ []), length-take (n - 1) s) in
    omega (
      arith,
      length-append t (drop (length t) (replicate {A = ℕ} n 0)),
      length-drop (length t) (replicate {A = ℕ} n 0),
      length-replicate n,
      size,
    )

ap_password-sizes :
    (pass : Bytes)
    → (length (Tcpip.ap_password pass).0 ≡ 64)
      × ((Tcpip.ap_password pass).1 ≡ (if ltb (length pass) 8 then open_network else wpa2_psk))
unfolding Tcpip.ap_password
ap_password-sizes pass = elim (Bool-cases (leb 8 (length pass))) [
  | inl long ↦
      let enough : ltb (length pass) 8 ≡ false = ground (arith, long) in
      rw (long, enough) (length-snprintf 64 pass (omega arith), refl)
  | inr short ↦
      let few : ltb (length pass) 8 ≡ true = ground (arith, short) in rw (short, few) (refl, refl)
]

-- Both versions of `startAp` configure the same access point, for every name and password: it is open exactly if the password has
-- fewer than 8 bytes, and its arrays are filled to their sizes, 32 and 64 bytes, and not beyond.
pub ap_config_same :
    (ssid pass : Bytes) (channel : ℕ)
    → (Netif.ap_config ssid pass channel ≡ Tcpip.ap_config ssid pass channel)
      × (length (Netif.ap_config ssid pass channel).ssid ≡ 32)
      × (length (Netif.ap_config ssid pass channel).password ≡ 64)
      × ((Netif.ap_config ssid pass channel).authmode
          ≡ (if ltb (length pass) 8 then open_network else wpa2_psk))
unfolding Netif.ap_config Tcpip.ap_config
ap_config_same ssid pass channel =
    let names = ap_ssid-snprintf ssid in
    let passwords = ap_password_same pass in
    let (size, mode) = ap_password-sizes pass in
    (
      ap
          (λ (p : Bytes × (Bytes × AuthMode)). record {
            ssid = p.0;
            password = p.1.0;
            authmode = p.1.1;
            channel = channel;
            beacon_interval = 400;
            max_connection = 4;
          })
          (ap (λ x. (x, Netif.ap_password pass)) names ∙ ap (λ x. (snprintf 32 ssid, x)) passwords),
      ap (λ (x : Bytes). length x) names ∙ length-snprintf 32 ssid (omega arith),
      ap (λ (x : Bytes × AuthMode). length x.0) passwords ∙ size,
      ap (λ (x : Bytes × AuthMode). x.1) passwords ∙ mode,
    )
