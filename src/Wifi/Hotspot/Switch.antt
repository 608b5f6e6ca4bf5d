-- ===== src/Wifi/Hotspot/Switch.antt =====
-- Switching the hotspot of wifi_hotspot.c on and off, and its power element.
use ohos_l0_adapter.Base.{
  ℤ, List, [], pos, ◌∷◌, ◌≡◌, refl, true, false, is_zero, leb_ℤ, returned, ◌>>=◌, map,
}
use ohos_l0_adapter.Wifi.Types.{
  Call, success, unknown, busy, SoftapConfig, TpcElement, beacon, probe_rsp, add_ie, delete_ie,
  find_ap_netif, dhcps_start, softap_start, softap_stop,
}
use ohos_l0_adapter.Wifi.Service.{
  Platform, Service, History, call, lock, unlock, lock_or_return, unlock_or_return,
}
use ohos_l0_adapter.Wifi.Service.Working.{LocksWork}
use ohos_l0_adapter.Wifi.Hotspot.{
  enable_hotspot, disable_hotspot, set_hotspot_ip_config, softap_copy_code, softap_request,
  add_tx_power_info, tpc_element,
}

-- The calls that start and stop the access point and its DHCP server, the latest first.
abbrev pub radio_calls : History → List Call
radio_calls [] = []
radio_calls ((softap_start c, v) ∷ h) = softap_start c ∷ radio_calls h
radio_calls ((softap_stop, v) ∷ h) = softap_stop ∷ radio_calls h
radio_calls ((dhcps_start, v) ∷ h) = dhcps_start ∷ radio_calls h
radio_calls (e ∷ h) = radio_calls h

module _ (p : Platform) (w : LocksWork p) (copies : is_zero (softap_copy_code p) ≡ true)
    (clears : is_zero (p.memset_s p.softap_config_size p.softap_config_size) ≡ true)
    (starts : (h : History) (c : SoftapConfig) → is_zero (p.reply h (softap_start c)) ≡ true)
    (netif : (h : History) → is_zero (p.reply h find_ap_netif) ≡ false) (s : Service)
    (ready : is_zero s.global_lock ≡ false) (off : s.ap_active ≡ false) where
  -- Where mutexes, copies and the driver's start work and the hotspot is off: if the DHCP server starts, EnableHotspot succeeds and DisableHotspot then stops it again, if
  -- the driver does.
  pub enable-disable_hotspot :
      ((h : History) → is_zero (p.reply h dhcps_start) ≡ true)
      → ((h : History) → is_zero (p.reply h softap_stop) ≡ true)
      → let (r, t) = enable_hotspot p s in
        let (q, u) = disable_hotspot p t in
        (r ≡ returned success)
        × (t.ap_active ≡ true)
        × (q ≡ returned success)
        × (u.ap_active ≡ false)
  unfolding enable_hotspot disable_hotspot set_hotspot_ip_config lock_or_return lock
      unlock_or_return unlock call ◌>>=◌
  enable-disable_hotspot serves stops =
      simp (ready, off, copies, clears, starts, netif, serves, stops, w.acquires, w.releases)
        (refl, refl, refl, refl)

  -- Where mutexes, copies and the driver's start work, the network interface is found and the hotspot is
  -- off: if the DHCP server does not start, the access point is stopped behind the attempt, once, and the
  -- caller told of a failure, but the status says ACTIVE, and the next EnableHotspot returns ERROR_WIFI_BUSY and
  -- starts nothing.
  pub enable_hotspot-stuck :
      ((h : History) → is_zero (p.reply h dhcps_start) ≡ false)
      → let (r, t) = enable_hotspot p s in
        let (q, u) = enable_hotspot p t in
        (r ≡ returned unknown)
        × (t.ap_active ≡ true)
        × (radio_calls t.history
            ≡ softap_stop
              ∷ dhcps_start
              ∷ softap_start (softap_request p s.ap_config)
              ∷ radio_calls s.history)
        × (q ≡ returned busy)
        × (u.ap_active ≡ true)
        × (radio_calls u.history ≡ radio_calls t.history)
  unfolding enable_hotspot set_hotspot_ip_config lock_or_return lock unlock_or_return unlock call
      ◌>>=◌
  enable_hotspot-stuck fails =
      simp (ready, off, copies, clears, starts, netif, fails, w.acquires, w.releases)
        (refl, refl, refl, refl, refl, refl)

-- Where the probe response refuses the element, the beacon keeps it: the element that was refused is
-- the one that is deleted.
pub add_tx_power_info-keeps_beacon :
    (p : Platform) (power : ℤ)
    → leb_ℤ power (pos 20) ≡ true
    → ((h : History) (e : TpcElement) → is_zero (p.reply h (add_ie beacon e)) ≡ true)
    → ((h : History) (e : TpcElement) → is_zero (p.reply h (add_ie probe_rsp e)) ≡ false)
    → (s : Service)
    → map (λ e. e.0) (add_tx_power_info p power s).1.history
      ≡ delete_ie probe_rsp
        ∷ add_ie probe_rsp (tpc_element power)
        ∷ add_ie beacon (tpc_element power)
        ∷ map (λ e. e.0) s.history
unfolding add_tx_power_info call ◌>>=◌
add_tx_power_info-keeps_beacon p power small adds refuses s = simp (small, adds, refuses)
