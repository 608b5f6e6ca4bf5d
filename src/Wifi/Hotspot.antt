-- ===== src/Wifi/Hotspot.antt =====
-- The hotspot of wifi_hotspot.c.
pub mod Switch
pub mod Signal
use ohos_l0_adapter.Base.{
  ℕ, zero, suc, ◌+◌, ◌-◌, ◌%◌, List, [], ◌∷◌, ◌++◌, Option, none, some, Bool, true, false, not,
  ◌&&◌, ℤ, pos, negsuc, is_zero, eq_ℤ, leb_ℤ, ◌+ℤ◌, go, ◌>>=◌, ◌>>◌, ret, gets, modify, when,
  branch, invoke, pure, length, ltb, ◌==◌, if◌then◌else◌,
}
use ohos_l0_adapter.Wifi.Types.{
  WifiErrorCode, success, unknown, invalid_args, busy, not_started, not_available, not_supported,
  global, HotspotConfig, SoftapConfig, TpcElement, beacon, probe_rsp, find_ap_netif, set_addr,
  dhcps_start, softap_start, softap_stop, get_channel, get_connected_sta, dhcps_get_client_ip,
  deauth_sta, add_ie, delete_ie,
}
use ohos_l0_adapter.Wifi.Service.{
  Platform, M, Fn, call, lock_or_return, unlock_or_return, is_success,
}
use ohos_l0_adapter.Wifi.Convert.{ho_sec_to_hi_sec}

-- What `IsHotspotActive` returns: the status, or an error code in its place.
pub data ApStatus : Type 0 where
  status : Bool → ApStatus
  error : WifiErrorCode → ApStatus

-- What a function returns that passes a number of the driver on, or a `WifiErrorCode`.
pub data Answer : Type 0 where
  number : ℤ → Answer
  wifi_code : WifiErrorCode → Answer

-- The conversion of an `int` to a `signed char`, as the byte that is stored.
abbrev pub to_signed_char : ℤ → ℕ
to_signed_char (pos n) = n % 256
to_signed_char (negsuc n) = 255 - n % 256

abbrev pub is_none {ℓ} : {A : Type ℓ} → Option A → Bool
is_none none = true
is_none (some _) = false

-- `TpcElement tpc` of `AddTxPowerInfo`.
abbrev pub tpc_element : ℤ → TpcElement
tpc_element power = record { id = 35; len = 2; power = to_signed_char power; margin = 0 }

module _ (p : Platform) where
  -- `SetHotspotIpConfig`
  unfoldable pub set_hotspot_ip_config : Fn WifiErrorCode
  set_hotspot_ip_config = do
    netif ← call p find_ap_netif
    when (is_zero netif) (ret unknown)
    call p (set_addr (p.ip4_addr 192 168 5 1) (p.ip4_addr 255 255 255 0) (p.ip4_addr 192 168 5 1))
    started ← call p dhcps_start
    when (not (is_zero started)) (do call p softap_stop; ret unknown)
    ret success

  -- The struct that `EnableHotspot` fills, its `channel_num` an `unsigned char`, and the sum of the codes of its two copies.
  unfoldable pub softap_request : HotspotConfig → SoftapConfig
  softap_request config = record {
    ssid = config.ssid;
    key = config.pre_shared_key;
    channel_num = (if config.channel_num == 0 then p.default_channel else config.channel_num) % 256;
    authmode = ho_sec_to_hi_sec config.security_type;
  }

  unfoldable pub softap_copy_code : ℤ
  softap_copy_code = p.memcpy_s p.ssid_len 33 +ℤ p.memcpy_s p.key_len 65

  -- `EnableHotspot`
  unfoldable pub enable_hotspot : Fn WifiErrorCode
  enable_hotspot = do
    lock_or_return p global unknown
    when (← gets (λ s. s.ap_active)) (do unlock_or_return p global unknown; ret busy)
    config ← gets (λ s. s.ap_config)
    when (not (is_zero softap_copy_code)) (do unlock_or_return p global unknown; ret unknown)
    hi_ret ← call p (softap_start (softap_request config))
    modify (λ s. record s { ap_if_name = p.softap_ifname s.history })
    when (not (is_zero hi_ret)) (do unlock_or_return p global unknown; ret not_started)
    when (not (is_zero (p.memset_s p.softap_config_size p.softap_config_size)))
        (do unlock_or_return p global unknown; ret unknown)
    modify (λ s. record s { ap_active = true })
    unlock_or_return p global unknown
    code ← invoke set_hotspot_ip_config
    when (not (is_success code)) (ret unknown)
    ret success

  -- `DisableHotspot`
  unfoldable pub disable_hotspot : Fn WifiErrorCode
  disable_hotspot = do
    lock_or_return p global unknown
    when (not (← gets (λ s. s.ap_active))) (do unlock_or_return p global unknown; ret not_started)
    hi_ret ← call p softap_stop
    when (not (is_zero hi_ret)) (do unlock_or_return p global unknown; ret not_started)
    modify (λ s. record s { ap_active = false })
    unlock_or_return p global unknown
    ret success

  -- `SetHotspotConfig`; `none` is NULL.
  unfoldable pub set_hotspot_config : Option HotspotConfig → Fn WifiErrorCode
  set_hotspot_config none = ret invalid_args
  set_hotspot_config (some config) = do
    lock_or_return p global unknown
    let copied = is_zero (p.memcpy_s p.hotspot_config_size p.hotspot_config_size)
    modify (λ s. record s {
      ap_config = if copied then config else p.after_failed_hotspot_copy s.ap_config;
    })
    unlock_or_return p global unknown
    when (not copied) (ret unknown)
    ret success

  -- `GetHotspotConfig`: the code, and what a successful copy puts into `*result`.
  unfoldable pub get_hotspot_config : Bool → Fn (WifiErrorCode × Option HotspotConfig)
  get_hotspot_config false = ret (invalid_args, none)
  get_hotspot_config true = do
    lock_or_return p global (unknown, none)
    config ← gets (λ s. s.ap_config)
    let copied = is_zero (p.memcpy_s p.hotspot_config_size p.hotspot_config_size)
    let out = if copied then some config else none
    unlock_or_return p global (unknown, out)
    when (not copied) (ret (unknown, out))
    ret (success, out)

  -- `IsHotspotActive`
  unfoldable pub is_hotspot_active : Fn ApStatus
  is_hotspot_active = do
    lock_or_return p global (ApStatus.error unknown)
    active ← gets (λ s. s.ap_active)
    unlock_or_return p global (ApStatus.error unknown)
    ret (ApStatus.status active)

  -- `GetPeerSTAWifiIp`; `none` is HISI_FAIL.
  unfoldable pub get_peer_sta_wifi_ip : List ℕ → Fn (Option ℕ)
  get_peer_sta_wifi_ip mac = do
    netif ← call p find_ap_netif
    when (is_zero netif) (ret none)
    code ← call p (dhcps_get_client_ip mac)
    ip ← gets (λ s. p.client_ip s.history)
    ret (if is_zero code then some (p.ntohl ip) else none)

  -- The loop of `GetStationList`; `out` is what `result` holds so far, each MAC with its address.
  unfoldable pub list_stations :
      List (List ℕ)
      → List (List ℕ × Option ℕ)
      → M (WifiErrorCode × List (List ℕ × Option ℕ)) (List (List ℕ × Option ℕ))
  list_stations [] out = pure out
  list_stations (mac ∷ macs) out = do
    when (not (is_zero (p.memcpy_s p.mac_len 6))) (ret (unknown, out))
    ip ← branch p.has_dhcps_ip (invoke (get_peer_sta_wifi_ip mac)) (pure none)
    when (p.has_dhcps_ip && is_none ip) (ret (unknown, out ++ ((mac, none) ∷ [])))
    list_stations macs (out ++ ((mac, ip) ∷ []))

  -- `GetStationList`; a size of 0 is what NULL or an empty array amounts to.
  unfoldable pub get_station_list : ℕ → Fn (WifiErrorCode × List (List ℕ × Option ℕ))
  get_station_list zero = ret (invalid_args, [])
  get_station_list (suc size) = do
    hi_ret ← call p get_connected_sta
    macs ← gets (λ s. p.connected_stas s.history)
    when (not (is_zero hi_ret)) (ret (not_available, []))
    when (ltb (suc size) (length macs)) (ret (invalid_args, []))
    out ← list_stations macs []
    ret (success, out)

  -- `SetBand`
  unfoldable pub set_band : ℤ → Fn WifiErrorCode
  set_band band = do
    when (not (eq_ℤ band p.band_2g)) (ret not_supported)
    lock_or_return p global unknown
    modify (λ s. let config = s.ap_config in record s { ap_config = record config { band = band } })
    unlock_or_return p global unknown
    ret success

  -- `GetBand`: the code, and what goes to `*result`.
  unfoldable pub get_band : Bool → Fn (WifiErrorCode × Option ℤ)
  get_band false = ret (invalid_args, none)
  get_band true = do
    lock_or_return p global (unknown, none)
    config ← gets (λ s. s.ap_config)
    when (is_zero config.band)
        (do unlock_or_return p global (unknown, none); ret (not_available, none))
    unlock_or_return p global (unknown, none)
    ret (success, some p.band_2g)

  -- `GetSignalLevel`; `none` is ERROR_WIFI_INVALID_ARGS. `negsuc n` is -(n + 1).
  unfoldable pub get_signal_level : ℤ → ℤ → Option ℕ
  get_signal_level rssi band =
      if eq_ℤ band p.band_2g && leb_ℤ (negsuc 64) rssi
      then some 4
      else if eq_ℤ band p.band_2g && leb_ℤ (negsuc 74) rssi
      then some 3
      else if eq_ℤ band p.band_2g && leb_ℤ (negsuc 81) rssi
      then some 2
      else if eq_ℤ band p.band_2g && leb_ℤ (negsuc 87) rssi
      then some 1
      else if eq_ℤ band p.band_5g && leb_ℤ (negsuc 64) rssi
      then some 4
      else if eq_ℤ band p.band_5g && leb_ℤ (negsuc 71) rssi
      then some 3
      else if eq_ℤ band p.band_5g && leb_ℤ (negsuc 78) rssi
      then some 2
      else if eq_ℤ band p.band_5g && leb_ℤ (negsuc 84) rssi
      then some 1
      else none

  -- `GetHotspotChannel`; HI_WIFI_INVALID_CHANNEL is 0xFF.
  unfoldable pub get_hotspot_channel : Fn Answer
  get_hotspot_channel = do
    lock_or_return p global (Answer.wifi_code unknown)
    when (not (← gets (λ s. s.ap_active))) (do
      unlock_or_return p global (Answer.wifi_code unknown)
      ret (Answer.wifi_code not_started))
    channel ← call p get_channel
    unlock_or_return p global (Answer.wifi_code unknown)
    when (eq_ℤ channel (pos 0xFF)) (ret (Answer.wifi_code invalid_args))
    ret (Answer.number channel)

  -- `GetHotspotInterfaceName` for a buffer of `size` bytes.
  unfoldable pub get_hotspot_interface_name : ℕ → Fn (WifiErrorCode × Option (List ℕ))
  get_hotspot_interface_name size = do
    lock_or_return p global (unknown, none)
    when (not (← gets (λ s. s.ap_active)))
        (do unlock_or_return p global (unknown, none); ret (not_started, none))
    name ← gets (λ s. s.ap_if_name)
    let copied = is_zero (p.memcpy_s size (p.ifname_max_size + 1))
    let out = if copied then some name else none
    unlock_or_return p global (unknown, out)
    when (not copied) (ret (unknown, out))
    ret (success, out)

  -- `DisassociateSta`
  unfoldable pub disassociate_sta : List ℕ → Fn WifiErrorCode
  disassociate_sta mac = do
    code ← call p (deauth_sta mac)
    when (not (is_zero code)) (ret unknown)
    ret success

  -- `AddTxPowerInfo`
  unfoldable pub add_tx_power_info : ℤ → Fn Answer
  add_tx_power_info power = do
    when (not (leb_ℤ power (pos 20))) (ret (Answer.wifi_code invalid_args))
    code ← call p (add_ie beacon (tpc_element power))
    when (not (is_zero code)) (do call p (delete_ie beacon); ret (Answer.number code))
    code ← call p (add_ie probe_rsp (tpc_element power))
    when (not (is_zero code)) (do call p (delete_ie probe_rsp); ret (Answer.number code))
    ret (Answer.wifi_code success)
