-- ===== src/Wifi/Reports.antt =====
-- What wifi_device.c reports of the driver: scan results, the link, the MAC address.
pub mod Results
use ohos_l0_adapter.Base.{
  ℕ, zero, suc, List, [], ◌∷◌, ◌++◌, Option, none, some, Bool, true, false, not, ℤ, is_zero, ◌>>=◌,
  ◌>>◌, pure, ret, gets, when, branch, invoke, length, ltb,
}
use ohos_l0_adapter.Wifi.Types.{
  WifiErrorCode, success, unknown, invalid_args, ApInfo, ScanInfo, LinkStatus, malloc_results,
  free_results, sta_scan_results, get_connect_info, get_ap_rssi, get_macaddr, find_sta_netif,
  netif_get_addr,
}
use ohos_l0_adapter.Wifi.Service.{Platform, M, Fn, call}
use ohos_l0_adapter.Wifi.Convert.{hi_sec_to_ho_sec, channel_to_frequency}

-- The element of `result` for one of the driver's.
unfoldable pub scan_info : ApInfo → ScanInfo
scan_info ap = record {
  ssid = ap.ssid;
  bssid = ap.bssid;
  security_type = hi_sec_to_ho_sec ap.auth;
  rssi = ap.rssi;
  frequency = channel_to_frequency ap.channel;
}

-- `WifiLinkedInfo` as `GetLinkedInfo` fills it; a field that it leaves alone is `none`.
pub record LinkReport : Type 0 where
  pub ssid : List ℕ
  pub bssid : List ℕ
  pub connected : Bool
  pub rssi : Option ℤ
  pub ip_address : Option ℕ

module _ (p : Platform) where
  -- The loop of `GetScanInfoList`; `out` is what `result` holds so far, in whole elements.
  unfoldable pub copy_results :
      List ApInfo → List ScanInfo → M (WifiErrorCode × List ScanInfo) (List ScanInfo)
  copy_results [] out = pure out
  copy_results (ap ∷ aps) out = do
    when (not (is_zero (p.memcpy_s p.ssid_len 33))) (do call p free_results; ret (unknown, out))
    when (not (is_zero (p.memcpy_s p.mac_len 6))) (do call p free_results; ret (unknown, out))
    copy_results aps (out ++ (scan_info ap ∷ []))

  -- `GetScanInfoList`; a size of 0 is what NULL or an empty array amounts to. On success `*size`
  -- becomes the length of what was written.
  unfoldable pub get_scan_info_list : ℕ → Fn (WifiErrorCode × List ScanInfo)
  get_scan_info_list zero = ret (invalid_args, [])
  get_scan_info_list (suc size) = do
    buffer ← call p malloc_results
    when (is_zero buffer) (ret (unknown, []))
    hi_ret ← call p sta_scan_results
    results ← gets (λ s. p.scan_results s.history)
    when (not (is_zero hi_ret)) (do call p free_results; ret (unknown, []))
    when (ltb (suc size) (length results)) (do call p free_results; ret (invalid_args, []))
    out ← copy_results results []
    call p free_results
    ret (success, out)

  -- `GetLocalWifiIp`; `none` is HISI_FAIL.
  unfoldable pub get_local_wifi_ip : Fn (Option ℕ)
  get_local_wifi_ip = do
    netif ← call p find_sta_netif
    when (is_zero netif) (ret none)
    code ← call p netif_get_addr
    ip ← gets (λ s. p.local_ip s.history)
    branch (is_zero code) (ret (some ip)) (ret none)

  -- The link quality, asked of the driver on a connected station alone.
  unfoldable pub link_rssi : {R : Type 0} → Bool → M R (Option ℤ)
  link_rssi true = do rssi ← call p get_ap_rssi; pure (some rssi)
  link_rssi false = pure none

  -- The end of `GetLinkedInfo`, by whether the address was found.
  unfoldable pub report : LinkReport → Option ℕ → Fn (WifiErrorCode × Option LinkReport)
  report link none = ret (unknown, some link)
  report link (some ip) = ret (success, some (record link { ip_address = some ip }))

  -- `GetLinkedInfo`: the code, and what goes to `*result` once both copies are made.
  unfoldable pub get_linked_info : Bool → Fn (WifiErrorCode × Option LinkReport)
  get_linked_info false = ret (invalid_args, none)
  get_linked_info true = do
    hi_ret ← call p get_connect_info
    status ← gets (λ s. p.link_status s.history)
    when (not (is_zero hi_ret)) (ret (unknown, none))
    when (not (is_zero (p.memcpy_s p.ssid_len 33))) (ret (unknown, none))
    when (not (is_zero (p.memcpy_s p.mac_len 6))) (ret (unknown, none))
    rssi ← link_rssi status.connected
    ip ← invoke get_local_wifi_ip
    report
        (record {
          ssid = status.ssid;
          bssid = status.bssid;
          connected = status.connected;
          rssi = rssi;
          ip_address = none;
        })
        ip

  -- `GetDeviceMacAddress`; the driver writes `result` itself.
  unfoldable pub get_device_mac_address : Bool → Fn WifiErrorCode
  get_device_mac_address false = ret invalid_args
  get_device_mac_address true = do
    hi_ret ← call p get_macaddr
    when (not (is_zero hi_ret)) (ret unknown)
    ret success
