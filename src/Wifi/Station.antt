-- ===== src/Wifi/Station.antt =====
-- The station's own switch in wifi_device.c: on, off, its status, and the scans.
pub mod Transitions
use ohos_l0_adapter.Base.{
  ℕ, ◌%◌, ◌-◌, take, replicate, ◌++◌, zero, suc, ◌+◌, List, [], ◌∷◌, ◌++◌, Option, none, some, Bool,
  true, false, not, ℤ, is_zero, go, ◌>>=◌, ◌>>◌, pure, ret, gets, modify, when, invoke, length, ltb,
  ◌==◌,
}
use ohos_l0_adapter.Wifi.Types.{
  WifiErrorCode, success, unknown, invalid_args, busy, not_started, global, event, ScanParams,
  ApInfo, ScanInfo, sta_start, sta_stop, sta_scan, sta_scan_results, sta_disconnect,
  set_reconnect_policy, sta_advance_scan, get_macaddr, not_available,
}
use ohos_l0_adapter.Wifi.Service.{Platform, M, Fn, call, lock_or_return, unlock_or_return}
use ohos_l0_adapter.Wifi.Convert.{
  hi_sec_to_ho_sec, channel_to_frequency, frequency_to_channel, scan_type_switch,
}
use ohos_l0_adapter.Wifi.Dispatch.{dispatch_scan_state_change_event, for_each_handler}

-- What `IsWifiActive` returns: the status, or an error code in its place.
pub data Status : Type 0 where
  status : Bool → Status
  error : WifiErrorCode → Status

module _ (p : Platform) where
  -- `EnableWifi`
  unfoldable pub enable_wifi : Fn WifiErrorCode
  enable_wifi = do
    lock_or_return p global unknown
    when (← gets (λ s. s.sta_active)) (do unlock_or_return p global unknown; ret busy)
    hi_ret ← call p sta_start
    when (not (is_zero hi_ret)) (do unlock_or_return p global unknown; ret not_started)
    hi_ret ← call p (set_reconnect_policy 1 0xFFFF 100 100)
    when (not (is_zero hi_ret)) (do unlock_or_return p global unknown; ret unknown)
    modify (λ s. record s { sta_active = true })
    unlock_or_return p global unknown
    ret success

  -- `DisableWifi`
  unfoldable pub disable_wifi : Fn WifiErrorCode
  disable_wifi = do
    lock_or_return p global unknown
    when (not (← gets (λ s. s.sta_active))) (do unlock_or_return p global unknown; ret not_started)
    hi_ret ← call p sta_stop
    when (not (is_zero hi_ret)) (do unlock_or_return p global unknown; ret not_started)
    modify (λ s. record s { sta_active = false })
    unlock_or_return p global unknown
    ret success

  -- `IsWifiActive`
  unfoldable pub is_wifi_active : Fn Status
  is_wifi_active = do
    lock_or_return p global (error unknown)
    active ← gets (λ s. s.sta_active)
    unlock_or_return p global (error unknown)
    ret (status active)

  -- The loop of `Scan` and `AdvanceScan`: each listener is told that no result is available.
  unfoldable pub announce : ℕ → Fn (Unit {0})
  announce h = dispatch_scan_state_change_event p none h not_available

  -- What `Scan` and `AdvanceScan` do before they ask the driver: the status check, and the
  -- callbacks that tell that no scan result is available.
  unfoldable pub announce_scan : M WifiErrorCode (Unit {0})
  announce_scan = do
    lock_or_return p global unknown
    when (not (← gets (λ s. s.sta_active))) (do unlock_or_return p global unknown; ret not_started)
    unlock_or_return p global unknown
    lock_or_return p event unknown
    slots ← gets (λ s. s.events)
    for_each_handler announce slots
    unlock_or_return p event unknown

  -- `Scan`
  unfoldable pub scan : Fn WifiErrorCode
  scan = do
    announce_scan
    hi_ret ← call p sta_scan
    when (not (is_zero hi_ret)) (ret unknown)
    ret success

  -- `AdvanceScan`; `sp.ssid_len` and `sp.channel` are `unsigned char`s, `sp.ssid` has 33 bytes, `sp.bssid` and `params->bssid` have 6.
  unfoldable pub advance_scan : Option ScanParams → Fn WifiErrorCode
  advance_scan none = ret unknown
  advance_scan (some params) = do
    announce_scan
    when (not (is_zero (p.memcpy_s 33 params.ssid_len))) (ret unknown)
    when (not (is_zero (p.memcpy_s 6 6))) (ret unknown)
    hi_ret ← call p (
        sta_advance_scan (record {
          ssid = take params.ssid_len params.ssid ++ replicate (33 - params.ssid_len) 0;
          ssid_len = params.ssid_len % 256;
          bssid = params.bssid;
          scan_type = scan_type_switch params.scan_type;
          channel = frequency_to_channel params.freqs % 256;
        }))
    when (not (is_zero hi_ret)) (ret unknown)
    ret success

  -- `Disconnect`
  unfoldable pub disconnect : Fn WifiErrorCode
  disconnect = do
    hi_ret ← call p sta_disconnect
    when (not (is_zero hi_ret)) (ret unknown)
    ret success
