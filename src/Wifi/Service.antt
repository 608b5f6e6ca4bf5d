-- ===== src/Wifi/Service.antt =====
-- What the Wi-Fi service stands on and keeps: the platform below it as a parameter, the static
-- variables of wifi_device.c, wifi_hotspot.c and wifi_device_util.c, and the mutex wrappers.
pub mod Balance
pub mod Working
use ohos_l0_adapter.Base.{
  ℕ, List, ◌∷◌, Option, Bool, true, false, not, ℤ, is_zero, Proc, go, ◌>>=◌, ◌>>◌, ret, gets,
  modify, when, invoke,
}
use ohos_l0_adapter.Wifi.Types.{
  Lock, Call, DeviceConfig, HotspotConfig, WifiEvent, ApInfo, LinkStatus, EventState, WifiErrorCode,
  success, unknown, global, event, mutex_new, acquire, release,
}

-- Calls with their return codes, the latest first.
abbrev pub History : Type 0
History = List (Call × ℤ)

-- Code and constants outside the repository. What a call returns may depend on all that happened
-- before it. A pointer that a call returns is a number, NULL being 0.
pub record Platform : Type 0 where
  pub reply : History → Call → ℤ
  -- `memcpy_s` and `memset_s`: the code for a destination's size and a count.
  pub memcpy_s : ℕ → ℕ → ℤ
  pub memset_s : ℕ → ℕ → ℤ
  -- What a struct holds after a copy or a reset that failed.
  pub after_failed_copy : DeviceConfig → DeviceConfig
  pub after_failed_hotspot_copy : HotspotConfig → HotspotConfig
  -- A `WifiDeviceConfig` of zero bytes.
  pub zeroed : DeviceConfig
  -- The registered struct at an address.
  pub handlers : ℕ → WifiEvent
  -- What a call stores through its pointer arguments.
  pub scan_results : History → List ApInfo
  pub link_status : History → LinkStatus
  pub local_ip : History → ℕ
  pub file_length : History → ℕ
  pub file_content : History → DeviceConfig
  pub softap_ifname : History → List ℕ
  pub connected_stas : History → List (List ℕ)
  pub client_ip : History → ℕ
  -- lwIP: `IP4_ADDR` and `ntohl`, and whether LWIP_NETIFAPI_DHCPS_IP is set.
  pub ip4_addr : ℕ → ℕ → ℕ → ℕ → ℕ
  pub ntohl : ℕ → ℕ
  pub has_dhcps_ip : Bool
  -- Constants of the OpenHarmony headers.
  pub max_config_size : ℕ
  pub config_invalid : ℤ
  pub ssid_len : ℕ
  pub key_len : ℕ
  pub mac_len : ℕ
  pub config_size : ℕ
  pub assoc_request_size : ℕ
  pub softap_config_size : ℕ
  pub ifname_max_size : ℕ
  pub hotspot_config_size : ℕ
  pub max_dns_num : ℕ
  pub scan_hotspot_limit : ℕ
  pub psk_type_hex : ℕ
  pub default_channel : ℕ
  pub max_sta_num : ℕ
  pub band_2g : ℤ
  pub band_5g : ℤ

-- The static variables of the three files, and the history of calls.
pub record Service : Type 0 where
  pub global_lock : ℤ
  pub event_lock : ℤ
  -- `g_wifiStaStatus` and `g_wifiApStatus` are ACTIVE
  pub sta_active : Bool
  pub ap_active : Bool
  pub configs : List DeviceConfig
  pub events : List (Option ℕ)
  pub connect_state : EventState
  pub network_id : ℤ
  pub config_read : Bool
  pub config_exists : Bool
  pub ap_config : HotspotConfig
  pub ap_if_name : List ℕ
  pub history : History

abbrev pub M : Type 0 → Type 0 → Type 0
M R A = Proc Service R A

-- A function of the service that returns an `A`.
abbrev pub Fn : Type 0 → Type 0
Fn A = Proc Service A A

abbrev pub is_success : WifiErrorCode → Bool
is_success WifiErrorCode.success = true
is_success _ = false

abbrev pub handle : Lock → Service → ℤ
handle Lock.global s = s.global_lock
handle Lock.event s = s.event_lock

module _ (p : Platform) where
  -- A call to the outside: its code comes from the platform, and both are recorded.
  unfoldable pub call : {R : Type 0} → Call → M R ℤ
  call c s =
      let code = p.reply s.history c in (go code, record s { history = (c, code) ∷ s.history })

  -- `InitWifiGlobalLock`
  pub init_wifi_global_lock : Fn (Unit {0})
  init_wifi_global_lock = do
    when (is_zero (← gets (handle global)))
        (do m ← call (mutex_new global); modify (λ s. record s { global_lock = m }))
    when (is_zero (← gets (handle event)))
        (do m ← call (mutex_new event); modify (λ s. record s { event_lock = m }))

  -- `LockWifiGlobalLock` and `LockWifiEventLock`
  unfoldable pub lock : Lock → Fn WifiErrorCode
  lock l = do
    when (is_zero (← gets (handle l))) (ret unknown)
    code ← call (acquire l)
    when (not (is_zero code)) (ret unknown)
    ret success

  -- `UnlockWifiGlobalLock` and `UnlockWifiEventLock`
  unfoldable pub unlock : Lock → Fn WifiErrorCode
  unlock l = do
    when (is_zero (← gets (handle l))) (ret unknown)
    code ← call (release l)
    when (not (is_zero code)) (ret unknown)
    ret success

  -- `if (LockWifi…() != WIFI_SUCCESS) { return x; }`, `x` being ERROR_WIFI_UNKNOWN in the callers.
  unfoldable pub lock_or_return : {R : Type 0} → Lock → R → M R (Unit {0})
  lock_or_return l x = do code ← invoke (lock l); when (not (is_success code)) (ret x)

  -- `if (UnlockWifi…() != WIFI_SUCCESS) { return x; }`
  unfoldable pub unlock_or_return : {R : Type 0} → Lock → R → M R (Unit {0})
  unlock_or_return l x = do code ← invoke (unlock l); when (not (is_success code)) (ret x)
