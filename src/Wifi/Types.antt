-- ===== src/Wifi/Types.antt =====
-- The data that the Wi-Fi service passes around: the enums and structs named by wifi_device.c,
-- wifi_hotspot.c and wifi_device_util.c, and the calls that these make to the vendor driver, to
-- lwIP, to the kernel and to the registered callbacks.
use ohos_l0_adapter.Base.{ℕ, ℤ, List, Bool}

-- `WifiErrorCode`, with the members that the service returns.
pub data WifiErrorCode : Type 0 where
  success unknown invalid_args not_available busy not_started not_supported : WifiErrorCode

-- `hi_wifi_auth_mode`
pub data HiAuthMode : Type 0 where
  open_system wep wpa2psk wpapsk_wpa2psk_mix wpapsk wpa wpa2 sae wpa3_wpa2_psk_mix unknown :
      HiAuthMode

-- `WifiSecurityType`; `other` is a value outside the enum's members that the code names.
pub data WifiSecurityType : Type 0 where
  invalid open_system wep psk sae other : WifiSecurityType

-- `hi_wifi_event_type`
pub data HiEventType : Type 0 where
  unknown scan_done connected disconnected wps_timeout mesh_connected mesh_disconnected ap_start
        sta_connected sta_disconnected sta_fcon_no_network mesh_cannot_found mesh_scan_done
        mesh_sta_scan_done ap_scan_done butt :
      HiEventType

-- `hi_wifi_scan_type`
pub data HiScanType : Type 0 where
  basic channel ssid ssid_prefix bssid : HiScanType

-- `WifiScanType`; `other` is any type that the switch sends to its default.
pub data WifiScanType : Type 0 where
  freq ssid bssid other : WifiScanType

-- `WifiEventState`
pub data EventState : Type 0 where
  not_available available : EventState

pub data IpType : Type 0 where
  dhcp static_ip unknown : IpType

-- The two mutexes of wifi_device_util.c.
pub data Lock : Type 0 where
  global event : Lock

pub record IpConfig : Type 0 where
  pub ip_address : ℕ
  pub gateway : ℕ
  pub dns_servers : List ℕ
  pub netmask : ℕ

-- `WifiDeviceConfig`, the fields that the service reads or writes.
pub record DeviceConfig : Type 0 where
  pub ssid : List ℕ
  pub bssid : List ℕ
  pub pre_shared_key : List ℕ
  pub security_type : WifiSecurityType
  pub net_id : ℤ
  pub freq : ℕ
  pub wapi_psk_type : ℕ
  pub ip_type : IpType
  pub static_ip : IpConfig

-- `WifiLinkedInfo`
pub record LinkedInfo : Type 0 where
  pub ssid : List ℕ
  pub bssid : List ℕ
  pub disconnected_reason : ℕ

-- `StationInfo`, as the join and leave callbacks get it.
pub record StationInfo : Type 0 where
  pub mac_address : List ℕ
  pub disconnected_reason : ℕ

-- `hi_wifi_event`, with the members of its union that the service reads, by name.
pub record HiEvent : Type 0 where
  pub event : HiEventType
  pub bss_num : ℕ
  pub connected_ssid : List ℕ
  pub connected_bssid : List ℕ
  pub disconnected_bssid : List ℕ
  pub disconnected_reason : ℕ
  pub joined_addr : List ℕ
  pub left_addr : List ℕ
  pub left_reason : ℕ

-- `WifiEvent`: which of the callbacks are not NULL.
pub record WifiEvent : Type 0 where
  pub on_connection_changed : Bool
  pub on_scan_state_changed : Bool
  pub on_hotspot_state_changed : Bool
  pub on_hotspot_sta_join : Bool
  pub on_hotspot_sta_leave : Bool

-- The fields that the service uses of `hi_wifi_assoc_request`, and what `hi_wifi_fast_assoc_request` adds to it.
pub record AssocRequest : Type 0 where
  pub ssid : List ℕ
  pub key : List ℕ
  pub bssid : List ℕ
  pub auth : HiAuthMode

pub record FastAssocRequest : Type 0 where
  pub channel : ℕ
  pub req : AssocRequest
  pub psk : List ℕ
  pub psk_flag : Bool

-- `WifiScanParams` and `hi_wifi_scan_params`
pub record ScanParams : Type 0 where
  pub ssid : List ℕ
  pub ssid_len : ℕ
  pub bssid : List ℕ
  pub scan_type : WifiScanType
  pub freqs : ℕ

pub record HiScanParams : Type 0 where
  pub ssid : List ℕ
  pub ssid_len : ℕ
  pub bssid : List ℕ
  pub scan_type : HiScanType
  pub channel : ℕ

-- `hi_wifi_ap_info` and `WifiScanInfo`, the fields that the service uses
pub record ApInfo : Type 0 where
  pub ssid : List ℕ
  pub bssid : List ℕ
  pub auth : HiAuthMode
  pub rssi : ℤ
  pub channel : ℕ

pub record ScanInfo : Type 0 where
  pub ssid : List ℕ
  pub bssid : List ℕ
  pub security_type : WifiSecurityType
  pub rssi : ℤ
  pub frequency : ℕ

-- `hi_wifi_status`; `connected` is whether its status is HI_WIFI_CONNECTED.
pub record LinkStatus : Type 0 where
  pub ssid : List ℕ
  pub bssid : List ℕ
  pub connected : Bool

-- `HotspotConfig` and `hi_wifi_softap_config`, the fields that the service uses
pub record HotspotConfig : Type 0 where
  pub ssid : List ℕ
  pub pre_shared_key : List ℕ
  pub security_type : WifiSecurityType
  pub channel_num : ℕ
  pub band : ℤ

pub record SoftapConfig : Type 0 where
  pub ssid : List ℕ
  pub key : List ℕ
  pub channel_num : ℕ
  pub authmode : HiAuthMode

-- `hi_wifi_frame_type`, the two frames that carry the power element.
pub data Frame : Type 0 where
  beacon probe_rsp : Frame

-- `TpcElement`; `power` is the byte of its `signed char`.
pub record TpcElement : Type 0 where
  pub id : ℕ
  pub len : ℕ
  pub power : ℕ
  pub margin : ℕ

-- How `WIFI_FILE` is opened.
pub data OpenFlags : Type 0 where
  rdonly rdwr_creat_trunc rdwr_creat : OpenFlags

-- A call that leaves the service.
pub data Call : Type 0 where
  mutex_new acquire release : Lock → Call
  sta_start sta_stop sta_scan sta_scan_results sta_disconnect : Call
  set_reconnect_policy : ℕ → ℕ → ℕ → ℕ → Call
  sta_advance_scan : HiScanParams → Call
  hi_sta_connect : AssocRequest → Call
  hi_sta_fast_connect : FastAssocRequest → Call
  get_connect_info get_ap_rssi get_macaddr : Call
  register_event_callback config_callback : Call
  file_open : OpenFlags → Call
  file_write : ℤ → DeviceConfig → ℕ → Call
  file_read : ℤ → ℕ → Call
  file_seek file_close : ℤ → Call
  file_stat : Call
  malloc_results free_results : Call
  find_sta_netif find_ap_netif : Call
  netif_get_addr dhcp_start dhcp_stop link_up link_down set_up set_down : Call
  set_addr : ℕ → ℕ → ℕ → Call
  dns_setserver : ℕ → ℕ → Call
  softap_start : SoftapConfig → Call
  softap_stop dhcps_start get_channel get_connected_sta : Call
  dhcps_get_client_ip deauth_sta : List ℕ → Call
  add_ie : Frame → TpcElement → Call
  delete_ie : Frame → Call
  connection_changed : ℕ → EventState → LinkedInfo → Call
  scan_state_changed : ℕ → EventState → ℕ → Call
  hotspot_state_changed : ℕ → EventState → Call
  hotspot_sta_join hotspot_sta_leave : ℕ → StationInfo → Call
