-- ===== src/Tests/Boards.antt =====
-- Concrete platforms and states of the Wi-Fi service.
use ohos_l0_adapter.Base.{
  ℕ, ℤ, pos, negsuc, List, [], ◌∷◌, Option, none, some, true, false, replicate, refl, ltb,
  if◌then◌else◌,
}
use ohos_l0_adapter.Wifi.Types.{
  Call, DeviceConfig, HotspotConfig, WifiSecurityType, dhcp, EventState, HiEvent, HiEventType,
  mutex_new, malloc_results, HiAuthMode, file_open, find_sta_netif, find_ap_netif,
  set_reconnect_policy, dhcps_start, add_ie, probe_rsp,
}
use ohos_l0_adapter.Wifi.Service.{Platform, Service}
use ohos_l0_adapter.Wifi.Service.Working.{LocksWork}
use ohos_l0_adapter.Wifi.Service.Balance.{IsReady}
use ohos_l0_adapter.Wifi.Configs.Store.{FilesWork}

abbrev pub blank_config : DeviceConfig
blank_config = record {
  ssid = replicate 33 0;
  bssid = replicate 6 0;
  pre_shared_key = replicate 65 0;
  security_type = WifiSecurityType.open_system;
  net_id = negsuc 0;
  freq = 0;
  wapi_psk_type = 0;
  ip_type = dhcp;
  static_ip = record { ip_address = 0; gateway = 0; dns_servers = []; netmask = 0 };
}

-- A stored network in slot 0.
abbrev pub home : DeviceConfig
home = record blank_config { net_id = pos 0; pre_shared_key = 104 ∷ 105 ∷ [] }

abbrev pub blank_hotspot : HotspotConfig
blank_hotspot = record {
  ssid = replicate 33 0;
  pre_shared_key = replicate 65 0;
  security_type = WifiSecurityType.psk;
  channel_num = 0;
  band = pos 1;
}

-- A copy fails where the destination is too small.
abbrev copy_code : ℕ → ℕ → ℤ
copy_code size count = if ltb size count then pos 34 else pos 0

-- A platform whose calls return by `answer`, whatever happened before.
abbrev pub board : (Call → ℤ) → Platform
board answer = record {
  reply = λ h c. answer c;
  memcpy_s = copy_code;
  memset_s = copy_code;
  after_failed_copy = λ c. c;
  after_failed_hotspot_copy = λ c. c;
  zeroed = blank_config;
  handlers = λ h. record {
    on_connection_changed = true;
    on_scan_state_changed = true;
    on_hotspot_state_changed = true;
    on_hotspot_sta_join = true;
    on_hotspot_sta_leave = true;
  };
  scan_results = λ h.
      record {
        ssid = replicate 33 65;
        bssid = replicate 6 1;
        auth = HiAuthMode.wep;
        rssi = negsuc 50;
        channel = 6;
      }
      ∷ [];
  link_status = λ h. record { ssid = replicate 33 0; bssid = replicate 6 0; connected = true };
  local_ip = λ h. 0;
  file_length = λ h. 100;
  file_content = λ h. home;
  softap_ifname = λ h. replicate 17 0;
  connected_stas = λ h. [];
  client_ip = λ h. 0;
  ip4_addr = λ a b c d. 0;
  ntohl = λ a. a;
  has_dhcps_ip = true;
  max_config_size = 10;
  config_invalid = negsuc 0;
  ssid_len = 33;
  key_len = 65;
  mac_len = 6;
  config_size = 200;
  assoc_request_size = 112;
  softap_config_size = 120;
  ifname_max_size = 16;
  hotspot_config_size = 110;
  max_dns_num = 2;
  scan_hotspot_limit = 64;
  psk_type_hex = 1;
  default_channel = 6;
  max_sta_num = 6;
  band_2g = pos 1;
  band_5g = pos 2;
}

-- Every call succeeds; descriptors, interfaces and handles are not 0.
abbrev pub all_well : Call → ℤ
all_well (mutex_new l) = pos 1
all_well malloc_results = pos 1
all_well find_sta_netif = pos 1
all_well find_ap_netif = pos 1
all_well c = pos 0

-- No file opens.
abbrev pub no_file : Call → ℤ
no_file (file_open flags) = negsuc 0
no_file c = all_well c

-- The reconnect policy is refused.
abbrev pub no_policy : Call → ℤ
no_policy (set_reconnect_policy a b c d) = pos 1
no_policy c = all_well c

-- The DHCP server does not start.
abbrev pub no_dhcps : Call → ℤ
no_dhcps dhcps_start = pos 1
no_dhcps c = all_well c

-- The probe response takes no element.
abbrev pub no_probe : Call → ℤ
no_probe (add_ie probe_rsp e) = pos 1
no_probe c = all_well c

pub all_well-LocksWork : LocksWork (board all_well)
all_well-LocksWork = record { acquires = λ h l. refl; releases = λ h l. refl }

pub no_file-LocksWork : LocksWork (board no_file)
no_file-LocksWork = record { acquires = λ h l. refl; releases = λ h l. refl }

pub no_policy-LocksWork : LocksWork (board no_policy)
no_policy-LocksWork = record { acquires = λ h l. refl; releases = λ h l. refl }

pub no_dhcps-LocksWork : LocksWork (board no_dhcps)
no_dhcps-LocksWork = record { acquires = λ h l. refl; releases = λ h l. refl }

pub all_well-FilesWork : FilesWork (board all_well)
all_well-FilesWork = record {
  opens = λ h flags. refl;
  writes = λ h fd c n. refl;
  reads = λ h fd n. refl;
  seeks = λ h fd. refl;
  stats = λ h. refl;
  fits = λ h. refl;
}

-- The service with `slots` listeners and `configs` networks, its mutexes created.
abbrev pub service : List (Option ℕ) → List DeviceConfig → Service
service slots configs = record {
  global_lock = pos 1;
  event_lock = pos 2;
  sta_active = false;
  ap_active = false;
  configs = configs;
  events = slots;
  connect_state = EventState.available;
  network_id = negsuc 0;
  config_read = true;
  config_exists = true;
  ap_config = blank_hotspot;
  ap_if_name = replicate 17 0;
  history = [];
}

-- Ten slots, the first two in use by `home` and a second network; and ten free ones.
abbrev pub two_homes : List DeviceConfig
two_homes = home ∷ record home { net_id = pos 1 } ∷ replicate 8 blank_config

abbrev pub idle : Service
idle = service (none ∷ some 7 ∷ none ∷ []) two_homes

pub idle-IsReady : IsReady idle
idle-IsReady = record { global_created = refl; event_created = refl }

-- The driver's report of a connection.
abbrev pub connected_event : HiEvent
connected_event = record {
  event = HiEventType.connected;
  bss_num = 0;
  connected_ssid = replicate 33 0;
  connected_bssid = replicate 6 0;
  disconnected_bssid = replicate 6 0;
  disconnected_reason = 0;
  joined_addr = replicate 6 0;
  left_addr = replicate 6 0;
  left_reason = 0;
}
