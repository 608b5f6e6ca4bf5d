-- ===== src/Wifi/Dispatch.antt =====
-- The event path of wifi_device.c: from a vendor event to the registered callbacks, with the
-- network configuration that a connection or its loss brings. Callbacks are taken not to call
-- back into the service.
pub mod Fanout
pub mod Network
pub mod Rules
use ohos_l0_adapter.Base.{
  ℕ, zero, suc, ◌+◌, List, [], ◌∷◌, Option, none, some, Bool, true, false, not, ◌&&◌, ℤ, pos,
  negsuc, is_zero, ◌>>=◌, ◌>>◌, pure, undefined, ret, gets, modify, when, branch, invoke, get_elem?,
  replicate,
}
use ohos_l0_adapter.Wifi.Types.{
  HiEvent, HiEventType, EventState, DeviceConfig, IpType, IpConfig, dhcp, static_ip, LinkedInfo,
  StationInfo, not_available, available, find_sta_netif, dhcp_start, dhcp_stop, link_up, link_down,
  set_up, set_down, set_addr, dns_setserver, connection_changed, scan_state_changed,
  hotspot_state_changed, hotspot_sta_join, hotspot_sta_leave, event,
}
use ohos_l0_adapter.Wifi.Service.{Platform, M, Fn, call, lock_or_return, unlock_or_return}

abbrev pub is_scan_done : HiEventType → Bool
is_scan_done HiEventType.scan_done = true
is_scan_done _ = false

abbrev pub is_connected : HiEventType → Bool
is_connected HiEventType.connected = true
is_connected _ = false

abbrev pub is_disconnected : HiEventType → Bool
is_disconnected HiEventType.disconnected = true
is_disconnected _ = false

abbrev pub is_no_network : HiEventType → Bool
is_no_network HiEventType.sta_fcon_no_network = true
is_no_network _ = false

abbrev pub is_sta_connected : HiEventType → Bool
is_sta_connected HiEventType.sta_connected = true
is_sta_connected _ = false

abbrev pub is_available : EventState → Bool
is_available available = true
is_available not_available = false

-- A struct read through a pointer that may be NULL.
unfoldable pub deref : {R A : Type 0} → Option A → M R A
deref none = undefined
deref (some a) = pure a

-- `g_wifiConfigs[i]`; the array holds `configs`, and any other index is undefined behaviour.
unfoldable pub config_at : {R : Type 0} → ℤ → M R DeviceConfig
config_at (pos i) = do deref (← gets (λ s. get_elem? s.configs i))
config_at (negsuc i) = undefined

-- The loops over `g_wifiEvents`: a NULL slot is passed over.
unfoldable pub for_each_handler :
    {R : Type 0} → (ℕ → Fn (Unit {0})) → List (Option ℕ) → M R (Unit {0})
for_each_handler f [] = pure tt
for_each_handler f (none ∷ slots) = for_each_handler f slots
for_each_handler f (some h ∷ slots) = invoke (f h) >> for_each_handler f slots

module _ (p : Platform) where
  -- `DispatchScanStateChangeEvent`; `h` is the address of the registered struct.
  unfoldable pub dispatch_scan_state_change_event : Option HiEvent → ℕ → EventState → Fn (Unit {0})
  dispatch_scan_state_change_event hisi_event h state = do
    when (not (p.handlers h).on_scan_state_changed) (ret tt)
    when (not (is_available state)) (do call p (scan_state_changed h state 0); ret tt)
    e ← deref hisi_event
    when (is_scan_done e.event) (do call p (scan_state_changed h state e.bss_num); pure tt)

  -- `StaSetLocaladdr`, whose netif is never NULL at its calls.
  abbrev pub sta_set_localaddr : {R : Type 0} → ℕ → ℕ → ℕ → M R ℤ
  sta_set_localaddr gw ipaddr netmask = call p (set_addr ipaddr netmask gw)

  -- The address that `StaSetDNSServer` sets at index `i`.
  unfoldable pub dns_address : {R : Type 0} → Bool → ℕ → M R ℕ
  dns_address false i = pure 0
  dns_address true i = do
    config ← config_at (← gets (λ s. s.network_id))
    deref (get_elem? config.static_ip.dns_servers i)

  -- The loop of `StaSetDNSServer`: `rounds` are left, at index `i`.
  unfoldable pub set_dns_servers : {R : Type 0} → Bool → ℕ → ℕ → M R (Unit {0})
  set_dns_servers connected zero i = pure tt
  set_dns_servers connected (suc rounds) i = do
    address ← dns_address connected i
    call p (dns_setserver i address)
    set_dns_servers connected rounds (i + 1)

  -- `StaSetDNSServer`
  unfoldable pub sta_set_dns_server : {R : Type 0} → Bool → M R (Unit {0})
  sta_set_dns_server connected = set_dns_servers connected p.max_dns_num 0

  -- The addresses that `StaSetWifiNetConfig` sets up or takes down, by the network's IP type.
  unfoldable pub bring_up : IpType → IpConfig → Fn (Unit {0})
  bring_up dhcp ip = do call p dhcp_start; pure tt
  bring_up static_ip ip = do
    call p link_up
    sta_set_localaddr ip.gateway ip.ip_address ip.netmask
    call p set_up
    sta_set_dns_server true
  bring_up IpType.unknown ip = pure tt

  unfoldable pub take_down : IpType → Fn (Unit {0})
  take_down dhcp = do call p dhcp_stop; sta_set_localaddr 0 0 0; pure tt
  take_down static_ip = do
    call p link_down
    call p set_down
    sta_set_localaddr 0 0 0
    sta_set_dns_server false
  take_down IpType.unknown = pure tt

  -- `StaSetWifiNetConfig`, at HI_WIFI_EVT_CONNECTED (`true`) or HI_WIFI_EVT_DISCONNECTED.
  unfoldable pub sta_set_wifi_net_config : Bool → Fn (Unit {0})
  sta_set_wifi_net_config connected = do
    netif ← call p find_sta_netif
    when (is_zero netif) (ret tt)
    config ← config_at (← gets (λ s. s.network_id))
    branch connected (bring_up config.ip_type config.static_ip) (take_down config.ip_type)

  -- `info` before any copy, with a reason; HI_WIFI_MAX_SSID_LEN + 1 is 33, HI_WIFI_MAC_LEN is 6.
  unfoldable pub unlinked_info : ℕ → LinkedInfo
  unlinked_info reason = record {
    ssid = replicate p.ssid_len 0;
    bssid = replicate p.mac_len 0;
    disconnected_reason = reason;
  }

  -- `DispatchConnectEvent` for HI_WIFI_EVT_CONNECTED.
  unfoldable pub tell_connected : HiEvent → ℕ → Fn (Unit {0})
  tell_connected e h = do
    modify (λ s. record s { connect_state = available })
    when (not (is_zero (p.memcpy_s p.ssid_len 33))) (ret tt)
    when (not (is_zero (p.memcpy_s p.mac_len 6))) (ret tt)
    invoke (sta_set_wifi_net_config true)
    call p (
        connection_changed h available
          (record { ssid = e.connected_ssid; bssid = e.connected_bssid; disconnected_reason = 0 }))
    ret tt

  -- The end of `DispatchConnectEvent`.
  unfoldable pub tell_disconnected : LinkedInfo → ℕ → Fn (Unit {0})
  tell_disconnected info h = do
    invoke (sta_set_wifi_net_config false)
    call p (connection_changed h not_available info)
    pure tt

  -- `DispatchConnectEvent`; WIFI_DISCONNECT_REASON_NO_AP is 1.
  unfoldable pub dispatch_connect_event : HiEvent → ℕ → Fn (Unit {0})
  dispatch_connect_event e h = do
    when (not (p.handlers h).on_connection_changed) (ret tt)
    when (is_connected e.event) (do invoke (tell_connected e h); ret tt)
    state ← gets (λ s. s.connect_state)
    when (is_no_network e.event && is_available state) (ret tt)
    when (is_disconnected e.event) (do
      when (not (is_zero (p.memcpy_s p.mac_len 6))) (ret tt)
      tell_disconnected
          (record {
            ssid = replicate p.ssid_len 0;
            bssid = e.disconnected_bssid;
            disconnected_reason = e.disconnected_reason;
          })
          h
      ret tt)
    tell_disconnected (unlinked_info 1) h

  -- `DispatchStaConnectEvent`
  unfoldable pub dispatch_sta_connect_event : HiEvent → ℕ → Fn (Unit {0})
  dispatch_sta_connect_event e h = do
    when (is_sta_connected e.event) (do
      when (not (p.handlers h).on_hotspot_sta_join) (ret tt)
      when (not (is_zero (p.memcpy_s p.mac_len 6))) (ret tt)
      call p (hotspot_sta_join h (record { mac_address = e.joined_addr; disconnected_reason = 0 }))
      ret tt)
    when (not (p.handlers h).on_hotspot_sta_leave) (ret tt)
    when (not (is_zero (p.memcpy_s p.mac_len 6))) (ret tt)
    call p (
        hotspot_sta_leave h
          (record { mac_address = e.left_addr; disconnected_reason = e.left_reason }))
    pure tt

  -- `DispatchApStartEvent`
  unfoldable pub dispatch_ap_start_event : ℕ → Fn (Unit {0})
  dispatch_ap_start_event h = do
    when (not (p.handlers h).on_hotspot_state_changed) (ret tt)
    call p (hotspot_state_changed h available)
    pure tt

  -- The switch of `DispatchEvent`.
  unfoldable pub dispatch_by : HiEventType → HiEvent → ℕ → Fn (Unit {0})
  dispatch_by HiEventType.scan_done e h = dispatch_scan_state_change_event (some e) h available
  dispatch_by HiEventType.connected e h = dispatch_connect_event e h
  dispatch_by HiEventType.disconnected e h = dispatch_connect_event e h
  dispatch_by HiEventType.sta_fcon_no_network e h = dispatch_connect_event e h
  dispatch_by HiEventType.sta_connected e h = dispatch_sta_connect_event e h
  dispatch_by HiEventType.sta_disconnected e h = dispatch_sta_connect_event e h
  dispatch_by HiEventType.ap_start e h = dispatch_ap_start_event h
  dispatch_by _ e h = pure tt

  -- `DispatchEvent`
  unfoldable pub dispatch_event : HiEvent → ℕ → Fn (Unit {0})
  dispatch_event e h = dispatch_by e.event e h

  -- `HiWifiWpaEventCb`
  unfoldable pub hi_wifi_wpa_event_cb : Option HiEvent → Fn (Unit {0})
  hi_wifi_wpa_event_cb none = ret tt
  hi_wifi_wpa_event_cb (some e) = do
    lock_or_return p event tt
    slots ← gets (λ s. s.events)
    for_each_handler (dispatch_event e) slots
    unlock_or_return p event tt
