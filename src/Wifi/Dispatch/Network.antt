-- ===== src/Wifi/Dispatch/Network.antt =====
-- The network that a connection event configures (StaSetWifiNetConfig of wifi_device.c).
use ohos_l0_adapter.Base.{
  ℕ, negsuc, List, ◌∷◌, Option, some, ◌≡◌, true, false, is_zero, fault, ◌>>=◌,
}
use ohos_l0_adapter.Wifi.Types.{HiEvent, HiEventType, find_sta_netif}
use ohos_l0_adapter.Wifi.Service.{Platform, Service, History, call, lock, lock_or_return}
use ohos_l0_adapter.Wifi.Service.Working.{LocksWork}
use ohos_l0_adapter.Wifi.Dispatch.{
  config_at, for_each_handler, sta_set_wifi_net_config, tell_connected, dispatch_connect_event,
  dispatch_by, dispatch_event, hi_wifi_wpa_event_cb,
}

-- A connection that the driver reports before any ConnectTo, while `g_networkId` still is -1: with the event
-- mutex created and working, a listener in the first slot that has its connection callback set, a network
-- interface and copies that work, the callback reads g_wifiConfigs[-1].
pub hi_wifi_wpa_event_cb-fault :
    (p : Platform)
    → LocksWork p
    → is_zero (p.memcpy_s p.ssid_len 33) ≡ true
    → is_zero (p.memcpy_s p.mac_len 6) ≡ true
    → ((h : History) → is_zero (p.reply h find_sta_netif) ≡ false)
    → (s : Service) (h : ℕ) (rest : List (Option ℕ)) (e : HiEvent) → is_zero s.event_lock ≡ false
    → s.events ≡ some h ∷ rest
    → (p.handlers h).on_connection_changed ≡ true
    → s.network_id ≡ negsuc 0
    → e.event ≡ HiEventType.connected
    → (hi_wifi_wpa_event_cb p (some e) s).0 ≡ fault
unfolding hi_wifi_wpa_event_cb for_each_handler dispatch_event dispatch_by dispatch_connect_event
    tell_connected sta_set_wifi_net_config config_at lock_or_return lock call ◌>>=◌
hi_wifi_wpa_event_cb-fault p w ssid mac netif s h rest e ready slots hears nowhere kind =
    simp (ready, slots, hears, nowhere, kind, ssid, mac, netif, w.acquires)
