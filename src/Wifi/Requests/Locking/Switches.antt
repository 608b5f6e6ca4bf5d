-- ===== src/Wifi/Requests/Locking/Switches.antt =====
-- The mutexes over the station's and the hotspot's functions (wifi_device.c, wifi_hotspot.c).
use ohos_l0_adapter.Base.{
  ℕ, zero, suc, true, false, List, [], ◌∷◌, Option, none, some, Goes, Goes-pure,
}
use ohos_l0_adapter.Wifi.Types.{HotspotConfig}
use ohos_l0_adapter.Wifi.Service.{Platform}
use ohos_l0_adapter.Wifi.Service.Balance.{Held, Balanced, balance_rules, nothing, holds_event}
use ohos_l0_adapter.Wifi.Dispatch.Fanout.{Goes-unavailable}
use ohos_l0_adapter.Wifi.Dispatch.Rules.{Goes-for_each_handler}
use ohos_l0_adapter.Wifi.Station.{
  enable_wifi, disable_wifi, is_wifi_active, disconnect, scan, announce_scan, announce,
  advance_scan,
}
use ohos_l0_adapter.Wifi.Hotspot.{
  enable_hotspot, set_hotspot_ip_config, disable_hotspot, is_hotspot_active, get_hotspot_channel,
  set_hotspot_config, get_hotspot_config, get_band, get_station_list, list_stations,
  get_peer_sta_wifi_ip, get_hotspot_interface_name, set_band, add_tx_power_info, disassociate_sta,
}

module _ (p : Platform) {F : Type 0} where
  pub enable_wifi-Balanced : Balanced F (enable_wifi p)
  unfolding enable_wifi
  enable_wifi-Balanced base = search balance_rules depth 30

  pub disable_wifi-Balanced : Balanced F (disable_wifi p)
  unfolding disable_wifi
  disable_wifi-Balanced base = search balance_rules depth 30

  pub is_wifi_active-Balanced : Balanced F (is_wifi_active p)
  unfolding is_wifi_active
  is_wifi_active-Balanced base = search balance_rules depth 30

  pub disconnect-Balanced : Balanced F (disconnect p)
  unfolding disconnect
  disconnect-Balanced base = search balance_rules depth 30

  pub disable_hotspot-Balanced : Balanced F (disable_hotspot p)
  unfolding disable_hotspot
  disable_hotspot-Balanced base = search balance_rules depth 30

  pub is_hotspot_active-Balanced : Balanced F (is_hotspot_active p)
  unfolding is_hotspot_active
  is_hotspot_active-Balanced base = search balance_rules depth 30

  pub get_hotspot_channel-Balanced : Balanced F (get_hotspot_channel p)
  unfolding get_hotspot_channel
  get_hotspot_channel-Balanced base = search balance_rules depth 30

  pub set_hotspot_config-Balanced : (c : Option HotspotConfig) → Balanced F (set_hotspot_config p c)
  unfolding set_hotspot_config
  set_hotspot_config-Balanced none base = search balance_rules depth 30
  set_hotspot_config-Balanced (some c) base = search balance_rules depth 30

  pub get_hotspot_config-Balanced : (c : _) → Balanced F (get_hotspot_config p c)
  unfolding get_hotspot_config
  get_hotspot_config-Balanced false base = search balance_rules depth 30
  get_hotspot_config-Balanced true base = search balance_rules depth 30

  pub get_band-Balanced : (c : _) → Balanced F (get_band p c)
  unfolding get_band
  get_band-Balanced false base = search balance_rules depth 30
  get_band-Balanced true base = search balance_rules depth 30

  pub get_hotspot_interface_name-Balanced : (c : _) → Balanced F (get_hotspot_interface_name p c)
  unfolding get_hotspot_interface_name
  get_hotspot_interface_name-Balanced c base = search balance_rules depth 30

  pub set_band-Balanced : (c : _) → Balanced F (set_band p c)
  unfolding set_band
  set_band-Balanced c base = search balance_rules depth 30

  pub add_tx_power_info-Balanced : (c : _) → Balanced F (add_tx_power_info p c)
  unfolding add_tx_power_info
  add_tx_power_info-Balanced c base = search balance_rules depth 30

  pub disassociate_sta-Balanced : (c : _) → Balanced F (disassociate_sta p c)
  unfolding disassociate_sta
  disassociate_sta-Balanced c base = search balance_rules depth 30

  pub set_hotspot_ip_config-Balanced :
      (k : _) (base : _) → Goes (Held base) F k k (set_hotspot_ip_config p) k
  unfolding set_hotspot_ip_config
  set_hotspot_ip_config-Balanced k base = search balance_rules depth 30

  pub enable_hotspot-Balanced : Balanced F (enable_hotspot p)
  unfolding enable_hotspot
  enable_hotspot-Balanced base =
      let configured = set_hotspot_ip_config-Balanced nothing base in search balance_rules depth 40

  pub get_peer_sta_wifi_ip-Balanced : (mac : _) → Balanced F (get_peer_sta_wifi_ip p mac)
  unfolding get_peer_sta_wifi_ip
  get_peer_sta_wifi_ip-Balanced mac base = search balance_rules depth 30

  pub list_stations-Balanced : (macs out : _) → Balanced F (list_stations p macs out)
  unfolding list_stations
  list_stations-Balanced [] out base = Goes-pure out
  list_stations-Balanced (mac ∷ macs) out base =
      let peer = get_peer_sta_wifi_ip-Balanced mac base in
      let rest = λ (o : List (List ℕ × Option ℕ)). list_stations-Balanced macs o base in
      search balance_rules depth 30

  pub get_station_list-Balanced : (n : _) → Balanced F (get_station_list p n)
  unfolding get_station_list
  get_station_list-Balanced zero base = search balance_rules
  get_station_list-Balanced (suc n) base =
      let listed = λ (macs : List (List ℕ)). list_stations-Balanced macs [] base in
      search balance_rules depth 30

  pub announce-Balanced : (k : _) (base : _) (h : ℕ) → Goes (Held base) F k k (announce p h) k
  unfolding announce
  announce-Balanced k base h = Goes-unavailable p h (search balance_rules)

  pub announce_scan-Balanced :
      (base : _) → Goes (Held base) F nothing nothing (announce_scan p) nothing
  unfolding announce_scan
  announce_scan-Balanced base =
      let turn = announce-Balanced holds_event base in
      search (balance_rules, Goes-for_each_handler) depth 30

  pub scan-Balanced : Balanced F (scan p)
  unfolding scan
  scan-Balanced base = let told = announce_scan-Balanced base in search balance_rules depth 30

  pub advance_scan-Balanced : (q : _) → Balanced F (advance_scan p q)
  unfolding advance_scan
  advance_scan-Balanced none base = search balance_rules
  advance_scan-Balanced (some q) base =
      let told = announce_scan-Balanced base in search balance_rules depth 30
