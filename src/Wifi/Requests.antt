-- ===== src/Wifi/Requests.antt =====
-- What clients and the driver ask of the Wi-Fi service, one request for each function that they
-- can call, and the state that a request leaves. Requests are taken one at a time.
pub mod Locking
use ohos_l0_adapter.Base.{ℕ, List, [], ◌∷◌, Option, none, some, Bool, ℤ, Flow, go, returned, fault}
use ohos_l0_adapter.Wifi.Types.{HiEvent, ScanParams, DeviceConfig, HotspotConfig}
use ohos_l0_adapter.Wifi.Service.{Platform, Service}
use ohos_l0_adapter.Wifi.Dispatch
use ohos_l0_adapter.Wifi.Station
use ohos_l0_adapter.Wifi.Configs
use ohos_l0_adapter.Wifi.Connect
use ohos_l0_adapter.Wifi.Registry
use ohos_l0_adapter.Wifi.Hotspot
use ohos_l0_adapter.Wifi.Reports

pub data Request : Type 0 where
  driver_event : Option HiEvent → Request
  enable_wifi disable_wifi is_wifi_active scan disconnect : Request
  advance_scan : Option ScanParams → Request
  add_device_config : Option DeviceConfig → Option (Unit {0}) → Request
  get_device_configs : Option ℕ → Request
  remove_device connect_to : ℤ → Request
  register_wifi_event unregister_wifi_event : Option ℕ → Request
  enable_hotspot disable_hotspot is_hotspot_active get_hotspot_channel : Request
  set_hotspot_config : Option HotspotConfig → Request
  get_hotspot_config get_band : Bool → Request
  get_station_list get_hotspot_interface_name : ℕ → Request
  set_band add_tx_power_info : ℤ → Request
  disassociate_sta : List ℕ → Request
  get_scan_info_list : ℕ → Request
  get_linked_info get_device_mac_address : Bool → Request

-- The state in which a function ends, unless its behaviour is undefined.
abbrev pub state_after : {A : Type 0} → Flow A A × Service → Option Service
state_after (go a, s) = some s
state_after (returned a, s) = some s
state_after (fault, s) = none

module _ (p : Platform) where
  -- The state after a request.
  unfoldable pub serve : Request → Service → Option Service
  serve (driver_event e) s = state_after (Dispatch.hi_wifi_wpa_event_cb p e s)
  serve enable_wifi s = state_after (Station.enable_wifi p s)
  serve disable_wifi s = state_after (Station.disable_wifi p s)
  serve is_wifi_active s = state_after (Station.is_wifi_active p s)
  serve scan s = state_after (Station.scan p s)
  serve disconnect s = state_after (Station.disconnect p s)
  serve (advance_scan params) s = state_after (Station.advance_scan p params s)
  serve (add_device_config c r) s = state_after (Configs.add_device_config p c r s)
  serve (get_device_configs n) s = state_after (Configs.get_device_configs p n s)
  serve (remove_device i) s = state_after (Configs.remove_device p i s)
  serve (connect_to i) s = state_after (Connect.connect_to p i s)
  serve (register_wifi_event e) s = state_after (Registry.register_wifi_event p e s)
  serve (unregister_wifi_event e) s = state_after (Registry.unregister_wifi_event p e s)
  serve enable_hotspot s = state_after (Hotspot.enable_hotspot p s)
  serve disable_hotspot s = state_after (Hotspot.disable_hotspot p s)
  serve is_hotspot_active s = state_after (Hotspot.is_hotspot_active p s)
  serve get_hotspot_channel s = state_after (Hotspot.get_hotspot_channel p s)
  serve (set_hotspot_config c) s = state_after (Hotspot.set_hotspot_config p c s)
  serve (get_hotspot_config b) s = state_after (Hotspot.get_hotspot_config p b s)
  serve (get_band b) s = state_after (Hotspot.get_band p b s)
  serve (get_station_list n) s = state_after (Hotspot.get_station_list p n s)
  serve (get_hotspot_interface_name n) s = state_after (Hotspot.get_hotspot_interface_name p n s)
  serve (set_band b) s = state_after (Hotspot.set_band p b s)
  serve (add_tx_power_info n) s = state_after (Hotspot.add_tx_power_info p n s)
  serve (disassociate_sta mac) s = state_after (Hotspot.disassociate_sta p mac s)
  serve (get_scan_info_list n) s = state_after (Reports.get_scan_info_list p n s)
  serve (get_linked_info b) s = state_after (Reports.get_linked_info p b s)
  serve (get_device_mac_address b) s = state_after (Reports.get_device_mac_address p b s)

  -- The state after a sequence of requests.
  unfoldable pub serve_all : List Request → Service → Option Service
  serve_all [] s = some s
  serve_all (r ∷ rs) s = elim (serve r s) [ none ↦ none | some s' ↦ serve_all rs s' ]
