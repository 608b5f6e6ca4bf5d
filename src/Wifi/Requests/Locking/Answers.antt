-- ===== src/Wifi/Requests/Locking/Answers.antt =====
-- The mutexes over what the service reports of the driver (wifi_device.c): none is taken.
use ohos_l0_adapter.Base.{
  ℕ, zero, suc, List, [], ◌∷◌, Option, none, some, Bool, true, false, Goes-pure,
}
use ohos_l0_adapter.Wifi.Types.{ApInfo, ScanInfo, WifiErrorCode}
use ohos_l0_adapter.Wifi.Service.{Platform}
use ohos_l0_adapter.Wifi.Service.Balance.{Balanced, balance_rules}
use ohos_l0_adapter.Wifi.Reports.{
  LinkReport, copy_results, get_scan_info_list, get_local_wifi_ip, link_rssi, report,
  get_linked_info, get_device_mac_address,
}

module _ (p : Platform) {F : Type 0} where
  copy_results-Balanced : (aps out : _) → Balanced F (copy_results p aps out)
  unfolding copy_results
  copy_results-Balanced [] out base = Goes-pure out
  copy_results-Balanced (a ∷ aps) out base =
      let rest = λ (o : List ScanInfo). copy_results-Balanced aps o base in
      search balance_rules depth 30

  pub get_scan_info_list-Balanced : (n : ℕ) → Balanced F (get_scan_info_list p n)
  unfolding get_scan_info_list
  get_scan_info_list-Balanced zero base = search balance_rules
  get_scan_info_list-Balanced (suc n) base =
      let copy = λ (aps : List ApInfo). copy_results-Balanced aps [] base in
      search balance_rules depth 30

  get_local_wifi_ip-Balanced : Balanced F (get_local_wifi_ip p)
  unfolding get_local_wifi_ip
  get_local_wifi_ip-Balanced base = search balance_rules depth 30

  link_rssi-Balanced : {R : Type 0} → (b : Bool) → Balanced {R = R} F (link_rssi p b)
  unfolding link_rssi
  link_rssi-Balanced true base = search balance_rules
  link_rssi-Balanced false base = Goes-pure none

  report-Balanced : (l : LinkReport) (ip : Option ℕ) → Balanced F (report p l ip)
  unfolding report
  report-Balanced l none base = search balance_rules
  report-Balanced l (some ip) base = search balance_rules

  pub get_linked_info-Balanced : (b : Bool) → Balanced F (get_linked_info p b)
  unfolding get_linked_info
  get_linked_info-Balanced false base = search balance_rules
  get_linked_info-Balanced true base =
      let rssi = λ (b : Bool). link_rssi-Balanced {R = WifiErrorCode × Option LinkReport} b base in
      let ip = get_local_wifi_ip-Balanced base in
      let end = λ (l : LinkReport) (o : Option ℕ). report-Balanced l o base in
      search balance_rules depth 30

  pub get_device_mac_address-Balanced : (b : Bool) → Balanced F (get_device_mac_address p b)
  unfolding get_device_mac_address
  get_device_mac_address-Balanced false base = search balance_rules
  get_device_mac_address-Balanced true base = search balance_rules depth 30
