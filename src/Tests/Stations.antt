-- ===== src/Tests/Stations.antt =====
-- The station, the hotspot, the event path and the conversions at concrete states.
use ohos_l0_adapter.Base.{
  List, [], ◌∷◌, none, some, ◌≡◌, refl, true, false, returned, go, fault, is_zero, ◌+ℤ◌, ◌+◌, ◌>>=◌,
}
use ohos_l0_adapter.Wifi.Types.{
  WifiErrorCode, EventState, unknown, busy, scan_state_changed, ApInfo, softap_start, softap_stop,
  dhcps_start,
}
use ohos_l0_adapter.Wifi.Service.{Service, call, lock, unlock, lock_or_return, unlock_or_return}
use ohos_l0_adapter.Wifi.Reports.{get_scan_info_list}
use ohos_l0_adapter.Wifi.Reports.Results.{allocated, freed, get_scan_info_list-frees}
use ohos_l0_adapter.Wifi.Station.{enable_wifi, disable_wifi, announce}
use ohos_l0_adapter.Wifi.Station.Transitions.{
  EnableStep, DisableStep, begin, switch, radio_on, toggle_all, enable_wifi_lem, disable_wifi_lem,
  toggle_all-active,
}
use ohos_l0_adapter.Wifi.Dispatch.{for_each_handler, hi_wifi_wpa_event_cb}
use ohos_l0_adapter.Wifi.Dispatch.Fanout.{calls, announce-tells}
use ohos_l0_adapter.Wifi.Dispatch.Network.{hi_wifi_wpa_event_cb-fault}
use ohos_l0_adapter.Wifi.Hotspot.{enable_hotspot, softap_copy_code, softap_request}
use ohos_l0_adapter.Wifi.Hotspot.Switch.{enable_hotspot-stuck, radio_calls}
use ohos_l0_adapter.Tests.Boards.{
  board, all_well, no_policy, no_dhcps, all_well-LocksWork, no_policy-LocksWork, no_dhcps-LocksWork,
  idle, service, two_homes, connected_event,
}

enable_wifi_lem_example :
    let (x, t) = enable_wifi (board no_policy) idle in
    (r : WifiErrorCode) × (x ≡ returned r)
    × EnableStep (switch idle) r (switch t)
    × (t.global_lock ≡ idle.global_lock)
enable_wifi_lem_example = enable_wifi_lem (board no_policy) no_policy-LocksWork idle refl

disable_wifi_lem_example :
    let (x, t) = disable_wifi (board all_well) idle in
    (r : WifiErrorCode) × (x ≡ returned r)
    × DisableStep (switch idle) r (switch t)
    × (t.global_lock ≡ idle.global_lock)
disable_wifi_lem_example = disable_wifi_lem (board all_well) all_well-LocksWork idle refl

ends_active : (toggle_all (board all_well) (true ∷ false ∷ true ∷ []) idle).sta_active ≡ true
unfolding enable_wifi disable_wifi lock_or_return lock unlock_or_return unlock call ◌>>=◌
ends_active = refl

toggle_all-active_example :
    radio_on (toggle_all (board all_well) (true ∷ false ∷ true ∷ []) idle).history ≡ true
toggle_all-active_example =
    toggle_all-active (board all_well) all_well-LocksWork (true ∷ false ∷ true ∷ []) idle refl begin
      ends_active

announce-tells_example :
    let (r, t) =
      for_each_handler {R = WifiErrorCode}
        (announce (board all_well))
        (some 7 ∷ none ∷ some 8 ∷ [])
        idle in
    (r ≡ go tt)
    × (calls t.history
        ≡ scan_state_changed 7 EventState.not_available 0
          ∷ scan_state_changed 8 EventState.not_available 0
          ∷ [])
    × (t ≡ record idle { history = t.history })
announce-tells_example =
    announce-tells {R = WifiErrorCode} (board all_well) (some 7 ∷ none ∷ some 8 ∷ []) idle

-- One listener in the first slot.
abbrev listening : Service
listening = service (some 7 ∷ none ∷ []) two_homes

hi_wifi_wpa_event_cb-fault_example :
    (hi_wifi_wpa_event_cb (board all_well) (some connected_event) listening).0 ≡ fault
hi_wifi_wpa_event_cb-fault_example =
    hi_wifi_wpa_event_cb-fault (board all_well) all_well-LocksWork refl refl (λ h. refl) listening 7
      (none ∷ []) connected_event refl refl refl refl refl

hotspot_copies : is_zero (softap_copy_code (board all_well)) ≡ true
unfolding softap_copy_code ◌+ℤ◌
hotspot_copies = refl

hotspot_copies_there : is_zero (softap_copy_code (board no_dhcps)) ≡ true
unfolding softap_copy_code ◌+ℤ◌
hotspot_copies_there = refl

enable_hotspot-stuck_example :
    let (r, t) = enable_hotspot (board no_dhcps) idle in
    let (q, u) = enable_hotspot (board no_dhcps) t in
    (r ≡ returned unknown)
    × (t.ap_active ≡ true)
    × (radio_calls t.history
        ≡ softap_stop
          ∷ dhcps_start
          ∷ softap_start (softap_request (board no_dhcps) idle.ap_config)
          ∷ [])
    × (q ≡ returned busy)
    × (u.ap_active ≡ true)
    × (radio_calls u.history ≡ radio_calls t.history)
enable_hotspot-stuck_example =
    enable_hotspot-stuck (board no_dhcps) no_dhcps-LocksWork hotspot_copies_there refl (λ h c. refl)
      (λ h. refl) idle refl refl (λ h. refl)

get_scan_info_list-frees_example :
    let (r, t) = get_scan_info_list (board all_well) 5 idle in
    freed t.history + 0 ≡ 0 + allocated t.history
get_scan_info_list-frees_example = get_scan_info_list-frees (board all_well) 5 idle

-- What `board` finds in a scan.
abbrev found : List ApInfo
found = (board all_well).scan_results []
