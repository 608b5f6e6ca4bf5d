-- ===== src/Tests/Networks.antt =====
-- The stored networks, the listeners and whole requests of the Wi-Fi service at concrete states.
use ohos_l0_adapter.Base.{
  pos, negsuc, List, [], ◌∷◌, Option, none, some, ◌≡◌, refl, ap, true, false, returned, set, length,
  replicate, is_zero, arith, ◌>>=◌, ◌+ℤ◌,
}
use ohos_l0_adapter.Wifi.Types.{
  success, unknown, invalid_args, not_available, global, EventState, DeviceConfig, AssocRequest,
  HiAuthMode,
}
use ohos_l0_adapter.Wifi.Service.{Service, Platform}
use ohos_l0_adapter.Wifi.Service.Balance.{depth}
use ohos_l0_adapter.Wifi.Service.{call, lock, unlock, lock_or_return, unlock_or_return}
use ohos_l0_adapter.Wifi.Convert.{frequency_to_channel}
use ohos_l0_adapter.Wifi.Dispatch.{
  config_at, deref, for_each_handler, dispatch_event, dispatch_by, dispatch_connect_event,
  tell_connected, sta_set_wifi_net_config, bring_up, hi_wifi_wpa_event_cb,
}
use ohos_l0_adapter.Wifi.Configs.{
  first_unused, write_network_config, add_at, add_in, add_device_config, get_device_configs,
}
use ohos_l0_adapter.Wifi.Configs.Adding.{add_device_config_lem, add_device_config-leaks}
use ohos_l0_adapter.Wifi.Configs.Restart.{written, FileKeeps, add_device_config-restart}
use ohos_l0_adapter.Wifi.Configs.Store.{FilesWork}
use ohos_l0_adapter.Wifi.Service.Working.{LocksWork}
use ohos_l0_adapter.Wifi.Configs.Slots.{get_device_configs-fits, get_device_configs-overflows}
use ohos_l0_adapter.Wifi.Connect.{connect_at, connect_to, sta_connect, request_copy_code}
use ohos_l0_adapter.Wifi.Connect.Attempt.{connect_to_lem}
use ohos_l0_adapter.Wifi.Registry.{
  find_slot, register_at, register_hisi_callback, register_wifi_event, unregister_wifi_event,
}
use ohos_l0_adapter.Wifi.Registry.Table.{count}
use ohos_l0_adapter.Wifi.Registry.Slots.{
  Registers, register_wifi_event-Registers, register_duplicates, unregister-register,
}
use ohos_l0_adapter.Wifi.Requests.{Request, serve, serve_all}
use ohos_l0_adapter.Wifi.Requests.Locking.{Keeps, serve_all-Keeps}
use ohos_l0_adapter.Tests.Boards.{
  board, all_well, no_file, all_well-LocksWork, no_file-LocksWork, all_well-FilesWork, service,
  two_homes, idle, idle-IsReady, home, blank_config,
}

-- A client that registers and stores a network.
abbrev session : List Request
session =
    Request.register_wifi_event (some 9) ∷ Request.add_device_config (some home) (some tt) ∷ []

abbrev or_idle : Option Service → Service
or_idle none = idle
or_idle (some s) = s

session_runs :
    serve_all (board all_well) session idle
    ≡ some (or_idle (serve_all (board all_well) session idle))
unfolding serve serve_all register_wifi_event find_slot register_at register_hisi_callback
    add_device_config add_in add_at first_unused write_network_config config_at deref connect_to
    connect_at request_copy_code sta_connect frequency_to_channel hi_wifi_wpa_event_cb
    for_each_handler dispatch_event dispatch_by dispatch_connect_event tell_connected
    sta_set_wifi_net_config bring_up lock_or_return lock unlock_or_return unlock call ◌>>=◌ ◌+ℤ◌
session_runs = refl

serve_all-Keeps_example : Keeps idle (or_idle (serve_all (board all_well) session idle))
serve_all-Keeps_example =
    serve_all-Keeps (board all_well) all_well-FilesWork session idle
      (or_idle (serve_all (board all_well) session idle)) idle-IsReady session_runs

register_wifi_event-Registers_example :
    let (r, t) = register_wifi_event (board all_well) (some 9) idle in
    Registers 9 r idle.events t.events
register_wifi_event-Registers_example =
    register_wifi_event-Registers (board all_well) all_well-LocksWork idle refl 9

-- No gap in front of the struct 7.
abbrev compact : Service
compact = service (some 7 ∷ none ∷ []) two_homes

register_duplicates_example :
    ((register_wifi_event (board all_well) (some 7) idle).0 ≡ returned success)
    × (count 7 (register_wifi_event (board all_well) (some 7) idle).1.events ≡ 2)
register_duplicates_example =
    register_duplicates (board all_well) all_well-LocksWork idle refl 7 [] (some 7 ∷ none ∷ []) refl
      refl

registers : (register_wifi_event (board all_well) (some 9) idle).0 ≡ returned success
unfolding register_wifi_event find_slot register_at register_hisi_callback lock_or_return lock
    unlock_or_return unlock call ◌>>=◌
registers = refl

unregister-register_example :
    let t = (register_wifi_event (board all_well) (some 9) idle).1 in
    ((unregister_wifi_event (board all_well) (some 9) t).0 ≡ returned success)
    × ((unregister_wifi_event (board all_well) (some 9) t).1.events ≡ idle.events)
unregister-register_example =
    unregister-register (board all_well) all_well-LocksWork idle refl 9 refl registers

-- The third slot is free.
third_free : ¬ (negsuc 0 ≡ pos 2)
third_free e = cc

add_device_config_lem_example :
    let (r, t) = add_device_config (board all_well) (some home) (some tt) idle in
    (r ≡ returned (success, some 2))
    × (t.configs ≡ set two_homes 2 (record home { net_id = pos 2 }))
add_device_config_lem_example =
    add_device_config_lem (board all_well) all_well-LocksWork refl idle refl 2 blank_config refl
      third_free (refl, (refl, tt)) all_well-FilesWork home

add_device_config-leaks_example :
    let (r, t) = add_device_config (board no_file) (some home) (some tt) idle in
    (r ≡ returned (unknown, none))
    × (t.configs ≡ set two_homes 2 (record home { net_id = pos 2 }))
    × (depth global t.history ≡ 1)
add_device_config-leaks_example =
    add_device_config-leaks (board no_file) no_file-LocksWork refl idle refl 2 blank_config refl
      third_free (refl, (refl, tt)) (λ h flags. refl) home

get_device_configs-fits_example :
    (get_device_configs (board all_well) (some 5) idle).0
    ≡ returned (success, home ∷ record home { net_id = pos 1 } ∷ [])
get_device_configs-fits_example =
    get_device_configs-fits (board all_well) all_well-LocksWork refl idle refl refl 5 (omega arith)

get_device_configs-overflows_example :
    (out : List DeviceConfig) × ((get_device_configs (board all_well) (some 1) idle).0
      ≡ returned (invalid_args, out))
    × (length out ≡ 2)
get_device_configs-overflows_example =
    get_device_configs-overflows (board all_well) all_well-LocksWork refl idle refl refl 1
      (omega arith)

abbrev request : AssocRequest
request = record {
  ssid = replicate 33 0;
  key = replicate 65 0;
  bssid = replicate 6 0;
  auth = HiAuthMode.open_system;
}

copies : is_zero (request_copy_code (board all_well)) ≡ true
unfolding request_copy_code ◌+ℤ◌
copies = refl

no_channel : frequency_to_channel 0 ≡ 0
unfolding frequency_to_channel
no_channel = refl

connect_to_lem_example :
    let (r, t) = connect_to (board all_well) (pos 0) idle in
    (r ≡ returned success) × (t.network_id ≡ pos 0) × (t.connect_state ≡ EventState.not_available)
connect_to_lem_example =
    connect_to_lem (board all_well) all_well-LocksWork idle refl 0 refl home refl refl copies
      no_channel refl true (λ h req. refl)

-- A file that keeps what is written.
abbrev or_blank : Option DeviceConfig → DeviceConfig
or_blank none = blank_config
or_blank (some c) = c

abbrev keeping : Platform
keeping = record (board all_well) { file_content = λ h. or_blank (written h) }

keeping-FileKeeps : FileKeeps keeping
keeping-FileKeeps h c e = ap or_blank e

keeping-LocksWork : LocksWork keeping
keeping-LocksWork = record {
  acquires = all_well-LocksWork.acquires;
  releases = all_well-LocksWork.releases;
}

keeping-FilesWork : FilesWork keeping
keeping-FilesWork = record {
  opens = all_well-FilesWork.opens;
  writes = all_well-FilesWork.writes;
  reads = all_well-FilesWork.reads;
  seeks = all_well-FilesWork.seeks;
  stats = all_well-FilesWork.stats;
  fits = all_well-FilesWork.fits;
}

-- The service after AddDeviceConfig into slot 2 and a restart.
abbrev restarted : Service
restarted = record idle {
  configs = blank_config ∷ blank_config ∷ blank_config ∷ [];
  config_read = false;
  history = (add_device_config keeping (some home) (some tt) idle).1.history;
}

add_device_config-restart_example :
    (get_device_configs keeping (some 5) restarted).0 ≡ returned (not_available, [])
add_device_config-restart_example =
    add_device_config-restart keeping keeping-LocksWork keeping-FilesWork keeping-FileKeeps refl
      idle refl 2 blank_config refl third_free (refl, (refl, tt)) home blank_config
      (blank_config ∷ blank_config ∷ []) 5 restarted refl refl refl refl refl (omega arith)
