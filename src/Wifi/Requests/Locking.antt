-- ===== src/Wifi/Requests/Locking.antt =====
-- The mutexes over whole requests to the Wi-Fi service.
mod Switches
mod Listeners
mod Networks
mod Answers
use ohos_l0_adapter.Base.{
  ℕ, ◌+◌, ◌≤◌, ◌≡◌, refl, ap, List, [], ◌∷◌, Option, none, some, Flow, go, returned, fault, arith,
  Option-cases, inl, inr, ◌∙◌, Ends,
}
use ohos_l0_adapter.Wifi.Types.{Lock, global, event}
use ohos_l0_adapter.Wifi.Service.{Platform, Service, Fn}
use ohos_l0_adapter.Wifi.Service.Balance.{IsReady, Held, Balanced, nothing, extra, depth, failed}
use ohos_l0_adapter.Wifi.Configs.Store.{FilesWork}
use ohos_l0_adapter.Wifi.Requests.{Request, serve, serve_all, state_after}
use Switches
use Listeners
use Networks
use Answers
use mathlib.Core.Path.{subst}
use mathlib.Core.Option.{some-injective}

-- What a request keeps: both mutexes exist, and each is held as often as before and once more for
-- each of its releases that failed in between.
abbrev pub Keeps : Service → Service → Type 0
Keeps s t =
    IsReady t
    × ((l : Lock)
        → (failed l s.history ≤ failed l t.history)
          × (depth l t.history + failed l s.history ≡ depth l s.history + failed l t.history))

Keeps-Held : (s t : Service) → Held s.history nothing t → Keeps s t
Keeps-Held s t h = (h.ready, each)
  where
    each :
        (l : Lock)
        → (failed l s.history ≤ failed l t.history)
          × (depth l t.history + failed l s.history ≡ depth l s.history + failed l t.history)
    each global = (h.at_global.grows, omega (arith, h.at_global.more))
    each event = (h.at_event.grows, omega (arith, h.at_event.more))

Held-IsReady : (s : Service) → IsReady s → Held s.history nothing s
Held-IsReady s r = record {
  ready = r;
  at_global = record { more = omega arith; grows = omega arith };
  at_event = record { more = omega arith; grows = omega arith };
}

Ends-Keeps :
    {A : Type 0} (m : Flow A A × Service) (s t : Service)
    → Ends (Held s.history) (Unit {0}) nothing nothing m
    → state_after m ≡ some t
    → Keeps s t
Ends-Keeps (go a, u) s t h e = subst (Keeps s) (some-injective u t e) (Keeps-Held s u h)
Ends-Keeps (returned a, u) s t h e = subst (Keeps s) (some-injective u t e) (Keeps-Held s u h)
Ends-Keeps (fault, u) s t h e = cc

Balanced-Keeps :
    {A : Type 0} (m : Fn A)
    → Balanced (Unit {0}) m
    → (s t : Service) → IsReady s
    → state_after (m s) ≡ some t
    → Keeps s t
Balanced-Keeps m b s t r e = Ends-Keeps (m s) s t ((b s.history).at s (Held-IsReady s r)) e

module _ (p : Platform) (w : FilesWork p) where
  -- Where the mutexes exist and the file system works, every request whose behaviour is defined
  -- keeps the mutexes in place, and leaves each held as often as before it and once more for each of its
  -- releases that failed, whatever the driver, the kernel and the callbacks answer.
  pub serve-Keeps : (r : Request) (s t : Service) → IsReady s → serve p r s ≡ some t → Keeps s t
  unfolding serve
  serve-Keeps (Request.driver_event e) =
      Balanced-Keeps _ (Listeners.hi_wifi_wpa_event_cb-Balanced p e)
  serve-Keeps Request.enable_wifi = Balanced-Keeps _ (Switches.enable_wifi-Balanced p)
  serve-Keeps Request.disable_wifi = Balanced-Keeps _ (Switches.disable_wifi-Balanced p)
  serve-Keeps Request.is_wifi_active = Balanced-Keeps _ (Switches.is_wifi_active-Balanced p)
  serve-Keeps Request.scan = Balanced-Keeps _ (Switches.scan-Balanced p)
  serve-Keeps Request.disconnect = Balanced-Keeps _ (Switches.disconnect-Balanced p)
  serve-Keeps (Request.advance_scan q) = Balanced-Keeps _ (Switches.advance_scan-Balanced p q)
  serve-Keeps (Request.add_device_config c o) =
      Balanced-Keeps _ (Networks.add_device_config-Balanced p w c o)
  serve-Keeps (Request.get_device_configs n) =
      Balanced-Keeps _ (Networks.get_device_configs-Balanced p w n)
  serve-Keeps (Request.remove_device i) = Balanced-Keeps _ (Networks.remove_device-Balanced p w i)
  serve-Keeps (Request.connect_to i) = Balanced-Keeps _ (Listeners.connect_to-Balanced p i)
  serve-Keeps (Request.register_wifi_event e) =
      Balanced-Keeps _ (Listeners.register_wifi_event-Balanced p e)
  serve-Keeps (Request.unregister_wifi_event e) =
      Balanced-Keeps _ (Listeners.unregister_wifi_event-Balanced p e)
  serve-Keeps Request.enable_hotspot = Balanced-Keeps _ (Switches.enable_hotspot-Balanced p)
  serve-Keeps Request.disable_hotspot = Balanced-Keeps _ (Switches.disable_hotspot-Balanced p)
  serve-Keeps Request.is_hotspot_active = Balanced-Keeps _ (Switches.is_hotspot_active-Balanced p)
  serve-Keeps Request.get_hotspot_channel =
      Balanced-Keeps _ (Switches.get_hotspot_channel-Balanced p)
  serve-Keeps (Request.set_hotspot_config c) =
      Balanced-Keeps _ (Switches.set_hotspot_config-Balanced p c)
  serve-Keeps (Request.get_hotspot_config b) =
      Balanced-Keeps _ (Switches.get_hotspot_config-Balanced p b)
  serve-Keeps (Request.get_band b) = Balanced-Keeps _ (Switches.get_band-Balanced p b)
  serve-Keeps (Request.get_station_list n) =
      Balanced-Keeps _ (Switches.get_station_list-Balanced p n)
  serve-Keeps (Request.get_hotspot_interface_name n) =
      Balanced-Keeps _ (Switches.get_hotspot_interface_name-Balanced p n)
  serve-Keeps (Request.set_band b) = Balanced-Keeps _ (Switches.set_band-Balanced p b)
  serve-Keeps (Request.add_tx_power_info n) =
      Balanced-Keeps _ (Switches.add_tx_power_info-Balanced p n)
  serve-Keeps (Request.disassociate_sta mac) =
      Balanced-Keeps _ (Switches.disassociate_sta-Balanced p mac)
  serve-Keeps (Request.get_scan_info_list n) =
      Balanced-Keeps _ (Answers.get_scan_info_list-Balanced p n)
  serve-Keeps (Request.get_linked_info b) = Balanced-Keeps _ (Answers.get_linked_info-Balanced p b)
  serve-Keeps (Request.get_device_mac_address b) =
      Balanced-Keeps _ (Answers.get_device_mac_address-Balanced p b)

  -- Where no call on the network's file fails, the file is no longer than one network and both mutexes have been
  -- created, any sequence of requests
  -- that meets no undefined behaviour ends with both mutexes created, and each of them held as often as
  -- before it and once more for each release of it that failed in between: as often as before where the kernel
  -- released it each time.
  pub serve_all-Keeps :
      (rs : List Request) (s t : Service) → IsReady s → serve_all p rs s ≡ some t → Keeps s t
  unfolding serve_all
  serve_all-Keeps [] s t ready e =
      subst (Keeps s) (some-injective s t e) (ready, λ l. (omega arith, refl))
  serve_all-Keeps (r ∷ rs) s t ready e = elim (Option-cases (serve p r s)) [
    | inl undefined_now ↦ cc (rw (undefined_now, serve_all) at e)
    | inr (u, now) ↦
        follow u (serve-Keeps r s u ready now)
          (serve_all-Keeps rs u t (serve-Keeps r s u ready now).0 (rw (now, serve_all) at e))
  ]
    where
      follow : (u : Service) → Keeps s u → Keeps u t → Keeps s t
      follow u first later = (
        later.0,
        λ l.
            let (more, now) = first.1 l in
            let (most, then) = later.1 l in (omega (arith, more, most), omega (arith, now, then)),
      )
