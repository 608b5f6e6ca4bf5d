-- ===== src/Wifi/Requests/Locking/Listeners.antt =====
-- The mutexes over the table of listeners, the event path and the connection (wifi_device.c).
use ohos_l0_adapter.Base.{
  ℕ, zero, suc, ◌+◌, Bool, true, false, Option, none, some, pos, negsuc, Goes, Goes-seq, Goes-pure,
}
use ohos_l0_adapter.Wifi.Types.{
  WifiErrorCode, HiEventType, HiEvent, AssocRequest, LinkedInfo, IpType, IpConfig,
}
use ohos_l0_adapter.Wifi.Service.{Platform}
use ohos_l0_adapter.Wifi.Service.Balance.{Held, Balanced, balance_rules, nothing, holds_event}
use ohos_l0_adapter.Wifi.Dispatch.{
  dispatch_scan_state_change_event, dns_address, set_dns_servers, sta_set_dns_server, bring_up,
  take_down, sta_set_wifi_net_config, tell_connected, tell_disconnected, dispatch_connect_event,
  dispatch_sta_connect_event, dispatch_ap_start_event, dispatch_by, dispatch_event,
  hi_wifi_wpa_event_cb,
}
use ohos_l0_adapter.Wifi.Dispatch.Rules.{Goes-for_each_handler, Goes-config_at, Goes-deref}
use ohos_l0_adapter.Wifi.Connect.{sta_connect, connect_at, connect_to}
use ohos_l0_adapter.Wifi.Registry.{
  Found, registered, empty_slot, full, register_hisi_callback, register_at, register_wifi_event,
  unregister_at, unregister_wifi_event,
}

module _ (p : Platform) {F : Type 0} where
  register_hisi_callback-Balanced :
      {R : Type 0} (base : _)
      → Goes {R = R} (Held base) F nothing nothing (register_hisi_callback p) nothing
  unfolding register_hisi_callback
  register_hisi_callback-Balanced base = search balance_rules depth 10

  pub register_at-Balanced :
      (e : ℕ) (found : Found) (base : _)
      → Goes (Held base) F nothing holds_event (register_at p e found) nothing
  unfolding register_at
  register_at-Balanced e registered base = search balance_rules depth 20
  register_at-Balanced e full base = search balance_rules depth 20
  register_at-Balanced e (empty_slot i) base =
      let callbacks = register_hisi_callback-Balanced {R = WifiErrorCode} base in
      search balance_rules depth 20

  pub register_wifi_event-Balanced : (e : _) → Balanced F (register_wifi_event p e)
  unfolding register_wifi_event
  register_wifi_event-Balanced none base = search balance_rules
  register_wifi_event-Balanced (some e) base =
      let finish = λ (found : Found). register_at-Balanced e found base in
      search balance_rules depth 20

  pub unregister_at-Balanced :
      (found : _) (base : _)
      → Goes (Held base) F nothing holds_event (unregister_at p found) nothing
  unfolding unregister_at
  unregister_at-Balanced none base = search balance_rules depth 20
  unregister_at-Balanced (some i) base = search balance_rules depth 20

  pub unregister_wifi_event-Balanced : (e : _) → Balanced F (unregister_wifi_event p e)
  unfolding unregister_wifi_event
  unregister_wifi_event-Balanced none base = search balance_rules
  unregister_wifi_event-Balanced (some e) base =
      let finish = λ (found : Option ℕ). unregister_at-Balanced found base in
      search balance_rules depth 20

  pub sta_connect-Balanced :
      (chan : _) (req : _) (psk : _) (k : _) (base : _)
      → Goes (Held base) F k k (sta_connect p chan req psk) k
  unfolding sta_connect
  sta_connect-Balanced chan req psk k base = search balance_rules depth 30

-- From here on a fault is allowed: it leaves nothing to say.
module _ (p : Platform) where
  dns_address-Balanced :
      {R : Type 0} (k : _) (base : _) (connected : _) (i : ℕ)
      → Goes {R = R} (Held base) (Unit {0}) k k (dns_address p connected i) k
  unfolding dns_address
  dns_address-Balanced k base true i = search (balance_rules, Goes-config_at, Goes-deref) depth 10
  dns_address-Balanced k base false i = search balance_rules

  set_dns_servers-Balanced :
      {R : Type 0} (k : _) (base : _) (connected : _) (rounds i : ℕ)
      → Goes {R = R} (Held base) (Unit {0}) k k (set_dns_servers p connected rounds i) k
  unfolding set_dns_servers
  set_dns_servers-Balanced {R = R} k base connected zero i = Goes-pure tt
  set_dns_servers-Balanced {R = R} k base true (suc rounds) i =
      let rest = set_dns_servers-Balanced {R = R} k base true rounds (i + 1) in
      Goes-seq _ _ (dns_address-Balanced k base true i) (λ _. search balance_rules depth 8)
  set_dns_servers-Balanced {R = R} k base false (suc rounds) i =
      let rest = set_dns_servers-Balanced {R = R} k base false rounds (i + 1) in
      Goes-seq _ _ (dns_address-Balanced k base false i) (λ _. search balance_rules depth 8)

  bring_up-Balanced :
      (k : _) (base : _) (t : IpType) (ip : IpConfig)
      → Goes (Held base) (Unit {0}) k k (bring_up p t ip) k
  unfolding bring_up sta_set_dns_server
  bring_up-Balanced k base IpType.dhcp ip = search balance_rules depth 10
  bring_up-Balanced k base IpType.static_ip ip =
      let servers = set_dns_servers-Balanced {R = Unit {0}} k base true p.max_dns_num 0 in
      search balance_rules depth 20
  bring_up-Balanced k base IpType.unknown ip = search balance_rules

  take_down-Balanced :
      (k : _) (base : _) (t : IpType) → Goes (Held base) (Unit {0}) k k (take_down p t) k
  unfolding take_down sta_set_dns_server
  take_down-Balanced k base IpType.dhcp = search balance_rules depth 10
  take_down-Balanced k base IpType.static_ip =
      let servers = set_dns_servers-Balanced {R = Unit {0}} k base false p.max_dns_num 0 in
      search balance_rules depth 20
  take_down-Balanced k base IpType.unknown = search balance_rules

  sta_set_wifi_net_config-Balanced :
      (k : _) (base : _) (connected : Bool)
      → Goes (Held base) (Unit {0}) k k (sta_set_wifi_net_config p connected) k
  unfolding sta_set_wifi_net_config
  sta_set_wifi_net_config-Balanced k base connected =
      let up = λ (t : IpType) (ip : IpConfig). bring_up-Balanced k base t ip in
      let down = λ (t : IpType). take_down-Balanced k base t in
      search (balance_rules, Goes-config_at) depth 20

  tell_connected-Balanced :
      (k : _) (base : _) (e : HiEvent) (h : ℕ)
      → Goes (Held base) (Unit {0}) k k (tell_connected p e h) k
  unfolding tell_connected
  tell_connected-Balanced k base e h =
      let network = sta_set_wifi_net_config-Balanced k base true in search balance_rules depth 20

  tell_disconnected-Balanced :
      (k : _) (base : _) (info : LinkedInfo) (h : ℕ)
      → Goes (Held base) (Unit {0}) k k (tell_disconnected p info h) k
  unfolding tell_disconnected
  tell_disconnected-Balanced k base info h =
      let network = sta_set_wifi_net_config-Balanced k base false in search balance_rules depth 20

  dispatch_connect_event-Balanced :
      (k : _) (base : _) (e : HiEvent) (h : ℕ)
      → Goes (Held base) (Unit {0}) k k (dispatch_connect_event p e h) k
  unfolding dispatch_connect_event
  dispatch_connect_event-Balanced k base e h =
      let joined = tell_connected-Balanced k base e h in
      let left = λ (info : LinkedInfo). tell_disconnected-Balanced k base info h in
      search balance_rules depth 30

  dispatch_by-Balanced :
      (k : _) (base : _) (t : HiEventType) (e : HiEvent) (h : ℕ)
      → Goes (Held base) (Unit {0}) k k (dispatch_by p t e h) k
  unfolding dispatch_by dispatch_scan_state_change_event dispatch_sta_connect_event
      dispatch_ap_start_event
  dispatch_by-Balanced k base HiEventType.scan_done e h =
      search (balance_rules, Goes-deref) depth 20
  dispatch_by-Balanced k base HiEventType.connected e h = dispatch_connect_event-Balanced k base e h
  dispatch_by-Balanced k base HiEventType.disconnected e h =
      dispatch_connect_event-Balanced k base e h
  dispatch_by-Balanced k base HiEventType.sta_fcon_no_network e h =
      dispatch_connect_event-Balanced k base e h
  dispatch_by-Balanced k base HiEventType.sta_connected e h = search balance_rules depth 20
  dispatch_by-Balanced k base HiEventType.sta_disconnected e h = search balance_rules depth 20
  dispatch_by-Balanced k base HiEventType.ap_start e h = search balance_rules depth 20
  dispatch_by-Balanced k base _ e h = Goes-pure tt

  pub hi_wifi_wpa_event_cb-Balanced :
      (e : Option HiEvent) → Balanced (Unit {0}) (hi_wifi_wpa_event_cb p e)
  unfolding hi_wifi_wpa_event_cb dispatch_event
  hi_wifi_wpa_event_cb-Balanced none base = search balance_rules
  hi_wifi_wpa_event_cb-Balanced (some e) base =
      let turn = dispatch_by-Balanced holds_event base e.event e in
      search (balance_rules, Goes-for_each_handler) depth 20

  pub connect_at-Balanced : (i : ℕ) → Balanced (Unit {0}) (connect_at p i)
  unfolding connect_at
  connect_at-Balanced i base =
      let connected = λ (chan : ℕ) (req : AssocRequest) (psk : ℕ).
        sta_connect-Balanced p {F = Unit {0}} chan req psk holds_event base in
      search (Goes-config_at, balance_rules) depth 60

  pub connect_to-Balanced : (i : _) → Balanced (Unit {0}) (connect_to p i)
  unfolding connect_to
  connect_to-Balanced (negsuc i) base = search balance_rules
  connect_to-Balanced (pos i) base = let inside = connect_at-Balanced i base in search balance_rules
