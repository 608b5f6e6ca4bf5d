-- ===== src/Wifi/Connect/Attempt.antt =====
-- What an attempt to join a network leaves (StaConnect and ConnectTo of wifi_device.c).
use ohos_l0_adapter.Base.{
  ℕ, pos, ◌≡◌, refl, some, Bool, true, false, ◌⊎◌, inl, inr, get_elem?, is_zero, eq_ℤ, leb,
  eq_ℤ_iff, ◌==◌, returned, Bool-cases, ◌>>=◌, arith, if◌then◌else◌,
}
use ohos_l0_adapter.Wifi.Types.{
  WifiErrorCode, success, unknown, AssocRequest, EventState, DeviceConfig, hi_sta_connect,
}
use ohos_l0_adapter.Wifi.Service.{
  Platform, Service, History, call, lock, unlock, lock_or_return, unlock_or_return,
}
use ohos_l0_adapter.Wifi.Service.Working.{LocksWork}
use ohos_l0_adapter.Wifi.Dispatch.{config_at, deref}
use ohos_l0_adapter.Wifi.Convert.{frequency_to_channel}
use ohos_l0_adapter.Wifi.Connect.{
  sta_connect, fast_copy_code, request_copy_code, connect_at, connect_to,
}

-- An attempt that the driver takes leaves the connection not available until an event tells of it;
-- an attempt that fails leaves the state as it was. No other outcome exists.
pub sta_connect_lem :
    (p : Platform) (chan : ℕ) (req : AssocRequest) (psk_type : ℕ) (s : Service)
    → let (r, t) = sta_connect p chan req psk_type s in
      ((r ≡ returned success) × (t.connect_state ≡ EventState.not_available))
      ⊎ ((r ≡ returned unknown) × (t.connect_state ≡ s.connect_state))
unfolding sta_connect call ◌>>=◌
sta_connect_lem p chan req psk_type s = elim (Bool-cases (chan == 0)) [
  | inl slow ↦ rw slow (ground arith)
  | inr fast ↦ rw fast (elim (Bool-cases (is_zero (fast_copy_code p psk_type))) [
    | inl copied ↦ rw copied (ground arith)
    | inr not_copied ↦ rw not_copied (inr (refl, refl))
  ])
]

module _ (p : Platform) (w : LocksWork p) (s : Service) (ready : is_zero s.global_lock ≡ false)
    (i : ℕ) (bound : leb p.max_config_size i ≡ false) (c : DeviceConfig)
    (here : get_elem? s.configs i ≡ some c) where
  -- Where mutexes work, ConnectTo refuses a slot within the array that is not in use, and the network chosen before stays chosen.
  pub connect_to-refuses :
      eq_ℤ c.net_id (pos i) ≡ false
      → let (r, t) = connect_to p (pos i) s in
        (r ≡ returned WifiErrorCode.not_available)
        × (t.network_id ≡ s.network_id)
        × (t.connect_state ≡ s.connect_state)
  unfolding connect_to connect_at config_at deref lock_or_return lock unlock_or_return unlock call
      ◌>>=◌
  connect_to-refuses differs =
      simp (bound, ready, here, differs, w.acquires, w.releases) (refl, refl, refl)

  -- Where mutexes and copies work, a stored network without a usable frequency is joined by the driver's full scan; the driver's answer
  -- decides the result, and the network is the chosen one either way.
  pub connect_to_lem :
      c.net_id ≡ pos i
      → is_zero (request_copy_code p) ≡ true
      → frequency_to_channel c.freq ≡ 0
      → is_zero s.event_lock ≡ false
      → (taken : Bool)
      → ((h : History) (req : AssocRequest) → is_zero (p.reply h (hi_sta_connect req)) ≡ taken)
      → let (r, t) = connect_to p (pos i) s in
        (r ≡ returned (if taken then success else unknown))
        × (t.network_id ≡ pos i)
        × (t.connect_state ≡ (if taken then EventState.not_available else s.connect_state))
  unfolding connect_to connect_at config_at deref sta_connect lock_or_return lock unlock_or_return
      unlock call ◌>>=◌
  connect_to_lem same copies slow ready_event true replies =
      let used = (eq_ℤ_iff c.net_id (pos i)).1 same in
      simp (bound, ready, here, used, copies, slow, ready_event, replies, w.acquires, w.releases)
        (refl, refl, refl)
  connect_to_lem same copies slow ready_event false replies =
      let used = (eq_ℤ_iff c.net_id (pos i)).1 same in
      simp (bound, ready, here, used, copies, slow, ready_event, replies, w.acquires, w.releases)
        (refl, refl, refl)
