-- ===== src/Wifi/Configs/Adding.antt =====
-- AddDeviceConfig and RemoveDevice of wifi_device.c, where the file can be written and where not.
use ohos_l0_adapter.Base.{
  ℕ, pos, suc, ◌+◌, take, ap, sym, ◌∙◌, ◌<◌, ◌≡◌, refl, none, some, true, false, get_elem?, set,
  length, leb, returned, is_zero, is_neg, arith, ◌>>=◌, get_elem?-lt,
}
use ohos_l0_adapter.Wifi.Types.{DeviceConfig, success, unknown, busy, global, OpenFlags, file_open}
use ohos_l0_adapter.Wifi.Service.{
  Platform, Service, History, call, lock, unlock, lock_or_return, unlock_or_return,
}
use ohos_l0_adapter.Wifi.Service.Balance.{depth}
use ohos_l0_adapter.Wifi.Service.Working.{LocksWork}
use ohos_l0_adapter.Wifi.Dispatch.{config_at, deref}
use ohos_l0_adapter.Wifi.Configs.{
  first_unused, write_network_config, add_at, add_in, add_device_config, remove_at, remove_device,
}
use ohos_l0_adapter.Wifi.Configs.Slots.{IsUsed, AllUsed, first_unused-found, first_unused-AllUsed}
use ohos_l0_adapter.Wifi.Configs.Store.{FilesWork}

module _ (p : Platform) (w : LocksWork p)
    (copies : is_zero (p.memcpy_s p.config_size p.config_size) ≡ true) (s : Service)
    (ready : is_zero s.global_lock ≡ false) where
  -- Where mutexes work and all slots are in use, ERROR_WIFI_BUSY is returned and the networks stay as they were.
  pub add_device_config-busy :
      (c : DeviceConfig)
      → AllUsed 0 s.configs
      → let (r, t) = add_device_config p (some c) (some tt) s in
        (r ≡ returned (busy, none)) × (t.configs ≡ s.configs)
  unfolding add_device_config add_in lock_or_return lock unlock_or_return unlock call ◌>>=◌
  add_device_config-busy c all =
      let full = first_unused-AllUsed 0 s.configs all in
      simp (ready, full, w.acquires, w.releases) (refl, refl)

  -- Slot `i` is the first that is not in use.
  module _ (i : ℕ) (old : DeviceConfig) (here : get_elem? s.configs i ≡ some old)
      (free : ¬ (IsUsed i old)) (before : AllUsed 0 (take i s.configs)) where
    pub found_here : first_unused 0 s.configs ≡ some i
    found_here =
        let none_skipped : 0 + i ≡ i = omega arith in
        first_unused-found 0 i s.configs old here (λ u. free (rw (sym none_skipped) u)) before
        ∙ ap some none_skipped

    -- Where mutexes, struct copies and the file work, a network goes into the lowest slot that is not in
    -- use, with that slot's index as its `netId`; the caller gets the index, and every other slot stays as
    -- it was.
    pub add_device_config_lem :
        FilesWork p
        → (c : DeviceConfig)
        → let (r, t) = add_device_config p (some c) (some tt) s in
          (r ≡ returned (success, some i))
          × (t.configs ≡ set s.configs i (record c { net_id = pos i }))
    unfolding add_device_config add_in add_at config_at deref write_network_config lock_or_return
        lock unlock_or_return unlock call ◌>>=◌
    add_device_config_lem f c =
        simp (ready, found_here, here, copies, w.acquires, w.releases, f.opens, f.writes)
          (refl, refl)

    -- Where mutexes and struct copies work, a slot is free and the file cannot be opened, the network is
    -- stored nevertheless in the lowest free slot, the caller is told of a failure, and the global mutex
    -- stays taken.
    pub add_device_config-leaks :
        ((h : History) (flags : OpenFlags) → is_neg (p.reply h (file_open flags)) ≡ true)
        → (c : DeviceConfig)
        → let (r, t) = add_device_config p (some c) (some tt) s in
          (r ≡ returned (unknown, none))
          × (t.configs ≡ set s.configs i (record c { net_id = pos i }))
          × (depth global t.history ≡ suc (depth global s.history))
    unfolding add_device_config add_in add_at config_at deref write_network_config lock_or_return
        lock unlock_or_return unlock call ◌>>=◌
    add_device_config-leaks no_file c =
        simp (ready, found_here, here, copies, w.acquires, no_file) (refl, refl, refl)

  module _
      (no_file : (h : History) (flags : OpenFlags)
        → is_neg (p.reply h (file_open flags)) ≡ true) where
    -- Where mutexes work and the file cannot be opened, RemoveDevice of an index within the array reports a
    -- failure and leaves the global mutex taken.
    pub remove_device-leaks :
        (i : ℕ)
        → leb p.max_config_size i ≡ false
        → i < length s.configs
        → let (r, t) = remove_device p (pos i) s in
          (r ≡ returned unknown) × (depth global t.history ≡ suc (depth global s.history))
    unfolding remove_device remove_at config_at deref write_network_config lock_or_return lock
        unlock_or_return unlock call ◌>>=◌
    remove_device-leaks i bound inside =
        let (old, here) = get_elem?-lt s.configs i inside in
        simp (bound, here, ready, w.acquires, no_file) (refl, refl)
