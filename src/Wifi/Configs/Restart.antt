-- ===== src/Wifi/Configs/Restart.antt =====
-- What the file of wifi_device.c brings back after a restart.
use ohos_l0_adapter.Base.{
  ℕ, pos, ◌≤◌, ◌≡◌, refl, ap, ◌∙◌, List, [], ◌∷◌, Option, none, some, true, false, ◌==◌, eq_ℤ,
  if◌then◌else◌, get_elem?, set, take, returned, is_zero, arith, ◌>>=◌, Bool-cases, inl, inr,
}
use ohos_l0_adapter.Wifi.Types.{
  DeviceConfig, success, not_available, global, acquire, file_open, file_write, rdwr_creat_trunc,
}
use ohos_l0_adapter.Wifi.Service.{
  Platform, Service, History, call, lock, unlock, lock_or_return, unlock_or_return,
}
use ohos_l0_adapter.Wifi.Service.Working.{LocksWork}
use ohos_l0_adapter.Wifi.Dispatch.{config_at, deref}
use ohos_l0_adapter.Wifi.Configs.{
  write_network_config, read_network_config, is_file_exist, add_at, add_in, add_device_config,
  load_once, get_device_configs,
}
use ohos_l0_adapter.Wifi.Configs.Slots.{IsUsed, AllUsed, used, copy_configs-fits}
use ohos_l0_adapter.Wifi.Configs.Adding.{found_here}
use ohos_l0_adapter.Wifi.Configs.Store.{FilesWork}

-- The network in the file: the last one written, unless the file was truncated since.
abbrev pub written : History → Option DeviceConfig
written [] = none
written ((file_write fd c n, v) ∷ h) = some c
written ((file_open rdwr_creat_trunc, v) ∷ h) = none
written (e ∷ h) = written h

-- A read gives the network that the file holds.
abbrev pub FileKeeps : Platform → Type 0
FileKeeps p = (h : History) (c : DeviceConfig) → written h ≡ some c → p.file_content h ≡ c

module _ (p : Platform) (w : LocksWork p) (f : FilesWork p) (keeps : FileKeeps p) where
  read_network_config-restores :
      (c : DeviceConfig) (s : Service)
      → written s.history ≡ some c
      → let (r, t) = read_network_config p s in
        (r ≡ returned success)
        × (t.configs ≡ set s.configs 0 c)
        × (t.config_exists ≡ true)
        × (t.global_lock ≡ s.global_lock)
  unfolding read_network_config is_file_exist call ◌>>=◌
  read_network_config-restores c s here =
      simp (f.opens, f.reads, f.seeks, f.stats, f.fits)
        (refl, ap (set s.configs 0) (keeps _ c here), refl, refl)

  module _ (copies : is_zero (p.memcpy_s p.config_size p.config_size) ≡ true) where
    get_device_configs-restores :
        (c first : DeviceConfig) (rest : List DeviceConfig) (size : ℕ) (s : Service)
        → written s.history ≡ some c
        → s.configs ≡ first ∷ rest
        → used 1 rest ≡ []
        → s.config_read ≡ false
        → is_zero s.global_lock ≡ false
        → 1 ≤ size
        → (get_device_configs p (some size) s).0
          ≡ returned (if eq_ℤ c.net_id (pos 0) then (success, c ∷ []) else (not_available, []))
    unfolding get_device_configs load_once lock_or_return lock unlock_or_return unlock call ◌>>=◌
    get_device_configs-restores c first rest size s here array blank unread ready room =
        let t = record s {
          config_read = true;
          history = (acquire global, p.reply s.history (acquire global)) ∷ s.history;
        } in
        let (ok, stored, exists, lock_kept) = read_network_config-restores c t here in
        let unlocks : is_zero (read_network_config p t).1.global_lock ≡ false =
          rw lock_kept ready in
        let now : (read_network_config p t).1.configs ≡ c ∷ rest =
          stored ∙ ap (λ cs. set cs 0 c) array in
        elim (Bool-cases (eq_ℤ c.net_id (pos 0))) [
          | inl first_slot ↦
              let copied = λ (u : Service).
                copy_configs-fits p w copies size 0 (c ∷ rest) [] u (rw (first_slot, blank) room) in
              simp (
                ready, unread, w.acquires, w.releases, ok, now, exists, unlocks, first_slot, blank,
                copied,
              )
          | inr other ↦
              let copied = λ (u : Service).
                copy_configs-fits p w copies size 0 (c ∷ rest) [] u
                  (rw (other, blank) (omega arith)) in
              simp (
                ready, unread, w.acquires, w.releases, ok, now, exists, unlocks, other, blank,
                copied,
              )
        ]

    module _ (s : Service) (ready : is_zero s.global_lock ≡ false) (i : ℕ) (old : DeviceConfig)
        (here : get_elem? s.configs i ≡ some old) (free : ¬ (IsUsed i old))
        (before : AllUsed 0 (take i s.configs)) where
      add_device_config-written :
          (c : DeviceConfig)
          → written (add_device_config p (some c) (some tt) s).1.history
            ≡ some (record c { net_id = pos i })
      unfolding add_device_config add_in add_at config_at deref write_network_config lock_or_return
          lock unlock_or_return unlock call ◌>>=◌
      add_device_config-written c =
          let found = found_here p w copies s ready i old here free before in
          simp (ready, found, here, copies, w.acquires, w.releases, f.opens, f.writes)

      -- Where mutexes, struct copies and the file work, a read gives the network written last, and slot `i` is
      -- the first that is not in use: after AddDeviceConfig of a network and a restart with no slot in use
      -- behind slot 0, the first GetDeviceConfigs, with a buffer for at least one network, gives back that network
      -- where `i` is 0; where it is another, it finds no network at all.
      pub add_device_config-restart :
          (c first : DeviceConfig) (rest : List DeviceConfig) (size : ℕ) (u : Service)
          → u.history ≡ (add_device_config p (some c) (some tt) s).1.history
          → u.configs ≡ first ∷ rest
          → used 1 rest ≡ []
          → u.config_read ≡ false
          → is_zero u.global_lock ≡ false
          → 1 ≤ size
          → (get_device_configs p (some size) u).0
            ≡ returned (
                if i == 0 then (success, record c { net_id = pos i } ∷ []) else (not_available, []))
      add_device_config-restart c first rest size u same array blank unread open_lock room =
          let kept : written u.history ≡ some (record c { net_id = pos i }) =
            ap written same ∙ add_device_config-written c in
          get_device_configs-restores (record c { net_id = pos i }) first rest size u kept array
            blank unread open_lock room
