-- ===== src/Wifi/Requests/Locking/Networks.antt =====
-- The mutexes over the stored networks (wifi_device.c). AddDeviceConfig, GetDeviceConfigs and
-- RemoveDevice return at once where the file fails, so the file system is taken to work.
use ohos_l0_adapter.Base.{
  ℕ, ℤ, pos, negsuc, ◌+◌, List, [], ◌∷◌, ◌++◌, Option, none, some, Goes, Goes-pure,
  Goes-invoke_value, Goes-seq, Goes-skip, Goes-bind,
}
use ohos_l0_adapter.Wifi.Types.{DeviceConfig, success, unknown}
use ohos_l0_adapter.Wifi.Service.{Platform}
use ohos_l0_adapter.Wifi.Service.Balance.{
  Held, Balanced, balance_rules, Holding, nothing, holds_global, Held-lock_global,
}
use ohos_l0_adapter.Wifi.Dispatch.Rules.{Goes-config_at}
use ohos_l0_adapter.Wifi.Configs.{
  write_network_config, is_file_exist, read_network_config, add_at, add_in, add_device_config,
  copy_configs, load_once, get_device_configs, remove_at, remove_device,
}
use ohos_l0_adapter.Wifi.Configs.Store.{
  FilesWork, write_network_config-success, read_network_config-success,
}

module _ (p : Platform) {F : Type 0} where
  pub write_network_config-Balanced :
      (k : Holding) (base : _) (c : DeviceConfig)
      → Goes (Held base) F k k (write_network_config p c) k
  unfolding write_network_config
  write_network_config-Balanced k base c = search balance_rules depth 30

  is_file_exist-Balanced : (k : Holding) (base : _) → Goes (Held base) F k k (is_file_exist p) k
  unfolding is_file_exist
  is_file_exist-Balanced k base = search balance_rules depth 30

  pub read_network_config-Balanced :
      (k : Holding) (base : _) → Goes (Held base) F k k (read_network_config p) k
  unfolding read_network_config
  read_network_config-Balanced k base =
      let exists = is_file_exist-Balanced k base in search balance_rules depth 40

  copy_configs-Balanced :
      (base : _) (size i : ℕ) (slots out : List DeviceConfig)
      → Goes (Held base) F nothing holds_global (copy_configs p size i slots out) holds_global
  unfolding copy_configs
  copy_configs-Balanced base size i [] out = Goes-pure out
  copy_configs-Balanced base size i (c ∷ slots) out =
      let kept = copy_configs-Balanced base size (i + 1) slots (out ++ (c ∷ [])) in
      let passed = copy_configs-Balanced base size (i + 1) slots out in
      search balance_rules depth 30

module _ (p : Platform) (w : FilesWork p) where
  add_at-Balanced :
      (base : _) (c : DeviceConfig) (i : ℕ)
      → Goes (Held base) (Unit {0}) nothing holds_global (add_at p c i) nothing
  unfolding add_at
  add_at-Balanced base c i = Goes-seq _ _ (Goes-config_at (pos i)) λ old.
      Goes-seq _ _ (search balance_rules depth 20) λ _.
        Goes-seq _ _ (search balance_rules depth 20) λ _.
          Goes-invoke_value _ success _ (λ s _. write_network_config-success p w _ s)
            (write_network_config-Balanced p holds_global base _)
            (search (Goes-skip, balance_rules) depth 20)

  add_in-Balanced :
      (base : _) (c : DeviceConfig) (slot : Option ℕ)
      → Goes (Held base) (Unit {0}) nothing holds_global (add_in p c slot) nothing
  unfolding add_in
  add_in-Balanced base c none = search balance_rules depth 20
  add_in-Balanced base c (some i) = add_at-Balanced base c i

  pub add_device_config-Balanced :
      (c : Option DeviceConfig) (out : Option (Unit {0}))
      → Balanced (Unit {0}) (add_device_config p c out)
  unfolding add_device_config
  add_device_config-Balanced none out base = search balance_rules
  add_device_config-Balanced (some c) none base = search balance_rules
  add_device_config-Balanced (some c) (some t) base =
      let inside = λ (slot : Option ℕ). add_in-Balanced base c slot in search balance_rules depth 20

  load_once-Balanced :
      (base : _) → Goes (Held base) (Unit {0}) nothing holds_global (load_once p) holds_global
  unfolding load_once
  load_once-Balanced base = Goes-seq _ _ (search balance_rules) λ _.
      Goes-invoke_value _ success _ (λ s _. read_network_config-success p w s)
        (read_network_config-Balanced p holds_global base)
        (search (Goes-skip, Goes-config_at, balance_rules) depth 20)

  pub get_device_configs-Balanced :
      (size : Option ℕ) → Balanced (Unit {0}) (get_device_configs p size)
  unfolding get_device_configs
  get_device_configs-Balanced none base = search balance_rules
  get_device_configs-Balanced (some size) base =
      let load = load_once-Balanced base in
      let copy = λ (slots : List DeviceConfig).
        copy_configs-Balanced p {F = Unit {0}} base size 0 slots [] in
      search balance_rules depth 30

  remove_at-Balanced : (i : ℕ) → Balanced (Unit {0}) (remove_at p i)
  unfolding remove_at
  remove_at-Balanced i base = Goes-bind _ _ (Held-lock_global p unknown) λ _.
      Goes-seq _ _ (Goes-config_at (pos i)) λ old. Goes-seq _ _ (search balance_rules) λ _.
        Goes-invoke_value _ success _ (λ s _. write_network_config-success p w _ s)
          (write_network_config-Balanced p holds_global base _)
          (search (Goes-skip, balance_rules) depth 20)

  pub remove_device-Balanced : (i : ℤ) → Balanced (Unit {0}) (remove_device p i)
  unfolding remove_device
  remove_device-Balanced (negsuc i) base = search balance_rules
  remove_device-Balanced (pos i) base =
      let inside = remove_at-Balanced i base in search balance_rules depth 10
