-- ===== src/Wifi/Configs.antt =====
-- The stored networks of wifi_device.c: the array g_wifiConfigs and the file that keeps one of
-- them.
pub mod Adding
pub mod Restart
pub mod Slots
pub mod Store
use ohos_l0_adapter.Base.{
  ℕ, zero, suc, ◌+◌, List, [], ◌∷◌, ◌++◌, Option, none, some, Bool, true, false, not, ℤ, pos,
  negsuc, is_zero, is_neg, eq_ℤ, go, ◌>>=◌, ◌>>◌, pure, ret, gets, modify, when, branch, invoke,
  length, set, ltb, leb, ◌==◌, if◌then◌else◌,
}
use ohos_l0_adapter.Wifi.Types.{
  WifiErrorCode, success, unknown, invalid_args, busy, global, DeviceConfig, rdonly,
  rdwr_creat_trunc, rdwr_creat, file_open, file_write, file_read, file_seek, file_close, file_stat,
}
use ohos_l0_adapter.Wifi.Service.{
  Platform, Service, M, Fn, call, lock_or_return, unlock_or_return, is_success,
}
use ohos_l0_adapter.Wifi.Dispatch.{config_at}

-- The first slot whose `netId` is not its index, from index `i` on.
unfoldable pub first_unused : ℕ → List DeviceConfig → Option ℕ
first_unused i [] = none
first_unused i (c ∷ cs) = if eq_ℤ c.net_id (pos i) then first_unused (i + 1) cs else some i

-- An assignment to `g_wifiConfigs[i]`.
abbrev pub store : ℕ → DeviceConfig → Service → Service
store i c s = record s { configs = set s.configs i c }

module _ (p : Platform) where
  -- `WriteNetworkConfig`; its buffer is never NULL at its calls.
  unfoldable pub write_network_config : DeviceConfig → Fn WifiErrorCode
  write_network_config config = do
    fd ← call p (file_open rdwr_creat_trunc)
    when (is_neg fd) (ret unknown)
    written ← call p (file_write fd config p.config_size)
    when (is_neg written) (do call p (file_close fd); ret unknown)
    call p (file_close fd)
    ret success

  -- `IsFileExist(WIFI_FILE)`
  unfoldable pub is_file_exist : Fn Bool
  is_file_exist = do
    fd ← call p (file_open rdonly)
    when (is_neg fd) (ret false)
    call p (file_close fd)
    ret true

  -- `ReadNetworkConfig((unsigned char *)&g_wifiConfigs[0], sizeof(WifiDeviceConfig))`: what the
  -- read stores, whole or in part, is `file_content`.
  unfoldable pub read_network_config : Fn WifiErrorCode
  read_network_config = do
    exists ← invoke is_file_exist
    modify (λ s. record s { config_exists = exists })
    fd ← call p (file_open rdwr_creat)
    when (is_neg fd) (ret unknown)
    code ← call p file_stat
    file_len ← gets (λ s. p.file_length s.history)
    when (not (is_zero code)) (do call p (file_close fd); ret unknown)
    code ← call p (file_seek fd)
    when (not (is_zero code)) (do call p (file_close fd); ret unknown)
    when (ltb p.config_size file_len) (do call p (file_close fd); ret unknown)
    when exists (do
      read ← call p (file_read fd p.config_size)
      modify (λ s. store 0 (p.file_content s.history) s)
      when (is_neg read) (do call p (file_close fd); ret unknown))
    call p (file_close fd)
    ret success

  -- `AddDeviceConfig` once slot `i` is chosen. A failed write of the file returns at once.
  unfoldable pub add_at : DeviceConfig → ℕ → Fn (WifiErrorCode × Option ℕ)
  add_at config i = do
    old ← config_at (pos i)
    when (not (is_zero (p.memcpy_s p.config_size p.config_size))) (do
      modify (store i (p.after_failed_copy old))
      unlock_or_return p global (unknown, none)
      ret (unknown, none))
    modify (store i (record config { net_id = pos i }))
    code ← invoke (write_network_config (record config { net_id = pos i }))
    when (not (is_success code)) (ret (unknown, none))
    unlock_or_return p global (unknown, none)
    ret (success, some i)

  -- `AddDeviceConfig` after its loop; `none` is a full array.
  unfoldable pub add_in : DeviceConfig → Option ℕ → Fn (WifiErrorCode × Option ℕ)
  add_in config none = do unlock_or_return p global (unknown, none); ret (busy, none)
  add_in config (some i) = add_at config i

  -- `AddDeviceConfig`; an argument is `none` where the pointer is NULL, and the option beside the
  -- code is what goes to `*result`.
  unfoldable pub add_device_config :
      Option DeviceConfig → Option (Unit {0}) → Fn (WifiErrorCode × Option ℕ)
  add_device_config none result = ret (invalid_args, none)
  add_device_config (some config) none = ret (invalid_args, none)
  add_device_config (some config) (some _) = do
    lock_or_return p global (unknown, none)
    slot ← gets (λ s. first_unused 0 s.configs)
    add_in config slot

  -- The loop of `GetDeviceConfigs` from slot `i` on. `out` is what `result` holds so far; the test of
  -- `*size` comes after the copy.
  unfoldable pub copy_configs :
      ℕ
      → ℕ
      → List DeviceConfig
      → List DeviceConfig
      → M (WifiErrorCode × List DeviceConfig) (List DeviceConfig)
  copy_configs size i [] out = pure out
  copy_configs size i (c ∷ cs) out =
      branch (eq_ℤ c.net_id (pos i))
        (do
          when (not (is_zero (p.memcpy_s p.config_size p.config_size)))
              (do unlock_or_return p global (unknown, out); ret (unknown, out))
          when (ltb size (length out + 1)) (do
            unlock_or_return p global (unknown, out ++ (c ∷ []))
            ret (invalid_args, out ++ (c ∷ [])))
          copy_configs size (i + 1) cs (out ++ (c ∷ [])))
        (copy_configs size (i + 1) cs out)

  -- The first call of `GetDeviceConfigs` reads the file into slot 0. A failed read returns at once.
  unfoldable pub load_once : M (WifiErrorCode × List DeviceConfig) (Unit {0})
  load_once = do
    modify (λ s. record s { config_read = true })
    code ← invoke read_network_config
    when (not (is_success code)) (ret (unknown, []))
    exists ← gets (λ s. s.config_exists)
    when (not exists)
        (do c ← config_at (pos 0); modify (store 0 (record c { net_id = p.config_invalid })))

  -- `GetDeviceConfigs`: the code, and what was written to `result`; on success `*size` becomes its
  -- length.
  unfoldable pub get_device_configs : Option ℕ → Fn (WifiErrorCode × List DeviceConfig)
  get_device_configs none = ret (invalid_args, [])
  get_device_configs (some size) = do
    lock_or_return p global (unknown, [])
    when (not (← gets (λ s. s.config_read))) load_once
    slots ← gets (λ s. s.configs)
    out ← copy_configs size 0 slots []
    unlock_or_return p global (unknown, out)
    branch (length out == 0) (ret (WifiErrorCode.not_available, [])) (ret (success, out))

  -- `RemoveDevice` at an index within the array.
  unfoldable pub remove_at : ℕ → Fn WifiErrorCode
  remove_at i = do
    lock_or_return p global unknown
    old ← config_at (pos i)
    let cleared =
        if is_zero (p.memset_s p.config_size p.config_size)
        then p.zeroed
        else p.after_failed_copy old
    modify (store i (record cleared { net_id = p.config_invalid }))
    code ← invoke (write_network_config (record cleared { net_id = p.config_invalid }))
    when (not (is_success code)) (ret unknown)
    unlock_or_return p global unknown
    ret success

  -- `RemoveDevice`
  unfoldable pub remove_device : ℤ → Fn WifiErrorCode
  remove_device (negsuc i) = ret invalid_args
  remove_device (pos i) = branch (leb p.max_config_size i) (ret invalid_args) (remove_at i)
