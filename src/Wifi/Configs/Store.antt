-- ===== src/Wifi/Configs/Store.antt =====
-- The file of the stored network (WriteNetworkConfig and ReadNetworkConfig of wifi_device.c) over a
-- file system that works.
use ohos_l0_adapter.Base.{ℕ, ℤ, ◌≡◌, true, false, is_zero, is_neg, ltb, ◌>>=◌, returned}
use ohos_l0_adapter.Wifi.Types.{
  DeviceConfig, success, OpenFlags, file_open, file_write, file_read, file_seek, file_stat,
}
use ohos_l0_adapter.Wifi.Service.{Platform, Service, History, call}
use ohos_l0_adapter.Wifi.Configs.{write_network_config, read_network_config, is_file_exist}

-- No call on the file fails, and the file is no longer than one network.
pub record FilesWork (p : Platform) : Type 0 where
  pub opens : (h : History) (flags : OpenFlags) → is_neg (p.reply h (file_open flags)) ≡ false
  pub writes :
      (h : History) (fd : ℤ) (c : DeviceConfig) (n : ℕ)
      → is_neg (p.reply h (file_write fd c n)) ≡ false
  pub reads : (h : History) (fd : ℤ) (n : ℕ) → is_neg (p.reply h (file_read fd n)) ≡ false
  pub seeks : (h : History) (fd : ℤ) → is_zero (p.reply h (file_seek fd)) ≡ true
  pub stats : (h : History) → is_zero (p.reply h file_stat) ≡ true
  pub fits : (h : History) → ltb p.config_size (p.file_length h) ≡ false

module _ (p : Platform) (w : FilesWork p) where
  pub write_network_config-success :
      (c : DeviceConfig) (s : Service) → (write_network_config p c s).0 ≡ returned success
  unfolding write_network_config call ◌>>=◌
  write_network_config-success c s = simp (w.opens, w.writes)

  pub read_network_config-success : (s : Service) → (read_network_config p s).0 ≡ returned success
  unfolding read_network_config is_file_exist call ◌>>=◌
  read_network_config-success s = simp (w.opens, w.reads, w.seeks, w.stats, w.fits)
