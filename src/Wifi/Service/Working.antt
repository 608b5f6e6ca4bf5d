-- ===== src/Wifi/Service/Working.antt =====
-- A kernel whose mutexes can be taken and released, and what the wrappers of wifi_device_util.c do
-- then.
use ohos_l0_adapter.Base.{◌≡◌, true, is_zero}
use ohos_l0_adapter.Wifi.Types.{Lock, acquire, release}
use ohos_l0_adapter.Wifi.Service.{Platform, History}

pub record LocksWork (p : Platform) : Type 0 where
  pub acquires : (h : History) (l : Lock) → is_zero (p.reply h (acquire l)) ≡ true
  pub releases : (h : History) (l : Lock) → is_zero (p.reply h (release l)) ≡ true
