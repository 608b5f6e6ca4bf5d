-- ===== src/Wifi/Connect.antt =====
-- Joining a stored network: ConnectTo and StaConnect of wifi_device.c.
pub mod Attempt
use ohos_l0_adapter.Base.{
  ℕ, ◌%◌, List, [], ◌∷◌, ◌++◌, Bool, true, false, not, ℤ, pos, negsuc, is_zero, eq_ℤ, ◌+ℤ◌, go,
  ◌>>=◌, ◌>>◌, ret, gets, modify, when, branch, invoke, pure, leb, ◌==◌, take, drop, if◌then◌else◌,
  replicate,
}
use ohos_l0_adapter.Wifi.Types.{
  WifiErrorCode, success, unknown, invalid_args, global, event, AssocRequest, FastAssocRequest,
  EventState, hi_sta_connect, hi_sta_fast_connect,
}
use ohos_l0_adapter.Wifi.Service.{
  Platform, M, Fn, call, lock_or_return, unlock_or_return, is_success,
}
use ohos_l0_adapter.Wifi.Convert.{ho_sec_to_hi_sec, frequency_to_channel}
use ohos_l0_adapter.Wifi.Dispatch.{config_at}

-- `WIFI_DEFAULT_KEY_FOR_PSK`, "wifipskmode" with its NUL.
abbrev pub default_key : List ℕ
default_key = b'w' ∷ b'i' ∷ b'f' ∷ b'i' ∷ b'p' ∷ b's' ∷ b'k' ∷ b'm' ∷ b'o' ∷ b'd' ∷ b'e' ∷ 0 ∷ []

module _ (p : Platform) where
  -- `fastReq`, whose `channel` is an `unsigned char`: with a hexadecimal PSK the key bytes go to `psk`, and the default key is written over
  -- the first bytes of `req.key`.
  unfoldable pub fast_request : ℕ → AssocRequest → ℕ → FastAssocRequest
  fast_request chan req psk_type =
      if psk_type == p.psk_type_hex
      then record {
        channel = chan % 256;
        req = record req { key = default_key ++ drop 12 req.key };
        psk = take 32 req.key;
        psk_flag = true;
      }
      else record { channel = chan % 256; req = req; psk = replicate 32 0; psk_flag = false }

  -- The sum of the codes of the copies into `fastReq`: 65 bytes of key, 12 of the default key, 32 of
  -- PSK.
  unfoldable pub fast_copy_code : ℕ → ℤ
  fast_copy_code psk_type =
      let whole = p.memcpy_s p.assoc_request_size p.assoc_request_size in
      if psk_type == p.psk_type_hex then whole +ℤ p.memcpy_s 65 12 +ℤ p.memcpy_s 32 32 else whole

  -- `StaConnect`; a failed `memset_s` is only logged.
  unfoldable pub sta_connect : ℕ → AssocRequest → ℕ → Fn WifiErrorCode
  sta_connect chan req psk_type = do
    last_state ← gets (λ s. s.connect_state)
    modify (λ s. record s { connect_state = EventState.not_available })
    hi_ret ← branch (chan == 0) (call p (hi_sta_connect req)) (do
      when (not (is_zero (fast_copy_code psk_type)))
          (do modify (λ s. record s { connect_state = last_state }); ret unknown)
      call p (hi_sta_fast_connect (fast_request chan req psk_type)))
    when (not (is_zero hi_ret))
        (do modify (λ s. record s { connect_state = last_state }); ret unknown)
    ret success

  -- The sum of the codes of the three copies of `ConnectTo`.
  unfoldable pub request_copy_code : ℤ
  request_copy_code = p.memcpy_s 33 p.ssid_len +ℤ p.memcpy_s 65 p.key_len +ℤ p.memcpy_s 6 p.mac_len

  -- `ConnectTo` at an index within the array.
  unfoldable pub connect_at : ℕ → Fn WifiErrorCode
  connect_at i = do
    lock_or_return p global unknown
    config ← config_at (pos i)
    when (not (eq_ℤ config.net_id (pos i)))
        (do unlock_or_return p global unknown; ret WifiErrorCode.not_available)
    modify (λ s. record s { network_id = pos i })
    unlock_or_return p global unknown
    when (not (is_zero request_copy_code)) (ret unknown)
    current ← config_at (pos i)
    lock_or_return p event unknown
    code ← invoke (
        sta_connect (frequency_to_channel current.freq)
          (record {
            ssid = config.ssid;
            key = config.pre_shared_key;
            bssid = config.bssid;
            auth = ho_sec_to_hi_sec config.security_type;
          })
          current.wapi_psk_type)
    when (not (is_success code)) (do unlock_or_return p event unknown; ret unknown)
    unlock_or_return p event unknown
    ret success

  -- `ConnectTo`
  unfoldable pub connect_to : ℤ → Fn WifiErrorCode
  connect_to (negsuc i) = ret invalid_args
  connect_to (pos i) = branch (leb p.max_config_size i) (ret invalid_args) (connect_at i)
