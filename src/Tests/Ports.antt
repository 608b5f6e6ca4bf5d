-- ===== src/Tests/Ports.antt =====
-- The serial ports of the HAL at a concrete state.
use ohos_l0_adapter.Base.{pos, [], ◌∷◌, ◌≡◌, refl, returned}
use ohos_l0_adapter.UartHal.{
  Chip, Ports, Params, bits_8, one, no_parity, no_flow, RxEvent, rx_data, bytes, iot_uart_read,
}
use ohos_l0_adapter.UartHal.Receiving.{iot_uart_read_lem}

-- Two data events and then an error arrive at a waiting reader.
abbrev chip : Chip
chip = record {
  reply = λ h c. pos 0;
  new_handle = λ h. 1;
  arrivals = λ h. rx_data 4 ∷ rx_data 6 ∷ RxEvent.error ∷ [];
  id_max = 2;
}

abbrev line : Params
line = record {
  id = 0;
  baud_rate = 115200;
  data_bits = bits_8;
  stop_bits = one;
  parity = no_parity;
  flow = no_flow;
}

abbrev two_ports : Ports
two_ports = record {
  params = line ∷ record line { id = 1 } ∷ [];
  rx_sem = 11 ∷ 12 ∷ [];
  tx_mutex = 13 ∷ 14 ∷ [];
  rx_mutex = 15 ∷ 16 ∷ [];
  rx_num = 0 ∷ 9 ∷ [];
  history = [];
}

iot_uart_read_lem_example : (iot_uart_read chip 1 64 two_ports).0 ≡ returned (bytes (pos 6))
iot_uart_read_lem_example =
    iot_uart_read_lem chip 1 64 16 12 9 two_ports (rx_data 4 ∷ rx_data 6 ∷ RxEvent.error ∷ []) refl
      refl refl (λ h. refl) (λ h. refl) (λ h. refl)
