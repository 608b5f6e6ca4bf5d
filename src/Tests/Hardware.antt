-- ===== src/Tests/Hardware.antt =====
-- The serial port, the pins and the file calls at concrete states.
use ohos_l0_adapter.Base.{
  ℕ, ℤ, is_zero, pos, negsuc, ◌+◌, List, [], ◌∷◌, ◌++◌, none, some, ◌≡◌, ◌≢◌, refl, ap, true, false,
  returned, fault, arith, replicate, ltb, if◌then◌else◌, ◌==◌, length,
}
use ohos_l0_adapter.Uart.Device.{Device, Hardware, invalid_baud}
use ohos_l0_adapter.Uart.Driver.{arm_uart_set_baudrate, arm_uart_get_baudrate}
use ohos_l0_adapter.Uart.Driver.Rates.{
  Request, serve, HasRate, serve-HasRate, arm_uart_set_baudrate_lem,
}
use ohos_l0_adapter.I2c.{
  Chip, Buses, BusCall, IotCode, mux_pend, mux_post, transmit_sync, iot_i2c_write, iot_i2c_read,
}
use ohos_l0_adapter.I2c.Transfers.{iot_i2c_write-mutex, bus_bounds}
use ohos_l0_adapter.Gpio.{
  Pins, Enums, Mode, aon, isr, pin_map, success, iot_gpio_set_dir, iot_gpio_get_dir,
  iot_gpio_set_output_val, iot_gpio_get_output_val,
}
use ohos_l0_adapter.Gpio.Isr.{event_index, app_io_callback, iot_gpio_register_isr_func}
use ohos_l0_adapter.Gpio.Numbering.{event_index-pin_map}
use ohos_l0_adapter.Gpio.Ports.{IsSized, bounds_lem}
use ohos_l0_adapter.Gpio.Interrupts.{callback-register}
use ohos_l0_adapter.HalFile.{
  Libc, OFlags, Whence, seek_set, seek_cur, seek_end, data_dir, skip, hal_file_get_path,
  hal_file_open, hal_file_read, hal_file_write, hal_file_close, hal_file_seek,
}
use ohos_l0_adapter.HalFile.Paths.{hal_file_open-descriptor}
use ohos_l0_adapter.HalFile.Seeks.{Lseek, hal_file_seek-set}

-- A port at 25 MHz and 115200 baud, with both directions on.
abbrev port : Device
port = record {
  default_baudrate = 115200;
  system_clk = 25000000;
  baudrate = 115200;
  state = 1;
  ctrl = 3;
  bauddiv = 217;
  sent = [];
  cleared = [];
  reads = 0;
  kernel = [];
}

-- A line whose transmit buffer is full at the second look.
abbrev line : Hardware
line = record { state = λ n. if n == 1 then 1 else 0; data_in = λ n. 0; intrstatus = λ n. 0 }

serve-HasRate_example :
    let (x, t) = serve (Request.set_clock 50000000) port in
    (x ≢ fault) × HasRate t × (t.default_baudrate ≡ 115200)
serve-HasRate_example =
    serve-HasRate (Request.set_clock 50000000) port (λ e. ground arith) (λ i e. ground arith)

arm_uart_set_baudrate_lem_example :
    let (x, t) = arm_uart_set_baudrate 2000000 port in
    (x ≡ returned invalid_baud)
    × (t.bauddiv ≡ 217)
    × ((arm_uart_get_baudrate t).0 ≡ returned 2000000)
arm_uart_set_baudrate_lem_example = arm_uart_set_baudrate_lem port 2000000 refl (λ e. ground arith)

-- The library refuses to transmit.
abbrev refusal : BusCall → ℤ
refusal (transmit_sync a b c d) = pos 1
refusal c = pos 0

-- Two buses.
abbrev chip : Chip
chip = record { reply = λ h c. refusal c; new_mutex = λ h. 5; id_max = 2 }

abbrev buses : Buses
buses = record { tx_mutex = 3 ∷ 4 ∷ []; rx_mutex = 5 ∷ 6 ∷ []; history = [] }

iot_i2c_write-mutex_example :
    let (r, t) = iot_i2c_write chip 1 80 (7 ∷ []) 1 buses in
    (code : ℤ) × (pended : ℤ) × (posted : ℤ) × (t.history
      ≡ (mux_post 4, posted) ∷ (transmit_sync 1 80 (7 ∷ []) 1, code) ∷ (mux_pend 4, pended) ∷ [])
    × (r ≡ returned (if is_zero code then IotCode.success else IotCode.failure))
iot_i2c_write-mutex_example = iot_i2c_write-mutex chip buses 1 80 1 4 (7 ∷ []) (omega arith) refl

bus_bounds_example :
    ((iot_i2c_read chip 2 80 1 buses).0 ≡ fault)
    × ((iot_i2c_write chip 2 80 (7 ∷ []) 1 buses).0 ≡ fault)
bus_bounds_example = bus_bounds chip buses 2 80 1 0 (7 ∷ []) refl refl (omega arith)

abbrev enums : Enums
enums = record {
  dir_in = 0;
  dir_out = 1;
  value0 = 0;
  value1 = 1;
  type_level = 0;
  type_edge = 1;
  fall_low = 0;
  rise_high = 1;
  read = λ calls. 0;
}

abbrev pins : Pins
pins = record {
  dir = replicate 45 0;
  out = replicate 45 0;
  isr_cfg =
      replicate 40 (record { mode = Mode.initial; initialized = false; func = none; arg = 0 });
  calls = [];
}

pins-IsSized : IsSized pins
pins-IsSized = record { dirs = refl; outs = refl; isrs = refl }

bounds_lem_example :
    ((iot_gpio_set_dir enums 45 1 pins).0 ≡ fault)
    × ((iot_gpio_get_dir 45 pins).0 ≡ fault)
    × ((iot_gpio_set_output_val enums 45 1 pins).0 ≡ fault)
    × ((iot_gpio_get_output_val 45 pins).0 ≡ fault)
bounds_lem_example = bounds_lem enums pins pins-IsSized 45 1 (omega arith)

pin_33 : pin_map 33 ≡ some (aon, 2)
unfolding pin_map
pin_33 = refl

event_index-pin_map_example : event_index aon 2 ≡ some 33
event_index-pin_map_example = event_index-pin_map 33 (aon, 2) (omega arith) pin_33

callback-register_example :
    let (x, t) = iot_gpio_register_isr_func enums 33 1 0 (some 500) 9 pins in
    (x ≡ returned success)
    × ((app_io_callback aon (event_index aon 2) t).1.calls ≡ isr 500 9 ∷ t.calls)
callback-register_example =
    callback-register enums pins pins-IsSized 33 (omega arith) (aon, 2) pin_33 1 0 500 9

-- A library with one open file of a given size: the state is the size and the position.
abbrev move_to : ℕ → ℕ × ℕ → ℕ × ℕ
move_to n s = (s.0, n)

abbrev seek_from : ℤ → Whence → ℕ × ℕ → ℤ × (ℕ × ℕ)
seek_from (pos n) seek_set s = (pos n, move_to n s)
seek_from (pos n) seek_cur s = (pos (s.1 + n), move_to (s.1 + n) s)
seek_from (pos n) seek_end s = (pos (s.0 + n), move_to (s.0 + n) s)
seek_from (negsuc n) whence s = (negsuc 0, s)

abbrev one_file : Libc (ℕ × ℕ)
one_file = record {
  open_file = λ path flags s. (pos 0, s);
  close = λ fd s. (pos 0, s);
  read = λ fd len s. (pos 0, s);
  write = λ fd buf len s. (pos len, s);
  unlink = λ path s. (pos 0, s);
  lseek = λ fd offset whence s. seek_from offset whence s;
  snprintf_s = λ size path. if ltb (length path) size then some path else none;
}

plus_zero : (n : ℕ) → n + 0 ≡ n
plus_zero n = omega arith

abbrev one_file-Lseek : Lseek one_file
one_file-Lseek = record {
  size = λ fd s. s.0;
  position = λ fd s. s.1;
  move = λ fd n s. move_to n s;
  at_cur = λ fd s. ap (λ n. (pos n, move_to n s)) (plus_zero s.1);
  at_end = λ fd s. ap (λ n. (pos n, move_to n s)) (plus_zero s.0);
  at_set = λ fd n s. refl;
  refuses = λ fd n s. refl;
  move-move = λ fd m n s. refl;
  move-position = λ fd s. refl;
}

hal_file_seek-set_example :
    hal_file_seek one_file (pos 3) (pos 11) 0 (10, 1) ≡ (returned (negsuc 0), (10, 1))
hal_file_seek-set_example = hal_file_seek-set one_file one_file-Lseek 0 11 (10, 1)

abbrev read_write : OFlags
read_write = record {
  wronly = false;
  rdwr = true;
  creat = true;
  excl = false;
  trunc = false;
  append = false;
}

path_fits : hal_file_get_path one_file (some (b'x' ∷ [])) ≡ some (data_dir ++ (b'x' ∷ []))
unfolding hal_file_get_path skip
path_fits = refl

hal_file_open-descriptor_example :
    (hal_file_open one_file (some (b'x' ∷ [])) read_write (10, 1) ≡ (returned (pos 3), (10, 1)))
    × ((len : ℕ) → (u : ℕ × ℕ) → (hal_file_read one_file (pos 3) len u).1 ≡ u)
    × ((buf : List ℕ) (len : ℕ) (u : ℕ × ℕ) → (hal_file_write one_file (pos 3) buf len u).1 ≡ u)
    × ((u : ℕ × ℕ) → hal_file_close one_file (pos 3) u ≡ (returned (pos 0), u))
hal_file_open-descriptor_example =
    hal_file_open-descriptor one_file (b'x' ∷ []) (data_dir ++ (b'x' ∷ [])) read_write (10, 1)
      (10, 1) 0 path_fits refl
