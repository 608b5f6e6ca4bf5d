-- ===== src/UartHal/Receiving.antt =====
-- What IoTUartRead of hal_iot_uart.c returns.
use ohos_l0_adapter.Base.{
  ℕ, List, [], ◌∷◌, ◌%◌, ◌^◌, some, ◌≡◌, refl, true, is_zero, go, returned, ◌>>=◌, get_elem?, set,
  lt-get_elem?, get_elem?-set_self,
}
use ohos_l0_adapter.UartHal.{
  Chip, Ports, RxEvent, rx_data, History, mux_pend, sem_post, sem_poll, sem_wait, receive_async,
  IotCode, to_int, bytes, element, port_call, app_uart_callback, deliver, iot_uart_read,
}

-- The number of bytes after some events, from a number before: that of the last data event, in 32 bits.
abbrev pub last_size : ℕ → List RxEvent → ℕ
last_size n [] = n
last_size n (rx_data size ∷ es) = last_size (size % 2 ^ 32) es
last_size n (e ∷ es) = last_size n es

deliver-rx_num :
    {R : Type 0} (chip : Chip) (id n sem : ℕ) (es : List RxEvent) (s : Ports)
    → get_elem? s.rx_sem id ≡ some sem
    → get_elem? s.rx_num id ≡ some n
    → let (r, t) = deliver chip {R = R} id es s in
      (r ≡ go tt) × (get_elem? t.rx_num id ≡ some (last_size n es))
unfolding deliver app_uart_callback element port_call ◌>>=◌
deliver-rx_num chip id n sem [] s has_sem held = (refl, held)
deliver-rx_num {R = R} chip id n sem (rx_data size ∷ es) s has_sem held =
    let posted : Ports = record s {
      rx_num = set s.rx_num id (size % 2 ^ 32);
      history = (sem_post sem, chip.reply s.history (sem_post sem)) ∷ s.history;
    } in
    simp has_sem (
      deliver-rx_num {R = R} chip id (size % 2 ^ 32) sem es posted has_sem
        (get_elem?-set_self s.rx_num id (size % 2 ^ 32) (lt-get_elem? s.rx_num id n held)))
deliver-rx_num {R = R} chip id n sem (RxEvent.error ∷ es) s has_sem held =
    let posted : Ports = record s {
      history = (sem_post sem, chip.reply s.history (sem_post sem)) ∷ s.history;
    } in
    simp has_sem (deliver-rx_num {R = R} chip id n sem es posted has_sem held)
deliver-rx_num chip id n sem (RxEvent.other ∷ es) s has_sem held =
    deliver-rx_num chip id n sem es s has_sem held

-- On a port with its semaphore and mutex, where the library takes the request and the wait ends well, a read
-- returns the size of the last data event that arrived while it waited, as an int of 32 bits, and 0 if there
-- was none.
pub iot_uart_read_lem :
    (chip : Chip) (id len mutex sem old : ℕ) (s : Ports) (es : List RxEvent)
    → get_elem? s.rx_mutex id ≡ some mutex
    → get_elem? s.rx_sem id ≡ some sem
    → get_elem? s.rx_num id ≡ some old
    → ((h : History) → is_zero (chip.reply h (receive_async id len)) ≡ true)
    → ((h : History) → is_zero (chip.reply h (sem_wait sem)) ≡ true)
    → ((h : History) → chip.arrivals h ≡ es)
    → (iot_uart_read chip id len s).0 ≡ returned (bytes (to_int (last_size 0 es)))
unfolding iot_uart_read element port_call ◌>>=◌
iot_uart_read_lem chip id len mutex sem old s es has_mutex has_sem has_num accepts wakes arrive =
    let zeroed = get_elem?-set_self s.rx_num id 0 (lt-get_elem? s.rx_num id old has_num) in
    let taken : History = (mux_pend mutex, chip.reply s.history (mux_pend mutex)) ∷ s.history in
    let polled : History = (sem_poll sem, chip.reply taken (sem_poll sem)) ∷ taken in
    let waiting : Ports = record s {
      rx_num = set s.rx_num id 0;
      history = (receive_async id len, chip.reply polled (receive_async id len)) ∷ polled;
    } in
    let (ends, counted) = deliver-rx_num {R = IotCode} chip id 0 sem es waiting has_sem zeroed in
    simp (has_mutex, has_sem, has_num, accepts, wakes, arrive, ends, counted)
