-- ===== src/Lan9118/Interface/Packets.antt =====
-- What becomes of the buffers and the task lock when Lan9118PacketRx takes a packet.
use ohos_l0_adapter.Base.{
  ℕ, zero, suc, ◌+◌, ◌^◌, ◌%◌, ◌≡◌, ◌≢◌, refl, ap, ◌∙◌, List, [], ◌∷◌, true, false, ◌==◌, go,
  returned, Flow, modify, ◌>>=◌, ◌⊎◌, inl, inr, Bool-cases, arith, Goes, Ends, fault, goes_rules,
  Goes-modify, Goes-seq,
}
use ohos_l0_adapter.Lan9118.Device.{
  Platform, Driver, M, Reg, Access, History, Pbuf, read, write, usleep, rx_fifo_inf, task_lock,
  task_unlock, pbuf_alloc, pbuf_free, input, print_err, access, look,
}
use ohos_l0_adapter.Lan9118.Fifo.{
  pop_to, pop_words, empty_rx_fifo, packet_length, peek_next_packet_size,
  get_rxfifo_data_used_space, receive_by_chunks,
}
use ohos_l0_adapter.Lan9118.Fifo.Receiving.{receive_by_chunks_lem}
use ohos_l0_adapter.Lan9118.Words.{get_bit_field}
use ohos_l0_adapter.Lan9118.Buffers.{payload_addr, get_len, set_len, alloc_heap, align_memory}
use ohos_l0_adapter.Lan9118.Interface.{is_null, receive_into, low_level_input, packet_rx}

-- The calls into the kernel and lwIP, the latest first.
abbrev pub calls : History → List Access
calls [] = []
calls ((read r, v) ∷ h) = calls h
calls ((write r w, v) ∷ h) = calls h
calls ((usleep n, v) ∷ h) = calls h
calls (e ∷ h) = e.0 ∷ calls h

module _ (cs : List Access) where
  -- The calls made are `cs`.
  abbrev pub Made : Unit {0} → Driver → Type 0
  Made i s = calls s.history ≡ cs

  -- A body that makes none.
  abbrev pub Quiet : {R A : Type 0} → M R A → Type 0
  Quiet m = Goes Made ⊥ tt tt m tt

  Quiet-look : {R : Type 0} (env : Platform) (r : Reg) → Quiet (look env {R = R} r)
  unfolding look
  Quiet-look env r = record { at = λ s h. h }

  Quiet-modify :
      {R : Type 0} (f : Driver → Driver)
      → ((s : Driver) → (f s).history ≡ s.history)
      → Quiet {R = R} (modify f)
  Quiet-modify f h = Goes-modify f (λ s e. ap calls (h s) ∙ e)

  Quiet-pop_to : {R : Type 0} (env : Platform) (n a : ℕ) → Quiet (pop_to env {R = R} n a)
  unfolding pop_to
  Quiet-pop_to env n a = Goes-seq _ _ (Quiet-look env _) (λ w. Quiet-modify _ (λ s. refl))

  Quiet-pop_words : {R : Type 0} (env : Platform) (n a : ℕ) → Quiet (pop_words env {R = R} n a)
  unfolding pop_words
  Quiet-pop_words env zero a = search goes_rules
  Quiet-pop_words env (suc n) a =
      Goes-seq _ _ (Quiet-pop_to env 4 a) (λ _. Quiet-pop_words env n (a + 4))

  Quiet-empty_rx_fifo :
      {R : Type 0} (env : Platform) (buffer size : ℕ)
      → Quiet (empty_rx_fifo env {R = R} buffer size)
  unfolding empty_rx_fifo
  Quiet-empty_rx_fifo env buffer size = search (goes_rules, Quiet-pop_to, Quiet-pop_words)

  Quiet-size :
      {R : Type 0} (n : ℕ) → Quiet {R = R} (modify (λ d. record d { current_rx_size_words = n }))
  Quiet-size n = Quiet-modify _ (λ s. refl)

  Quiet-packet_length : {R : Type 0} (env : Platform) → Quiet (packet_length env {R = R})
  unfolding packet_length
  Quiet-packet_length env = search (goes_rules, Quiet-look, Quiet-size) depth 10

  pub Quiet-receive_by_chunks :
      (env : Platform) (buffer dlen : ℕ) → Quiet (receive_by_chunks env buffer dlen)
  unfolding receive_by_chunks
  Quiet-receive_by_chunks env buffer dlen =
      search (goes_rules, Quiet-packet_length, Quiet-empty_rx_fifo, Quiet-size) depth 10

-- The calls of Lan9118PacketRx behind earlier ones, where the chip shows a packet of `n` bytes and the buffer that
-- lwIP allocates, aligned, is `p`: there is no packet or no buffer for it, it turns out to be empty and `p` is
-- freed, or `p`, with a length, is given to lwIP, which takes it or refuses it.
pub data Outcome (n : ℕ) (p : Pbuf) (cs : List Access) : List Access → Type 0 where
  no_packet : n ≡ 0 → Outcome n p cs cs
  no_buffer : n ≢ 0 → is_null p ≡ true → Outcome n p cs (pbuf_alloc 1526 ∷ cs)
  empty :
      n ≢ 0
      → is_null p ≡ false
      → Outcome n p cs (task_unlock ∷ pbuf_free p ∷ task_lock ∷ pbuf_alloc 1526 ∷ cs)
  delivered :
      n ≢ 0
      → is_null p ≡ false
      → (size : ℕ)
      → Outcome n p cs (
          task_unlock
          ∷ input (set_len p size)
          ∷ task_lock
          ∷ task_unlock
          ∷ task_lock
          ∷ pbuf_alloc 1526
          ∷ cs)
  refused :
      n ≢ 0
      → is_null p ≡ false
      → (size : ℕ)
      → Outcome n p cs (
          task_unlock
          ∷ pbuf_free (set_len p size)
          ∷ print_err
          ∷ input (set_len p size)
          ∷ task_lock
          ∷ task_unlock
          ∷ task_lock
          ∷ pbuf_alloc 1526
          ∷ cs)

-- From s to t one packet is handled: its size is what the FIFO shows in s, and its buffer what lwIP then allocates.
abbrev pub Handles : Platform → Type 0 → Driver → Driver → Type 0
Handles env R s t =
    (n : ℕ) × (u : Driver) × (peek_next_packet_size env {R = R} s ≡ (go n, u))
    × Outcome n (align_memory (env.alloc u.history 1526) 4) (calls s.history) (calls t.history)

quiet_end :
    {R A : Type 0} (cs : List Access) (x : Flow R A) (t : Driver)
    → Ends (Made cs) ⊥ tt tt (x, t)
    → calls t.history ≡ cs
quiet_end cs (go a) t e = e
quiet_end cs (returned a) t e = e
quiet_end cs fault t e = absurd e

set_len-null : (p : Pbuf) (n : ℕ) → is_null (set_len p n) ≡ is_null p
set_len-null [] n = refl
set_len-null (m ∷ []) n = refl
set_len-null (m ∷ k ∷ ns) n = refl

module _ (env : Platform) where
  receive-returned :
      (buffer dlen : ℕ) (s : Driver)
      → (n : ℕ) × ((receive_by_chunks env buffer dlen s).0 ≡ returned n)
  unfolding receive_by_chunks ◌>>=◌
  receive-returned buffer dlen s = elim (Bool-cases (buffer == 0)) [
    | inl null ↦ (0, simp null refl)
    | inr given ↦
        let some : buffer ≢ 0 = ground arith in
        let (n, ends, bound, stored, outside, reset) =
          receive_by_chunks_lem env buffer dlen s some in
        (n, ends)
  ]

  -- A receive returns a number and makes no call.
  receive-quiet :
      (buffer dlen : ℕ) (s : Driver)
      → (n : ℕ) × (t : Driver) × (receive_by_chunks env buffer dlen s ≡ (returned n, t))
        × (calls t.history ≡ calls s.history)
  receive-quiet buffer dlen s =
      let (n, ends) = receive-returned buffer dlen s in
      let (x, t) = receive_by_chunks env buffer dlen s in
      (
        n,
        t,
        ap (λ r. (r, t)) ends,
        quiet_end (calls s.history) x t
            ((Quiet-receive_by_chunks (calls s.history) env buffer dlen).at s refl),
      )

  peek-goes :
      {R : Type 0} (s : Driver)
      → (n : ℕ) × (t : Driver) × (peek_next_packet_size env {R = R} s ≡ (go n, t))
        × (calls t.history ≡ calls s.history)
  unfolding peek_next_packet_size get_rxfifo_data_used_space look ◌>>=◌
  peek-goes s =
      let inf = env.reply s.history (read rx_fifo_inf) % 2 ^ 32 in
      elim (Bool-cases (get_bit_field inf 0xFFFF 0 == 0)) [
        | inl none ↦ simp none (_, _, refl, refl)
        | inr some ↦ simp some (_, _, refl, refl)
      ]

  -- How a buffer ends that LowLevelInput has: freed and NULL, or kept with a length, with the lock released.
  receive_into-ends :
      {R : Type 0} (p : Pbuf) (s : Driver)
      → let (r, t) = receive_into env {R = R} p s in
        ((r ≡ go []) × (calls t.history ≡ task_unlock ∷ pbuf_free p ∷ task_lock ∷ calls s.history))
        ⊎ ((size : ℕ) × (r ≡ go (set_len p size))
            × (calls t.history ≡ task_unlock ∷ task_lock ∷ calls s.history))
  unfolding receive_into access ◌>>=◌
  receive_into-ends p s =
      let locked : Driver = record s {
        history = (task_lock, env.reply s.history task_lock) ∷ s.history;
      } in
      let (n, t, ends, kept) = receive-quiet (payload_addr p) (get_len p) locked in
      elim (Bool-cases (n == 0)) [
        | inl nothing ↦
            simp (ends, nothing) (inl (refl, ap (λ c. task_unlock ∷ pbuf_free p ∷ c) kept))
        | inr bytes ↦
            simp (ends, bytes) (inr ((n + 2) % 2 ^ 32, refl, ap (λ c. task_unlock ∷ c) kept))
      ]

  pub packet_rx-Outcome :
      {R : Type 0} (s : Driver)
      → let (r, t) = packet_rx env {R = R} s in (r ≡ go tt) × Handles env R s t
  unfolding packet_rx low_level_input alloc_heap access ◌>>=◌
  packet_rx-Outcome {R = R} s =
      let (n, peeked, ends, kept) = peek-goes {R = R} s in
      elim (Bool-cases (n == 0)) [
        | inl none ↦
            let zero_bytes : n ≡ 0 = ground arith in
            simp (ends, none) (refl, (n, peeked, refl, rw kept (no_packet zero_bytes)))
        | inr some ↦
            let bytes : n ≢ 0 = ground arith in
            let p = align_memory (env.alloc peeked.history 1526) 4 in
            let held : Driver = record peeked { history = (pbuf_alloc 1526, 0) ∷ peeked.history } in
            elim (Bool-cases (is_null p)) [
              | inl null ↦
                  simp (ends, some, null) (refl, (n, peeked, refl, rw kept (no_buffer bytes null)))
              | inr given ↦ elim (receive_into-ends {R = R} p held) [
                | inl (result, made) ↦
                    simp (ends, some, given, result)
                      (refl, (n, peeked, refl, rw (made, kept) (empty bytes given)))
                | inr (size, result, made) ↦
                    let q = set_len p size in
                    let m = (receive_into env {R = R} p held).1 in
                    let locked = (task_lock, env.reply m.history task_lock) ∷ m.history in
                    let there : is_null q ≡ false = set_len-null p size ∙ given in
                    elim (Bool-cases (env.reply locked (input q) == 0)) [
                      | inl takes ↦
                          simp (ends, some, given, result, there, takes)
                            (refl, (n, peeked, refl, rw (made, kept) (delivered bytes given size)))
                      | inr refuses ↦
                          simp (ends, some, given, result, there, refuses)
                            (refl, (n, peeked, refl, rw (made, kept) (refused bytes given size)))
                    ]
              ]
            ]
      ]
