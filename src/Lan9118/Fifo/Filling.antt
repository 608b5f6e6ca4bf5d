-- ===== src/Lan9118/Fifo/Filling.antt =====
-- What fill_tx_fifo of lan9118_eth_drv.c puts into the transmit FIFO.
use ohos_l0_adapter.Base.{
  ℕ, zero, suc, ◌+◌, ◌-◌, ◌*◌, ◌/◌, ◌%◌, ◌^◌, ◌<◌, ◌≡◌, ◌≢◌, refl, sym, ap, ◌∙◌, List, [], ◌∷◌,
  ◌++◌, replicate, ◌==◌, go, ◌>>=◌, inl, inr, Bool-cases, arith,
}
use mathlib.Core.List.{append_assoc, append-nil}
use ohos_l0_adapter.Lan9118.Words.{bytes_of}
use ohos_l0_adapter.Lan9118.Words.Bytes.{word_of-bytes, word_of-lt, bytes_of-append, set_whole}
use ohos_l0_adapter.Lan9118.Device.{
  Platform, Driver, History, read, write, tx_data_port, look, put, set_field_of,
}
use ohos_l0_adapter.Lan9118.Fifo.{word_at, filled_byte, filled_word, push, push_words, fill_tx_fifo}

-- The words written to the transmit FIFO, in their order.
abbrev pub sent : History → List ℕ
sent [] = []
sent ((write tx_data_port w, v) ∷ h) = sent h ++ (w ∷ [])
sent (e ∷ h) = sent h

-- n bytes of memory from an address on.
abbrev pub bytes_at : (ℕ → ℕ) → ℕ → ℕ → List ℕ
bytes_at memory a zero = []
bytes_at memory a (suc n) = memory a % 256 ∷ bytes_at memory (a + 1) n

-- A chip whose transmit FIFO port shows 0, which it documents as write-only.
abbrev pub WriteOnly : Platform → Type 0
WriteOnly env = (h : History) → env.reply h (read tx_data_port) ≡ 0

-- The first four of some bytes of memory are those of a word.
pub bytes_at-word :
    (memory : ℕ → ℕ) (a n : ℕ)
    → bytes_at memory a (suc n * 4)
      ≡ bytes_of (word_at memory a ∷ []) ++ bytes_at memory (a + 4) (n * 4)
bytes_at-word memory a n =
    let count : suc n * 4 ≡ suc (suc (suc (suc (n * 4)))) = omega arith in
    let two : a + 1 + 1 ≡ a + 2 = omega arith in
    let three : a + 2 + 1 ≡ a + 3 = omega arith in
    let four : a + 3 + 1 ≡ a + 4 = omega arith in
    let bytes = word_of-bytes (memory a) (memory (a + 1)) (memory (a + 2)) (memory (a + 3)) in
    rw count (simp (two, three, four)) ∙ ap (λ b. b ++ bytes_at memory (a + 4) (n * 4)) (sym bytes)

-- The state after a push.
abbrev pub pushed : ℕ → Driver → Driver
pushed w s = record s { history = (write tx_data_port w, 0) ∷ (read tx_data_port, 0) ∷ s.history }

module _ (env : Platform) (write_only : WriteOnly env) {R : Type 0} where
  pub push-goes : (w : ℕ) (s : Driver) → w < 2 ^ 32 → push env {R = R} w s ≡ (go tt, pushed w s)
  unfolding push set_field_of look put ◌>>=◌
  push-goes w s lt = simp (write_only, set_whole w lt)

  push_words-sent :
      (n a : ℕ) (s : Driver)
      → let (r, t) = push_words env {R = R} n a s in
        (r ≡ go tt)
        × (bytes_of (sent t.history) ≡ bytes_of (sent s.history) ++ bytes_at s.memory a (n * 4))
        × (t ≡ record s { history = t.history })
  unfolding push_words ◌>>=◌
  push_words-sent zero a s = (refl, sym (append-nil (bytes_of (sent s.history))), refl)
  push_words-sent (suc n) a s =
      let w = word_at s.memory a in
      let before = bytes_of (sent s.history) in
      let (ends, bytes, same) = push_words-sent n (a + 4) (pushed w s) in
      let fits = word_of-lt (s.memory a) (s.memory (a + 1)) (s.memory (a + 2)) (s.memory (a + 3)) in
      simp (push-goes w s fits) (
        ends,
        bytes
            ∙ rw (bytes_of-append (sent s.history) (w ∷ []))
                (append_assoc before (bytes_of (w ∷ [])) (bytes_at s.memory (a + 4) (n * 4)))
            ∙ ap (λ b. before ++ b) (sym (bytes_at-word s.memory a n)),
        same,
      )

pub bytes_at-append :
    (memory : ℕ → ℕ) (m n a : ℕ)
    → bytes_at memory a (m + n) ≡ bytes_at memory a m ++ bytes_at memory (a + m) n
bytes_at-append memory zero n a =
    let e : zero + n ≡ n = omega arith in let a_eq : a + zero ≡ a = omega arith in rw (e, a_eq) refl
bytes_at-append memory (suc m) n a =
    let e : suc m + n ≡ suc (m + n) = omega arith in
    let a_eq : a + 1 + m ≡ a + suc m = omega arith in
    rw e (ap (λ b. memory a % 256 ∷ b) (bytes_at-append memory m n (a + 1) ∙ rw a_eq refl))

-- The word with r bytes of data has zeros before them.
filled-bytes :
    (memory : ℕ → ℕ) (a r : ℕ)
    → r < 4
    → r ≢ 0
    → bytes_of (filled_word memory a (4 - r) ∷ []) ≡ replicate (4 - r) 0 ++ bytes_at memory a r
filled-bytes memory a zero lt some = absurd (some refl)
filled-bytes memory a (suc zero) lt some =
    let e : a + 0 ≡ a = omega arith in word_of-bytes 0 0 0 (memory (a + 0)) ∙ rw e refl
filled-bytes memory a (suc (suc zero)) lt some =
    let e : a + 0 ≡ a = omega arith in
    word_of-bytes 0 0 (memory (a + 0)) (memory (a + 1)) ∙ rw e refl
filled-bytes memory a (suc (suc (suc zero))) lt some =
    let e : a + 0 ≡ a = omega arith in
    let two : a + 1 + 1 ≡ a + 2 = omega arith in
    word_of-bytes 0 (memory (a + 0)) (memory (a + 1)) (memory (a + 2)) ∙ rw (e, two) refl
filled-bytes memory a (suc (suc (suc (suc r)))) lt some = absurd (omega arith)

glue : (xs bs cs ds : List ℕ) → (xs ++ (bs ++ cs)) ++ ds ≡ xs ++ (bs ++ (cs ++ ds))
glue xs bs cs ds = append_assoc xs (bs ++ cs) ds ∙ ap (λ b. xs ++ b) (append_assoc bs cs ds)

-- The number of zero bytes before data of a size.
abbrev pub filler : ℕ → ℕ
filler size = (4 - size % 4) % 4

-- Where the FIFO port shows 0, fill_tx_fifo puts the bytes of the data in their order into the FIFO, behind as many zeros as
-- make the size a multiple of 4, and changes nothing but the history.
pub fill_tx_fifo_lem :
    (env : Platform) {R : Type 0} (buffer size : ℕ) (s : Driver)
    → WriteOnly env
    → let (r, t) = fill_tx_fifo env {R = R} buffer size s in
      (r ≡ go tt)
      × (bytes_of (sent t.history)
          ≡ bytes_of (sent s.history)
            ++ (replicate (filler size) 0 ++ bytes_at s.memory (buffer + env.pad) size))
      × (t ≡ record s { history = t.history })
unfolding fill_tx_fifo ◌>>=◌
fill_tx_fifo_lem env {R = R} buffer size s write_only =
    let a = buffer + env.pad in
    let n = size / 4 in
    let r = size % 4 in
    let before = bytes_of (sent s.history) in
    elim (Bool-cases (size % 4 == 0)) [
      | inl whole ↦
          let none : filler size ≡ 0 = ground arith in
          let start : a + size % 4 ≡ a = ground arith in
          let count : n * 4 ≡ size = ground arith in
          let (ends, bytes, same) = push_words-sent env write_only {R = R} n (a + size % 4) s in
          simp whole (ends, bytes ∙ ap (λ b. before ++ b) (rw (none, start, count) refl), same)
      | inr part ↦
          let w = filled_word s.memory a (4 - size % 4) in
          let byte = filled_byte s.memory a (4 - size % 4) in
          let fits = word_of-lt (byte 0) (byte 1) (byte 2) (byte 3) in
          let some : size % 4 ≢ 0 = ground arith in
          let zeros : filler size ≡ 4 - size % 4 = ground arith in
          let count : size ≡ size % 4 + n * 4 = omega arith in
          let (ends, bytes, same) =
            push_words-sent env write_only {R = R} n (a + size % 4) (pushed w s) in
          simp (part, push-goes env write_only {R = R} w s fits)
            (
              ends,
              bytes
                  ∙ ap (λ b. b ++ bytes_at s.memory (a + r) (n * 4))
                      (bytes_of-append (sent s.history) (w ∷ [])
                        ∙ ap (λ b. before ++ b) (filled-bytes s.memory a r (omega arith) some))
                  ∙ glue before (replicate (4 - r) 0) (bytes_at s.memory a r)
                      (bytes_at s.memory (a + r) (n * 4))
                  ∙ ap (λ b. before ++ (replicate (4 - r) 0 ++ b))
                      (sym (bytes_at-append s.memory r (n * 4) a)
                        ∙ ap (bytes_at s.memory a) (sym count))
                  ∙ ap (λ k. before ++ (replicate k 0 ++ bytes_at s.memory a size)) (sym zeros),
              same,
            )
    ]
