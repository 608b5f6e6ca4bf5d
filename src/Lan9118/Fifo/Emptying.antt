-- ===== src/Lan9118/Fifo/Emptying.antt =====
-- What empty_rx_fifo of lan9118_eth_drv.c stores in memory.
use mathlib.Core.List.{append_assoc, append-nil}
use native.Mathlib.Nat.{mod-lt}
use ohos_l0_adapter.Base.{
  ℕ, zero, suc, ◌+◌, ◌-◌, ◌*◌, ◌/◌, ◌%◌, ◌^◌, ◌≤◌, ◌<◌, ◌≡◌, refl, sym, ap, ◌∙◌, ◌⊎◌, inl, inr,
  List, [], ◌∷◌, ◌++◌, false, ◌==◌, go, ◌>>=◌, Bool-cases, arith, length,
}
use ohos_l0_adapter.Lan9118.Words.{byte_of, bytes_of}
use ohos_l0_adapter.Lan9118.Words.Bytes.{bytes_of-append, get_whole}
use ohos_l0_adapter.Lan9118.Device.{Platform, Driver, History, read, rx_data_port, look}
use ohos_l0_adapter.Lan9118.Fifo.{store_bytes, pop_to, pop_words, empty_rx_fifo}
use ohos_l0_adapter.Lan9118.Fifo.Filling.{bytes_at, bytes_at-append, filler}

-- The words read from the receive FIFO, in their order.
abbrev pub popped : History → List ℕ
popped [] = []
popped ((read rx_data_port, v) ∷ h) = popped h ++ (v ∷ [])
popped (e ∷ h) = popped h

-- An address outside n bytes from a.
abbrev pub Outside : ℕ → ℕ → ℕ → Type 0
Outside a n x = (x < a) ⊎ (a + n ≤ x)

Outside-part : (a n b m x : ℕ) → a ≤ b → b + m ≤ a + n → Outside a n x → Outside b m x
Outside-part a n b m x start stop (inl low) = inl (omega arith)
Outside-part a n b m x start stop (inr high) = inr (omega arith)

store_bytes-inside :
    (memory : ℕ → ℕ) (a w n i : ℕ) → i < n → store_bytes a w n memory (a + i) ≡ byte_of w i
store_bytes-inside memory a w zero i lt = absurd (omega arith)
store_bytes-inside memory a w (suc n) i lt = elim (Bool-cases (a + i == a + n)) [
  | inl last ↦ let e : i ≡ n = ground arith in simp last (ap (byte_of w) (sym e))
  | inr before ↦
      let lower : i < n = ground arith in simp before (store_bytes-inside memory a w n i lower)
]

store_bytes-Outside :
    (memory : ℕ → ℕ) (a w n x : ℕ) → Outside a n x → store_bytes a w n memory x ≡ memory x
store_bytes-Outside memory a w zero x out = refl
store_bytes-Outside memory a w (suc n) x out =
    let misses : (x == a + n) ≡ false = ground arith in
    let lower : Outside a n x = Outside-part a (suc n) a n x (omega arith) (omega arith) out in
    simp misses (store_bytes-Outside memory a w n x lower)

-- Memory that holds the first n bytes of w from a on.
abbrev Holds : (ℕ → ℕ) → ℕ → ℕ → ℕ → Type 0
Holds memory a w n = (i : ℕ) → i < n → memory (a + i) ≡ byte_of w i

Holds-byte :
    (memory : ℕ → ℕ) (a w n x i : ℕ)
    → Holds memory a w n
    → i < n
    → x ≡ a + i
    → memory x % 256 ≡ byte_of w i
Holds-byte memory a w n x i h lt e =
    ap (λ y. memory y % 256) e ∙ ap (λ b. b % 256) (h i lt) ∙ omega arith

-- The bytes of w are the n stored and the others.
bytes_of-Holds :
    (memory : ℕ → ℕ) (a w n : ℕ)
    → n ≤ 4
    → Holds memory a w n
    → (rest : List ℕ) × (length rest ≡ 4 - n) × (bytes_of (w ∷ []) ≡ bytes_at memory a n ++ rest)
bytes_of-Holds memory a w zero le h = (bytes_of (w ∷ []), refl, refl)
bytes_of-Holds memory a w (suc zero) le h =
    let byte = λ (x i : ℕ) (lt : i < 1) (e : x ≡ a + i). Holds-byte memory a w 1 x i h lt e in
    (
      byte_of w 1 ∷ byte_of w 2 ∷ byte_of w 3 ∷ [],
      refl,
      simp (byte (a) 0 (omega arith) (omega arith)),
    )
bytes_of-Holds memory a w (suc (suc zero)) le h =
    let byte = λ (x i : ℕ) (lt : i < 2) (e : x ≡ a + i). Holds-byte memory a w 2 x i h lt e in
    (
      byte_of w 2 ∷ byte_of w 3 ∷ [],
      refl,
      simp (byte (a) 0 (omega arith) (omega arith), byte (a + 1) 1 (omega arith) (omega arith)),
    )
bytes_of-Holds memory a w (suc (suc (suc zero))) le h =
    let byte = λ (x i : ℕ) (lt : i < 3) (e : x ≡ a + i). Holds-byte memory a w 3 x i h lt e in
    (
      byte_of w 3 ∷ [],
      refl,
      simp (
        byte (a) 0 (omega arith) (omega arith),
        byte (a + 1) 1 (omega arith) (omega arith),
        byte (a + 1 + 1) 2 (omega arith) (omega arith),
      ),
    )
bytes_of-Holds memory a w (suc (suc (suc (suc zero)))) le h =
    let byte = λ (x i : ℕ) (lt : i < 4) (e : x ≡ a + i). Holds-byte memory a w 4 x i h lt e in
    (
      [],
      refl,
      simp (
        byte (a) 0 (omega arith) (omega arith),
        byte (a + 1) 1 (omega arith) (omega arith),
        byte (a + 1 + 1) 2 (omega arith) (omega arith),
        byte (a + 1 + 1 + 1) 3 (omega arith) (omega arith),
      ),
    )
bytes_of-Holds memory a w (suc (suc (suc (suc (suc n))))) le h = absurd (omega arith)

no_bytes : (xs : List ℕ) → length xs ≡ 0 → xs ≡ []
no_bytes [] e = refl
no_bytes (x ∷ xs) e = absurd (omega arith)

bytes_of-four :
    (memory : ℕ → ℕ) (a w : ℕ) → Holds memory a w 4 → bytes_of (w ∷ []) ≡ bytes_at memory a 4
bytes_of-four memory a w h =
    let (rest, none, e) = bytes_of-Holds memory a w 4 (omega arith) h in
    e ∙ ap (λ b. bytes_at memory a 4 ++ b) (no_bytes rest none) ∙ append-nil (bytes_at memory a 4)

module _ (env : Platform) where
  -- The word that the port shows.
  abbrev pub shown_word : Driver → ℕ
  shown_word s = env.reply s.history (read rx_data_port) % 2 ^ 32

  abbrev pub popped_to : ℕ → ℕ → Driver → Driver
  popped_to n a s = record s {
    history = (read rx_data_port, shown_word s) ∷ s.history;
    memory = store_bytes a (shown_word s) n s.memory;
  }

  pop_to-goes :
      {R : Type 0} (n a : ℕ) (s : Driver) → pop_to env {R = R} n a s ≡ (go tt, popped_to n a s)
  unfolding pop_to look ◌>>=◌
  pop_to-goes n a s =
      simp
        (get_whole (shown_word s) (mod-lt (env.reply s.history (read rx_data_port)) (omega arith)))

  pop_words-stores :
      {R : Type 0} (n a : ℕ) (s : Driver)
      → let (r, t) = pop_words env {R = R} n a s in
        (r ≡ go tt)
        × (bytes_of (popped t.history) ≡ bytes_of (popped s.history) ++ bytes_at t.memory a (n * 4))
        × ((x : ℕ) → Outside a (n * 4) x → t.memory x ≡ s.memory x)
  unfolding pop_words ◌>>=◌
  pop_words-stores zero a s =
      (refl, sym (append-nil (bytes_of (popped s.history))), (λ x out. refl))
  pop_words-stores {R = R} (suc n) a s =
      let w = shown_word s in
      let (ends, bytes, same) = pop_words-stores {R = R} n (a + 4) (popped_to 4 a s) in
      let t = (pop_words env {R = R} n (a + 4) (popped_to 4 a s)).1 in
      let held : Holds t.memory a w 4 =
        λ i lt. same (a + i) (inl (omega arith)) ∙ store_bytes-inside s.memory a w 4 i lt in
      let before = bytes_of (popped s.history) in
      let later = bytes_at t.memory (a + 4) (n * 4) in
      simp (pop_to-goes) (
        ends,
        bytes
            ∙ ap (λ b. b ++ later) (bytes_of-append (popped s.history) (w ∷ []))
            ∙ append_assoc before (bytes_of (w ∷ [])) later
            ∙ ap (λ b. before ++ b)
                (ap (λ b. b ++ later) (bytes_of-four t.memory a w held)
                  ∙ sym (bytes_at-append t.memory 4 (n * 4) a)
                  ∙ ap (bytes_at t.memory a) (omega arith)),
        (λ x out.
            same x (Outside-part a (suc n * 4) (a + 4) (n * 4) x (omega arith) (omega arith) out)
            ∙ store_bytes-Outside s.memory a w 4 x
                (Outside-part a (suc n * 4) a 4 x (omega arith) (omega arith) out)),
      )

-- Bytes of memories that agree on them.
bytes_at-agree :
    (m k : ℕ → ℕ) (n a : ℕ) → ((x : ℕ) → x < a + n → m x ≡ k x) → bytes_at m a n ≡ bytes_at k a n
bytes_at-agree m k zero a h = refl
bytes_at-agree m k (suc n) a h =
    let later = bytes_at-agree m k n (a + 1) (λ x lt. h x (omega arith)) in
    simp (h a (omega arith), later)

regroup : (ws xs ys zs : List ℕ) → (ws ++ xs) ++ (ys ++ zs) ≡ ws ++ ((xs ++ ys) ++ zs)
regroup ws xs ys zs =
    append_assoc ws xs (ys ++ zs) ∙ ap (λ b. ws ++ b) (sym (append_assoc xs ys zs))

-- empty_rx_fifo stores the first `size` bytes of the words that it reads from the FIFO, in their order, at
-- the address, and changes no other byte of memory; the bytes that it does not store are as many as make the size a
-- multiple of 4.
pub empty_rx_fifo_lem :
    (env : Platform) {R : Type 0} (buffer size : ℕ) (s : Driver)
    → let (r, t) = empty_rx_fifo env {R = R} buffer size s in
      (r ≡ go tt)
      × ((rest : List ℕ) × (length rest ≡ filler size)
          × (bytes_of (popped t.history)
              ≡ bytes_of (popped s.history) ++ (bytes_at t.memory (buffer + env.pad) size ++ rest)))
      × ((x : ℕ) → Outside (buffer + env.pad) size x → t.memory x ≡ s.memory x)
unfolding empty_rx_fifo ◌>>=◌
empty_rx_fifo_lem env {R = R} buffer size s =
    let a = buffer + env.pad in
    let n = size / 4 in
    let r = size % 4 in
    let before = bytes_of (popped s.history) in
    let (ends, bytes, same) = pop_words-stores env {R = R} n a s in
    let m = (pop_words env {R = R} n a s).1 in
    elim (Bool-cases (size % 4 == 0)) [
      | inl whole ↦
          let count : n * 4 ≡ size = ground arith in
          simp (ends, whole)
            (
              refl,
              (
                [],
                ground arith,
                bytes
                    ∙ ap (λ k. before ++ bytes_at m.memory a k) count
                    ∙ ap (λ b. before ++ b) (sym (append-nil (bytes_at m.memory a size))),
              ),
              (λ x out. same x (Outside-part a size a (n * 4) x (omega arith) (omega arith) out)),
            )
      | inr part ↦
          let b = a + (size - r) in
          let w = shown_word env m in
          let t = popped_to env r b m in
          let held : Holds t.memory b w r = λ i lt. store_bytes-inside m.memory b w r i lt in
          let (rest, count, split) = bytes_of-Holds t.memory b w r (omega arith) held in
          let start : b ≡ a + n * 4 = omega arith in
          let kept : bytes_at m.memory a (n * 4) ≡ bytes_at t.memory a (n * 4) =
            bytes_at-agree m.memory t.memory (n * 4) a
              (λ x lt. sym (store_bytes-Outside m.memory b w r x (inl (omega arith)))) in
          let both : bytes_at t.memory a (n * 4) ++ bytes_at t.memory b r
              ≡ bytes_at t.memory a size =
            ap (λ c. bytes_at t.memory a (n * 4) ++ bytes_at t.memory c r) start
            ∙ sym (bytes_at-append t.memory (n * 4) r a)
            ∙ ap (bytes_at t.memory a) (omega arith) in
          simp (ends, part, pop_to-goes env {R = R} r b m)
            (
              refl,
              (
                rest,
                ground (arith, count),
                bytes_of-append (popped m.history) (w ∷ [])
                    ∙ ap (λ c. c ++ bytes_of (w ∷ [])) (bytes ∙ ap (λ c. before ++ c) kept)
                    ∙ ap (λ c. (before ++ bytes_at t.memory a (n * 4)) ++ c) split
                    ∙ regroup before (bytes_at t.memory a (n * 4)) (bytes_at t.memory b r) rest
                    ∙ ap (λ c. before ++ (c ++ rest)) both,
              ),
              (λ x out.
                  store_bytes-Outside m.memory b w r x
                    (Outside-part a size b r x (omega arith) (omega arith) out)
                  ∙ same x (Outside-part a size a (n * 4) x (omega arith) (omega arith) out)),
            )
    ]
