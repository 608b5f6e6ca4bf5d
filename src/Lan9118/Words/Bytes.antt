-- ===== src/Lan9118/Words/Bytes.antt =====
-- The bytes of a word and of a run of words.
use Prim.Native.Nat.{bit_and}
use ohos_l0_adapter.Base.{
  ℕ, ◌-◌, ◌*◌, ◌/◌, ◌%◌, ◌^◌, ◌<◌, ◌≡◌, refl, ◌∙◌, List, [], ◌∷◌, ◌++◌, arith,
}
use ohos_l0_adapter.Lan9118.Words.{word_of, byte_of, bytes_of, set_bit_field, get_bit_field}
use ohos_l0_adapter.Lan9118.Words.Digits.{zero-bit_or, bit_and-ones}

module _ (b0 b1 b2 b3 : ℕ) where
  -- The bytes of the word of four bytes are these bytes.
  pub word_of-bytes :
      bytes_of (word_of b0 b1 b2 b3 ∷ []) ≡ b0 % 256 ∷ b1 % 256 ∷ b2 % 256 ∷ b3 % 256 ∷ []
  word_of-bytes =
      let e0 : byte_of (word_of b0 b1 b2 b3) 0 ≡ b0 % 256 = omega arith in
      let e1 : byte_of (word_of b0 b1 b2 b3) 1 ≡ b1 % 256 = omega arith in
      let e2 : byte_of (word_of b0 b1 b2 b3) 2 ≡ b2 % 256 = omega arith in
      let e3 : byte_of (word_of b0 b1 b2 b3) 3 ≡ b3 % 256 = omega arith in simp (e0, e1, e2, e3)

  pub word_of-lt : word_of b0 b1 b2 b3 < 2 ^ 32
  word_of-lt = omega arith

pub bytes_of-append : (xs ys : List ℕ) → bytes_of (xs ++ ys) ≡ bytes_of xs ++ bytes_of ys
bytes_of-append [] ys = refl
bytes_of-append (x ∷ xs) ys = simp (bytes_of-append xs ys)

-- A whole word, set in a register that shows 0.
pub set_whole : (w : ℕ) → w < 2 ^ 32 → set_bit_field 0 0xFFFFFFFF 0 w ≡ w
set_whole w lt =
    zero-bit_or ((bit_and w (2 ^ 32 - 1) * 2 ^ 0) % 2 ^ 32) ∙ omega (arith, bit_and-ones 32 w, lt)

-- A whole word got.
pub get_whole : (w : ℕ) → w < 2 ^ 32 → get_bit_field w 0xFFFFFFFF 0 ≡ w
get_whole w lt = bit_and-ones 32 (w / 2 ^ 0) ∙ omega (arith, lt)
