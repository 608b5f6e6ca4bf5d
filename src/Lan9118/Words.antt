-- ===== src/Lan9118/Words.antt =====
-- Register words of lan9118_eth_drv.c: the macros that set, clear and get bits and fields, on 32-bit
-- words, and the bytes of a word on a little-endian machine.
pub mod Digits
pub mod Bytes
pub mod Masks
use Prim.Native.Nat.{bit_and, bit_or}
use ohos_l0_adapter.Base.{ℕ, ◌+◌, ◌-◌, ◌*◌, ◌^◌, ◌/◌, ◌%◌, Bool, ◌==◌, List, [], ◌∷◌}

-- `GET_BIT(word, index)`, as a test.
abbrev pub get_bit : ℕ → ℕ → Bool
get_bit word index = (word / 2 ^ index) % 2 == 1

-- What `SET_BIT(word, index)` stores.
abbrev pub set_bit : ℕ → ℕ → ℕ
set_bit word index = bit_or word (2 ^ index)

-- What `CLR_BIT(word, index)` stores: the complement is that of a 32-bit word.
abbrev pub clr_bit : ℕ → ℕ → ℕ
clr_bit word index = bit_and word (2 ^ 32 - 1 - 2 ^ index)

-- What `SET_BIT_FIELD(word, mask, offset, value)` stores.
abbrev pub set_bit_field : ℕ → ℕ → ℕ → ℕ → ℕ
set_bit_field word mask offset value = bit_or word ((bit_and value mask * 2 ^ offset) % 2 ^ 32)

-- What `CLR_BIT_FIELD(word, mask, offset, value)` stores.
abbrev pub clr_bit_field : ℕ → ℕ → ℕ → ℕ → ℕ
clr_bit_field word mask offset value =
    bit_and word (2 ^ 32 - 1 - (bit_and value mask * 2 ^ offset) % 2 ^ 32)

-- `GET_BIT_FIELD(word, mask, offset)`
abbrev pub get_bit_field : ℕ → ℕ → ℕ → ℕ
get_bit_field word mask offset = bit_and (word / 2 ^ offset) mask

-- `((uint8_t*)&word)[i]`
abbrev pub byte_of : ℕ → ℕ → ℕ
byte_of word i = (word / 2 ^ (8 * i)) % 256

-- The word with the given bytes.
abbrev pub word_of : ℕ → ℕ → ℕ → ℕ → ℕ
word_of b0 b1 b2 b3 = b0 % 256 + b1 % 256 * 2 ^ 8 + b2 % 256 * 2 ^ 16 + b3 % 256 * 2 ^ 24

-- The bytes of some words, in their order in memory.
abbrev pub bytes_of : List ℕ → List ℕ
bytes_of [] = []
bytes_of (w ∷ ws) = byte_of w 0 ∷ byte_of w 1 ∷ byte_of w 2 ∷ byte_of w 3 ∷ bytes_of ws
