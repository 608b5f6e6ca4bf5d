-- ===== src/Lan9118/Fifo/Commands.antt =====
-- The fields of the command words that lan9118_send_by_chunks builds.
use Prim.Native.Nat.{bit_and, bit_or}
use ohos_l0_adapter.Base.{
  ℕ, ◌+◌, ◌-◌, ◌*◌, ◌/◌, ◌%◌, ◌^◌, ◌<◌, ◌≡◌, refl, ap, ◌∙◌, Bool, true, false, if◌then◌else◌, arith,
}
use ohos_l0_adapter.Lan9118.Words.{set_bit, set_bit_field, get_bit_field}
use ohos_l0_adapter.Lan9118.Words.Digits.{zero-bit_or, bit_and-ones, low-bit_or, high-bit_or}
use ohos_l0_adapter.Lan9118.Fifo.{tx_command_a, tx_command_b}

-- The segment bits of a command.
abbrev pub segment : Bool → Bool → ℕ
segment last? first? = (if last? then 2 else 0) + (if first? then 4 else 0)

segment_bits :
    (last? first? : Bool)
    → (let a = if last? then set_bit 0 12 else 0 in if first? then set_bit a 13 else a)
      ≡ segment last? first? * 2 ^ 11
segment_bits true true = refl
segment_bits true false = refl
segment_bits false true = refl
segment_bits false false = refl

pub segment-lt : (last? first? : Bool) → segment last? first? < 8
segment-lt true true = omega arith
segment-lt true false = omega arith
segment-lt false true = omega arith
segment-lt false false = omega arith

-- A command word is the sum of its fields where the size fits its field.
pub tx_command_a-sum :
    (last? first? : Bool) (size : ℕ)
    → size < 2 ^ 11
    → tx_command_a last? first? size
      ≡ segment last? first? * 2 ^ 11 + size + (4 - size % 4) * 2 ^ 16
tx_command_a-sum last? first? size lt =
    let low : (bit_and size 0x7FF * 2 ^ 0) % 2 ^ 32 ≡ size =
      omega (arith, bit_and-ones 11 size, lt) in
    let offset : (bit_and (4 - size % 4) 0x1F * 2 ^ 16) % 2 ^ 32 ≡ (4 - size % 4) * 2 ^ 16 =
      omega (arith, bit_and-ones 5 (4 - size % 4)) in
    let a = segment last? first? * 2 ^ 11 in
    let fits : a + size < 2 ^ 16 = omega (arith, segment-lt last? first?, lt) in
    ap (λ w. set_bit_field (set_bit_field w 0x7FF 0 size) 0x1F 16 (4 - size % 4))
      (segment_bits last? first?)
    ∙ ap (λ b. set_bit_field (bit_or a b) 0x1F 16 (4 - size % 4)) low
    ∙ ap (λ w. set_bit_field w 0x1F 16 (4 - size % 4))
        (high-bit_or 11 (segment last? first?) size lt)
    ∙ ap (bit_or (a + size)) offset
    ∙ low-bit_or 16 (a + size) (4 - size % 4) fits

pub tx_command_b-sum : (size : ℕ) → size < 2 ^ 11 → tx_command_b size ≡ size + size * 2 ^ 16
tx_command_b-sum size lt =
    let low : (bit_and size 0x7FF * 2 ^ 0) % 2 ^ 32 ≡ size =
      omega (arith, bit_and-ones 11 size, lt) in
    let tag : (bit_and size 0xFFFF * 2 ^ 16) % 2 ^ 32 ≡ size * 2 ^ 16 =
      omega (arith, bit_and-ones 16 size, lt) in
    let fits : size < 2 ^ 16 = omega (arith, lt) in
    ap (λ b. set_bit_field (bit_or 0 b) 0xFFFF 16 size) low
    ∙ ap (λ w. set_bit_field w 0xFFFF 16 size) (zero-bit_or size)
    ∙ ap (bit_or size) tag
    ∙ low-bit_or 16 size size fits

-- The fields that the chip reads off a command word: the number of bytes that it takes, the number that it
-- skips before them, and whether the chunk is the last or the first of its packet.
abbrev pub buffer_size : ℕ → ℕ
buffer_size cmd = get_bit_field cmd 0x7FF 0

abbrev pub start_offset : ℕ → ℕ
start_offset cmd = get_bit_field cmd 0x1F 16

pub buffer_size-tx_command_a :
    (last? first? : Bool) (size : ℕ)
    → size < 2 ^ 11
    → buffer_size (tx_command_a last? first? size) ≡ size
buffer_size-tx_command_a last? first? size lt =
    let cmd = tx_command_a last? first? size in
    bit_and-ones 11 (cmd / 2 ^ 0) ∙ omega (arith, tx_command_a-sum last? first? size lt, lt)

pub start_offset-tx_command_a :
    (last? first? : Bool) (size : ℕ)
    → size < 2 ^ 11
    → start_offset (tx_command_a last? first? size) ≡ 4 - size % 4
start_offset-tx_command_a last? first? size lt =
    let cmd = tx_command_a last? first? size in
    bit_and-ones 5 (cmd / 2 ^ 16)
    ∙ omega (arith, tx_command_a-sum last? first? size lt, segment-lt last? first?, lt)
