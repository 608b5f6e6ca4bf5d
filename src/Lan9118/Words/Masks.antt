-- ===== src/Lan9118/Words/Masks.antt =====
-- The bits of 32-bit words after the macros that set and clear bits and fields.
use Prim.Native.Nat.{min, max, bit_and, bit_or}
use ohos_l0_adapter.Base.{
  ℕ, zero, suc, ◌+◌, ◌-◌, ◌*◌, ◌%◌, ◌^◌, ◌<◌, ◌≡◌, refl, ap, ◌∙◌, Bool, true, false, not, ◌&&◌,
  ◌||◌, ◌==◌, leb, ltb, ==_iff, if◌then◌else◌, arith, ◌⊎◌, inl, inr,
}
use ohos_l0_adapter.Lan9118.Words.{get_bit, set_bit, clr_bit, set_bit_field, clr_bit_field}
use ohos_l0_adapter.Lan9118.Words.Digits.{bit, bit-bit_or, bit-bit_and, bit_and-ones}

-- Whether a test holds of the numbers below n, by evaluation.
abbrev holds_below : (ℕ → Bool) → ℕ → Bool
holds_below p zero = true
holds_below p (suc n) = holds_below p n && p n

holds_below-true : (p : ℕ → Bool) (n x : ℕ) → x < n → holds_below p n ≡ true → p x ≡ true
holds_below-true p zero x lt h = absurd (omega arith)
holds_below-true p (suc n) x lt h = let earlier = holds_below-true p n x in ground (arith, earlier)

-- A table with m rows of 32 entries.
table-true :
    (m : ℕ) (p : ℕ → ℕ → Bool) (i k : ℕ)
    → holds_below (λ i. holds_below (p i) 32) m ≡ true
    → i < m
    → k < 32
    → p i k ≡ true
table-true m p i k h hi hk =
    holds_below-true (p i) 32 k hk (holds_below-true (λ i. holds_below (p i) 32) m i hi h)

-- Bit k of a word with the one bit i.
abbrev single : ℕ → ℕ → Bool
single i k = bit (2 ^ i) k == (if k == i then 1 else 0)

pub bit-single : (i k : ℕ) → i < 32 → k < 32 → bit (2 ^ i) k ≡ (if k == i then 1 else 0)
bit-single i k hi hk =
    (==_iff (bit (2 ^ i) k) (if k == i then 1 else 0)).0 (table-true 32 single i k refl hi hk)

-- Bit k of a word without the one bit i.
abbrev hole : ℕ → ℕ → Bool
hole i k = bit (2 ^ 32 - 1 - 2 ^ i) k == (if k == i then 0 else 1)

pub bit-hole : (i k : ℕ) → i < 32 → k < 32 → bit (2 ^ 32 - 1 - 2 ^ i) k ≡ (if k == i then 0 else 1)
bit-hole i k hi hk =
    (==_iff (bit (2 ^ 32 - 1 - 2 ^ i) k) (if k == i then 0 else 1)).0
      (table-true 32 hole i k refl hi hk)

-- Bit k of a word stands in the byte from bit `pos` on.
abbrev pub inside : ℕ → ℕ → Bool
inside pos k = leb pos k && ltb k (pos + 8)

abbrev field_hole : ℕ → ℕ → Bool
field_hole pos k = bit (2 ^ 32 - 1 - (255 * 2 ^ pos) % 2 ^ 32) k == (if inside pos k then 0 else 1)

abbrev field_level : ℕ → ℕ → ℕ → Bool
field_level pos level k =
    bit ((level * 2 ^ pos) % 2 ^ 32) k == (if inside pos k then bit level (k - pos) else 0)

-- The words that clear and set a byte at one of the three positions of the FIFO levels.
abbrev pub IsLevel : ℕ → Type 0
IsLevel pos = (pos ≡ 0) ⊎ ((pos ≡ 16) ⊎ (pos ≡ 24))

field_hole-true : (pos k : ℕ) → IsLevel pos → k < 32 → field_hole pos k ≡ true
field_hole-true pos k (inl e) hk = rw e (holds_below-true (field_hole 0) 32 k hk refl)
field_hole-true pos k (inr (inl e)) hk = rw e (holds_below-true (field_hole 16) 32 k hk refl)
field_hole-true pos k (inr (inr e)) hk = rw e (holds_below-true (field_hole 24) 32 k hk refl)

field_level-true :
    (pos level k : ℕ) → IsLevel pos → level < 256 → k < 32 → field_level pos level k ≡ true
field_level-true pos level k (inl e) hl hk =
    rw e (table-true 256 (field_level 0) level k refl hl hk)
field_level-true pos level k (inr (inl e)) hl hk =
    rw e (table-true 256 (field_level 16) level k refl hl hk)
field_level-true pos level k (inr (inr e)) hl hk =
    rw e (table-true 256 (field_level 24) level k refl hl hk)

merged :
    (b : Bool) (x y : ℕ)
    → x < 2
    → max (min x (if b then 0 else 1)) (if b then y else 0) ≡ (if b then y else x)
merged true x y lt = omega arith
merged false x y lt = omega arith

-- Writing a level into its byte of a word: the byte's bits are the level's and the others stay.
pub bit-level :
    (w pos level k : ℕ)
    → IsLevel pos
    → level < 256
    → k < 32
    → bit (set_bit_field (clr_bit_field w 0xFF pos 0xFF) 0xFF pos level) k
      ≡ (if inside pos k then bit level (k - pos) else bit w k)
bit-level w pos level k at hl hk =
    let kept = 2 ^ 32 - 1 - (255 * 2 ^ pos) % 2 ^ 32 in
    let whole : bit_and level 255 ≡ level = omega (arith, bit_and-ones 8 level, hl) in
    let h = (==_iff (bit kept k) (if inside pos k then 0 else 1)).0 (field_hole-true pos k at hk) in
    let l =
      (==_iff (bit ((level * 2 ^ pos) % 2 ^ 32) k)
          (if inside pos k then bit level (k - pos) else 0)).0
        (field_level-true pos level k at hl hk) in
    ap (λ n. bit (bit_or (bit_and w kept) ((n * 2 ^ pos) % 2 ^ 32)) k) whole
    ∙ bit-bit_or (bit_and w kept) ((level * 2 ^ pos) % 2 ^ 32) k
    ∙ ap (λ b. max (bit (bit_and w kept) k) b) l
    ∙ ap (λ b. max b (if inside pos k then bit level (k - pos) else 0))
        (bit-bit_and w kept k ∙ ap (min (bit w k)) h)
    ∙ merged (inside pos k) (bit w k) (bit level (k - pos)) (omega arith)

-- Setting and clearing bit i of a word, bit by bit.
pub get_bit-set_bit :
    (w i k : ℕ) → i < 32 → k < 32 → get_bit (set_bit w i) k ≡ (get_bit w k || (k == i))
get_bit-set_bit w i k hi hk = ground (arith, bit-bit_or w (2 ^ i) k, bit-single i k hi hk)

pub get_bit-clr_bit :
    (w i k : ℕ) → i < 32 → k < 32 → get_bit (clr_bit w i) k ≡ (get_bit w k && not (k == i))
get_bit-clr_bit w i k hi hk =
    ground (arith, bit-bit_and w (2 ^ 32 - 1 - 2 ^ i) k, bit-hole i k hi hk)
