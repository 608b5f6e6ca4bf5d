-- ===== src/Lan9118/Buffers/Lengths.antt =====
-- The total lengths of packet buffers.
use ohos_l0_adapter.Base.{ℕ, ◌+◌, ◌%◌, ◌^◌, ◌<◌, ◌≡◌, refl, ap, [], ◌∷◌, arith}
use ohos_l0_adapter.Lan9118.Device.{Pbuf}
use ohos_l0_adapter.Lan9118.Buffers.{sum_len, set_total_lens, set_total_len, total_len}

-- What lwIP asks of a buffer: the total length of a node is its own length and the total of the rest.
abbrev pub IsTotal : Pbuf → Type 0
IsTotal [] = Unit {0}
IsTotal (n ∷ ns) = (n.tot_len ≡ (n.len + total_len ns) % 2 ^ 16) × IsTotal ns

-- Lengths of 16 bits.
abbrev pub Lens : Pbuf → Type 0
Lens [] = Unit {0}
Lens (n ∷ ns) = (n.len < 2 ^ 16) × Lens ns

total_len-set_total_lens : (ns : Pbuf) → total_len (set_total_lens ns) ≡ sum_len ns % 2 ^ 16
total_len-set_total_lens [] = refl
total_len-set_total_lens (n ∷ ns) = refl

pub set_total_lens-IsTotal : (ns : Pbuf) → IsTotal (set_total_lens ns)
set_total_lens-IsTotal [] = tt
set_total_lens-IsTotal (n ∷ ns) =
    (omega (arith, total_len-set_total_lens ns), set_total_lens-IsTotal ns)

-- The shortcut of SetTotalLen for a single node does what its loop does.
pub set_total_len-loop : (ns : Pbuf) → Lens ns → set_total_len ns ≡ set_total_lens ns
set_total_len-loop [] h = refl
set_total_len-loop (n ∷ []) (lt, rest) =
    ap (λ (t : ℕ). (record n { tot_len = t }) ∷ []) (omega arith)
set_total_len-loop (n ∷ m ∷ ns) h = refl

-- After SetTotalLen of a buffer with 16-bit lengths, the total length of each node is its own length and the total of the rest.
pub set_total_len-IsTotal : (ns : Pbuf) → Lens ns → IsTotal (set_total_len ns)
set_total_len-IsTotal ns h = rw (set_total_len-loop ns h) (set_total_lens-IsTotal ns)
