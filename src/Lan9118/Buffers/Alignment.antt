-- ===== src/Lan9118/Buffers/Alignment.antt =====
-- Where AlignMemory leaves the payload of a packet buffer.
use native.Mathlib.Nat.{div-add-mod, mul-mod_right, mod-lt}
use ohos_l0_adapter.Base.{
  ℕ, suc, ◌+◌, ◌-◌, ◌*◌, ◌/◌, ◌%◌, ◌^◌, ◌≤◌, ◌<◌, ◌≡◌, [], ◌∷◌, false, ◌==◌, leb, inl, inr,
  Bool-cases, arith,
}
use ohos_l0_adapter.Lan9118.Device.{Node, Pbuf}
use ohos_l0_adapter.Lan9118.Buffers.{align_offset, align_nodes, align_memory, set_total_lens}
use ohos_l0_adapter.Lan9118.Buffers.Lengths.{
  IsTotal, Lens, set_total_len-loop, set_total_lens-IsTotal,
}

-- An aligned payload, within the memory of the node before.
abbrev pub Aligned : ℕ → Node → Node → Type 0
Aligned align old new =
    (new.payload % align ≡ 0)
    × (old.payload ≤ new.payload)
    × (new.payload + new.len ≤ old.payload + old.len)

align_offset-aligned : (p align : ℕ) → 0 < align → (p + align_offset p align) % align ≡ 0
align_offset-aligned p align positive =
    let r = p % align in
    let below : p % align < align = mod-lt p positive in
    let split : align * (p / align) + r ≡ p = div-add-mod p align in
    elim (Bool-cases (p % align == 0)) [
      | inl here ↦ let e : p + 0 ≡ p = omega arith in simp (here, e) (ground arith)
      | inr off ↦
          let some : 0 < r = ground arith in
          let short : leb align (align - r) ≡ false = ground (arith, below) in
          let e : p + (align - r) ≡ align * suc (p / align) = omega (arith, split, below) in
          simp (off, short, e) (mul-mod_right align (suc (p / align)))
    ]

align_offset-le : (p align : ℕ) → 0 < align → align_offset p align ≤ align
align_offset-le p align positive = elim (Bool-cases (p % align == 0)) [
  | inl here ↦ simp here (omega arith)
  | inr off ↦ elim (Bool-cases (leb align (align - p % align))) [
    | inl far ↦ simp (off, far) (omega arith)
    | inr near ↦ simp (off, near) (omega arith)
  ]
]

-- A node of at least `align` bytes, in 16 bits, is aligned and keeps within its memory.
pub align_node-Aligned :
    (n : Node) (align : ℕ)
    → 0 < align
    → align ≤ n.len
    → n.len < 2 ^ 16
    → let moved : Node = record n {
      payload = n.payload + align_offset n.payload align;
      len = ((n.len + 2 ^ 32 - align) % 2 ^ 32) % 2 ^ 16;
    } in
      Aligned align n moved
align_node-Aligned n align positive le bound = (
  align_offset-aligned n.payload align positive,
  omega arith,
  omega (arith, align_offset-le n.payload align positive),
)

-- Each node of one buffer against the node in its place of another.
abbrev pub Each : (Node → Node → Type 0) → Pbuf → Pbuf → Type 0
Each P [] [] = Unit {0}
Each P (n ∷ ns) (m ∷ ms) = P n m × Each P ns ms
Each P ns ms = ⊥

-- Nodes of at least `align` bytes, in 16 bits.
abbrev pub Long : ℕ → Pbuf → Type 0
Long align [] = Unit {0}
Long align (n ∷ ns) = (align ≤ n.len) × (n.len < 2 ^ 16) × Long align ns

align_nodes-Aligned :
    (align : ℕ) (ns : Pbuf)
    → 0 < align
    → Long align ns
    → Each (Aligned align) ns (align_nodes align ns)
align_nodes-Aligned align [] positive h = tt
align_nodes-Aligned align (n ∷ ns) positive (le, bound, rest) =
    (align_node-Aligned n align positive le bound, align_nodes-Aligned align ns positive rest)

set_total_lens-Each :
    (align : ℕ) (ns ms : Pbuf)
    → Each (Aligned align) ns ms
    → Each (Aligned align) ns (set_total_lens ms)
set_total_lens-Each align [] [] h = h
set_total_lens-Each align [] (m ∷ ms) h = absurd h
set_total_lens-Each align (n ∷ ns) [] h = absurd h
set_total_lens-Each align (n ∷ ns) (m ∷ ms) (here, rest) =
    (here, set_total_lens-Each align ns ms rest)

align_nodes-Lens : (align : ℕ) (ns : Pbuf) → Lens (align_nodes align ns)
align_nodes-Lens align [] = tt
align_nodes-Lens align (n ∷ ns) = (omega arith, align_nodes-Lens align ns)

-- AlignMemory of a buffer each of whose nodes has at least `align` bytes, in 16 bits: each payload then starts at a multiple of
-- `align`, within the memory that the node had, and the total lengths fit the lengths.
pub align_memory-Aligned :
    (align : ℕ) (ns : Pbuf)
    → 0 < align
    → Long align ns
    → Each (Aligned align) ns (align_memory ns align) × IsTotal (align_memory ns align)
align_memory-Aligned align ns positive h =
    let some : (align == 0) ≡ false = ground arith in
    let moved = align_nodes align ns in
    simp (some, set_total_len-loop moved (align_nodes-Lens align ns))
      (
        set_total_lens-Each align ns moved (align_nodes-Aligned align ns positive h),
        set_total_lens-IsTotal moved,
      )
