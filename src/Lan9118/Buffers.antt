-- ===== src/Lan9118/Buffers.antt =====
-- Packet buffers in lan9118_eth_drv.c. lwIP's `len` and `tot_len` have 16 bits.
pub mod Lengths
pub mod Alignment
use ohos_l0_adapter.Base.{
  ℕ, ◌+◌, ◌-◌, ◌^◌, ◌%◌, List, [], ◌∷◌, Bool, ◌==◌, leb, if◌then◌else◌, go, pure, ◌>>=◌, ◌>>◌,
}
use ohos_l0_adapter.Lan9118.Device.{Platform, M, Node, Pbuf, pbuf_alloc, access}

-- The bytes of a buffer, as a sum of 32 bits.
abbrev pub sum_len : Pbuf → ℕ
sum_len [] = 0
sum_len (n ∷ ns) = (n.len + sum_len ns) % 2 ^ 32

-- The loop of `SetTotalLen`.
abbrev pub set_total_lens : Pbuf → Pbuf
set_total_lens [] = []
set_total_lens (n ∷ ns) = record n { tot_len = sum_len (n ∷ ns) % 2 ^ 16 } ∷ set_total_lens ns

-- `SetTotalLen`
abbrev pub set_total_len : Pbuf → Pbuf
set_total_len (n ∷ []) = record n { tot_len = n.len } ∷ []
set_total_len ns = set_total_lens ns

-- How far the payload of a node moves.
abbrev pub align_offset : ℕ → ℕ → ℕ
align_offset payload align =
    let remainder = payload % align in
    if remainder == 0 then 0 else if leb align (align - remainder) then align else align - remainder

-- The loop of `AlignMemory`. The length loses `align` bytes and wraps around below 0.
abbrev pub align_nodes : ℕ → Pbuf → Pbuf
align_nodes align [] = []
align_nodes align (n ∷ ns) =
    record n {
      payload = n.payload + align_offset n.payload align;
      len = ((n.len + 2 ^ 32 - align) % 2 ^ 32) % 2 ^ 16;
    }
    ∷ align_nodes align ns

-- `AlignMemory`
abbrev pub align_memory : Pbuf → ℕ → Pbuf
align_memory ns align = if align == 0 then ns else set_total_len (align_nodes align ns)

-- `SetLen`
abbrev pub set_len : Pbuf → ℕ → Pbuf
set_len [] len = []
set_len (n ∷ ns) len = set_total_len (record n { len = len % 2 ^ 16 } ∷ ns)

-- `GetNextNode`, `GetPayloadAddr`, `GetLen` and `GetTotalLen`, the last three of a buffer that is not NULL.
abbrev pub next_node : Pbuf → Pbuf
next_node [] = []
next_node (n ∷ ns) = ns

abbrev pub payload_addr : Pbuf → ℕ
payload_addr [] = 0
payload_addr (n ∷ ns) = n.payload

abbrev pub get_len : Pbuf → ℕ
get_len [] = 0
get_len (n ∷ ns) = n.len

abbrev pub total_len : Pbuf → ℕ
total_len [] = 0
total_len (n ∷ ns) = n.tot_len

-- `AllocHeap`
unfoldable pub alloc_heap : Platform → {R : Type 0} → ℕ → ℕ → M R Pbuf
alloc_heap env size align s =
    let p = env.alloc s.history (size + align) in
    (go (align_memory p align), record s { history = (pbuf_alloc (size + align), 0) ∷ s.history })
