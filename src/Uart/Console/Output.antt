-- ===== src/Uart/Console/Output.antt =====
-- What reaches the line (dputs and printf of dprintf.c).
use ohos_l0_adapter.Base.{
  ℕ, zero, suc, ◌+◌, ◌%◌, List, [], ◌∷◌, ◌++◌, ◌≡◌, refl, ◌∙◌, sym, ap, go, ◌>>=◌, if◌then◌else◌,
  Bool-cases, inl, inr,
}
use mathlib.Core.List.{append_assoc, append-nil}
use ohos_l0_adapter.Uart.Device.{Hardware, Device, has_bit, look, int_lock, int_restore}
use ohos_l0_adapter.Uart.Driver.{arm_uart_write}
use ohos_l0_adapter.Uart.Console.{put_all, dputs, uart_putc, kernel_call}

-- The bytes of `s` that find the transmit buffer free, the first at read `n` of a register.
abbrev pub accepted : Hardware → ℕ → List ℕ → List ℕ
accepted hw n [] = []
accepted hw n (zero ∷ s) = []
accepted hw n (suc c ∷ s) =
    let rest = accepted hw (n + 1) s in if has_bit (hw.state n) 0 then rest else suc c % 256 ∷ rest

-- The bytes sent, the first one first.
abbrev pub in_order : List ℕ → List ℕ
in_order [] = []
in_order (b ∷ bs) = in_order bs ++ (b ∷ [])

put_all-sent :
    (hw : Hardware) (s : List ℕ) (d : Device)
    → let (r, t) = put_all hw s d in
      (r ≡ go tt)
      × (in_order t.sent ≡ in_order d.sent ++ accepted hw d.reads s)
      × (t.kernel ≡ d.kernel)
unfolding put_all uart_putc arm_uart_write look ◌>>=◌
put_all-sent hw [] d = (refl, sym (append-nil (in_order d.sent)), refl)
put_all-sent hw (zero ∷ s) d = (refl, sym (append-nil (in_order d.sent)), refl)
put_all-sent hw (suc c ∷ s) d = elim (Bool-cases (has_bit (hw.state d.reads) 0)) [
  | inl full ↦ simp full (put_all-sent hw s (record d { reads = d.reads + 1 }))
  | inr free ↦
      (let (ends, sent, kernel) =
          put_all-sent hw s (record d { reads = d.reads + 1; sent = suc c % 256 ∷ d.sent }) in
        simp free (
          ends,
          sent ∙ append_assoc (in_order d.sent) (suc c % 256 ∷ []) (accepted hw (d.reads + 1) s),
          kernel,
        ))
]

-- With a call to lock interrupts before and one to restore them after, `dputs` sends the bytes of its string that find the transmit buffer
-- free, in order, and drops the others.
pub dputs-sent :
    (hw : Hardware) (s : List ℕ) (d : Device)
    → let (r, t) = dputs hw s d in
      (in_order t.sent ≡ in_order d.sent ++ accepted hw d.reads s)
      × (t.kernel ≡ int_restore ∷ int_lock ∷ d.kernel)
unfolding dputs kernel_call ◌>>=◌
dputs-sent hw s d =
    let (ends, sent, kernel) = put_all-sent hw s (record d { kernel = int_lock ∷ d.kernel }) in
    simp ends (sent, ap (λ k. int_restore ∷ k) kernel)
