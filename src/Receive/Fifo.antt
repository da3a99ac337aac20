-- ===== src/Receive/Fifo.antt =====
-- The core's receive FIFO behind its registers, as a queue of frames.
pub mod Latch
pub mod Moves
pub mod Drain
pub mod Tests
use zynq_can_sja1000_top.Common.{ℕ, zero, suc, ◌+◌, ◌≤◌, ◌<◌, u32, ◌≡◌, List, [], ◌∷◌, ◌++◌}
use zynq_can_sja1000_top.Common.{has, ltb, Bool, true, false, not, ◌&&◌, ◌||◌, if◌then◌else◌}
use zynq_can_sja1000_top.Registers.{Reg, isr, ixr_rxnemp_mask}
use zynq_can_sja1000_top.Can.{CanFrame}
use zynq_can_sja1000_top.Kernel.{Kernel, Event, History, ByteOrder}
use zynq_can_sja1000_top.Frame.{FifoWords, rx_frame}

-- The read of the last data word moves the FIFO on.
abbrev pub is_pop : Event → Bool
is_pop (Event.ioread o Reg.rxfifo_dw2 x) = true
is_pop _ = false

-- The frames taken out so far.
abbrev pub popped : History → ℕ
popped [] = 0
popped (e ∷ h) = let n = popped h in if is_pop e then suc n else n

-- The frames handed to the network stack so far, the oldest first.
abbrev pub handed_up : History → List CanFrame
handed_up [] = []
handed_up (Event.netif_receive_skb cf t ∷ h) = handed_up h ++ (cf ∷ [])
handed_up (_ ∷ h) = handed_up h

-- What had happened when the interrupt status was last read.
abbrev pub before_status : History → History
before_status [] = []
before_status (Event.ioread o Reg.isr x ∷ h) = h
before_status (_ ∷ h) = before_status h

-- A write to the interrupt clear register that clears RXNEMP.
abbrev pub is_clear : Event → Bool
is_clear (Event.iowrite o Reg.icr x) = has x ixr_rxnemp_mask
is_clear _ = false

-- The frames taken out since RXNEMP was last cleared.
abbrev pub unannounced : History → ℕ
unannounced [] = 0
unannounced (e ∷ h) =
    let n = unannounced h in if is_clear e then 0 else if is_pop e then suc n else n

-- The latch of RXNEMP: a FIFO that is not empty sets it, and only the clear register resets it,
-- after which a FIFO that is not empty sets it again.
abbrev pub latched : (History → ℕ) → History → Bool
latched arrived [] = ltb (popped []) (arrived [])
latched arrived (e ∷ h) =
    let before = latched arrived h in
    ltb (popped (e ∷ h)) (arrived (e ∷ h)) || (not (is_clear e) && before)

-- The core's FIFO: `words i` is the frame received as number `i`, and `arrived h` says how many
-- were received when `h` had happened. The registers show the oldest frame that was not taken
-- out, and RXNEMP in the interrupt status is the latch. The core is not reset meanwhile.
pub record IsFifo (k : Kernel) (words : ℕ → FifoWords) (arrived : History → ℕ) : Type 0 where
  pub grows : (e : Event) (h : History) → arrived h ≤ arrived (e ∷ h)
  pub id :
      (h : History) (o : ByteOrder)
      → popped h < arrived h
      → u32 (k.read32 h o Reg.rxfifo_id) ≡ (words (popped h)).id
  pub dlc :
      (h : History) (o : ByteOrder)
      → popped h < arrived h
      → u32 (k.read32 h o Reg.rxfifo_dlc) ≡ (words (popped h)).dlc
  pub dw1 :
      (h : History) (o : ByteOrder)
      → popped h < arrived h
      → u32 (k.read32 h o Reg.rxfifo_dw1) ≡ (words (popped h)).dw1
  pub dw2 :
      (h : History) (o : ByteOrder)
      → popped h < arrived h
      → u32 (k.read32 h o Reg.rxfifo_dw2) ≡ (words (popped h)).dw2
  pub status :
      (h : History) (o : ByteOrder)
      → has (u32 (k.read32 h o Reg.isr)) ixr_rxnemp_mask ≡ latched arrived h

-- The frames that `n` entries of the FIFO stand for, from number `i` on.
abbrev pub frames : Kernel → CanFrame → (ℕ → FifoWords) → ℕ → ℕ → List CanFrame
frames k empty words i zero = []
frames k empty words i (suc n) = rx_frame k (words i) empty ∷ frames k empty words (suc i) n
