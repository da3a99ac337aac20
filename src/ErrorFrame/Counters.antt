-- ===== src/ErrorFrame/Counters.antt =====
-- The error counters after xcan_err_interrupt.
use zynq_can_sja1000_top.Common.{
  ℕ, ◌+◌, ◌/◌, ◌%◌, ◌^◌, u32, ◌≡◌, refl, ap, ◌∙◌, arith, ◌>>>◌, bit_and, none, some, ◌==◌,
  if◌then◌else◌,
}
use zynq_can_sja1000_top.Common.Bits.{has_digit}
use zynq_can_sja1000_top.Registers.{sr, esr, ecr, ecr_tec_mask, ecr_rec_mask, esr_rec_shift}
use zynq_can_sja1000_top.Kernel.{Kernel}
use zynq_can_sja1000_top.Driver.{World, Stats, read_reg, write_reg}
use zynq_can_sja1000_top.ErrorFrame.Device.{can_counted, can_stats-xcan_err_interrupt}
use zynq_can_sja1000_top.ErrorFrame.State.{last_sr, status_read, last_sr-xcan_err_interrupt}
use zynq_can_sja1000_top.ErrorFrame.Kinds.{AreCounters, error_kinds_lem}
use zynq_can_sja1000_top.ErrorFrame.{
  Skb, marked_frame, state_error, arbitration_lost, rx_overflow, bus_error, deliver_error,
  alloc_error, xcan_err_interrupt,
}

-- From `s` to `s'` the counters grow as the interrupt status and the error status say, modulo
-- 2 ^ 32: an ACK or bit error is a transmit error, a stuff, form or CRC error a receive error,
-- each only with the error interrupt (bit 8); an overflow (bit 6) is a receive error too.
pub record Counted (isr_value err_status : ℕ) (s s' : Stats) : Type 0 where
  pub tx :
      s'.tx_errors
      ≡ u32 (
          s.tx_errors
          + (if isr_value / 2 ^ 8 % 2 == 1
              then err_status / 2 ^ 4 % 2 + err_status / 2 ^ 3 % 2
              else 0))
  pub rx :
      s'.rx_errors
      ≡ u32 (
          s.rx_errors
          + isr_value / 2 ^ 6 % 2
          + (if isr_value / 2 ^ 8 % 2 == 1
              then err_status / 2 ^ 2 % 2 + err_status / 2 ^ 1 % 2 + err_status / 2 ^ 0 % 2
              else 0))
  pub over : s'.rx_over_errors ≡ u32 (s.rx_over_errors + isr_value / 2 ^ 6 % 2)

-- What an overflow counts.
abbrev overflowed : ℕ → Stats → Stats
overflowed isr_value s = record s {
  rx_errors = u32 (s.rx_errors + isr_value / 2 ^ 6 % 2);
  rx_over_errors = u32 (s.rx_over_errors + isr_value / 2 ^ 6 % 2);
}

-- What a bus error counts, as equations of the three counters.
abbrev BusCounted : (isr_value err_status : ℕ) (s s' : Stats) → Type 0
BusCounted isr_value err_status s s' =
    (s'.tx_errors
      ≡ u32 (
          s.tx_errors
          + (if isr_value / 2 ^ 8 % 2 == 1
              then err_status / 2 ^ 4 % 2 + err_status / 2 ^ 3 % 2
              else 0)))
    × (s'.rx_errors
        ≡ u32 (
            s.rx_errors
            + (if isr_value / 2 ^ 8 % 2 == 1
                then err_status / 2 ^ 2 % 2 + err_status / 2 ^ 1 % 2 + err_status / 2 ^ 0 % 2
                else 0)))
    × (s'.rx_over_errors ≡ s.rx_over_errors)

abbrev SameErrors : Stats → Stats → Type 0
SameErrors s s' =
    (s'.tx_errors ≡ s.tx_errors)
    × (s'.rx_errors ≡ s.rx_errors)
    × (s'.rx_over_errors ≡ s.rx_over_errors)

Counted-chain :
    (isr_value err_status : ℕ) (s s2 s3 s4 s' : Stats)
    → s2 ≡ s
    → s3 ≡ overflowed isr_value s2
    → BusCounted isr_value err_status s3 s4
    → SameErrors s4 s'
    → Counted isr_value err_status s s'
Counted-chain isr_value err_status s s2 s3 s4 s' e o b l =
    let oe = o ∙ ap (overflowed isr_value) e in
    let tx = ap (λ (q : Stats). q.tx_errors) oe in
    let rx = ap (λ (q : Stats). q.rx_errors) oe in
    let over = ap (λ (q : Stats). q.rx_over_errors) oe in
    record { tx = ground arith; rx = ground arith; over = ground arith }

module _ (isr_value : ℕ) (skb : Skb) (w : World) where
  stats-state_error :
      (status txerr rxerr : ℕ) → (state_error isr_value status txerr rxerr skb w).1.stats ≡ w.stats
  unfolding state_error
  stats-state_error status txerr rxerr = ground arith

  stats-arbitration_lost : (arbitration_lost isr_value skb w).1.stats ≡ w.stats
  unfolding arbitration_lost
  stats-arbitration_lost = ground arith

  stats-rx_overflow :
      AreCounters w.stats → (rx_overflow isr_value skb w).1.stats ≡ overflowed isr_value w.stats
  unfolding rx_overflow
  stats-rx_overflow c = ground (arith, has_digit 6 isr_value)

  AreCounters-rx_overflow : AreCounters w.stats → AreCounters (rx_overflow isr_value skb w).1.stats
  AreCounters-rx_overflow c = rw (stats-rx_overflow c) (omega arith)

  Counted-bus_error :
      (err_status : ℕ)
      → AreCounters w.stats
      → BusCounted isr_value err_status w.stats (bus_error isr_value err_status skb w).1.stats
  unfolding bus_error
  Counted-bus_error err_status c =
      let kinds = ap (λ (u : World). u.stats) (error_kinds_lem w c err_status (marked_frame skb)) in
      ground (arith, has_digit 8 isr_value, kinds)

errors-deliver_error : (skb : Skb) (w : World) → SameErrors w.stats (deliver_error skb w).1.stats
unfolding deliver_error
errors-deliver_error none w = (refl, refl, refl)
errors-deliver_error (some cf) w = (refl, refl, refl)

module _ (k : Kernel) where
  stats-alloc_error : (w : World) → (alloc_error k w).1.stats ≡ w.stats
  unfolding alloc_error
  stats-alloc_error w = ground arith

  errors-Counted :
      (isr_value : ℕ) (w : World)
      → AreCounters w.stats
      → let err_status = (read_reg k esr (alloc_error k w).1).0 in
        Counted isr_value err_status w.stats (xcan_err_interrupt k isr_value w).1.stats
  unfolding xcan_err_interrupt
  errors-Counted isr_value w c =
      let a = alloc_error k w in
      let e = read_reg k esr a.1 in
      let x = (write_reg esr e.0 e.1).1 in
      let t = read_reg k ecr x in
      let r = read_reg k ecr t.1 in
      let s = read_reg k sr r.1 in
      let tx = bit_and t.0 ecr_tec_mask in
      let rx = bit_and r.0 ecr_rec_mask >>> esr_rec_shift in
      let s1 = state_error isr_value s.0 tx rx a.0 s.1 in
      let s2 = arbitration_lost isr_value s1.0 s1.1 in
      let s3 = rx_overflow isr_value s2.0 s2.1 in
      let s4 = bus_error isr_value e.0 s3.0 s3.1 in
      let before : s2.1.stats ≡ w.stats =
        stats-arbitration_lost isr_value s1.0 s1.1
        ∙ stats-state_error isr_value a.0 s.1 s.0 tx rx
        ∙ stats-alloc_error w in
      let c2 : AreCounters s2.1.stats = rw before c in
      let over = stats-rx_overflow isr_value s2.0 s2.1 c2 in
      let bus =
        Counted-bus_error isr_value s3.0 s3.1 e.0
          (AreCounters-rx_overflow isr_value s2.0 s2.1 c2) in
      let last = errors-deliver_error s4.0 s4.1 in
      Counted-chain isr_value e.0 w.stats s2.1.stats s3.1.stats s4.1.stats _ before over bus last

  -- With error counters of the network device that are 32-bit words: xcan_err_interrupt adds to
  -- each, modulo 2 ^ 32, one for every error that the interrupt status and the error status
  -- report, and to the five counters of the CAN device: one to bus-off, error-passive or
  -- error-warning, by the interrupt status and the status register as it was read last, in this
  -- precedence, one to lost arbitrations and one to bus errors where the interrupt status reports
  -- them. All of this holds whether or not there is memory for the error frame.
  pub xcan_err_interrupt-Counted :
      (isr_value : ℕ) (w : World)
      → AreCounters w.stats
      → let err_status = (read_reg k esr (alloc_error k w).1).0 in
        let w' = (xcan_err_interrupt k isr_value w).1 in
        Counted isr_value err_status w.stats w'.stats
        × (status : ℕ) × (last_sr w'.history ≡ some status)
        × (w'.priv.can_stats ≡ can_counted isr_value status w.priv.can_stats)
  xcan_err_interrupt-Counted isr_value w c = (
    errors-Counted isr_value w c,
    status_read k w,
    last_sr-xcan_err_interrupt k isr_value w,
    can_stats-xcan_err_interrupt k isr_value w,
  )
