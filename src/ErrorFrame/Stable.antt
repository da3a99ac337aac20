-- ===== src/ErrorFrame/Stable.antt =====
-- What xcan_err_interrupt keeps: a relation between states that holds along its register accesses,
-- its counters and its calls holds along all of it.
use zynq_can_sja1000_top.Common.{
  ℕ, ◌≡◌, refl, Bool, Bool-cases, Option-cases, inl, inr, none, some, has, ◌==◌, bit_and, true,
  false, ◌>>>◌,
}
use zynq_can_sja1000_top.Registers.{
  srr, sr, esr, ecr, srr_reset_mask, ecr_tec_mask, ecr_rec_mask, esr_rec_shift, ixr_bsoff_mask,
  ixr_arblst_mask, ixr_rxoflw_mask, ixr_error_mask, sr_estat_mask, sr_errwrn_mask,
}
use zynq_can_sja1000_top.Can.{CanFrame, CanState}
use zynq_can_sja1000_top.Kernel.{Kernel, Event}
use zynq_can_sja1000_top.Driver.{
  World, CanStats, Stats, modify_stats, set_state, emit, inc, read_reg, write_reg,
}
use zynq_can_sja1000_top.Mode.Stable.{IsStable}
use zynq_can_sja1000_top.ErrorFrame.{
  Skb, modify_can_stats, state_error, arbitration_lost, rx_overflow, tx_error, rx_error,
  error_kinds, bus_error, deliver_error, alloc_error, xcan_err_interrupt, marked_frame,
}

abbrev pub is_error_call : Event → Bool
is_error_call (Event.alloc_skb b) = true
is_error_call Event.call_bus_off = true
is_error_call _ = false

-- The counters of errors, among those of the network device.
abbrev pub tx_error_counted : Stats → Stats
tx_error_counted s = record s { tx_errors = inc s.tx_errors }

abbrev pub rx_error_counted : Stats → Stats
rx_error_counted s = record s { rx_errors = inc s.rx_errors }

abbrev pub overflow_counted : Stats → Stats
overflow_counted s = record s { rx_over_errors = inc s.rx_over_errors; rx_errors = inc s.rx_errors }

pub record IsErrorStable (k : Kernel) (R : World → World → Type 0) : Type 0 where
  pub start : IsStable k R
  pub can_stats :
      (c : CanStats) (w : World) → R w (record w { priv = record w.priv { can_stats = c } })
  pub tx_counted : (w : World) → R w (modify_stats tx_error_counted w).1
  pub rx_counted : (w : World) → R w (modify_stats rx_error_counted w).1
  pub over_counted : (w : World) → R w (modify_stats overflow_counted w).1
  pub call : (e : Event) (w : World) → is_error_call e ≡ true → R w (emit e w).1
  pub deliver : (cf : CanFrame) (w : World) → R w (deliver_error (some cf) w).1

module _ (k : Kernel) (R : World → World → Type 0) (stable : IsErrorStable k R) where
  open stable use {start, can_stats, tx_counted, rx_counted, over_counted, call, deliver}
  open start use {same, trans, read, write, state}

  state_error-Stable :
      (isr_value status txerr rxerr : ℕ) (skb : Skb) (w : World)
      → R w (state_error isr_value status txerr rxerr skb w).1
  unfolding state_error
  state_error-Stable isr_value status txerr rxerr skb w =
      let off = (set_state CanState.bus_off w).1 in
      let counted : World =
        (modify_can_stats (λ c. record c { bus_off_count = inc c.bus_off_count }) off).1 in
      let reset = (write_reg srr srr_reset_mask counted).1 in
      elim (Bool-cases (has isr_value ixr_bsoff_mask)) [
        | inl e ↦ rw e (
            trans (state CanState.bus_off w) (
              trans (can_stats _ off)
                (trans (write srr srr_reset_mask counted) (call Event.call_bus_off reset refl))))
        | inr e ↦ elim (Bool-cases (bit_and status sr_estat_mask == sr_estat_mask)) [
          | inl p ↦ rw (e, p) (trans (state CanState.error_passive w) (can_stats _ _))
          | inr p ↦ elim (Bool-cases (has status sr_errwrn_mask)) [
            | inl q ↦ rw (e, p, q) (trans (state CanState.error_warning w) (can_stats _ _))
            | inr q ↦ rw (e, p, q) (same w)
          ]
        ]
      ]

  arbitration_lost-Stable :
      (isr_value : ℕ) (skb : Skb) (w : World) → R w (arbitration_lost isr_value skb w).1
  unfolding arbitration_lost
  arbitration_lost-Stable isr_value skb w = elim (Bool-cases (has isr_value ixr_arblst_mask)) [
    | inl e ↦ rw e (can_stats _ w)
    | inr e ↦ rw e (same w)
  ]

  rx_overflow-Stable : (isr_value : ℕ) (skb : Skb) (w : World) → R w (rx_overflow isr_value skb w).1
  unfolding rx_overflow
  rx_overflow-Stable isr_value skb w = elim (Bool-cases (has isr_value ixr_rxoflw_mask)) [
    | inl e ↦ rw e (trans (over_counted w) (write srr srr_reset_mask _))
    | inr e ↦ rw e (same w)
  ]

  module _ (status mask : ℕ) (mark : CanFrame → CanFrame) (skb : Skb) (w : World) where
    tx_error-Stable : R w (tx_error status mask mark skb w).1
    unfolding tx_error
    tx_error-Stable = elim (Bool-cases (has status mask)) [
      | inl e ↦ rw e (tx_counted w)
      | inr e ↦ rw e (same w)
    ]

    rx_error-Stable : R w (rx_error status mask mark skb w).1
    unfolding rx_error
    rx_error-Stable = elim (Bool-cases (has status mask)) [
      | inl e ↦ rw e (rx_counted w)
      | inr e ↦ rw e (same w)
    ]

  error_kinds-Stable : (status : ℕ) (skb : Skb) (w : World) → R w (error_kinds status skb w).1
  unfolding error_kinds
  error_kinds-Stable status skb w = trans (tx_error-Stable status _ _ skb w) (
      trans (tx_error-Stable status _ _ _ _) (
        trans (rx_error-Stable status _ _ _ _)
          (trans (rx_error-Stable status _ _ _ _) (rx_error-Stable status _ _ _ _))))

  bus_error-Stable :
      (isr_value status : ℕ) (skb : Skb) (w : World) → R w (bus_error isr_value status skb w).1
  unfolding bus_error
  bus_error-Stable isr_value status skb w = elim (Bool-cases (has isr_value ixr_error_mask)) [
    | inl e ↦ rw e (trans (error_kinds-Stable status (marked_frame skb) w) (can_stats _ _))
    | inr e ↦ rw e (same w)
  ]

  deliver_error-Stable : (skb : Skb) (w : World) → R w (deliver_error skb w).1
  unfolding deliver_error
  deliver_error-Stable none w = same w
  deliver_error-Stable (some cf) w = deliver cf w

  alloc_error-Stable : (w : World) → R w (alloc_error k w).1
  unfolding alloc_error
  alloc_error-Stable w = elim (Option-cases (k.alloc_can_err_skb w.history)) [
    | inl e ↦ rw (e, alloc_error) (call (Event.alloc_skb false) w refl)
    | inr (cf, e) ↦ rw (e, alloc_error) (call (Event.alloc_skb true) w refl)
  ]

  pub err_interrupt-Stable : (isr_value : ℕ) (w : World) → R w (xcan_err_interrupt k isr_value w).1
  unfolding xcan_err_interrupt
  err_interrupt-Stable isr_value w =
      let (skb, a) = alloc_error k w in
      let (e, b) = read_reg k esr a in
      let x = (write_reg esr e b).1 in
      let (t, y) = read_reg k ecr x in
      let (r, z) = read_reg k ecr y in
      let (s, u) = read_reg k sr z in
      let tx = bit_and t ecr_tec_mask in
      let rx = bit_and r ecr_rec_mask >>> esr_rec_shift in
      let reads =
        trans (read esr a)
          (trans (write esr e b) (trans (read ecr x) (trans (read ecr y) (read sr z)))) in
      trans (alloc_error-Stable w) (
        trans reads (
          trans (state_error-Stable isr_value s tx rx skb u) (
            trans (arbitration_lost-Stable isr_value _ _) (
              trans (rx_overflow-Stable isr_value _ _)
                (trans (bus_error-Stable isr_value e _ _) (deliver_error-Stable _ _))))))
