-- ===== src/Netdev/Tests.antt =====
-- A device that is opened and closed, the error counters, and a resume.
use native.Mathlib.Nat.{dvd-mul_right}
use Prim.Native.Nat.{◌∣◌}
use zynq_can_sja1000_top.Registers.{sr, sr_txfll_mask}
use zynq_can_sja1000_top.Common.{has, false, ◌<◌}
use zynq_can_sja1000_top.Driver.{read_reg}
use zynq_can_sja1000_top.Common.{
  true, arith, ◌^◌, ◌+◌, ◌%◌, ◌≡◌, ◌≢◌, refl, some, none, pos, [], ◌∷◌,
}
use zynq_can_sja1000_top.Kernel.{Event, can_clk, bus_clk}
use zynq_can_sja1000_top.Driver.{World}
use zynq_can_sja1000_top.Driver.Run.{Ensures, Yields}
use zynq_can_sja1000_top.Demo.{demo, running, no_data}
use zynq_can_sja1000_top.Mode.{
  set_reset_mode, wait_config, xcan_chip_start, wait_mode, after_reset, program_core,
  after_bittiming, xcan_set_bittiming, enable_core, write_mode, finish_start,
}
use zynq_can_sja1000_top.Driver.Resources.{held, power}
use zynq_can_sja1000_top.Mode.Tests.{demo-IsTicking}
use zynq_can_sja1000_top.Netdev.{
  BerrCounter, xcan_open, open_irq, open_clocks, open_bus, open_reset, open_start, open_done,
  xcan_close, xcan_get_berr_counter, xcan_resume,
}
use zynq_can_sja1000_top.Netdev.Open.{OpenedFrom, xcan_open-Opened}
use zynq_can_sja1000_top.Netdev.Close.{
  IsDown, BerrEnds, xcan_close-xcan_open, xcan_get_berr_counter-BerrEnds,
}
use zynq_can_sja1000_top.Transmit.Queue.{queue_awake}
use zynq_can_sja1000_top.Transmit.Completion.{in_flight, AreWords}
use zynq_can_sja1000_top.Netdev.Wake.{open_again}
use zynq_can_sja1000_top.Netdev.Overflow.{Starts-overflows}
use zynq_can_sja1000_top.Transmit.{xcan_start_xmit}
use zynq_can_sja1000_top.Transmit.Slots.{put_slots}
use zynq_can_sja1000_top.Netdev.Power.{ResumeEnds, xcan_resume-ResumeEnds}

abbrev down : World
down = record running { history = [] }

abbrev up : World
up = elim (xcan_open demo 1 down) [ none ↦ down | some (r, w) ↦ w ]

up_lem : xcan_open demo 1 down ≡ some (pos 0, up)
unfolding xcan_open open_irq open_clocks open_bus open_reset open_start open_done xcan_chip_start
    set_reset_mode wait_config after_reset program_core xcan_set_bittiming after_bittiming
    enable_core write_mode wait_mode finish_start
up_lem = refl

xcan_open-Opened_example : Yields (OpenedFrom demo down) (xcan_open demo (2 + 1) down)
xcan_open-Opened_example = xcan_open-Opened demo 2 down demo-IsTicking

xcan_close-xcan_open_example :
    Yields
      (λ r w'. (r ≡ pos 0) × IsDown (held down.history) (power down.history) up w')
      (xcan_close demo up)
xcan_close-xcan_open_example = xcan_close-xcan_open demo 1 down up up_lem

abbrev no_errors : BerrCounter
no_errors = record { txerr = 0; rxerr = 0 }

xcan_get_berr_counter-BerrEnds_example :
    (xcan_get_berr_counter demo no_errors running ≢ none)
    × Ensures (BerrEnds demo no_errors running) (xcan_get_berr_counter demo no_errors running)
xcan_get_berr_counter-BerrEnds_example = xcan_get_berr_counter-BerrEnds demo no_errors running

xcan_resume-ResumeEnds_example :
    (xcan_resume demo running ≢ none) × Ensures (ResumeEnds demo running) (xcan_resume demo running)
xcan_resume-ResumeEnds_example = xcan_resume-ResumeEnds demo running

-- Both clocks on.
abbrev clocked : World
clocked = record running {
  history =
      Event.clk_prepare_enable bus_clk (pos 0) ∷ Event.clk_prepare_enable can_clk (pos 0) ∷ [];
}

-- Opened with four frames in flight, in a ring of four.
abbrev full_down : World
full_down = record down { priv = record down.priv { tx_head = 7 } }

abbrev full_up : World
full_up = elim (xcan_open demo 1 full_down) [ none ↦ full_down | some (r, w) ↦ w ]

full_up_lem : xcan_open demo 1 full_down ≡ some (pos 0, full_up)
unfolding xcan_open open_irq open_clocks open_bus open_reset open_start open_done xcan_chip_start
    set_reset_mode wait_config after_reset program_core xcan_set_bittiming after_bittiming
    enable_core write_mode wait_mode finish_start
full_up_lem = refl

full_up_ring :
    AreWords full_up
    × (0 < full_up.priv.tx_max)
    × (full_up.priv.tx_max + 1 < 2 ^ 32)
    × (full_up.priv.tx_max ∣ 2 ^ 32)
unfolding xcan_open open_irq open_clocks open_bus open_reset open_start open_done xcan_chip_start
    set_reset_mode wait_config after_reset program_core xcan_set_bittiming after_bittiming
    enable_core write_mode wait_mode finish_start
full_up_ring = (
  record { head = omega arith; tail = omega arith; packets = omega arith },
  omega arith,
  omega arith,
  dvd-mul_right 4 (2 ^ 30),
)

full_up-not_full : has (read_reg demo sr full_up).0 sr_txfll_mask ≡ false
unfolding xcan_open open_irq open_clocks open_bus open_reset open_start open_done xcan_chip_start
    set_reset_mode wait_config after_reset program_core xcan_set_bittiming after_bittiming
    enable_core write_mode wait_mode finish_start
full_up-not_full = refl

Starts-overflows_example :
    let u = (xcan_start_xmit demo no_data full_up).1 in
    (queue_awake full_up.history ≡ true)
    × (put_slots u.history ≡ full_up.priv.tx_tail % full_up.priv.tx_max ∷ put_slots full_up.history)
    × (in_flight u ≡ full_up.priv.tx_max + 1)
    × (queue_awake u.history ≡ true)
Starts-overflows_example =
    Starts-overflows demo no_data (open_again 1 full_up_lem) refl full_up_ring.0 full_up_ring.1
      full_up_ring.2 full_up_ring.3 refl full_up-not_full
