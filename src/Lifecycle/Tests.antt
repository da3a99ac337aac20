-- ===== src/Lifecycle/Tests.antt =====
-- A device that is probed, opened, sends a frame, is suspended and resumed, and closed.
use zynq_can_sja1000_top.Common.{◌≡◌, ◌<◌, refl, true, none, some, pos, ap, sym, arith, ◌^◌}
use zynq_can_sja1000_top.Driver.{World, Priv}
use zynq_can_sja1000_top.Driver.Resources.{power}
use zynq_can_sja1000_top.Demo.{demo}
use zynq_can_sja1000_top.Mode.{
  set_reset_mode, wait_config, xcan_chip_start, wait_mode, after_reset, program_core,
  after_bittiming, xcan_set_bittiming, enable_core, write_mode, finish_start,
}
use zynq_can_sja1000_top.Netdev.{
  xcan_open, open_irq, open_clocks, open_bus, open_reset, open_start, open_done, xcan_close,
  xcan_resume, xcan_suspend, resume_can, resume_core,
}
use zynq_can_sja1000_top.Probe.{
  xcan_probe, probe_device, probe_clocks, probe_can, probe_bus, probe_register, probe_order,
  probe_end, set_factors,
}
use zynq_can_sja1000_top.Probe.Tests.{found, found-IsPlatform, before, probed, probed_lem}
use zynq_can_sja1000_top.Lifecycle.{
  registered, opened, Life, start, probe, run, open_device, close, suspend, resume,
}
use zynq_can_sja1000_top.Driver.Statistics.{IsCounted}
use zynq_can_sja1000_top.Lifecycle.Statistics.{Life-IsCounted}
use zynq_can_sja1000_top.Lifecycle.Session.{IsNew, Session, Session-IsAccounted}
use zynq_can_sja1000_top.Runtime.{xmit, irq}
use zynq_can_sja1000_top.Transmit.Completion.{in_flight}
use zynq_can_sja1000_top.Transmit.Queue.{queue_awake}
use zynq_can_sja1000_top.Transmit.{xcan_start_xmit}
use zynq_can_sja1000_top.Transmit.Echo.Account.{IsAccounted}
use zynq_can_sja1000_top.Transmit.Echo.Tests.{frame}
use zynq_can_sja1000_top.Interrupt.{xcan_interrupt}
use mathlib.Core.Option.{some-injective}
use native.Mathlib.Nat.{dvd-mul_right}
use zynq_can_sja1000_top.Lifecycle.Clocks.{InPhase, Life-IsClocked}
use zynq_can_sja1000_top.Lifecycle.Misuse.{suspend_down, Unclocked-faults}

probed-Life : Life demo before registered probed
probed-Life = probe found found-IsPlatform start probed_lem

abbrev up : World
up = elim (xcan_open demo 1 probed) [ none ↦ probed | some (r, w) ↦ w ]

up_lem : xcan_open demo 1 probed ≡ some (pos 0, up)
unfolding xcan_open open_irq open_clocks open_bus open_reset open_start open_done xcan_chip_start
    set_reset_mode wait_config after_reset program_core xcan_set_bittiming after_bittiming
    enable_core write_mode wait_mode finish_start xcan_probe probe_device probe_clocks probe_can
    probe_bus probe_register probe_order probe_end set_factors
up_lem = refl

abbrev asleep_world : World
asleep_world = elim (xcan_suspend demo up) [ none ↦ up | some (r, w) ↦ w ]

suspend_lem : xcan_suspend demo up ≡ some (pos 0, asleep_world)
unfolding xcan_suspend
suspend_lem = refl

abbrev awake : World
awake = elim (xcan_resume demo asleep_world) [ none ↦ up | some (r, w) ↦ w ]

resume_lem : xcan_resume demo asleep_world ≡ some (pos 0, awake)
unfolding xcan_resume resume_can resume_core
resume_lem = refl

abbrev down : World
down = elim (xcan_close demo awake) [ none ↦ up | some (r, w) ↦ w ]

close_lem : xcan_close demo awake ≡ some (pos 0, down)
unfolding xcan_close
close_lem = refl

down-Life : Life demo before registered down
down-Life =
    close (resume (suspend (open_device 1 probed-Life up_lem) suspend_lem) refl resume_lem)
      close_lem

Life-IsClocked_example :
    InPhase before registered down
    × ((power down.history).faults ≡ (power before.history).faults)
    × ((power down.history).warnings ≡ (power before.history).warnings)
Life-IsClocked_example = Life-IsClocked demo before down-Life

abbrev slept : World
slept = elim (xcan_suspend demo down) [ none ↦ down | some (r, w) ↦ w ]

slept_lem : xcan_suspend demo down ≡ some (pos 0, slept)
unfolding xcan_suspend
slept_lem = refl

Unclocked-faults_example : (power before.history).faults < (power slept.history).faults
Unclocked-faults_example = Unclocked-faults demo down-Life refl (suspend_down slept_lem)

found-IsNew : IsNew found before
found-IsNew = record {
  platform = found-IsPlatform;
  zeroed = λ p h.
      let q = some-injective _ _ h in
      (ap (λ (x : Priv). x.tx_head) (sym q), ap (λ (x : Priv). x.tx_tail) (sym q));
  divides = dvd-mul_right 64 (2 ^ 26);
  depth_pos = omega arith;
  depth_fits = omega arith;
  no_echoes = refl;
  packets = omega arith;
}

asleep_room : in_flight asleep_world < asleep_world.priv.tx_max
unfolding xcan_open open_irq open_clocks open_bus open_reset open_start open_done xcan_chip_start
    set_reset_mode wait_config after_reset program_core xcan_set_bittiming after_bittiming
    enable_core write_mode wait_mode finish_start xcan_probe probe_device probe_clocks probe_can
    probe_bus probe_register probe_order probe_end set_factors xcan_suspend
asleep_room = omega arith

woken_up : queue_awake awake.history ≡ true
unfolding xcan_open open_irq open_clocks open_bus open_reset open_start open_done xcan_chip_start
    set_reset_mode wait_config after_reset program_core xcan_set_bittiming after_bittiming
    enable_core write_mode wait_mode finish_start xcan_probe probe_device probe_clocks probe_can
    probe_bus probe_register probe_order probe_end set_factors xcan_suspend xcan_resume resume_can
    resume_core
woken_up = refl

abbrev sent : World
sent = (xcan_interrupt demo (xcan_start_xmit demo (frame 1) awake).1).1

sent-Session : Session demo found before sent
sent-Session =
    let slept = Session.suspend (Session.begin 1 probed_lem up_lem) suspend_lem in
    let again = Session.resume slept asleep_room resume_lem in
    Session.run (Session.run again (xmit (frame 1) awake woken_up)) (irq _)

Session-IsAccounted_example : IsAccounted sent
Session-IsAccounted_example = Session-IsAccounted demo found before sent-Session found-IsNew

before-IsCounted : IsCounted before
before-IsCounted = record { rx_packets = refl; rx_bytes = refl; tx_packets = refl; tx_bytes = refl }

sent-Life : Life demo before opened sent
sent-Life =
    let again = resume (suspend (open_device 1 probed-Life up_lem) suspend_lem) refl resume_lem in
    run (run again (xmit (frame 1) awake woken_up)) (irq _)

Life-IsCounted_example : IsCounted sent
Life-IsCounted_example = Life-IsCounted demo before-IsCounted sent-Life
