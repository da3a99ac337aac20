-- ===== src/Demo.antt =====
-- A kernel and a core with concrete answers, for the examples: the core confirms every mode, has
-- one frame in its receive FIFO, and time goes on with every event.
use zynq_can_sja1000_top.Common.{
  ℕ, ◌+◌, ◌-◌, ◌*◌, ◌/◌, ◌%◌, ◌^◌, refl, arith, sub32, u32, ltb, ◌==◌, if◌then◌else◌, pos, some,
  true, false, [], ◌∷◌,
}
use zynq_can_sja1000_top.Registers.{Reg}
use zynq_can_sja1000_top.Can.{CanFrame, CanState}
use zynq_can_sja1000_top.Kernel.{Kernel, Event, History, ByteOrder, Bytes, IsDocumented}
use zynq_can_sja1000_top.Driver.{World, Priv, Stats}
use zynq_can_sja1000_top.Mode.Wait.{length}
use zynq_can_sja1000_top.Receive.Frames.{delivered}

abbrev pub registers : History → Reg → ℕ
registers h Reg.sr = 0x0000000b
registers h Reg.isr = if delivered h == 0 then 0x00000090 else 0
registers h Reg.ier = 0x00000ffe
registers h Reg.ecr = 0x00008060
registers h Reg.esr = 0x00000018
registers h Reg.rxfifo_id = 0x24600000
registers h Reg.rxfifo_dlc = 0x20001234
registers h Reg.rxfifo_dw1 = 0x0a0b0000
registers h _ = 0

abbrev pub no_data : CanFrame
no_data = record {
  can_id = 0;
  can_dlc = 0;
  d0 = 0;
  d1 = 0;
  d2 = 0;
  d3 = 0;
  d4 = 0;
  d5 = 0;
  d6 = 0;
  d7 = 0;
}

abbrev pub store : ℕ → Bytes
store x = record {
  b0 = x / 2 ^ 24;
  b1 = x / 2 ^ 16 % 2 ^ 8;
  b2 = x / 2 ^ 8 % 2 ^ 8;
  b3 = x % 2 ^ 8;
}

abbrev pub load : Bytes → ℕ
load b = b.b0 * 2 ^ 24 + b.b1 * 2 ^ 16 + b.b2 * 2 ^ 8 + b.b3

abbrev pub demo : Kernel
demo = record {
  read32 = λ h o r. registers h r;
  jiffies = λ h. u32 (length h);
  ktime_get = λ h. 1001000;
  hz = 1;
  time_after = λ a b. ltb (2 ^ 31) (sub32 b a);
  alloc_can_skb = λ h. some no_data;
  alloc_can_err_skb = λ h. some no_data;
  can_dropped_invalid_skb = λ h cf. false;
  get_can_dlc = λ d. if ltb 8 d then 8 else d;
  be32_to_cpup = load;
  cpu_to_be32 = store;
  le32_to_cpu = λ x. x;
  ktime_sub = λ a b. (a + 2 ^ 64 - b) % 2 ^ 64;
  ktime_add_ns = λ a n. (a + n) % 2 ^ 64;
  div_u64 = λ a b. a / b;
  netif_running = λ h. true;
  request_irq_result = λ h. pos 0;
  clk_prepare_enable_result = λ c h. pos 0;
  clk_enable_result = λ c h. pos 0;
  open_candev_result = λ h. pos 0;
  register_candev_result = λ h. pos 0;
}

pub demo-IsDocumented : IsDocumented demo
demo-IsDocumented = record {
  dlc_max = λ d. ground arith;
  dlc_small = λ d h. ground arith;
  be32_of_bytes = λ b h. ground arith;
  be32_of_word = λ x h. ground arith;
  be32_bytes = λ x h. omega arith;
  be32-lt = λ b h. ground arith;
  little_endian = λ x h. refl;
  ktime_sub_lem = λ a b h i. refl;
  ktime_add_ns_lem = λ a n. refl;
  div_u64_lem = λ a b h. refl;
}

abbrev pub demo_priv : Priv
demo_priv = record {
  byte_order = ByteOrder.le;
  can_state = CanState.stopped;
  ctrlmode = 0;
  bittiming = record { prop_seg = 3; phase_seg1 = 4; phase_seg2 = 2; sjw = 1; brp = 5 };
  can_stats = record {
    bus_error = 0;
    error_warning = 0;
    error_passive = 0;
    bus_off_count = 0;
    arbitration_lost = 0;
  };
  clock_freq = 50000000;
  tx_head = 5;
  tx_tail = 3;
  tx_max = 4;
  ref_ktime = 1000000;
  ref_ts = 100;
  cantime2ns_mul = 20;
  cantime2ns_shr = 0;
  ns2cantime_mul = 1;
  ns2cantime_shr = 0;
}

abbrev pub demo_stats : Stats
demo_stats = record {
  rx_packets = 0;
  tx_packets = 3;
  rx_bytes = 0;
  tx_bytes = 24;
  rx_errors = 0;
  tx_errors = 0;
  rx_dropped = 0;
  rx_over_errors = 0;
}

-- Two frames in flight in a ring of four, and the queue awake.
abbrev pub running : World
running = record { priv = demo_priv; stats = demo_stats; history = Event.netif_start_queue ∷ [] }
