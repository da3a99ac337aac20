-- ===== src/Kernel.antt =====
-- What xilinx_can.c calls of the kernel and of the core behind its registers. None of it is part
-- of the repository: the answers are functions of everything that happened before, and the pure
-- helpers are parameters with the laws that their documentation gives.
use zynq_can_sja1000_top.Common.{
  ℕ, ◌+◌, ◌-◌, ◌/◌, ◌%◌, ◌^◌, ◌≤◌, ◌<◌, ◌≡◌, ◌≢◌, ℤ, Bool, Option, List,
}
use zynq_can_sja1000_top.Registers.{Reg}
use zynq_can_sja1000_top.Can.{CanFrame}

-- `ioread32`/`iowrite32` or `ioread32be`/`iowrite32be`.
pub data ByteOrder : Type 0 where
  le be : ByteOrder

pub data Clk : Type 0 where
  can_clk bus_clk : Clk

pub data LedEvent : Type 0 where
  led_open led_stop led_tx led_rx : LedEvent

-- One access of a register or call of the kernel, with what it was given or gave back.
pub data Event : Type 0 where
  ioread : ByteOrder → Reg → ℕ → Event
  iowrite : ByteOrder → Reg → ℕ → Event
  usleep_range : Event
  put_echo_skb : CanFrame → ℕ → Event
  get_echo_skb : ℕ → Event
  alloc_skb : Bool → Event
  netif_receive_skb : CanFrame → ℕ → Event
  netif_rx : CanFrame → Event
  netif_start_queue : Event
  netif_stop_queue : Event
  netif_wake_queue : Event
  netif_device_attach : Event
  netif_device_detach : Event
  napi_schedule : Event
  napi_complete : Event
  napi_enable : Event
  napi_disable : Event
  napi_add : Event
  napi_del : Event
  call_bus_off : Event
  led : LedEvent → Event
  request_irq : ℤ → Event
  free_irq : Event
  clk_prepare_enable : Clk → ℤ → Event
  clk_disable_unprepare : Clk → Event
  clk_enable : Clk → ℤ → Event
  clk_disable : Clk → Event
  open_candev : ℤ → Event
  close_candev : Event
  register_candev : ℤ → Event
  unregister_candev : Event
  alloc_candev : Bool → Event
  free_candev : Event

-- The newest event first.
abbrev pub History : Type 0
History = List Event

-- Four bytes of a frame's payload, in the order of their addresses.
pub record Bytes : Type 0 where
  pub b0 : ℕ
  pub b1 : ℕ
  pub b2 : ℕ
  pub b3 : ℕ

pub record Kernel : Type 0 where
  -- The value that the core gives when a register is read.
  pub read32 : History → ByteOrder → Reg → ℕ
  pub jiffies : History → ℕ
  pub ktime_get : History → ℕ
  pub hz : ℕ
  pub time_after : ℕ → ℕ → Bool
  -- A new frame buffer with its initial contents, or `none` for NULL.
  pub alloc_can_skb : History → Option CanFrame
  pub alloc_can_err_skb : History → Option CanFrame
  pub can_dropped_invalid_skb : History → CanFrame → Bool
  pub get_can_dlc : ℕ → ℕ
  -- The big-endian word at four bytes, and the bytes that store it.
  pub be32_to_cpup : Bytes → ℕ
  pub cpu_to_be32 : ℕ → Bytes
  pub le32_to_cpu : ℕ → ℕ
  pub ktime_sub : ℕ → ℕ → ℕ
  pub ktime_add_ns : ℕ → ℕ → ℕ
  pub div_u64 : ℕ → ℕ → ℕ
  pub netif_running : History → Bool
  pub request_irq_result : History → ℤ
  pub clk_prepare_enable_result : Clk → History → ℤ
  pub clk_enable_result : Clk → History → ℤ
  pub open_candev_result : History → ℤ
  pub register_candev_result : History → ℤ

abbrev pub AreBytes : Bytes → Type 0
AreBytes b = (b.b0 < 256) × (b.b1 < 256) × (b.b2 < 256) × (b.b3 < 256)

-- The documented behaviour of the pure helpers. `ktime_t` and u64 are words of 64 bits.
pub record IsDocumented (k : Kernel) : Type 0 where
  pub dlc_max : (d : ℕ) → k.get_can_dlc d ≤ 8
  pub dlc_small : (d : ℕ) → d ≤ 8 → k.get_can_dlc d ≡ d
  pub be32_of_bytes : (b : Bytes) → AreBytes b → k.cpu_to_be32 (k.be32_to_cpup b) ≡ b
  pub be32_of_word : (x : ℕ) → x < 2 ^ 32 → k.be32_to_cpup (k.cpu_to_be32 x) ≡ x
  pub be32_bytes : (x : ℕ) → x < 2 ^ 32 → AreBytes (k.cpu_to_be32 x)
  pub be32-lt : (b : Bytes) → AreBytes b → k.be32_to_cpup b < 2 ^ 32
  pub little_endian : (x : ℕ) → x < 2 ^ 32 → k.le32_to_cpu x ≡ x
  pub ktime_sub_lem :
      (a b : ℕ) → a < 2 ^ 64 → b < 2 ^ 64 → k.ktime_sub a b ≡ (a + 2 ^ 64 - b) % 2 ^ 64
  pub ktime_add_ns_lem : (a n : ℕ) → k.ktime_add_ns a n ≡ (a + n) % 2 ^ 64
  pub div_u64_lem : (a b : ℕ) → b ≢ 0 → k.div_u64 a b ≡ a / b
