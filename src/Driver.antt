-- ===== src/Driver.antt =====
-- The state of the driver of petalinux/components/modules/xilinx_can/xilinx_can.c (`struct
-- xcan_priv`, the counters that it keeps in the network device) and its access to the registers.
-- A function of the driver is a `Step`: it takes the state to its result and the new state.
pub mod Run
pub mod Resources
pub mod Statistics
use zynq_can_sja1000_top.Common.{ℕ, ◌+◌, u32, ◌∷◌}
use zynq_can_sja1000_top.Registers.{Reg}
use zynq_can_sja1000_top.Can.{CanState}
use zynq_can_sja1000_top.Kernel.{ByteOrder, le, be, Event, History, Kernel}

-- `struct can_bittiming`, as far as the driver reads it.
pub record Bittiming : Type 0 where
  pub prop_seg : ℕ
  pub phase_seg1 : ℕ
  pub phase_seg2 : ℕ
  pub sjw : ℕ
  pub brp : ℕ

-- `struct can_device_stats`, as far as the driver counts in it.
pub record CanStats : Type 0 where
  pub bus_error : ℕ
  pub error_warning : ℕ
  pub error_passive : ℕ
  pub bus_off_count : ℕ
  pub arbitration_lost : ℕ

-- `struct xcan_priv`, with the fields of `can` that are used. Both function pointers of the
-- register access are one field, since they are always set together.
pub record Priv : Type 0 where
  pub byte_order : ByteOrder
  pub can_state : CanState
  pub ctrlmode : ℕ
  pub bittiming : Bittiming
  pub can_stats : CanStats
  pub clock_freq : ℕ
  pub tx_head : ℕ
  pub tx_tail : ℕ
  pub tx_max : ℕ
  pub ref_ktime : ℕ
  pub ref_ts : ℕ
  pub cantime2ns_mul : ℕ
  pub cantime2ns_shr : ℕ
  pub ns2cantime_mul : ℕ
  pub ns2cantime_shr : ℕ

-- `struct net_device_stats`; `unsigned long` has 32 bits on the Zynq's ARM cores.
pub record Stats : Type 0 where
  pub rx_packets : ℕ
  pub tx_packets : ℕ
  pub rx_bytes : ℕ
  pub tx_bytes : ℕ
  pub rx_errors : ℕ
  pub tx_errors : ℕ
  pub rx_dropped : ℕ
  pub rx_over_errors : ℕ

pub record World : Type 0 where
  pub priv : Priv
  pub stats : Stats
  pub history : History

abbrev pub Step : Type 0 → Type 0
Step A = World → A × World

abbrev pub pure : {A : Type 0} → A → Step A
pure a w = (a, w)

infixl 5 ◌>>=◌ ◌>>◌
abbrev pub ◌>>=◌ : {A B : Type 0} → Step A → (A → Step B) → Step B
◌>>=◌ m f w = let (a, w') = m w in f a w'

abbrev pub ◌>>◌ : {B : Type 0} → Step (Unit {0}) → Step B → Step B
◌>>◌ m n w = let (_, w') = m w in n w'

abbrev pub get_world : Step World
get_world w = (w, w)

abbrev pub get_priv : Step Priv
get_priv w = (w.priv, w)

abbrev pub modify_priv : (Priv → Priv) → Step (Unit {0})
modify_priv f w = (tt, record w { priv = f w.priv })

abbrev pub modify_stats : (Stats → Stats) → Step (Unit {0})
modify_stats f w = (tt, record w { stats = f w.stats })

abbrev pub set_state : CanState → Step (Unit {0})
set_state s = modify_priv λ p. record p { can_state = s }

abbrev pub emit : Event → Step (Unit {0})
emit e w = (tt, record w { history = e ∷ w.history })

-- `x++` and `x += n` on a 32-bit counter.
abbrev pub inc : ℕ → ℕ
inc x = u32 (x + 1)

abbrev pub add_to : ℕ → ℕ → ℕ
add_to n x = u32 (x + n)

-- An access in one byte order, and the event of it. A value is cut to its type, u32.
abbrev pub write_in : ByteOrder → Reg → ℕ → Step (Unit {0})
write_in o r val = emit (Event.iowrite o r (u32 val))

abbrev pub xcan_write_reg_le : Reg → ℕ → Step (Unit {0})
xcan_write_reg_le r val = write_in le r val

abbrev pub xcan_write_reg_be : Reg → ℕ → Step (Unit {0})
xcan_write_reg_be r val = write_in be r val

-- `priv->write_reg (priv, r, val)`: a call through the pointer, which `byte_order` stands for.
abbrev pub write_reg : Reg → ℕ → Step (Unit {0})
write_reg r val w = write_in w.priv.byte_order r val w

module _ (k : Kernel) where
  abbrev pub read_in : ByteOrder → Reg → Step ℕ
  read_in o r w =
      let x = u32 (k.read32 w.history o r) in
      (x, record w { history = Event.ioread o r x ∷ w.history })

  abbrev pub xcan_read_reg_le : Reg → Step ℕ
  xcan_read_reg_le r = read_in le r

  abbrev pub xcan_read_reg_be : Reg → Step ℕ
  xcan_read_reg_be r = read_in be r

  abbrev pub read_reg : Reg → Step ℕ
  read_reg r w = read_in w.priv.byte_order r w
