-- ===== src/IpDriver.antt =====
-- The C drivers of the board's own IP cores under system/ip: register access and the self test.
-- The files of the six cores differ in the prefix of their names only, and in the number of
-- registers, so that the code is here once, with a name for each core in IpDriver/Cores.
pub mod Cores
pub mod SelfTest
pub mod Tests
use zynq_can_sja1000_top.Common.{ℕ, zero, suc, ◌+◌, ◌*◌, u32, ◌==◌, List, ◌∷◌, true, false}

-- `XStatus`
pub data Status : Type 0 where
  xst_success xst_failure : Status

-- An access of the bus by Xil_Out32 or Xil_In32, or a line of the output.
pub data Access : Type 0 where
  out32 : (address value : ℕ) → Access
  in32 : (address value : ℕ) → Access
  print_title : Access
  print_error : (address : ℕ) → Access
  print_passed : Access

-- The newest access first.
abbrev pub History : Type 0
History = List Access

-- What the cores answer: the value at an address, after everything that was done.
pub record Bus : Type 0 where
  pub value : History → ℕ → ℕ

-- `…_mWriteReg (BaseAddress, RegOffset, Data)`
abbrev pub mwrite_reg : (base offset value : ℕ) → History → History
mwrite_reg base offset value h = out32 (u32 (base + offset)) (u32 value) ∷ h

abbrev pub read_write_mul_factor : ℕ
read_write_mul_factor = 0x10

-- The loop that writes, from `index` on.
pub write_all : (base count index : ℕ) → History → History
write_all base zero index h = h
write_all base (suc count) index h =
    write_all base count (index + 1)
      (mwrite_reg base (index * 4) ((index + 1) * read_write_mul_factor) h)

module _ (bus : Bus) where
  -- `…_mReadReg (BaseAddress, RegOffset)`
  abbrev pub mread_reg : (base offset : ℕ) → History → ℕ × History
  mread_reg base offset h =
      let x = u32 (bus.value h (u32 (base + offset))) in (x, in32 (u32 (base + offset)) x ∷ h)

  -- The loop that reads, from `index` on, and the end.
  pub read_all : (base count index : ℕ) → History → Status × History
  read_all base zero index h = (xst_success, print_passed ∷ h)
  read_all base (suc count) index h =
      let (x, h') = mread_reg base (index * 4) h in
      let rest = read_all base count (index + 1) h' in
      elim (x == (index + 1) * read_write_mul_factor) [
        | true ↦ rest
        | false ↦ (xst_failure, print_error (u32 (base + index * 4)) ∷ h')
      ]

  pub reg_self_test : (base : ℕ) → History → Status × History
  unfolding write_all read_all
  reg_self_test base h = read_all base 4 0 (write_all base 4 0 (print_title ∷ h))
