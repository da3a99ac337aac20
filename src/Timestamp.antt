-- ===== src/Timestamp.antt =====
-- Hardware timestamps of petalinux/components/modules/xilinx_can/xilinx_can.c:
-- xcan_timestamp2ktime (the branch that is compiled) and xcan_get_timestamp. `ktime_t` is a word
-- of 64 bits that counts nanoseconds.
pub mod Reconstruct
pub mod Near
pub mod Drift
pub mod State
pub mod Tests
use zynq_can_sja1000_top.Common.{
  ℕ, ◌+◌, ◌-◌, ◌*◌, ◌/◌, ◌^◌, u16, u32, u64, ltb, ◌==◌, bit_and, if◌then◌else◌,
}
use zynq_can_sja1000_top.Kernel.{Kernel}
use zynq_can_sja1000_top.Driver.{Priv, Step, pure, ◌>>=◌, ◌>>◌, get_world, modify_priv}

-- `cantime_adj = ts - cantime_lsw_frame`, an s16, as its bit pattern.
pub adj_pattern : ℕ → ℕ → ℕ
adj_pattern ts lsw = u16 (ts + 2 ^ 16 - lsw)

-- An s16 pattern extended to a word of `m` values.
pub sign_extend : ℕ → ℕ → ℕ
sign_extend m a = if ltb a (2 ^ 15) then a else a + m - 2 ^ 16

-- What the function hands back: the frame's time and `*tmdiffns`.
pub record FrameTime : Type 0 where
  pub ktime : ℕ
  pub tmdiffns : ℕ

-- `if (ktime_equal(ref->ktime, ns_to_ktime(0)))`: the first frame sets the reference point.
pub set_reference : ℕ → ℕ → Priv → Priv
set_reference now ts p = if p.ref_ktime == 0 then record p { ref_ktime = now; ref_ts = ts } else p

module _ (k : Kernel) where
  -- The computation from the reference point on.
  pub frame_time : (mul shr ref_ktime ref_ts now ts : ℕ) → FrameTime
  unfolding adj_pattern sign_extend
  frame_time mul shr ref_ktime ref_ts now ts =
      let estimate = u64 (k.div_u64 (k.ktime_sub now ref_ktime) mul + ref_ts) in
      let adj = adj_pattern ts (u16 (bit_and estimate 0xffff)) in
      let cantime_frame = u64 (estimate + sign_extend (2 ^ 64) adj) in
      let since = u64 (cantime_frame + 2 ^ 64 - ref_ts) in
      record {
        ktime = k.ktime_add_ns ref_ktime (u64 (since * mul) / 2 ^ shr);
        tmdiffns = u32 (sign_extend (2 ^ 32) adj * 50);
      }

  unfoldable pub xcan_timestamp2ktime : ℕ → Step FrameTime
  unfolding set_reference
  xcan_timestamp2ktime ts = do
    start ← get_world
    let now = k.ktime_get start.history
    modify_priv (set_reference now ts)
    w ← get_world
    let p = w.priv
    pure (frame_time p.cantime2ns_mul p.cantime2ns_shr p.ref_ktime p.ref_ts now ts)

pub xcan_get_timestamp : ℕ → ℕ
xcan_get_timestamp dlc = u16 (bit_and dlc 0xffff)
