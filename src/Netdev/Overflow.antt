-- ===== src/Netdev/Overflow.antt =====
-- The next transmission after a call that woke the queue over a full ring.
use native.Mathlib.Nat.{mod-mod_of_dvd, add-mod_right}
use Prim.Native.Nat.{◌∣◌}
use zynq_can_sja1000_top.Common.{
  ℕ, ◌+◌, ◌%◌, ◌^◌, ◌<◌, ◌≡◌, ap, ◌∙◌, arith, has, u32, ◌∷◌, true, false,
}
use zynq_can_sja1000_top.Registers.{sr, sr_txfll_mask}
use zynq_can_sja1000_top.Can.{CanFrame}
use zynq_can_sja1000_top.Kernel.{Kernel}
use zynq_can_sja1000_top.Driver.{World, Priv, read_reg}
use zynq_can_sja1000_top.Transmit.{xcan_start_xmit}
use zynq_can_sja1000_top.Transmit.Completion.{in_flight, AreWords}
use zynq_can_sja1000_top.Transmit.Queue.{queue_awake}
use zynq_can_sja1000_top.Transmit.Slots.{next_slot, put_slots, sent-put}
use zynq_can_sja1000_top.Transmit.Branches.{xcan_start_xmit-IsSent}
use zynq_can_sja1000_top.Netdev.Wake.{Starts, Starts-full}

-- With the ring full the next slot is that of the oldest frame in flight.
next_slot_of_full :
    (w : World)
    → w.priv.tx_max ∣ 2 ^ 32
    → AreWords w
    → in_flight w ≡ w.priv.tx_max
    → next_slot w ≡ w.priv.tx_tail % w.priv.tx_max
next_slot_of_full w divides words full =
    let max = w.priv.tx_max in
    let t = w.priv.tx_tail in
    let head : w.priv.tx_head ≡ u32 (t + max) = omega arith in
    ap (λ (n : ℕ). n % max) head ∙ mod-mod_of_dvd max (t + max) divides ∙ add-mod_right t max

module _ (k : Kernel) where
  -- With `tx_max` frames in flight, and a `tx_max` that is positive, divides 2 ^ 32 and is less:
  -- a restart after bus-off, an opening, and the resume of a running interface each leave the
  -- queue awake and the ring full when they return 0, since nothing resets `tx_head` and
  -- `tx_tail`. A valid frame that xcan_start_xmit takes next, with room in the core's FIFO, then
  -- goes into the echo slot of the oldest frame in flight, `tx_max + 1` frames are in flight, and
  -- the queue stays awake, because the test for a full ring asks for exactly `tx_max`.
  pub Starts-overflows :
      (cf : CanFrame) {w w' : World}
      → Starts k w w'
      → in_flight w ≡ w.priv.tx_max
      → AreWords w'
      → 0 < w'.priv.tx_max
      → w'.priv.tx_max + 1 < 2 ^ 32
      → w'.priv.tx_max ∣ 2 ^ 32
      → k.can_dropped_invalid_skb w'.history cf ≡ false
      → has (read_reg k sr w').0 sr_txfll_mask ≡ false
      → let u = (xcan_start_xmit k cf w').1 in
        (queue_awake w'.history ≡ true)
        × (put_slots u.history ≡ w'.priv.tx_tail % w'.priv.tx_max ∷ put_slots w'.history)
        × (in_flight u ≡ w'.priv.tx_max + 1)
        × (queue_awake u.history ≡ true)
  Starts-overflows cf {w} {w'} s full words some_depth fits divides valid room =
      let woken = Starts-full k s full in
      let sent = (xcan_start_xmit-IsSent k cf w' valid room).1 in
      let u = (xcan_start_xmit k cf w').1 in
      let head = ap (λ (p : Priv). p.tx_head) sent.priv in
      let tail = ap (λ (p : Priv). p.tx_tail) sent.priv in
      let ring = woken.1 in
      let more : in_flight u ≡ w'.priv.tx_max + 1 = omega (arith, words.head, words.tail) in
      let queue = sent.queue in
      (
        woken.0,
        sent-put k cf w' valid room
            ∙ ap (λ (n : ℕ). n ∷ put_slots w'.history) (next_slot_of_full w' divides words ring),
        more,
        ground (arith, more, woken.0),
      )
