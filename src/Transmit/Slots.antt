-- ===== src/Transmit/Slots.antt =====
-- The echo slots that xcan_start_xmit gives to frames.
use native.Mathlib.Nat.{mod-lt, zero-mod, mod-eq-zero_of_dvd, dvd-mul_right, div-add-mod}
use mathlib.Core.Path.{subst}
use Prim.Native.Nat.{◌∣◌}
use zynq_can_sja1000_top.Common.{ℕ, suc, ◌+◌, ◌-◌, ◌*◌, ◌/◌, ◌%◌, ◌^◌, ◌<◌, u32, sub32}
use zynq_can_sja1000_top.Common.{◌≡◌, ◌≢◌, ap, sym, ◌∙◌, arith, List, [], ◌∷◌, ◌++◌}
use zynq_can_sja1000_top.Can.{CanFrame}
use zynq_can_sja1000_top.Kernel.{Kernel, Event, History}
use zynq_can_sja1000_top.Driver.{World, Priv, read_reg}
use zynq_can_sja1000_top.Registers.{sr, sr_txfll_mask}
use zynq_can_sja1000_top.Common.{has, false}
use zynq_can_sja1000_top.Transmit.{xcan_start_xmit}
use zynq_can_sja1000_top.Transmit.Completion.{in_flight}
use zynq_can_sja1000_top.Transmit.Queue.{IsControlled}
use zynq_can_sja1000_top.Transmit.Ring.{
  slots, slots-suc, slots-fresh, slots-Distinct, NotIn, Distinct,
}

-- The slots of the frames in flight, and the one that xcan_start_xmit gives to the next frame.
abbrev pub used_slots : World → List ℕ
used_slots w = slots w.priv.tx_max w.priv.tx_tail (in_flight w)

abbrev pub next_slot : World → ℕ
next_slot w = w.priv.tx_head % w.priv.tx_max

-- The slots that frames were put into so far, the newest first.
abbrev pub put_slots : History → List ℕ
put_slots [] = []
put_slots (Event.put_echo_skb cf s ∷ h) = s ∷ put_slots h
put_slots (_ ∷ h) = put_slots h

-- The slot behind the ones in use, when the head counter moves on and there is room.
pub used_slots-next :
    (w w' : World)
    → w.priv.tx_max ∣ 2 ^ 32
    → IsControlled w
    → in_flight w < w.priv.tx_max
    → w'.priv ≡ record w.priv { tx_head = u32 (w.priv.tx_head + 1) }
    → NotIn (next_slot w) (used_slots w)
      × (used_slots w' ≡ used_slots w ++ (next_slot w ∷ []))
      × Distinct (used_slots w')
used_slots-next w w' divides c room p =
    let t = w.priv.tx_tail in
    let n = in_flight w in
    let head : u32 (t + n) ≡ w.priv.tx_head = omega arith in
    let count : sub32 (u32 (w.priv.tx_head + 1)) t ≡ suc n = omega arith in
    let used : used_slots w' ≡ slots w.priv.tx_max t (suc n) =
      ap (λ (q : Priv). slots q.tx_max q.tx_tail (sub32 q.tx_head q.tx_tail)) p
      ∙ ap (slots w.priv.tx_max t) count in
    (
      rw head at (slots-fresh w.priv.tx_max divides t n c.words.tail room),
      used ∙ rw head at (slots-suc w.priv.tx_max t n c.words.tail),
      rw used (slots-Distinct w.priv.tx_max divides t (suc n) c.words.tail room),
    )

module _ (k : Kernel) where
  -- A sent frame goes into the next slot.
  pub sent-put :
      (cf : CanFrame) (w : World)
      → k.can_dropped_invalid_skb w.history cf ≡ false
      → has (read_reg k sr w).0 sr_txfll_mask ≡ false
      → put_slots (xcan_start_xmit k cf w).1.history ≡ next_slot w ∷ put_slots w.history
  unfolding xcan_start_xmit
  sent-put cf w valid room = ground arith

dvd_sub_mod : (m n : ℕ) → m ∣ n - n % m
dvd_sub_mod m n =
    let e : n - n % m ≡ m * (n / m) = omega (arith, div-add-mod n m) in
    rw e (dvd-mul_right m (n / m))

used_of_wrap :
    (w : World)
    → 2 ^ 32 % w.priv.tx_max ≢ 0
    → 0 < w.priv.tx_max
    → w.priv.tx_max < 2 ^ 32
    → w.priv.tx_head ≡ 0
    → w.priv.tx_tail ≡ 2 ^ 32 - 2 ^ 32 % w.priv.tx_max
    → (in_flight w < w.priv.tx_max) × ¬ NotIn (next_slot w) (used_slots w)
used_of_wrap w odd pos fits head tail =
    let max = w.priv.tx_max in
    let r : 2 ^ 32 % max < max = mod-lt (2 ^ 32) pos in
    let n : in_flight w ≡ 2 ^ 32 % max = omega arith in
    let first : w.priv.tx_tail % max ≡ next_slot w =
      rw (tail, head) (mod-eq-zero_of_dvd max (dvd_sub_mod max (2 ^ 32)) ∙ sym (zero-mod max)) in
    let some_used : in_flight w ≡ suc (2 ^ 32 % max - 1) = omega arith in
    (
      omega arith,
      λ fresh.
          (subst (λ m. NotIn (next_slot w) (slots max w.priv.tx_tail m)) some_used fresh).0 first,
    )

-- With a depth that is positive, fits 32 bits and does not divide 2 ^ 32, the slots collide when
-- the counters wrap: with `tx_head` back at 0 and 2 ^ 32 % tx_max frames in flight, there is room,
-- and a valid frame that comes while the core's FIFO is not full is put into a slot that a frame
-- in flight uses.
pub slot_collision :
    (k : Kernel) (cf : CanFrame) (w : World)
    → 2 ^ 32 % w.priv.tx_max ≢ 0
    → 0 < w.priv.tx_max
    → w.priv.tx_max < 2 ^ 32
    → w.priv.tx_head ≡ 0
    → w.priv.tx_tail ≡ 2 ^ 32 - 2 ^ 32 % w.priv.tx_max
    → k.can_dropped_invalid_skb w.history cf ≡ false
    → has (read_reg k sr w).0 sr_txfll_mask ≡ false
    → (in_flight w < w.priv.tx_max)
      × (put_slots (xcan_start_xmit k cf w).1.history ≡ next_slot w ∷ put_slots w.history)
      × ¬ NotIn (next_slot w) (used_slots w)
slot_collision k cf w odd pos fits head tail valid free =
    let (room, used) = used_of_wrap w odd pos fits head tail in
    (room, sent-put k cf w valid free, used)
