-- ===== src/Transmit/Echo/Same.antt =====
-- Calls that do not concern the transmit ring: its counters and its echo slots are as before.
use zynq_can_sja1000_top.Common.{◌^◌, ◌<◌, ◌≡◌, ◌⊎◌, refl, sym, ap, ◌∙◌, arith, false, ◌++◌}
use Prim.Native.Nat.{◌∣◌}
use mathlib.Core.Path.{subst}
use zynq_can_sja1000_top.Driver.{World}
use zynq_can_sja1000_top.Transmit.Completion.{in_flight}
use zynq_can_sja1000_top.Transmit.Queue.{IsControlled, queue_awake}
use zynq_can_sja1000_top.Transmit.Slots.{used_slots}
use zynq_can_sja1000_top.Transmit.Echo.{echo_calls, echoed, accepted}
use zynq_can_sja1000_top.Transmit.Echo.Held.{Holds-same}
use zynq_can_sja1000_top.Transmit.Echo.Account.{IsAccounted}

-- The queue may be another.
pub record SameRing (w w' : World) : Type 0 where
  pub head : w'.priv.tx_head ≡ w.priv.tx_head
  pub tail : w'.priv.tx_tail ≡ w.priv.tx_tail
  pub max : w'.priv.tx_max ≡ w.priv.tx_max
  pub packets : w'.stats.tx_packets ≡ w.stats.tx_packets
  pub echoes : echo_calls w'.history ≡ echo_calls w.history

pub SameRing-refl : (w : World) → SameRing w w
SameRing-refl w = record { head = refl; tail = refl; max = refl; packets = refl; echoes = refl }

pub SameRing-trans : {u v w : World} → SameRing u v → SameRing v w → SameRing u w
SameRing-trans s t = record {
  head = t.head ∙ s.head;
  tail = t.tail ∙ s.tail;
  max = t.max ∙ s.max;
  packets = t.packets ∙ s.packets;
  echoes = t.echoes ∙ s.echoes;
}

-- What the flow control needs of the queue afterwards.
abbrev pub HasRoom : (w w' : World) → Type 0
HasRoom w w' = (queue_awake w'.history ≡ false) ⊎ (in_flight w < w.priv.tx_max)

module _ {w w' : World} (s : SameRing w w') where
  SameRing-IsControlled : HasRoom w w' → IsControlled w → IsControlled w'
  SameRing-IsControlled room c =
      let head = s.head in
      let tail = s.tail in let max = s.max in let packets = s.packets in ground arith

  used_slots-SameRing : used_slots w' ≡ used_slots w
  used_slots-SameRing =
      let head = s.head in let tail = s.tail in let max = s.max in rw (head, tail, max) refl

  pub SameRing-IsAccounted : HasRoom w w' → IsAccounted w → IsAccounted w'
  SameRing-IsAccounted room a = record {
    divides = subst (λ m. m ∣ 2 ^ 32) (sym s.max) a.divides;
    controlled = SameRing-IsControlled room a.controlled;
    waiting = a.waiting;
    holds = Holds-same w w' a.waiting s.echoes used_slots-SameRing a.holds;
    complete =
        ap accepted s.echoes ∙ a.complete ∙ ap (λ calls. echoed calls ++ a.waiting) (sym s.echoes);
  }
