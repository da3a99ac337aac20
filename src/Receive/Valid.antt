-- ===== src/Receive/Valid.antt =====
-- The frames that xcan_rx and xcan_rx_poll hand up, as values of `struct can_frame`.
use zynq_can_sja1000_top.Common.{true, ℕ, ◌≡◌, arith, some, [], ◌∷◌, Option-cases, inl, inr}
use zynq_can_sja1000_top.Can.{CanFrame}
use zynq_can_sja1000_top.Kernel.{Kernel, Event, History, IsDocumented}
use zynq_can_sja1000_top.Driver.{World, emit}
use zynq_can_sja1000_top.Driver.Run.{Ensures-some}
use zynq_can_sja1000_top.Frame.RoundTrip.{IsFrame}
use zynq_can_sja1000_top.Frame.Valid.{IsBuffer, rx_frame-IsFrame}
use zynq_can_sja1000_top.Timestamp.{xcan_timestamp2ktime}
use zynq_can_sja1000_top.Receive.Stable.{IsPollStable, xcan_rx_poll-Stable}
use zynq_can_sja1000_top.Receive.{receive_into, xcan_rx, poll_end, xcan_rx_poll}
use zynq_can_sja1000_top.Receive.Frames.{xcan_rx-dropped}

-- Every frame handed up so far is well-formed.
abbrev pub AreFrames : History → Type 0
AreFrames [] = Unit {0}
AreFrames (Event.netif_receive_skb cf t ∷ h) = IsFrame cf × AreFrames h
AreFrames (_ ∷ h) = AreFrames h

module _ (k : Kernel) (d : IsDocumented k)
    (alloc : (h : History) (cf : CanFrame) → k.alloc_can_skb h ≡ some cf → IsBuffer cf) where
  receive_into-AreFrames :
      (w : World) (empty : CanFrame)
      → IsBuffer empty
      → AreFrames w.history
      → AreFrames (receive_into k empty w).1.history
  unfolding receive_into xcan_timestamp2ktime
  receive_into-AreFrames w empty b h =
      (rx_frame-IsFrame k d _ empty (omega arith) (omega arith) b, h)

  xcan_rx-AreFrames : (w : World) → AreFrames w.history → AreFrames (xcan_rx k w).1.history
  unfolding xcan_rx
  xcan_rx-AreFrames w h = elim (Option-cases (k.alloc_can_skb w.history)) [
    | inl e ↦ rw (xcan_rx-dropped k w e) h
    | inr (empty, e) ↦
        rw (e, xcan_rx)
          (receive_into-AreFrames (emit (Event.alloc_skb true) w).1 empty (alloc w.history empty e)
            h)
  ]

  abbrev StayFrames : World → World → Type 0
  StayFrames w u = AreFrames w.history → AreFrames u.history

  AreFrames-IsPollStable : IsPollStable k StayFrames
  unfolding poll_end
  AreFrames-IsPollStable = record {
    same = λ w h. h;
    trans = λ s t h. t (s h);
    status = λ w h. h;
    clear = λ x w h. h;
    rx = xcan_rx-AreFrames;
    finish = λ quota work w h. ground arith;
  }

  -- With helpers as documented and new frame buffers that hold bytes: every frame that
  -- xcan_rx_poll hands up is a well-formed `struct can_frame` of a data or remote frame, with a
  -- can_id of 11 or 29 bits under its flags, a length of at most 8 and bytes as data, whatever
  -- words the core's FIFO gives.
  pub xcan_rx_poll-AreFrames :
      (fuel quota : ℕ) (w : World) {n : ℕ} {w' : World}
      → AreFrames w.history
      → xcan_rx_poll k fuel quota w ≡ some (n, w')
      → AreFrames w'.history
  xcan_rx_poll-AreFrames fuel quota w h e =
      Ensures-some (λ n u. StayFrames w u)
        (xcan_rx_poll-Stable k StayFrames AreFrames-IsPollStable fuel quota w) e h
