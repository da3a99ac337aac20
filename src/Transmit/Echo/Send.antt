-- ===== src/Transmit/Echo/Send.antt =====
-- xcan_start_xmit as the operation that puts a frame behind a queue.
use zynq_can_sja1000_top.Common.{
  ◌+◌, ◌^◌, ◌<◌, u32, sub32, ◌≡◌, ◌⊎◌, inl, inr, ap, arith, List, [], ◌∷◌, ◌++◌, true, false,
}
use Prim.Native.Nat.{◌∣◌}
use zynq_can_sja1000_top.Can.{CanFrame, tx_ok, tx_busy}
use zynq_can_sja1000_top.Kernel.{Kernel}
use zynq_can_sja1000_top.Driver.{World, Priv}
use zynq_can_sja1000_top.Transmit.{xcan_start_xmit}
use zynq_can_sja1000_top.Transmit.Completion.{in_flight}
use zynq_can_sja1000_top.Transmit.Queue.{IsControlled}
use zynq_can_sja1000_top.Transmit.Ring.{slots}
use zynq_can_sja1000_top.Transmit.Slots.{next_slot, used_slots-next}
use zynq_can_sja1000_top.Transmit.Echo.{put, echo_calls, echoed, accepted}
use zynq_can_sja1000_top.Transmit.Echo.Held.{Holds, calls, Holds-same, Holds-put}

module _ (k : Kernel) where
  echo_moves :
      (cf : CanFrame) (w : World)
      → let r = xcan_start_xmit k cf w in
        ((calls r.1 ≡ calls w)
          × (r.1.priv ≡ w.priv)
          × ((k.can_dropped_invalid_skb w.history cf ≡ true) ⊎ (r.0 ≡ tx_busy)))
        ⊎ ((calls r.1 ≡ put cf (next_slot w) ∷ calls w)
            × (r.1.priv ≡ record w.priv { tx_head = u32 (w.priv.tx_head + 1) })
            × (k.can_dropped_invalid_skb w.history cf ≡ false)
            × (r.0 ≡ tx_ok))
  unfolding xcan_start_xmit
  echo_moves cf w = ground arith

  -- With a `tx_max` that divides 2 ^ 32, the ring controlled and with room in it, and standing for
  -- the queue `q`: xcan_start_xmit echoes nothing and keeps `tx_max`, and either the frame was
  -- dropped as invalid or NETDEV_TX_BUSY is returned, no frame is put into the ring, and it still
  -- stands for `q`; or the frame is valid, NETDEV_TX_OK is returned, the frame is put into the
  -- ring, and the ring stands for `q` with the frame behind it.
  pub xcan_start_xmit-Holds :
      (cf : CanFrame) (w : World) (q : List CanFrame)
      → w.priv.tx_max ∣ 2 ^ 32
      → IsControlled w
      → in_flight w < w.priv.tx_max
      → Holds w q
      → let r = xcan_start_xmit k cf w in
        (echoed (echo_calls r.1.history) ≡ echoed (echo_calls w.history))
        × (r.1.priv.tx_max ≡ w.priv.tx_max)
        × ((((k.can_dropped_invalid_skb w.history cf ≡ true) ⊎ (r.0 ≡ tx_busy))
              × (accepted (echo_calls r.1.history) ≡ accepted (echo_calls w.history))
              × Holds r.1 q)
            ⊎ ((k.can_dropped_invalid_skb w.history cf ≡ false)
                × (r.0 ≡ tx_ok)
                × (accepted (echo_calls r.1.history) ≡ accepted (echo_calls w.history) ++ (cf ∷ []))
                × Holds r.1 (q ++ (cf ∷ []))))
  xcan_start_xmit-Holds cf w q divides c room h =
      let u = (xcan_start_xmit k cf w).1 in
      elim (echo_moves cf w) [
        | inl (e, p, o) ↦ (
          ap echoed e,
          ap (λ (x : Priv). x.tx_max) p,
          inl (
            o,
            ap accepted e,
            Holds-same w u q e
                (ap (λ (x : Priv). slots x.tx_max x.tx_tail (sub32 x.tx_head x.tx_tail)) p) h,
          ),
        )
        | inr (e, p, valid, o) ↦
            let (free, grows, distinct) = used_slots-next w u divides c room p in
            (
              ap echoed e,
              ap (λ (x : Priv). x.tx_max) p,
              inr (valid, o, ap accepted e, Holds-put cf w u q free grows e h),
            )
      ]
