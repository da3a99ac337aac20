-- ===== src/Receive/Fifo/Latch.antt =====
-- When the latch of RXNEMP says whether the receive FIFO is empty.
use zynq_can_sja1000_top.Common.{ℕ, ◌≡◌, refl, arith, [], ◌∷◌, Bool-cases, inl, inr, ltb, ◌≤◌}
use zynq_can_sja1000_top.Kernel.{Event, History}
use zynq_can_sja1000_top.Receive.Fifo.{popped, is_clear, is_pop, unannounced, latched}

module _ (arrived : History → ℕ)
    (grows : (e : Event) (h : History) → arrived h ≤ arrived (e ∷ h)) where
  -- The latch is true to the FIFO where nothing was taken out since it was cleared.
  pub latched_lem :
      (h : History) → unannounced h ≡ 0 → latched arrived h ≡ ltb (popped h) (arrived h)
  latched_lem [] z = refl
  latched_lem (e ∷ h) z = elim (Bool-cases (is_clear e)) [
    | inl c ↦ rw c (ground arith)
    | inr c ↦ elim (Bool-cases (is_pop e)) [
      | inl p ↦ ground arith
      | inr p ↦ let older = latched_lem h (ground arith) in let more = grows e h in ground arith
    ]
  ]
