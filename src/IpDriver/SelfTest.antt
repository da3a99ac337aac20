-- ===== src/IpDriver/SelfTest.antt =====
-- When the self test of a core passes.
use native.Mathlib.Nat.{mod-lt, mod-eq_of_lt, one-le-pow}
use mathlib.Core.Bool.{true≢false}
use native.Mathlib.Decide.{dec_lt}
use zynq_can_sja1000_top.Common.{
  ℕ, ◌+◌, ◌*◌, ◌%◌, ◌^◌, ◌<◌, u32, ◌==◌, ◌≡◌, ◌↔◌, ◌⊎◌, refl, sym, ◌∙◌, arith, [], ◌∷◌, true,
  if◌then◌else◌, Bool-cases, inl, inr, ◌&&◌, ltb,
}
use zynq_can_sja1000_top.IpDriver.{
  Bus, History, print_title, out32, xst_success, xst_failure, mread_reg, write_all, read_all,
  reg_self_test,
}
use zynq_can_sja1000_top.IpDriver.Cores.{Core, self_test}

-- The value that was written last at an address, or 0.
abbrev pub written : History → ℕ → ℕ
written [] a = 0
written (out32 b x ∷ h) a = let before = written h a in if b == a then x else before
written (_ ∷ h) a = written h a

-- The registers as the headers describe them: each keeps the low bits of what is written, as many
-- as it is wide, and its other bits are read as 0.
pub record AreRegisters (bus : Bus) (base : ℕ) (width : ℕ → ℕ) : Type 0 where
  pub keeps :
      (h : History) (i : ℕ)
      → i < 4
      → bus.value h (u32 (base + i * 4)) ≡ written h (u32 (base + i * 4)) % 2 ^ width i

-- A value comes back from a register exactly if it fits.
fits : (x w : ℕ) → x < 2 ^ 32 → (u32 (x % 2 ^ w) == x) ≡ ltb x (2 ^ w)
fits x w h =
    let bound = mod-lt x (one-le-pow w 2 (omega arith)) in
    elim (dec_lt x (2 ^ w)) [
      | yes p ↦ let e = mod-eq_of_lt {n = x} {m = 2 ^ w} p in ground (arith, e)
      | no p ↦ ground (arith, bound, p)
    ]

module _ (bus : Bus) (base : ℕ) (width : ℕ → ℕ) (regs : AreRegisters bus base width) where
  comes_back :
      (g : History) (i x : ℕ)
      → i < 4
      → x < 2 ^ 32
      → written g (u32 (base + i * 4)) ≡ x
      → (u32 (bus.value g (u32 (base + i * 4))) == x) ≡ ltb x (2 ^ width i)
  comes_back g i x small word e = rw (regs.keeps g i small, e) (fits x (width i) word)

  -- What the writes leave, whatever was read since.
  module _ (h : History) where
    after : History
    after = write_all base 4 0 (print_title ∷ h)

    written0 : written after (u32 (base + 0)) ≡ 16
    unfolding after write_all
    written0 = ground arith

    written1 : written after (u32 (base + 4)) ≡ 32
    unfolding after write_all
    written1 = ground arith

    written2 : written after (u32 (base + 8)) ≡ 48
    unfolding after write_all
    written2 = ground arith

    written3 : written after (u32 (base + 12)) ≡ 64
    unfolding after write_all
    written3 = ground arith

    passes : (reg_self_test bus base h).0 ≡ (
        if ltb 16 (2 ^ width 0)
          && ltb 32 (2 ^ width 1)
          && ltb 48 (2 ^ width 2)
          && ltb 64 (2 ^ width 3)
        then xst_success
        else xst_failure)
    unfolding reg_self_test read_all after
    passes =
        let g1 = (mread_reg bus base 0 after).1 in
        let g2 = (mread_reg bus base 4 g1).1 in
        let g3 = (mread_reg bus base 8 g2).1 in
        let e0 = comes_back after 0 16 (omega arith) (omega arith) written0 in
        let e1 = comes_back g1 1 32 (omega arith) (omega arith) written1 in
        let e2 = comes_back g2 2 48 (omega arith) (omega arith) written2 in
        let e3 = comes_back g3 3 64 (omega arith) (omega arith) written3 in
        ground (arith, e0, e1, e2, e3)

same :
    (core : Core) (bus : Bus) (base : ℕ) (h : History)
    → (self_test core bus base h).0 ≡ (reg_self_test bus base h).0
same Core.audio_single_pwm bus base h = refl
same Core.axi_pwm_coprocessor bus base h = refl
same Core.can_crossbar bus base h = refl
same Core.display_16bit_cmd_data_bus bus base h = refl
same Core.servo_led_ps2 bus base h = refl
same Core.spi_leds_and_enc bus base h = refl

wide :
    (a b c d : ℕ)
    → (ltb 16 a && ltb 32 b && ltb 48 c && ltb 64 d ≡ true)
      ↔ ((16 < a) × (32 < b) × (48 < c) × (64 < d))
wide a b c d = (λ e. ground arith, λ e. ground arith)

-- On a core whose registers keep as many low bits of what is written as they are wide, at any base
-- address, the self test succeeds exactly if the first four registers are wide enough for 0x10,
-- 0x20, 0x30 and 0x40; otherwise it fails.
pub self_test-wide :
    (core : Core) (bus : Bus) (base : ℕ) (width : ℕ → ℕ)
    → AreRegisters bus base width
    → (h : History)
    → let result = (self_test core bus base h).0 in
      let enough =
        (16 < 2 ^ width 0) × (32 < 2 ^ width 1) × (48 < 2 ^ width 2) × (64 < 2 ^ width 3) in
      ((result ≡ xst_success) × enough) ⊎ ((result ≡ xst_failure) × ¬ enough)
self_test-wide core bus base width regs h =
    let e = passes bus base width regs h in
    let w = wide (2 ^ width 0) (2 ^ width 1) (2 ^ width 2) (2 ^ width 3) in
    elim (Bool-cases (
      ltb 16 (2 ^ width 0)
      && ltb 32 (2 ^ width 1)
      && ltb 48 (2 ^ width 2)
      && ltb 64 (2 ^ width 3))) [
        | inl b ↦ inl (same core bus base h ∙ e ∙ rw b refl, w.0 b)
        | inr b ↦
            inr (same core bus base h ∙ e ∙ rw b refl, λ x. absurd (true≢false (sym (w.1 x) ∙ b)))
      ]
