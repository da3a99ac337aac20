-- ===== src/Probe/Ends.antt =====
-- How xcan_probe ends: what is held afterwards, and what the device is set to.
use native.Mathlib.Nat.{div-add-mod, mod-lt, mul_comm}
use zynq_can_sja1000_top.Common.{
  ℕ, ◌+◌, ◌*◌, ◌/◌, ◌%◌, ◌<◌, ◌≤◌, u32, ◌≡◌, ◌≢◌, ◌⊎◌, inl, inr, refl, sym, ap, ◌∙◌, arith, List,
  ◌∷◌, ◌++◌,
}
use zynq_can_sja1000_top.Common.{
  some, true, false, Bool-cases, Option-cases, ℤ, pos, is_negative, is_nonzero, if◌then◌else◌,
}
use zynq_can_sja1000_top.Kernel.{Kernel, Event, can_clk, bus_clk}
use zynq_can_sja1000_top.Driver.{World, Priv}
use zynq_can_sja1000_top.Driver.Resources.{
  Resource, can_clock, bus_clock, netdev, napi_context, registration, device, held, Power, power,
  At, take, take_both, is_on-take_both, give-take_both, give, At-take, At-refused, At-give, Keeps,
  Keeps-At,
}
use zynq_can_sja1000_top.Netdev.Open.{is_negative-is_nonzero}
use zynq_can_sja1000_top.Netdev.{clk_prepare_enable}
use zynq_can_sja1000_top.Probe.{
  Platform, register_candev, err_free, err_unprepare_disable_dev, err_unprepare_disable_busclk,
  set_factors, bus_clk_error, probe_end, probe_order, probe_register, probe_bus, probe_can,
  probe_clocks, probe_device, xcan_probe,
}

-- A device as xcan_probe leaves it. The factor is rounded down: a tick lasts at least `mul`
-- nanoseconds, and less than one more.
pub record IsConfigured (pf : Platform) (p : Priv) : Type 0 where
  pub depth : p.tx_max ≡ pf.tx_fifo_depth.1
  pub freq : p.clock_freq ≡ u32 pf.clk_rate
  pub shr : p.cantime2ns_shr ≡ 0
  pub mul_low : p.cantime2ns_mul * p.clock_freq ≤ 1000000000
  pub mul_high : 1000000000 < p.cantime2ns_mul * p.clock_freq + p.clock_freq

-- The errors of the platform are errors, and the CAN clock has a rate.
pub record IsPlatform (pf : Platform) : Type 0 where
  pub rate : u32 pf.clk_rate ≢ 0
  pub ioremap : (e : ℤ) → pf.ioremap_error ≡ some e → is_nonzero e ≡ true
  pub first_clk : (e : ℤ) → pf.can_clk_error ≡ some e → is_nonzero e ≡ true
  pub second_clk : (e : ℤ) → bus_clk_error pf ≡ some e → is_nonzero e ≡ true

-- Either there is one device instance more, configured, or the result is an error and nothing
-- more is held; the clocks have the counts `p` in both cases.
abbrev pub Probed : Platform → List Resource → Power → ℤ → World → Type 0
Probed pf base p r w =
    ((r ≡ pos 0) × At (device ++ base) p w × IsConfigured pf w.priv)
    ⊎ ((is_nonzero r ≡ true) × At base p w)

quotient :
    (d : ℕ) → d ≢ 0 → (1000000000 / d * d ≤ 1000000000) × (1000000000 < 1000000000 / d * d + d)
quotient d pos_d =
    let n : ℕ = 1000000000 in
    let sum = div-add-mod n d in
    let rest : n % d < d = mod-lt n (ground arith) in
    let swap = mul_comm d (n / d) in (omega arith, omega arith)

module _ (k : Kernel) (pf : Platform) where
  nonzero :
      (w : World)
      → w.priv.clock_freq ≡ u32 pf.clk_rate
      → u32 pf.clk_rate ≢ 0
      → w.priv.clock_freq ≢ 0
  nonzero w freq some_rate z = some_rate (sym freq ∙ z)

  probe_order-Keeps :
      (w : World) → let u = (probe_order k w).1 in Keeps w u × (u.priv.tx_max ≡ w.priv.tx_max)
  unfolding probe_order
  probe_order-Keeps w = ground arith

  module _ (base : List Resource) (p : Power) where
    abbrev Outcome : ℤ × World → Type 0
    Outcome r = Probed pf base p r.0 r.1

    probe_end-Probed :
        (r : ℤ) (w : World)
        → (let rs = napi_context ∷ bus_clock ∷ can_clock ∷ netdev ∷ base in
            At (if is_nonzero r then rs else registration ∷ rs) (take_both p) w)
        → w.priv.tx_max ≡ pf.tx_fifo_depth.1
        → w.priv.clock_freq ≡ u32 pf.clk_rate
        → u32 pf.clk_rate ≢ 0
        → Outcome (probe_end k r w)
    unfolding probe_end err_unprepare_disable_busclk err_unprepare_disable_dev err_free set_factors
    probe_end-Probed r w a depth freq some_rate =
        let counts = ap (λ q. give can_clk (give bus_clk q)) a.1 ∙ give-take_both p in
        elim (Bool-cases (is_nonzero r)) [
          | inl e ↦ let rs = rw e at a.0 in rw e (inr (e, (rw rs refl, counts)))
          | inr e ↦
              let rs = rw e at a.0 in
              rw e (
                inl (
                  refl,
                  (rw rs refl, counts),
                  record {
                    depth = depth;
                    freq = freq;
                    shr = refl;
                    mul_low = (quotient w.priv.clock_freq (nonzero w freq some_rate)).0;
                    mul_high = (quotient w.priv.clock_freq (nonzero w freq some_rate)).1;
                  },
                ))
        ]

    module _ (ok : IsPlatform pf) where
      probe_register-Probed :
          (w : World)
          → At (bus_clock ∷ can_clock ∷ netdev ∷ base) (take_both p) w
          → w.priv.tx_max ≡ pf.tx_fifo_depth.1
          → Outcome (probe_register k pf w)
      unfolding probe_register
      probe_register-Probed w a depth =
          let o = probe_order-Keeps w in
          let u = (probe_order k w).1 in
          let v : World = record u {
            priv = record u.priv { clock_freq = u32 pf.clk_rate };
            history = Event.napi_add ∷ u.history;
          } in
          let r = register_candev k v in
          let b = Keeps-At o.0 (is_on-take_both p) a in
          probe_end-Probed r.0 r.1 (rw b.0 refl, b.1) (o.1 ∙ depth) refl ok.rate

      probe_bus-Probed :
          (r : ℤ) (w : World)
          → ((is_nonzero r ≡ true) × At (can_clock ∷ netdev ∷ base) (take can_clk p) w)
            ⊎ ((is_nonzero r ≡ false) × At (bus_clock ∷ can_clock ∷ netdev ∷ base) (take_both p) w)
          → w.priv.tx_max ≡ pf.tx_fifo_depth.1
          → Outcome (probe_bus k pf r w)
      unfolding probe_bus err_unprepare_disable_dev err_free
      probe_bus-Probed r w (inl (e, a)) depth =
          let b = At-give can_clk w a in rw e (inr (e, (rw b.0 refl, b.1)))
      probe_bus-Probed r w (inr (e, a)) depth = rw e (probe_register-Probed w a depth)

      probe_can-Probed :
          (r : ℤ) (w : World)
          → ((is_nonzero r ≡ true) × At (netdev ∷ base) p w)
            ⊎ ((is_nonzero r ≡ false) × At (can_clock ∷ netdev ∷ base) (take can_clk p) w)
          → w.priv.tx_max ≡ pf.tx_fifo_depth.1
          → Outcome (probe_can k pf r w)
      unfolding probe_can err_free
      probe_can-Probed r w (inl (e, a)) depth = rw e (inr (e, (rw a.0 refl, a.1)))
      probe_can-Probed r w (inr (e, a)) depth =
          let bus = clk_prepare_enable k bus_clk w in
          elim (Bool-cases (is_nonzero bus.0)) [
            | inl z ↦
                let b = At-refused bus_clk bus.0 w z a in
                rw e (probe_bus-Probed bus.0 bus.1 (inl (z, b)) depth)
            | inr z ↦
                let b = At-take bus_clk bus.0 w z a in
                rw e (probe_bus-Probed bus.0 bus.1 (inr (z, b)) depth)
          ]

      probe_clocks-Probed :
          (w : World)
          → At (netdev ∷ base) p w
          → w.priv.tx_max ≡ pf.tx_fifo_depth.1
          → Outcome (probe_clocks k pf w)
      unfolding probe_clocks err_free
      probe_clocks-Probed w a depth =
          let can = clk_prepare_enable k can_clk w in
          elim (Option-cases pf.can_clk_error) [
            | inr (e, x) ↦ simp (x, probe_clocks) (inr (ok.first_clk e x, (rw a.0 refl, a.1)))
            | inl x ↦ elim (Option-cases (bus_clk_error pf)) [
              | inr (e, y) ↦ simp (x, y, probe_clocks) (inr (ok.second_clk e y, (rw a.0 refl, a.1)))
              | inl y ↦ elim (Bool-cases (is_nonzero can.0)) [
                | inl z ↦
                    let b = At-refused can_clk can.0 w z a in
                    simp (x, y, probe_clocks) (probe_can-Probed can.0 can.1 (inl (z, b)) depth)
                | inr z ↦
                    let b = At-take can_clk can.0 w z a in
                    simp (x, y, probe_clocks) (probe_can-Probed can.0 can.1 (inr (z, b)) depth)
              ]
            ]
          ]

  abbrev pub ProbedFrom : World → ℤ → World → Type 0
  ProbedFrom w = Probed pf (held w.history) (power w.history)

  probe_device-Probed :
      (w : World) → IsPlatform pf → let r = probe_device k pf w in ProbedFrom w r.0 r.1
  unfolding probe_device
  probe_device-Probed w ok = elim (Option-cases pf.candev) [
    | inl x ↦ simp (x, probe_device) (inr (refl, (refl, refl)))
    | inr (fresh, x) ↦
        simp (x, probe_device)
          (probe_clocks-Probed (held w.history) (power w.history) ok
            (record w {
              priv = record fresh { tx_max = pf.tx_fifo_depth.1 };
              history = Event.alloc_candev true ∷ w.history;
            })
            (refl, refl) refl)
  ]

  -- Where the CAN clock has a rate and errors are not 0, xcan_probe either returns 0 and holds
  -- one device instance more, registered, with its NAPI context, and configured to the depth and
  -- the rate, or it returns an error and holds nothing more than before: an instance that was
  -- allocated is freed. In both cases the
  -- clocks are enabled and prepared as often as before, and no register is accessed while one is
  -- off.
  pub xcan_probe-Probed :
      (w : World) → IsPlatform pf → let r = xcan_probe k pf w in ProbedFrom w r.0 r.1
  unfolding xcan_probe
  xcan_probe-Probed w ok = elim (Option-cases pf.ioremap_error) [
    | inr (e, x) ↦ simp (x, xcan_probe) (inr (ok.ioremap e x, (refl, refl)))
    | inl x ↦ elim (Bool-cases (is_negative pf.tx_fifo_depth.0)) [
      | inl t ↦ simp (x, t, xcan_probe) (inr (is_negative-is_nonzero _ t, (refl, refl)))
      | inr t ↦ elim (Bool-cases (is_negative pf.rx_fifo_depth.0)) [
        | inl u ↦ simp (x, t, u, xcan_probe) (inr (is_negative-is_nonzero _ u, (refl, refl)))
        | inr u ↦ simp (x, t, u, xcan_probe) (probe_device-Probed w ok)
      ]
    ]
  ]
