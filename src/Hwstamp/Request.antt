-- ===== src/Hwstamp/Request.antt =====
-- What the driver makes of the test program's request.
use mathlib.Core.Bool.{true≢false}
use zynq_can_sja1000_top.Common.{
  sym, ap, none, ◌∙◌, ℕ, ◌≡◌, ◌⊎◌, inl, inr, refl, arith, true, false, Bool-cases, has,
  if◌then◌else◌, some, pos,
}
use zynq_can_sja1000_top.Can.{minus_erange}
use zynq_can_sja1000_top.Ioctl.{HwtstampConfig, UserSpace, Reply, siocshwtstamp, xcan_ioctl}
use zynq_can_sja1000_top.Ioctl.Config.{SetEnds, IsSupported, widened, xcan_ioctl-SetEnds}
use zynq_can_sja1000_top.Hwstamp.{
  Outcome, request, configure, sof_timestamping_tx_hardware, sof_timestamping_rx_hardware,
}

-- The call as the program makes it, from memory of its own.
abbrev pub driver_call : HwtstampConfig → Reply
driver_call cfg = xcan_ioctl (record { config = some cfg; write_fails = λ _. false }) siocshwtstamp

supported : (cfg : HwtstampConfig) → IsSupported cfg → driver_call cfg ≡ (pos 0, some (widened cfg))
supported cfg s = cases (xcan_ioctl-SetEnds u cfg refl)
  where
    u : UserSpace
    u = record { config = some cfg; write_fails = λ _. false }

    cases : SetEnds u cfg (driver_call cfg) → driver_call cfg ≡ (pos 0, some (widened cfg))
    cases (inl e) = e.2
    cases (inr (inl e)) = absurd (true≢false (sym e.1))
    cases (inr (inr (inl e))) = absurd (e.0 s.0)
    cases (inr (inr (inr e))) = absurd (e.1 s)

refused :
    (cfg : HwtstampConfig)
    → cfg.flags ≡ 0
    → ¬ IsSupported cfg
    → driver_call cfg ≡ (minus_erange, none)
refused cfg z n = cases (xcan_ioctl-SetEnds u cfg refl)
  where
    u : UserSpace
    u = record { config = some cfg; write_fails = λ _. false }

    cases : SetEnds u cfg (driver_call cfg) → driver_call cfg ≡ (minus_erange, none)
    cases (inl e) = absurd (n e.0)
    cases (inr (inl e)) = absurd (n e.0)
    cases (inr (inr (inl e))) = absurd (e.0 z)
    cases (inr (inr (inr e))) = e.2

request-IsSupported :
    (flags : ℕ) → has flags sof_timestamping_tx_hardware ≡ false → IsSupported (request flags)
unfolding request
request-IsSupported flags t = ground arith

widened-request :
    (flags : ℕ)
    → has flags sof_timestamping_tx_hardware ≡ false
    → widened (request flags) ≡ record {
      flags = 0;
      tx_type = 0;
      rx_filter = if has flags sof_timestamping_rx_hardware then 1 else 0;
    }
unfolding request
widened-request flags t = ground arith

tx_on : (flags : ℕ) → has flags sof_timestamping_tx_hardware ≡ true → ¬ IsSupported (request flags)
unfolding request
tx_on flags t s = ground arith

configure_lem :
    (flags : ℕ) (call : HwtstampConfig → Reply)
    → (call (request flags) ≡ (minus_erange, none) → configure flags call ≡ Outcome.bail)
      × ((got : HwtstampConfig)
          → call (request flags) ≡ (pos 0, some got)
          → configure flags call ≡ Outcome.proceed (request flags) got)
unfolding configure request
configure_lem flags call = (λ e. rw e refl, λ got e. rw e refl)

flags-request : (flags : ℕ) → (request flags).flags ≡ 0
unfolding request
flags-request flags = refl

-- The driver refuses the request, and the program exits.
abbrev pub Refused : ℕ → Type 0
Refused flags =
    (has flags sof_timestamping_tx_hardware ≡ true)
    × (driver_call (request flags) ≡ (minus_erange, none))
    × (configure flags driver_call ≡ Outcome.bail)

-- The configuration that the program gets where the driver takes the request.
abbrev pub granted : ℕ → HwtstampConfig
granted flags = record {
  flags = 0;
  tx_type = 0;
  rx_filter = if has flags sof_timestamping_rx_hardware then 1 else 0;
}

abbrev pub Granted : ℕ → Type 0
Granted flags =
    (has flags sof_timestamping_tx_hardware ≡ false)
    × (driver_call (request flags) ≡ (pos 0, some (granted flags)))
    × (configure flags driver_call ≡ Outcome.proceed (request flags) (granted flags))

-- The driver takes the request unless TX_HARDWARE is among the flags, where it gives -ERANGE,
-- writes nothing, and the program exits. Otherwise the call succeeds, and what the program gets is
-- the filter ALL for RX_HARDWARE and NONE without.
pub configure-driver_call : (flags : ℕ) → Refused flags ⊎ Granted flags
configure-driver_call flags = elim (Bool-cases (has flags sof_timestamping_tx_hardware)) [
  | inl t ↦
      let e = refused (request flags) (flags-request flags) (tx_on flags t) in
      inl (t, e, (configure_lem flags driver_call).0 e)
  | inr t ↦
      let e =
        supported (request flags) (request-IsSupported flags t)
        ∙ ap (λ (c : HwtstampConfig). (pos 0, some c)) (widened-request flags t) in
      inr (t, e, (configure_lem flags driver_call).1 _ e)
]
