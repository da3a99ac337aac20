-- ===== src/Ioctl/Config.antt =====
-- Which configurations of time stamps are taken, and what is reported afterwards.
use zynq_can_sja1000_top.Common.{
  ℕ, ◌<◌, ◌≡◌, ◌≢◌, ◌⊎◌, inl, inr, refl, arith, true, false, Bool-cases, if◌then◌else◌, ◌==◌, none,
  some, pos,
}
use zynq_can_sja1000_top.Can.{minus_efault, minus_einval, minus_erange}
use zynq_can_sja1000_top.Ioctl.{
  HwtstampConfig, UserSpace, Reply, choose_filter, check_config, reply, siocshwtstamp,
  siocghwtstamp, xcan_hwtstamp_set, xcan_hwtstamp_get, xcan_ioctl, is_ptp_filter,
}

-- What the driver can do: no flags, no time stamps on transmission, and any filter but SOME.
abbrev pub IsSupported : HwtstampConfig → Type 0
IsSupported cfg = (cfg.flags ≡ 0) × (cfg.tx_type ≡ 0) × (cfg.rx_filter ≢ 2) × (cfg.rx_filter < 15)

-- NONE stays, any other filter becomes ALL.
abbrev pub widened : HwtstampConfig → HwtstampConfig
widened cfg = record cfg { rx_filter = if cfg.rx_filter == 0 then 0 else 1 }

choose_filter_lem :
    (f : ℕ)
    → ((f ≢ 2) × (f < 15) × (choose_filter f ≡ some (if f == 0 then 0 else 1)))
      ⊎ (((f ≡ 2) ⊎ (14 < f)) × (choose_filter f ≡ none))
unfolding choose_filter is_ptp_filter
choose_filter_lem f = ground arith

-- How SIOCSHWTSTAMP ends for the configuration `asked`.
abbrev pub SetEnds : UserSpace → HwtstampConfig → Reply → Type 0
SetEnds u asked r =
    (IsSupported asked
      × (u.write_fails (widened asked) ≡ false)
      × (r ≡ (pos 0, some (widened asked))))
    ⊎ (IsSupported asked × (u.write_fails (widened asked) ≡ true) × (r ≡ (minus_efault, none)))
    ⊎ ((asked.flags ≢ 0) × (r ≡ (minus_einval, none)))
    ⊎ ((asked.flags ≡ 0) × (¬ IsSupported asked) × (r ≡ (minus_erange, none)))

reply-SetEnds :
    (u : UserSpace) (asked : HwtstampConfig)
    → IsSupported asked
    → SetEnds u asked (reply u (widened asked))
unfolding reply
reply-SetEnds u asked s = elim (Bool-cases (u.write_fails (widened asked))) [
  | inl e ↦ rw e (inr (inl (s, refl, refl)))
  | inr e ↦ rw e (inl (s, refl, refl))
]

zero_test_holds : (n : ℕ) → (n == 0) ≡ true → n ≡ 0
zero_test_holds n h = ground arith

zero_test_fails : (n : ℕ) → (n == 0) ≡ false → n ≢ 0
zero_test_fails n h = ground arith

out_of_range : (f : ℕ) → (f ≡ 2) ⊎ (14 < f) → f ≢ 2 → ¬ (f < 15)
out_of_range f h other = ground arith

check_config-SetEnds :
    (u : UserSpace) (asked : HwtstampConfig) → SetEnds u asked (check_config u asked)
unfolding check_config
check_config-SetEnds u asked = elim (Bool-cases (asked.flags == 0)) [
  | inr e ↦ rw e (inr (inr (inl (zero_test_fails _ e, refl))))
  | inl e ↦ elim (Bool-cases (asked.tx_type == 0)) [
    | inr t ↦
        rw (e, t) (inr (inr (inr (zero_test_holds _ e, (λ s. zero_test_fails _ t s.1), refl))))
    | inl t ↦ elim (choose_filter_lem asked.rx_filter) [
      | inl c ↦
          rw (e, t, c.2)
            (reply-SetEnds u asked (zero_test_holds _ e, zero_test_holds _ t, c.0, c.1))
      | inr c ↦
          rw (e, t, c.1)
            (inr (inr (inr (zero_test_holds _ e, (λ s. out_of_range _ c.0 s.2 s.3), refl))))
    ]
  ]
]

-- With a configuration in the caller's memory, SIOCSHWTSTAMP succeeds exactly for no flags, no
-- time stamps on transmission and a known filter other than SOME, and then hands the
-- configuration back with NONE kept and any other filter widened to ALL; a caller's memory that
-- cannot be written gives -EFAULT. Flags that are not 0 give -EINVAL, and anything else that is not
-- supported -ERANGE; nothing is written then.
pub xcan_ioctl-SetEnds :
    (u : UserSpace) (asked : HwtstampConfig)
    → u.config ≡ some asked
    → SetEnds u asked (xcan_ioctl u siocshwtstamp)
unfolding xcan_ioctl xcan_hwtstamp_set
xcan_ioctl-SetEnds u asked e = rw e (check_config-SetEnds u asked)

abbrev pub reported : HwtstampConfig
reported = record { flags = 0; tx_type = 0; rx_filter = 1 }

-- SIOCGHWTSTAMP does not report what was set: after a SIOCSHWTSTAMP for NONE that succeeded it
-- gives the filter ALL, where the caller's memory can be written.
pub xcan_ioctl-forgets :
    (u v : UserSpace) (asked : HwtstampConfig)
    → u.config ≡ some asked
    → asked.rx_filter ≡ 0
    → xcan_ioctl u siocshwtstamp ≡ (pos 0, some asked)
    → ((cfg : HwtstampConfig) → v.write_fails cfg ≡ false)
    → (got : HwtstampConfig) × (xcan_ioctl v siocghwtstamp ≡ (pos 0, some got))
      × (got.rx_filter ≢ asked.rx_filter)
unfolding xcan_ioctl xcan_hwtstamp_get reply
xcan_ioctl-forgets u v asked e none_asked done ok = (reported, rw (ok reported) refl, omega arith)
