-- ===== src/Hwstamp/Options/Named.antt =====
-- The flags after the loop over the arguments of timestamping.c.
use mathlib.Core.Option.{some-injective, none-ne-some}
use zynq_can_sja1000_top.Common.{
  ap, sym, ◌∙◌, ◌≤◌, ℕ, ◌≡◌, ◌≢◌, inl, inr, refl, arith, Bool, true, false, Bool-cases,
  if◌then◌else◌, some, Option-cases, List, [], ◌∷◌,
}
use mathlib.Core.Path.{subst}
use zynq_can_sja1000_top.Hwstamp.Options.Flags.{digit, digit-bit_or, digit-zero, no_flag}
use Prim.Native.Nat.{max}
use zynq_can_sja1000_top.Hwstamp.Options.{
  Keyword, so_timestamp, so_timestampns, siocgstamp, siocgstampns, ip_multicast_loop,
  sof_tx_hardware, sof_tx_software, sof_rx_hardware, sof_rx_software, sof_software,
  sof_raw_hardware, keywords, flag_of, Settings, set_option, first_match, parse_options,
}

-- Where a keyword stands among the tests.
abbrev pub position : Keyword → ℕ
position so_timestamp = 0
position so_timestampns = 1
position siocgstamp = 2
position siocgstampns = 3
position ip_multicast_loop = 4
position sof_tx_hardware = 5
position sof_tx_software = 6
position sof_rx_hardware = 7
position sof_rx_software = 8
position sof_software = 9
position sof_raw_hardware = 10

module _ {Arg : Type 0} (equals : Arg → Keyword → Bool) where
  -- The literals are different strings: an argument equals one of them at most.
  abbrev pub AreDistinct : Type 0
  AreDistinct =
      (a : Arg) (x y : Keyword) → equals a x ≡ true → equals a y ≡ true → position x ≡ position y

  -- The digit of `value` if the argument is the literal, and else 0.
  abbrev pub names : ℕ → Arg → (value : ℕ) → Keyword → ℕ
  names k a value kw = if equals a kw then digit k value else 0

  -- Whether one argument names the flag with the digit `k`, by the values that
  -- linux/net_tstamp.h gives to the literals.
  abbrev pub named_by : ℕ → Arg → ℕ
  named_by k a = max (names k a 1 sof_tx_hardware) (
      max (names k a 2 sof_tx_software) (
        max (names k a 4 sof_rx_hardware) (
          max (names k a 8 sof_rx_software)
            (max (names k a 16 sof_software) (names k a 64 sof_raw_hardware)))))

  -- The largest of them: 1 if some argument names the flag.
  abbrev pub named : ℕ → List Arg → ℕ
  named k [] = 0
  named k (a ∷ args) = max (named_by k a) (named k args)

  first_match-equals :
      (a : Arg) (kws : List Keyword) {kw : Keyword}
      → first_match equals a kws ≡ some kw
      → equals a kw ≡ true
  unfolding first_match
  first_match-equals a [] e = absurd (none-ne-some _ e)
  first_match-equals a (kw ∷ kws) e = elim (Bool-cases (equals a kw)) [
    | inl same ↦
        subst (λ x. equals a x ≡ true) (some-injective _ _ (rw (same, first_match) at e)) same
    | inr other ↦ first_match-equals a kws (rw (other, first_match) at e)
  ]

  -- Where the argument is `kw`, every comparison comes out as the positions say.
  equals_lem :
      (a : Arg) (kw : Keyword)
      → AreDistinct
      → equals a kw ≡ true
      → (x : Keyword) → position x ≢ position kw
      → equals a x ≡ false
  equals_lem a kw distinct here x apart = elim (Bool-cases (equals a x)) [
    | inl e ↦ absurd (apart (distinct a x kw e here))
    | inr e ↦ e
  ]

  -- No literal of a flag: these stand at the positions from 5 on.
  nothing_named :
      (k : ℕ) (a : Arg) → ((x : Keyword) → 5 ≤ position x → equals a x ≡ false) → named_by k a ≡ 0
  nothing_named k a other =
      rw
        (
          other sof_tx_hardware (omega arith),
          other sof_tx_software (omega arith),
          other sof_rx_hardware (omega arith),
          other sof_rx_software (omega arith),
          other sof_software (omega arith),
          other sof_raw_hardware (omega arith),
        )
        refl

  digit-flag_of :
      (k : ℕ) (a : Arg) (kw : Keyword)
      → AreDistinct
      → equals a kw ≡ true
      → named_by k a ≡ digit k (flag_of kw)
  digit-flag_of k a kw distinct here = table kw here (equals_lem a kw distinct here)
    where
      table :
          (kw : Keyword)
          → equals a kw ≡ true
          → ((x : Keyword) → position x ≢ position kw → equals a x ≡ false)
          → named_by k a ≡ digit k (flag_of kw)
      table so_timestamp here other =
          nothing_named k a (λ x far. other x (omega arith)) ∙ sym (digit-zero k)
      table so_timestampns here other =
          nothing_named k a (λ x far. other x (omega arith)) ∙ sym (digit-zero k)
      table siocgstamp here other =
          nothing_named k a (λ x far. other x (omega arith)) ∙ sym (digit-zero k)
      table siocgstampns here other =
          nothing_named k a (λ x far. other x (omega arith)) ∙ sym (digit-zero k)
      table ip_multicast_loop here other =
          nothing_named k a (λ x far. other x (omega arith)) ∙ sym (digit-zero k)
      table sof_tx_hardware here other =
          rw
            (
              here,
              other sof_tx_software (omega arith),
              other sof_rx_hardware (omega arith),
              other sof_rx_software (omega arith),
              other sof_software (omega arith),
              other sof_raw_hardware (omega arith),
            )
            (omega arith)
      table sof_tx_software here other =
          rw
            (
              other sof_tx_hardware (omega arith),
              here,
              other sof_rx_hardware (omega arith),
              other sof_rx_software (omega arith),
              other sof_software (omega arith),
              other sof_raw_hardware (omega arith),
            )
            (omega arith)
      table sof_rx_hardware here other =
          rw
            (
              other sof_tx_hardware (omega arith),
              other sof_tx_software (omega arith),
              here,
              other sof_rx_software (omega arith),
              other sof_software (omega arith),
              other sof_raw_hardware (omega arith),
            )
            (omega arith)
      table sof_rx_software here other =
          rw
            (
              other sof_tx_hardware (omega arith),
              other sof_tx_software (omega arith),
              other sof_rx_hardware (omega arith),
              here,
              other sof_software (omega arith),
              other sof_raw_hardware (omega arith),
            )
            (omega arith)
      table sof_software here other =
          rw
            (
              other sof_tx_hardware (omega arith),
              other sof_tx_software (omega arith),
              other sof_rx_hardware (omega arith),
              other sof_rx_software (omega arith),
              here,
              other sof_raw_hardware (omega arith),
            )
            (omega arith)
      table sof_raw_hardware here other =
          rw
            (
              other sof_tx_hardware (omega arith),
              other sof_tx_software (omega arith),
              other sof_rx_hardware (omega arith),
              other sof_rx_software (omega arith),
              other sof_software (omega arith),
              here,
            )
            (omega arith)

  digit-set_option :
      (k : ℕ) (kw : Keyword) (s : Settings)
      → digit k (set_option kw s).flags ≡ max (digit k s.flags) (digit k (flag_of kw))
  unfolding set_option
  digit-set_option k so_timestamp s = no_flag k s.flags
  digit-set_option k so_timestampns s = no_flag k s.flags
  digit-set_option k siocgstamp s = no_flag k s.flags
  digit-set_option k siocgstampns s = no_flag k s.flags
  digit-set_option k ip_multicast_loop s = no_flag k s.flags
  digit-set_option k kw s = digit-bit_or k s.flags (flag_of kw)

  -- Where an argument equals one literal at most: when the loop does not exit, a flag is set
  -- afterwards exactly if it was before or some argument is the literal of this flag, in whatever
  -- order and however often the arguments come.
  pub parse_options-named :
      (k : ℕ) (args : List Arg) (s : Settings) {r : Settings}
      → AreDistinct
      → parse_options equals args s ≡ some r
      → digit k r.flags ≡ max (digit k s.flags) (named k args)
  unfolding parse_options
  parse_options-named k [] s distinct e =
      omega (arith, ap (λ (q : Settings). digit k q.flags) (some-injective _ _ e))
  parse_options-named k (a ∷ args) s {r} distinct e =
      elim (Option-cases (first_match equals a keywords)) [
        | inl x ↦ absurd (none-ne-some _ (rw (x, parse_options) at e))
        | inr (kw, x) ↦
            let later : digit k r.flags ≡ max (digit k (set_option kw s).flags) (named k args) =
              parse_options-named k args (set_option kw s) distinct (rw (x, parse_options) at e) in
            let one = digit-set_option k kw s in
            let here = digit-flag_of k a kw distinct (first_match-equals a keywords x) in
            omega (arith, later, one, here)
      ]
