-- ===== src/Hwstamp/Options.antt =====
-- The options of petalinux/components/apps/canhwtstamp/timestamping.c: the loop of main over its
-- arguments.
pub mod Flags
pub mod Named
pub mod Tests
use zynq_can_sja1000_top.Common.{ℕ, bit_or, Bool, if◌then◌else◌, Option, none, some, List, [], ◌∷◌}

-- The literals that an argument is compared with, in the order of the tests.
pub data Keyword : Type 0 where
  so_timestamp so_timestampns siocgstamp siocgstampns ip_multicast_loop : Keyword
  sof_tx_hardware sof_tx_software sof_rx_hardware sof_rx_software : Keyword
  sof_software sof_raw_hardware : Keyword

abbrev pub keywords : List Keyword
keywords =
    so_timestamp ∷ so_timestampns ∷ siocgstamp ∷ siocgstampns ∷ ip_multicast_loop ∷ sof_tx_hardware
    ∷ sof_tx_software ∷ sof_rx_hardware ∷ sof_rx_software ∷ sof_software ∷ sof_raw_hardware ∷ []

-- `SOF_TIMESTAMPING_…`, for the keywords that add one.
abbrev pub flag_of : Keyword → ℕ
flag_of sof_tx_hardware = 1
flag_of sof_tx_software = 2
flag_of sof_rx_hardware = 4
flag_of sof_rx_software = 8
flag_of sof_software = 16
flag_of sof_raw_hardware = 64
flag_of _ = 0

-- The local variables that the loop sets.
pub record Settings : Type 0 where
  pub flags : ℕ
  pub timestamp : ℕ
  pub timestampns : ℕ
  pub gstamp : ℕ
  pub gstampns : ℕ

-- The body of the `if` for one literal.
pub set_option : Keyword → Settings → Settings
set_option so_timestamp s = record s { timestamp = 1 }
set_option so_timestampns s = record s { timestampns = 1 }
set_option siocgstamp s = record s { gstamp = 1 }
set_option siocgstampns s = record s { gstampns = 1 }
set_option ip_multicast_loop s = s
set_option kw s = record s { flags = bit_or s.flags (flag_of kw) }

-- `equals a kw` is `!strcasecmp(a, "…")`.
module _ {Arg : Type 0} (equals : Arg → Keyword → Bool) where
  -- The chain of `else if`: the first literal that the argument equals.
  pub first_match : Arg → List Keyword → Option Keyword
  first_match a [] = none
  first_match a (kw ∷ kws) = let rest = first_match a kws in if equals a kw then some kw else rest

  -- The loop, with `none` for the exit through usage.
  pub parse_options : List Arg → Settings → Option Settings
  unfolding first_match set_option
  parse_options [] s = some s
  parse_options (a ∷ args) s = elim (first_match a keywords) [
    | none ↦ none
    | some kw ↦ parse_options args (set_option kw s)
  ]
