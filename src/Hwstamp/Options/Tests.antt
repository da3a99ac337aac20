-- ===== src/Hwstamp/Options/Tests.antt =====
-- RAW_HARDWARE and RX_HARDWARE on the command line.
use Prim.Native.Nat.{max}
use zynq_can_sja1000_top.Common.{Bool, List, [], ◌∷◌, some, ◌==◌, ◌≡◌, refl, arith}
use zynq_can_sja1000_top.Hwstamp.Options.{
  Keyword, sof_rx_hardware, sof_raw_hardware, Settings, parse_options, first_match, set_option,
}
use zynq_can_sja1000_top.Hwstamp.Options.Flags.{digit}
use zynq_can_sja1000_top.Hwstamp.Options.Named.{position, AreDistinct, named, parse_options-named}

-- The arguments are keywords already, so that comparing them is easy.
abbrev same_keyword : Keyword → Keyword → Bool
same_keyword a kw = position a == position kw

same_keyword-AreDistinct : AreDistinct same_keyword
same_keyword-AreDistinct a x y e f = ground arith

abbrev no_settings : Settings
no_settings = record { flags = 0; timestamp = 0; timestampns = 0; gstamp = 0; gstampns = 0 }

abbrev two_args : List Keyword
two_args = sof_raw_hardware ∷ sof_rx_hardware ∷ []

two_flags :
    parse_options same_keyword two_args no_settings ≡ some (record no_settings { flags = 68 })
unfolding parse_options first_match set_option
two_flags = refl

parse_options-named_example : digit 6 68 ≡ max (digit 6 0) (named same_keyword 6 two_args)
parse_options-named_example =
    parse_options-named same_keyword 6 two_args no_settings same_keyword-AreDistinct two_flags
