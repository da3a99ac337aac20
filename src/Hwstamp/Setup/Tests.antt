-- ===== src/Hwstamp/Setup/Tests.antt =====
-- A system that grants all but the binding.
use zynq_can_sja1000_top.Common.{◌≡◌, ◌⊎◌, true, false, none, some, pos, negsuc, []}
use zynq_can_sja1000_top.Hwstamp.Options.{Settings}
use zynq_can_sja1000_top.Hwstamp.Setup.{Net, setup}
use zynq_can_sja1000_top.Hwstamp.Setup.Ends.{
  is_ready, wanted_options, options_set, has_exited, setup-Ends,
}

abbrev no_binding : Net
no_binding = record {
  socket_result = pos 3;
  index_result = pos 0;
  hwtstamp_result = λ c. (pos 0, none);
  bind_result = negsuc 18;
  setsockopt_result = λ o v. pos 0;
  getsockopt_result = λ o. pos 0;
  option_value = λ o. 0;
}

abbrev with_ns : Settings
with_ns = record { flags = 64; timestamp = 0; timestampns = 1; gstamp = 0; gstampns = 0 }

setup-Ends_example :
    let r = setup no_binding with_ns [] in
    ((is_ready no_binding with_ns ≡ true)
      × (r.0 ≡ some tt)
      × (options_set r.1 ≡ wanted_options with_ns))
    ⊎ ((is_ready no_binding with_ns ≡ false) × (r.0 ≡ none) × (has_exited r.1 ≡ true))
setup-Ends_example = setup-Ends no_binding with_ns
