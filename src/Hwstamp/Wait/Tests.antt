-- ===== src/Hwstamp/Wait/Tests.antt =====
-- A clock that goes on by a second with every call, and a socket that is silent.
use zynq_can_sja1000_top.Common.{ℕ, suc, ◌≡◌, arith, some, pos, false, true, [], ◌∷◌}
use zynq_can_sja1000_top.Hwstamp.Packet.{Packet}
use zynq_can_sja1000_top.Hwstamp.Wait.{System, State, Trace, start, wait, receive, rounds}
use zynq_can_sja1000_top.Hwstamp.Wait.Timeouts.{IsSteady, IsNear, rounds-IsNear}

abbrev silence : Packet
silence = record {
  res = pos 0;
  controllen = 0;
  cmsgs = [];
  stamp = pos 0;
  stamp_time = record { sec = 0; sub = 0 };
  stampns = pos 0;
  stampns_time = record { sec = 0; sub = 0 };
}

abbrev seconds : Trace → ℕ
seconds [] = 1000
seconds (c ∷ t) = suc (seconds t)

abbrev ticking : System
ticking = record {
  clock = λ t. record { sec = seconds t; sub = 250000 };
  select_result = λ t. pos 1;
  is_readable = λ t. true;
  is_faulty = λ t. false;
  packet = λ t. silence;
}

ticking-IsSteady : IsSteady ticking 0 0
unfolding wait receive
ticking-IsSteady = record {
  normal = λ t. omega arith;
  forward = λ c t. omega arith;
  quick = λ now t. omega arith;
  slow = λ d t. omega arith;
}

rounds-IsNear_example :
    (s : State) × (rounds ticking 0 0 7 (start ticking 0 0 []) ≡ some s) × IsNear ticking s
rounds-IsNear_example = rounds-IsNear ticking 0 0 ticking-IsSteady 7 [] tt
