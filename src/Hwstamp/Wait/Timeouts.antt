-- ===== src/Hwstamp/Wait/Timeouts.antt =====
-- The timeouts that the loop of main gives to select.
use zynq_can_sja1000_top.Common.{
  ℕ, zero, suc, ◌+◌, ◌*◌, ◌%◌, ◌≤◌, ◌<◌, ◌≡◌, refl, arith, Option, none, some, ℤ, pos, negsuc, [],
  ◌∷◌,
}
use zynq_can_sja1000_top.Hwstamp.Packet.{Time}
use zynq_can_sja1000_top.Hwstamp.Wait.{
  Call, Trace, System, State, select, gettimeofday, delta_us, in_long, start, receive, wait, round,
  rounds, first_next,
}

-- Every timeout given to select is a normal `struct timeval` of at least a microsecond and at
-- most five seconds.
abbrev pub AreShort : Trace → Type 0
AreShort [] = Unit {0}
AreShort (select t res ∷ h) =
    (t.sub < 1000000)
    × (0 < t.sec * 1000000 + t.sub)
    × (t.sec * 1000000 + t.sub ≤ 5000000)
    × AreShort h
AreShort (_ ∷ h) = AreShort h

-- The clock: its microseconds are below a million, it never goes back, a round without a wait
-- takes at most five seconds, and a round with a wait at most 2000 seconds.
pub record IsSteady (sys : System) (gstamp gstampns : ℕ) : Type 0 where
  pub normal : (t : Trace) → (sys.clock t).sub < 1000000
  pub forward : (c : Call) (t : Trace) → (sys.clock t).sec ≤ (sys.clock (c ∷ t)).sec
  pub quick :
      (now : Time) (t : Trace) → (sys.clock (gettimeofday now ∷ t)).sec ≤ (sys.clock t).sec + 5
  pub slow :
      (d : ℕ) (t : Trace)
      → (sys.clock (wait sys gstamp gstampns d t)).sec ≤ (sys.clock t).sec + 2000

-- `next` counts whole steps of five seconds, is at most five seconds ahead, and at most 2000
-- behind.
pub record IsNear (sys : System) (s : State) : Type 0 where
  pub step : s.next.sec % 5 ≡ 0
  pub whole : s.next.sub ≡ 0
  pub ahead : s.next.sec ≤ (sys.clock s.trace).sec + 5
  pub behind : (sys.clock s.trace).sec ≤ s.next.sec + 2000
  pub short : AreShort s.trace

-- The value of delta_us, exact and without overflow.
IsDelta : (next now : Time) → Option ℤ → Type 0
IsDelta next now none = ⊥
IsDelta next now (some (pos d)) = next.sec * 1000000 + next.sub ≡ now.sec * 1000000 + now.sub + d
IsDelta next now (some (negsuc d)) =
    next.sec * 1000000 + next.sub + d + 1 ≡ now.sec * 1000000 + now.sub

delta_us-IsDelta :
    (next now : Time)
    → next.sub ≡ 0
    → now.sub < 1000000
    → next.sec ≤ now.sec + 5
    → now.sec ≤ next.sec + 2000
    → IsDelta next now (delta_us next now)
unfolding delta_us IsDelta in_long
delta_us-IsDelta next now whole normal ahead behind = ground arith

-- A clock that is 2148 seconds ahead of `next`, as after a late synchronisation, overflows.
delta_us-overflow : (next now : Time) → next.sec + 2148 ≤ now.sec → delta_us next now ≡ none
unfolding delta_us in_long
delta_us-overflow next now late = ground arith

module _ (sys : System) (gstamp gstampns : ℕ) where
  receive-AreShort : (t : Trace) → AreShort t → AreShort (receive sys gstamp gstampns t)
  unfolding receive
  receive-AreShort t h = ground arith

  forward-receive :
      (t : Trace)
      → IsSteady sys gstamp gstampns
      → (sys.clock t).sec ≤ (sys.clock (receive sys gstamp gstampns t)).sec
  unfolding receive
  forward-receive t c = grind (arith, c.forward)

  wait-AreShort :
      (d : ℕ) (t : Trace)
      → 0 < d
      → d ≤ 5000000
      → AreShort t
      → AreShort (wait sys gstamp gstampns d t)
  unfolding wait
  wait-AreShort d t least few h = grind (arith, receive-AreShort)

  forward-wait :
      (d : ℕ) (t : Trace)
      → IsSteady sys gstamp gstampns
      → (sys.clock t).sec ≤ (sys.clock (wait sys gstamp gstampns d t)).sec
  unfolding wait
  forward-wait d t c = grind (arith, c.forward, forward-receive)

  -- The next state of a round, if the arithmetic does not overflow.
  abbrev Continues : State → Type 0
  Continues s = (s' : State) × (round sys gstamp gstampns s ≡ some s') × IsNear sys s'

  module _ (c : IsSteady sys gstamp gstampns) where
    catch_up-IsNear :
        (s : State)
        → IsNear sys s
        → s.next.sec * 1000000 + s.next.sub
          ≤ (sys.clock s.trace).sec * 1000000 + (sys.clock s.trace).sub
        → IsNear sys (record {
          next = record s.next { sec = s.next.sec + 5 };
          trace = gettimeofday (sys.clock s.trace) ∷ s.trace;
        })
    catch_up-IsNear s n late =
        let now = sys.clock s.trace in
        let normal = c.normal s.trace in
        let forward = c.forward (gettimeofday now) s.trace in
        let quick = c.quick now s.trace in
        record {
          step = omega (arith, n.step);
          whole = n.whole;
          ahead = omega (arith, n.whole);
          behind = omega (arith, n.behind);
          short = n.short;
        }

    wait-IsNear :
        (s : State) (d : ℕ)
        → IsNear sys s
        → s.next.sec * 1000000 + s.next.sub
          ≡ (sys.clock s.trace).sec * 1000000 + (sys.clock s.trace).sub + suc d
        → IsNear sys (record { next = s.next; trace = wait sys gstamp gstampns (suc d) s.trace })
    wait-IsNear s d n early =
        let forward = forward-wait (suc d) s.trace c in
        let slow = c.slow (suc d) s.trace in
        let normal = c.normal s.trace in
        record {
          step = n.step;
          whole = n.whole;
          ahead = omega (arith, n.ahead);
          behind = omega (arith, n.whole);
          short =
              wait-AreShort (suc d) s.trace (omega arith) (omega (arith, n.ahead, n.whole)) n.short;
        }

    round-IsNear : (s : State) → IsNear sys s → Continues s
    unfolding round IsDelta
    round-IsNear s n =
        cases (delta_us s.next now) refl
          (delta_us-IsDelta s.next now n.whole (c.normal s.trace) n.ahead n.behind)
      where
        now : Time
        now = sys.clock s.trace

        cases : (o : Option ℤ) → delta_us s.next now ≡ o → IsDelta s.next now o → Continues s
        cases none e x = absurd x
        cases (some (pos zero)) e x =
            (_, rw (e, round) refl, catch_up-IsNear s n (omega (arith, x)))
        cases (some (pos (suc d))) e x = (_, rw (e, round) refl, wait-IsNear s d n x)
        cases (some (negsuc d)) e x =
            (_, rw (e, round) refl, catch_up-IsNear s n (omega (arith, x)))

    start-IsNear : (t : Trace) → AreShort t → IsNear sys (start sys gstamp gstampns t)
    unfolding start first_next
    start-IsNear t h =
        let now = sys.clock t in
        let forward = c.forward (gettimeofday now) t in
        let quick = c.quick now t in
        record {
          step = omega arith;
          whole = refl;
          ahead = omega arith;
          behind = omega arith;
          short = h;
        }

    next_rounds :
        (n : ℕ) (s : State)
        → IsNear sys s
        → (s' : State) × (rounds sys gstamp gstampns n s ≡ some s') × IsNear sys s'
    unfolding rounds
    next_rounds zero s h = (s, refl, h)
    next_rounds (suc n) s h =
        let (u, e, g) = round-IsNear s h in
        let (s', f, i) = next_rounds n u g in (s', rw (e, rounds) f, i)

    -- With a clock that is steady, any number of rounds of the loop goes through without an
    -- overflow of the 32-bit `long`. Then `next` is a multiple of five seconds, at most five
    -- seconds ahead of the clock and at most 2000 behind it, and every timeout given to select
    -- was a normal `struct timeval` of at least a microsecond and at most five seconds.
    pub rounds-IsNear :
        (n : ℕ) (t : Trace)
        → AreShort t
        → (s : State) × (rounds sys gstamp gstampns n (start sys gstamp gstampns t) ≡ some s)
          × IsNear sys s
    rounds-IsNear n t h = next_rounds n (start sys gstamp gstampns t) (start-IsNear t h)
