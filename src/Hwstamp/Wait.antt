-- ===== src/Hwstamp/Wait.antt =====
-- The endless loop of main in petalinux/components/apps/canhwtstamp/timestamping.c: it waits for
-- packets, and moves its timeout on by five seconds.
pub mod Timeouts
pub mod Tests
use zynq_can_sja1000_top.Common.{
  ℕ, zero, suc, ◌+◌, ◌-◌, ◌*◌, ◌/◌, ◌%◌, ◌^◌, ltb, if◌then◌else◌, Bool, false, Option, none, some,
  ℤ, pos, negsuc, difference, ◌+ℤ◌, List, [], ◌∷◌, ◌++◌,
}
use zynq_can_sja1000_top.Hwstamp.Packet.{
  Time, Line, Packet, recvpacket, selecting, select_returned, ready_for_reading, has_error,
}

-- A system call of the loop with what it gave, or the lines printed at once.
pub data Call : Type 0 where
  gettimeofday : Time → Call
  select : (timeout : Time) → ℤ → Call
  recvmsg : ℤ → Call
  output : List Line → Call

-- The newest call first.
abbrev pub Trace : Type 0
Trace = List Call

-- What the system answers, as functions of what happened before: the clock, the result of select,
-- what it says of the socket, and the packet that recvmsg gives.
pub record System : Type 0 where
  pub clock : Trace → Time
  pub select_result : Trace → ℤ
  pub is_readable : Trace → Bool
  pub is_faulty : Trace → Bool
  pub packet : Trace → Packet

-- A `long` has 32 bits: `none` stands for a signed overflow, which C leaves undefined.
pub in_long : ℤ → Option ℤ
in_long (pos n) = if ltb n (2 ^ 31) then some (pos n) else none
in_long (negsuc n) = if ltb n (2 ^ 31) then some (negsuc n) else none

abbrev pub times_million : ℤ → ℤ
times_million (pos n) = pos (n * 1000000)
times_million (negsuc n) = negsuc (n * 1000000 + 999999)

abbrev ◌>>=◌ : Option ℤ → (ℤ → Option ℤ) → Option ℤ
◌>>=◌ o f = elim o [ none ↦ none | some x ↦ f x ]

pub delta_us : (next now : Time) → Option ℤ
unfolding in_long
delta_us next now = do
  seconds ← in_long (difference next.sec now.sec)
  whole ← in_long (times_million seconds)
  part ← in_long (difference next.sub now.sub)
  in_long (whole +ℤ part)

-- `next` and what happened so far.
pub record State : Type 0 where
  pub next : Time
  pub trace : Trace

pub first_next : Time → Time
first_next now = record { sec = (now.sec + 1) / 5 * 5; sub = 0 }

module _ (sys : System) (gstamp gstampns : ℕ) where
  abbrev pub get_time : Trace → Trace
  get_time t = gettimeofday (sys.clock t) ∷ t

  pub start : Trace → State
  unfolding first_next
  start t = record { next = first_next (sys.clock t); trace = get_time t }

  -- What is done when select has returned more than 0: printpacket asks for the time once more.
  pub receive : Trace → Trace
  receive t =
      let seen =
        (if sys.is_readable t then ready_for_reading ∷ [] else [])
        ++ (if sys.is_faulty t then has_error ∷ [] else []) in
      let t1 = output seen ∷ t in
      let p = sys.packet t1 in
      let t2 = recvmsg p.res ∷ t1 in
      let lines = recvpacket (sys.clock t2) false gstamp gstampns p in
      elim p.res [ pos n ↦ output lines ∷ get_time t2 | negsuc e ↦ output lines ∷ t2 ]

  -- The branch that waits, for a `delta_us` of `d`.
  pub wait : (d : ℕ) → Trace → Trace
  unfolding receive
  wait d t =
      let now = sys.clock t in
      let timeout : Time = record { sec = d / 1000000; sub = d % 1000000 } in
      let t1 = output (selecting now d ∷ []) ∷ get_time t in
      let res = sys.select_result t1 in
      let t2 = select timeout res ∷ t1 in
      let t3 = output (select_returned (sys.clock t2) res ∷ []) ∷ get_time t2 in
      elim res [ pos zero ↦ t3 | pos (suc n) ↦ receive t3 | negsuc n ↦ t3 ]

  -- One round: `none` for an overflow.
  pub round : State → Option State
  unfolding wait
  round s = elim (delta_us s.next (sys.clock s.trace)) [
    | none ↦ none
    | some (pos zero) ↦
        some (record { next = record s.next { sec = s.next.sec + 5 }; trace = get_time s.trace })
    | some (pos (suc d)) ↦ some (record { next = s.next; trace = wait (suc d) s.trace })
    | some (negsuc d) ↦
        some (record { next = record s.next { sec = s.next.sec + 5 }; trace = get_time s.trace })
  ]

  -- The first `n` rounds.
  pub rounds : ℕ → State → Option State
  unfolding round
  rounds zero s = some s
  rounds (suc n) s = elim (round s) [ none ↦ none | some s' ↦ rounds n s' ]
