-- ===== src/Hwstamp/Setup.antt =====
-- The start of main in petalinux/components/apps/canhwtstamp/timestamping.c, up to its endless
-- loop: the arguments, the socket, the request for hardware time stamps and the socket options.
pub mod Ends
pub mod Tests
use zynq_can_sja1000_top.Common.{
  ℕ, ◌==◌, not, if◌then◌else◌, Bool, true, false, Option, none, some, ℤ, is_negative, List, [], ◌∷◌,
}
use zynq_can_sja1000_top.Ioctl.{HwtstampConfig, Reply}
use zynq_can_sja1000_top.Hwstamp.{bail, not_possible, proceed, request, copied, configure}
use zynq_can_sja1000_top.Hwstamp.Options.{Keyword, Settings, parse_options}

pub data SockOpt : Type 0 where
  opt_timestamp opt_timestampns opt_timestamping : SockOpt

-- A line of the output.
pub data Line : Type 0 where
  disabling_not_possible : Line
  hwtstamp_got : (requested got : HwtstampConfig) → Line
  opt_failed : SockOpt → ℤ → Line
  opt_value : SockOpt → ℕ → Line
  not_expected : ℕ → Line
  invalid_option : Line
  options_help : Line
  error_message : Line

-- A system call with what it was given and gave back, a line of the output, or the end of the
-- program by usage or bail.
pub data Call : Type 0 where
  socket : ℤ → Call
  get_index : ℤ → Call
  set_hwtstamp : HwtstampConfig → Reply → Call
  bind : ℤ → Call
  setsockopt : SockOpt → ℕ → ℤ → Call
  getsockopt : SockOpt → ℤ → Call
  print : Line → Call
  exit : Call

-- The answers of the system. Each call is made at most once.
pub record Net : Type 0 where
  pub socket_result : ℤ
  pub index_result : ℤ
  pub hwtstamp_result : HwtstampConfig → Reply
  pub bind_result : ℤ
  pub setsockopt_result : SockOpt → ℕ → ℤ
  pub getsockopt_result : SockOpt → ℤ
  pub option_value : SockOpt → ℕ

-- A part of the program: `none` means that it has ended. The newest call is the first.
abbrev pub Prog : Type 0
Prog = List Call → Option (Unit {0}) × List Call

abbrev pub emit : Call → Prog
emit c t = (some tt, c ∷ t)

abbrev pub skip : Prog
skip t = (some tt, t)

infixl 5 ◌>>◌
abbrev pub ◌>>◌ : Prog → Prog → Prog
◌>>◌ m n t = let (o, t') = m t in elim o [ none ↦ (none, t') | some u ↦ n t' ]

-- The message with the text of errno, and `exit(1)`.
abbrev pub bail_out : Prog
bail_out t = (none, exit ∷ print error_message ∷ t)

-- With an option that is not known, its name comes first.
pub usage : (is_invalid : Bool) → Prog
usage is_invalid t =
    (none, exit ∷ print options_help ∷ (if is_invalid then print invalid_option ∷ t else t))

-- `if (… < 0) bail(…)`
pub bail_if : Bool → Prog
bail_if failed t = if failed then bail_out t else (some tt, t)

abbrev pub checked : (ℤ → Call) → ℤ → Prog
checked call r = emit (call r) >> bail_if (is_negative r)

module _ (net : Net) where
  -- The request, and the line about what was got. The driver may have changed the request.
  pub set_device : (flags : ℕ) → Prog
  set_device flags =
      let req = request flags in
      let r = net.hwtstamp_result req in
      let got = print (hwtstamp_got req (copied r req)) in
      emit (set_hwtstamp req r) >> elim (configure flags net.hwtstamp_result) [
        | bail ↦ bail_out
        | not_possible c ↦ emit (print disabling_not_possible) >> emit got
        | proceed c d ↦ emit got
      ]

  -- `if (wanted && setsockopt(…) < 0) bail(…)`
  pub set_if : (wanted : ℕ) → SockOpt → (val : ℕ) → Prog
  unfolding bail_if
  set_if wanted opt val =
      if wanted == 0 then skip else checked (setsockopt opt val) (net.setsockopt_result opt val)

  -- One getsockopt with its line.
  pub show_option : SockOpt → Prog
  show_option opt =
      let r = net.getsockopt_result opt in
      emit (getsockopt opt r)
      >> emit
          (print (if is_negative r then opt_failed opt r else opt_value opt (net.option_value opt)))

  pub show_options : (flags : ℕ) → Prog
  unfolding show_option
  show_options flags =
      show_option opt_timestamp
      >> show_option opt_timestampns
      >> show_option opt_timestamping
      >> (if is_negative (net.getsockopt_result opt_timestamping)
          then skip
          else if net.option_value opt_timestamping == flags
          then skip
          else emit (print (not_expected flags)))

  pub setup : Settings → Prog
  unfolding bail_if set_device set_if show_options
  setup s =
      checked socket net.socket_result
      >> checked get_index net.index_result
      >> set_device s.flags
      >> checked bind net.bind_result
      >> set_if s.timestamp opt_timestamp 1
      >> set_if s.timestampns opt_timestampns 1
      >> set_if s.flags opt_timestamping s.flags
      >> show_options s.flags

  -- The arguments behind the program's name: the interface and the options.
  pub main_start : {Arg : Type 0} → (equals : Arg → Keyword → Bool) → List Arg → Prog
  unfolding setup usage
  main_start equals [] = usage false
  main_start equals (interface ∷ options) =
      elim (parse_options equals options
        (record { flags = 0; timestamp = 0; timestampns = 0; gstamp = 0; gstampns = 0 })) [
          | none ↦ usage true
          | some s ↦ setup s
        ]
