-- ===== src/Hwstamp/Packet.antt =====
-- recvpacket and printpacket of petalinux/components/apps/canhwtstamp/timestamping.c: one packet
-- taken from the socket, and the lines that are printed for it.
use zynq_can_sja1000_top.Common.{
  ℕ, ◌==◌, if◌then◌else◌, Bool, ℤ, pos, negsuc, is_nonzero, List, [], ◌∷◌, ◌++◌,
}

-- `struct timeval` and `struct timespec`: seconds, and micro- or nanoseconds.
pub record Time : Type 0 where
  pub sec : ℕ
  pub sub : ℕ

abbrev pub sol_socket : ℕ
sol_socket = 1

abbrev pub scm_timestamp : ℕ
scm_timestamp = 29

abbrev pub scm_timestampns : ℕ
scm_timestampns = 35

abbrev pub scm_timestamping : ℕ
scm_timestamping = 37

-- A control message, with its data read as up to three times.
pub record Cmsg : Type 0 where
  pub len : ℕ
  pub level : ℕ
  pub kind : ℕ
  pub first : Time
  pub second : Time
  pub third : Time

-- What the switch statements print for a control message.
pub data Text : Type 0 where
  so_timestamp : Time → Text
  so_timestampns : Time → Text
  so_timestamping : (software transformed raw : Time) → Text
  other_type : ℕ → Text
  other_level : (level kind : ℕ) → Text

pub cmsg_text : Cmsg → Text
cmsg_text c =
    if c.level == sol_socket
    then (if c.kind == scm_timestamp
        then so_timestamp c.first
        else if c.kind == scm_timestampns
        then so_timestampns c.first
        else if c.kind == scm_timestamping
        then so_timestamping c.first c.second c.third
        else other_type c.kind)
    else other_level c.level c.kind

-- A line of the output; a failed call is shown by its errno, as the result that it gave.
pub data Line : Type 0 where
  received : (now : Time) (is_error : Bool) (res : ℕ) (controllen : ℕ) → Line
  cmsg : (len : ℕ) → Text → Line
  siocgstamp : Time → Line
  siocgstamp_failed : ℤ → Line
  siocgstampns : Time → Line
  siocgstampns_failed : ℤ → Line
  recvmsg_failed : (is_error : Bool) → ℤ → Line
  selecting : (now : Time) (delta_us : ℕ) → Line
  select_returned : (now : Time) → ℤ → Line
  ready_for_reading : Line
  has_error : Line

-- What the socket gives: a packet, with its length and its control messages, or the failure.
pub record Packet : Type 0 where
  pub res : ℤ
  pub controllen : ℕ
  pub cmsgs : List Cmsg
  pub stamp : ℤ
  pub stamp_time : Time
  pub stampns : ℤ
  pub stampns_time : Time

-- `if (ioctl(sock, SIOCGSTAMP, &tv))`, where the ioctl was asked for.
pub stamp_lines : ℕ → Packet → List Line
stamp_lines wanted p =
    if wanted == 0
    then []
    else if is_nonzero p.stamp
    then siocgstamp_failed p.stamp ∷ []
    else siocgstamp p.stamp_time ∷ []

pub stampns_lines : ℕ → Packet → List Line
stampns_lines wanted p =
    if wanted == 0
    then []
    else if is_nonzero p.stampns
    then siocgstampns_failed p.stampns ∷ []
    else siocgstampns p.stampns_time ∷ []

-- The loop over the control messages.
pub cmsg_lines : List Cmsg → List Line
unfolding cmsg_text
cmsg_lines [] = []
cmsg_lines (c ∷ cs) = cmsg c.len (cmsg_text c) ∷ cmsg_lines cs

pub printpacket : (now : Time) (is_error : Bool) (res gstamp gstampns : ℕ) → Packet → List Line
unfolding stamp_lines stampns_lines cmsg_lines
printpacket now is_error res gstamp gstampns p =
    received now is_error res p.controllen ∷ cmsg_lines p.cmsgs
    ++ (stamp_lines gstamp p ++ stampns_lines gstampns p)

-- `now` is the time that printpacket asks for.
pub recvpacket : (now : Time) (is_error : Bool) (gstamp gstampns : ℕ) → Packet → List Line
unfolding printpacket
recvpacket now is_error gstamp gstampns p = elim p.res [
  | negsuc e ↦ recvmsg_failed is_error (negsuc e) ∷ []
  | pos n ↦ printpacket now is_error n gstamp gstampns p
]
