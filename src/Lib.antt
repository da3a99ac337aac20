-- ===== src/Lib.antt =====
-- The Linux driver of the CAN controllers of the board, petalinux/components/modules/xilinx_can/
-- xilinx_can.c: the Xilinx CAN core with 16-bit hardware time stamps that this repository adds;
-- and the test program for the time stamps, petalinux/components/apps/canhwtstamp/timestamping.c;
-- and the small drivers of the IP cores under system/ip.
--
-- The parts and how they meet. The network stack calls xcan_open and xcan_close, and hands frames
-- to xcan_start_xmit, which puts them into the core's FIFO and into an echo slot of a ring. The
-- core's interrupt runs xcan_interrupt: it completes sent frames (xcan_tx_interrupt), handles
-- errors (xcan_err_interrupt), and schedules the poll xcan_rx_poll, which takes frames out of the
-- core (xcan_rx) and gives each its time (xcan_timestamp2ktime). After bus-off the CAN core of the
-- kernel restarts the device (xcan_do_set_mode, xcan_chip_start).
--
-- The files, by part:
--   Common, with Common/*: the tests, casts and shifts of C, signed results, the laws of & and |.
--   Registers, Can: the constants of xilinx_can.c and of the kernel's public headers, by name.
--   Kernel: what the kernel and the core answer, as a record; Demo: concrete answers.
--   Driver: struct xcan_priv and the counters, with read_reg and write_reg; Driver/Run: loops;
--   Driver/Resources: what is held of the kernel, and the counts of the clocks; Driver/Statistics:
--   what the counters of the network device stand for.
--   FrameId, Frame: the identifier and the FIFO words of xcan_start_xmit and xcan_rx.
--   Transmit: xcan_start_xmit, xcan_tx_interrupt; Transmit/Echo: the ring with its echo buffers as
--   a queue of frames; Transmit/Latch: the bit TXOK of the core; Transmit/Race: an interrupt in the
--   middle of xcan_start_xmit.
--   Receive: xcan_rx, xcan_rx_poll; Receive/Fifo: the core's receive FIFO with the bit RXNEMP.
--   Timestamp: xcan_timestamp2ktime, xcan_get_timestamp. Bittiming, Mode: xcan_set_bittiming,
--   set_reset_mode, xcan_chip_start, xcan_do_set_mode.
--   ErrorFrame: xcan_err_interrupt; ErrorFrame/Report: the reference definition of its frame.
--   Interrupt: xcan_interrupt, xcan_state_interrupt.
--   Netdev: xcan_open, xcan_close, xcan_chip_stop, xcan_get_berr_counter, xcan_suspend,
--   xcan_resume. Probe: xcan_probe, xcan_remove. Ioctl: xcan_ioctl, xcan_hwtstamp_set,
--   xcan_hwtstamp_get. Runtime: the calls of a running device in any order. Lifecycle: the calls
--   of the kernel from xcan_probe on, as the phases of a device; Lifecycle/Session: its frames.
--   Mode/Stable, Netdev/Stable, Probe/Stable, ErrorFrame/Stable, Interrupt/Stable,
--   Receive/Stable: what holds along each register access and call holds along the
--   functions made of them.
--   Hwstamp: timestamping.c, its request for hardware time stamps; Hwstamp/Options: the options;
--   Hwstamp/Setup: main up to its loop, usage, bail; Hwstamp/Wait: the loop of main;
--   Hwstamp/Packet: recvpacket, printpacket.
--   IpDriver: the drivers of the six IP cores under system/ip; IpDriver/Cores: each by name.
-- A file X/Tests has the examples of X.
--
-- How the code is modelled. A function takes the driver's state and the history of what happened
-- so far, every register access and every call of the kernel with its result, the newest first,
-- and gives its result, the new state and the longer history. What the core and the kernel answer
-- is not part of the repository: it is a parameter, a function of the history. The kernel's pure
-- helpers are parameters too, with the laws of their documentation (Kernel.IsDocumented). Numbers
-- of public kernel headers are written as numerals. An unsigned long has 32 bits (the Zynq's ARM
-- cores); ktime_t is a word of 64 bits. A frame's data are its eight bytes. xcan_suspend and
-- xcan_resume work on the network device that they mean, not on what their casts make of it.
--
-- Loops. The waits of set_reset_mode and xcan_chip_start and the loop of xcan_rx_poll take fuel
-- and give none when it is used up; the results say how much is enough, and under what condition.
-- The loop of xcan_tx_interrupt takes as fuel the number of frames in flight, which is enough.
-- The endless loop of main in timestamping.c is a step, and its first n rounds.
--
-- Not modelled: log messages, with the register reads that are only their arguments; the locking
-- of the kernel, and calls that overlap other than in Transmit/Race; that the kernel itself
-- empties the echo buffers when a device is closed and before it is restarted; a tx_max of 0 and
-- a clock rate of 0, divisions by zero in C, which the results rule out where it matters; the
-- branches that the preprocessor leaves out; what the C library makes of the lines that the test
-- program prints and of the message that it receives; the end of a 32-bit `time_t` in 2038, at
-- which `next.tv_sec += 5` overflows; sendpacket, which is commented out. The hardware
-- description is in other languages.
pub mod Common
pub mod Demo
pub mod Registers
pub mod Can
pub mod FrameId
pub mod Kernel
pub mod Frame
pub mod Driver
pub mod Transmit
pub mod Timestamp
pub mod Receive
pub mod Bittiming
pub mod Mode
pub mod ErrorFrame
pub mod Interrupt
pub mod Netdev
pub mod Runtime
pub mod Ioctl
pub mod Probe
pub mod Hwstamp
pub mod Lifecycle
pub mod IpDriver
