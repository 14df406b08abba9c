-- ===== src/Lib.antt =====
-- can4linux: a Linux driver for CAN controllers of the type SJA1000, and the tool in trm816 that maps such a controller
-- into the I/O space of an (X)DNP board. The driver is modelled as it is built by default: target ATCANMINI_PELICAN, port
-- I/O, no debugging, no message filter; only Pci is about another target, and Filter about the message filter.
--
-- A message goes from a user's write into the transmit queue of its device; the queue is emptied by transmit interrupts, the
-- first message by the write itself, and a message with a delay by a timer. A received frame goes from the controller's
-- registers into the receive queue, from where a read takes it; errors of the bus come as messages of that queue too.
--
-- Message: canmsg_t of can4linux.h. Msgq: msgq.c, the ring of messages. Msgq/Fifo is what a ring promises, and Msgq/Threads
--   is about a writer and a reader at once.
-- Machine: the state of one device, `St`, with the variables of sysctl.c, `struct Dev` of defs.h, the timers of linux_2.6.c
--   and all port accesses so far. The controller is an arbitrary function `env` from the accesses so far to the answer of
--   the next read. A function of the driver is a function from a state to its result and the next state, or to a fault.
-- Register: sja1000.h. Chip: io.h, and CAN_ChipReset, CAN_SetTiming, CAN_SetMask, CAN_StartChip, CAN_StopChip and
--   CAN_SetOMode of sja1000funcs.c.
-- Frame: sendcanmsg, readcanmsg and errmsg of sja1000funcs.c and kapi_schedule_delayed of linux_2.6.c; a timer is `armed` from
--   hrtimer_start until it expires.
-- Isr: CAN_Interrupt, rxproduce and delayedmsgworker of sja1000funcs.c, and dlyworker of linux_2.6.c.
-- File: read.c, write.c and select.c. Device: open.c, close.c, ioctl.c (Device/Ioctl), and what they use of util.c and core.c.
-- Pci: the scan of util.c for the boards of the target CPC_PCI.
-- Filter: the message filter of util.c.
-- Session: any sequence of these calls on an open device. Session/Running says what a running transmit queue is,
--   Session/Received what comes into the receive queue, and the other modules what each call makes of the two.
--   Session/Within is can_write with other calls between its steps: between two accesses to the queue, but not within
--   qproduce or qconsume.
-- Tools: the programs can_send.c and can_verify.c of examples over the driver. Tools/Drive runs a program's loop around write,
--   with the driver's other calls (`pauses`) in between; Tools/Test10, Tools/Bursts and Tools/Single are the loops, and Tools/Load
--   the message rate of test20. Tools/Verify is the check of can_verify, Tools/Watch its loop, and Tools/Bus the two
--   programs on two devices; Tools/Settings has
--   set_bitrate, and set_accmask and set_acccode of acceptance.c.
-- Trm: trm816/cmdline.c, adnpfunc.c (Trm/Elan and Trm/Sc520) and dnpsetup.c (Trm/Setup).
-- Examples: runs at concrete states.
--
-- Integers are bit patterns with their wrap-around written out. The interrupt handler's loop and the loop of the option
-- parser run on fuel; for the handler, as many rounds are enough as reads of the interrupt register until it stays 0, for the
-- parser the number of arguments and one more.
--
-- Not modelled: an interrupt in the middle of a user's call, but for the ring itself in Msgq/Threads and the steps of a write
-- in Session/Within (else a call is one step, and the lock of the queue a field), two writes at once, the log messages and the tool's usage text, the registration with
-- the kernel, the options of can_send and can_verify and their modes with standard input and output, test11 of can_send, and the
-- other example programs. The kernel's replies, the time of day, `strtol`, `strtod`,
-- `sscanf` and the arithmetic of `float` and `double` are arguments; calls of `kmalloc` and `kfree` in Filter are recorded.

pub mod Common
pub mod Message
pub mod Msgq
pub mod Machine
pub mod Register
pub mod Chip
pub mod Frame
pub mod Isr
pub mod File
pub mod Device
pub mod Trm
pub mod Pci
pub mod Filter
pub mod Tools
pub mod Session
pub mod Examples
