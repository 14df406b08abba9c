-- ===== src/Register.antt =====
-- sja1000.h: the offsets of the controller's registers, one byte apart (`canregs_t`), and the bits of
-- those that the driver reads or writes. `CAN_SYSCLK` is 8.
use c4l.Common.{ℕ}

abbrev pub canmode : ℕ
canmode = 0

abbrev pub cancmd : ℕ
cancmd = 1

abbrev pub canstat : ℕ
canstat = 2

abbrev pub canirq : ℕ
canirq = 3

abbrev pub canirq_enable : ℕ
canirq_enable = 4

abbrev pub cantim0 : ℕ
cantim0 = 6

abbrev pub cantim1 : ℕ
cantim1 = 7

abbrev pub canoutc : ℕ
canoutc = 8

abbrev pub errorcode : ℕ
errorcode = 12

abbrev pub errorwarninglimit : ℕ
errorwarninglimit = 13

abbrev pub rxerror : ℕ
rxerror = 14

abbrev pub txerror : ℕ
txerror = 15

abbrev pub frameinfo : ℕ
frameinfo = 16

abbrev pub canid1 : ℕ
canid1 = 17

abbrev pub canid2 : ℕ
canid2 = 18

abbrev pub canid3 : ℕ
canid3 = 19

abbrev pub canid4 : ℕ
canid4 = 20

-- The data bytes of a standard frame, and of an extended one.
abbrev pub candata : ℕ
candata = 19

abbrev pub canxdata : ℕ
canxdata = 21

abbrev pub canclk : ℕ
canclk = 31

abbrev pub can_reset_request : ℕ
can_reset_request = 1

abbrev pub can_mode_def : ℕ
can_mode_def = 8

abbrev pub can_overrun_int_enable : ℕ
can_overrun_int_enable = 8

abbrev pub can_error_warn_int_enable : ℕ
can_error_warn_int_enable = 4

abbrev pub can_transmit_int_enable : ℕ
can_transmit_int_enable = 2

abbrev pub can_receive_int_enable : ℕ
can_receive_int_enable = 1

abbrev pub can_eff : ℕ
can_eff = 0x80

abbrev pub can_sff : ℕ
can_sff = 0

abbrev pub can_rtr : ℕ
can_rtr = 0x40

abbrev pub can_clear_overrun_status : ℕ
can_clear_overrun_status = 8

abbrev pub can_release_receive_buffer : ℕ
can_release_receive_buffer = 4

abbrev pub can_transmission_request : ℕ
can_transmission_request = 1

abbrev pub can_bus_status : ℕ
can_bus_status = 0x80

abbrev pub can_error_status : ℕ
can_error_status = 0x40

abbrev pub can_transmit_buffer_access : ℕ
can_transmit_buffer_access = 4

abbrev pub can_data_overrun : ℕ
can_data_overrun = 2

abbrev pub can_overrun_int : ℕ
can_overrun_int = 8

abbrev pub can_error_warn_int : ℕ
can_error_warn_int = 4

abbrev pub can_transmit_int : ℕ
can_transmit_int = 2

abbrev pub can_receive_int : ℕ
can_receive_int = 1

abbrev pub can_mode_pelican : ℕ
can_mode_pelican = 0xc0

abbrev pub can_mode_clk : ℕ
can_mode_clk = 7
