-- ===== src/Io/State.antt =====
-- tools/qemu/hw/ldd/io.c: the registers of ldd-io, its panel output, and what it asks of QEMU.
use linux_device_driver.Prelude.{ℕ, Bool, List}

-- What `qemu_chr_fe_write` answers: how many of the bytes it took, that it can take none now
-- (`EAGAIN`, or 0), or another error.
pub data Answer : Type 0 where
  took : ℕ → Answer
  again gone : Answer

-- A call out, in the order of the calls: a pulse of the interrupt line, the news that the keyboard
-- may send again, bytes that the panel's character device took, and a watch on it that was removed.
pub data Effect : Type 0 where
  pulse accept_input unwatch : Effect
  shown : List ℕ → Effect

-- `LDDIOState`. Of the panel's character device it holds whether there is one, which stays so
-- (`qemu_chr_fe_backend_connected`), whether a watch can be added, and the answers to the writes that
-- are still to come, with a viewer or without; after them it takes nothing more. `panel_watch` says whether the watch is set.
pub record Io : Type 0 where
  pub iobase : ℕ
  pub mmio : Bool
  pub mmiobase : ℕ
  pub isairq : ℕ
  pub data_out : ℕ
  pub data_in : ℕ
  pub status : ℕ
  pub ctrl : ℕ
  pub matrix : List ℕ
  pub irq_pulses : ℕ
  pub panel_out : List ℕ
  pub panel_watch : Bool
  pub panel_dirty : Bool
  pub attached : Bool
  pub can_watch : Bool
  pub answers : List Answer
  pub effects : List Effect

-- `LDD_IO_STATUS_RX_READY`, `LDD_IO_CTRL_IRQ_EN` and `LDD_IO_CTRL_LOOPBACK` are bits 0, 0 and 1.
abbrev pub rx_ready : ℕ
rx_ready = 0

abbrev pub irq_en : ℕ
irq_en = 0

abbrev pub loopback : ℕ
loopback = 1

abbrev pub matrix_offset : ℕ
matrix_offset = 8

abbrev pub matrix_rows : ℕ
matrix_rows = 8
