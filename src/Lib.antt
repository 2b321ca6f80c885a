-- ===== src/Lib.antt =====
-- A model of the program's own logic: the emulated devices of tools/qemu/hw/ldd that the course's
-- drivers run against, what each device promises to a driver, and drivers of examples/.
--
-- Prelude: lists, Boolean tests and bits of native numbers, shared by all parts. Words keep their
-- wrap-around, written as a remainder.
--
-- Pcie: tools/qemu/hw/ldd/pcie.c, the PCIe device ldd-pcie. Pcie/State has the registers
-- (`LDDPCIEState`), Pcie/Irq the interrupts (`ldd_pcie_update_irq`, `ldd_pcie_reset`), Pcie/Transfer
-- the engine (`ldd_pcie_transfer`, `ldd_pcie_start`, `ldd_pcie_complete`), Pcie/Bar0 the accesses to
-- BAR 0 and Pcie/Machine the events that reach the device, and `ldd_pcie_realize`. The calls out to
-- QEMU (interrupts, dirty marks) are a list of effects in the state. Guest memory is a parameter, a
-- bus with `pci_dma_read` and `pci_dma_write` on a memory of any type; what is asked of it, that a
-- successful read shows the bytes at the address and that a successful write changes those and no
-- others, is the record BusLaws, which Pcie/TotalRam satisfies. The timer is a deadline that a clock
-- event compares with the time.
-- Proofs: Pcie/Frame and Pcie/Invariant (what every event keeps), Pcie/Signals and Pcie/Edges
-- (interrupts), Pcie/Reached, Pcie/Verdict, Pcie/Checks, Pcie/Copy and Pcie/Engine (transfers), Pcie/Registers and Pcie/Limits.
--
-- Io: tools/qemu/hw/ldd/io.c, the ISA device ldd-io. Io/State has the registers (`LDDIOState`),
-- Io/Panel the text of a frame (`ldd_io_build_panel`), Io/Output the sending of frames
-- (`ldd_io_panel_flush` to `ldd_io_panel_drop`), Io/Device the receive path and the accesses, and
-- Io/Machine the events. What the panel's character device will answer to each write is a list in
-- the state, so that the loop of `ldd_io_panel_flush` ends with it: after its last answer the device
-- takes nothing more.
-- Proofs: Io/Frame (what the sending of output leaves alone), Io/Invariant (registers), Io/Keyboard
-- (interrupts, and input that is held back), Io/Held, Io/Stream and Io/Viewer (what a viewer gets), and Io/Matrix.
--
-- Usb: tools/qemu/hw/ldd/usb.c, the USB device ldd-usb. Usb/Device has its timer, reset and endpoints,
-- Usb/Ticks the events and their proofs.
--
-- Scull: examples/03_scull_basic, the block list of main.h and the operations of fops.c in
-- Scull/Device. Whether the lock is taken, how many blocks there is memory for, how much memory
-- `copy_to_user` finds and what `copy_from_user` leaves are arguments; the size of a page is one too. Scull/Blocks and Scull/Cells
-- show the device as bytes by position, some of them not written; Scull/Write and Scull/Read are the
-- operations on that view, Scull/Loops the loops of a program around them, Scull/Store and Scull/Copy
-- the way of a file to the device and back. `block_counter` is taken not to overflow its `int`.
--
-- Tty: examples/31_tty/main.c, the line buffer. Tty/Device has the buffer, `ldd_tty_printk`, the timer
-- and the port; Tty/Buffer and Tty/Lines follow the characters.
--
-- Seeking: examples/12_seeking/fops.c. Seeking/Device has the positions as signed 64-bit offsets, the
-- read and the seek, Seeking/Circle the table as a circle.
--
-- Ioctl: examples/07_ioctl/fops.c with main.h and ioctl_cmd.h. Ioctl/Device has the read and the
-- commands; the macros that encode a command, and what `copy_from_user` and `capable` answer, are
-- arguments. Ioctl/Repeat is a program's loop of reads, Ioctl/Commands each return of a command.
--
-- Pipe: examples/09_pipe_advanced_sleep/fops.c. In Pipe/Device each call is a thread with a place in
-- `pipe_read` or `pipe_write`, and a step takes one thread to its next place: the lock, the test, the
-- unlock, `prepare_to_wait`, the second test, `schedule`, the transfer, the wake-up and the return are
-- steps of their own, and a schedule, any list of threads with what befalls them, is a run. The
-- transfer is one step, since it runs under the lock. Pipe/Order is about the bytes, Pipe/Threads and
-- Pipe/Wake about sleep.
--
-- Netdev: examples/30_netdev/main.c and main.h. Netdev/Device has a device (`struct ldd_dev`), its lists of
-- packets as lists, and the sections that run undivided; Netdev/Steps the calls into the driver and
-- the threads, each a list of sections that it has still to go through, and a schedule, which says
-- what thread goes next. Any thread may take any call, so that there are more schedules than the kernel
-- allows, which serializes the senders of a device. What the kernel does with its poll list, its queue
-- and a scheduled NAPI is part of the state; `ip_send_check` is an argument. Both devices exist, as from
-- the end of `m_init` to `m_exit`. Netdev/Threads adds up what threads have to do, Netdev/Buffers follows
-- the buffers, Netdev/Work to Netdev/Stranded what is done about a received frame and a stopped queue,
-- Netdev/Created is about all states from `m_init` on, Netdev/Frames about the bytes of a frame.
--
-- Block: examples/29_block_device/main.c and main.h. Block/Device has the disk, the transfer of a segment and
-- the three ways to take a request; a segment's memory is a list of bytes, and what the block layer
-- hands over, the position, the operation and the bios, is an argument. Block/Walks compares the two
-- ways to walk a request, Block/Contents is about the bytes.
--
-- Dma: examples/27_dma/main.c and main.h, the driver of ldd-pcie on the model of the device. Dma/Device has
-- `dma_xfer` with the register writes, the wait and the interrupt handler, Dma/Calls `dma_read` and
-- `dma_write`. What the CPU stores and loads at a bus address, the address that `dma_map_single` gives,
-- when the device's clock goes on, and whether a copy from or to the user faults are arguments; what is
-- asked of the memory is HostLaws of Dma/Transfers, which Dma/Plain gives for the memory of
-- Pcie/TotalRam. Dma/Setup, Started and Finished follow the registers through a transfer,
-- Dma/Transfers and Dma/Moved are about a transfer each way, Dma/File and Dma/RoundTrip about the calls,
-- Dma/Timeout about a device that does not answer.
--
-- Setup: the init, exit, probe and remove functions of 03_scull_basic, 09_pipe_advanced_sleep, 14_jiq,
-- 15_short_ioport, 17_short_mmio, 18_short_irq, 19_short_irq_probe, 23_simple, 24_zero_copy,
-- 25_async_io and 26_msi_interrupt to 31_tty. Setup/Ledger has what a driver holds, as a list of
-- resources, and the errors; each label of the code is a function, which gives back one thing and goes on
-- with the next label. Whether each call of the kernel succeeds is an argument. Setup/Short, Files, Pci,
-- Loops and Parts have the drivers, Setup/Drivers all of them together.
--
-- Msi: examples/26_msi_interrupt/main.c and main.h with three MSI-X vectors, on the model of ldd-pcie. Msi/Device
-- has the device, the driver, the messages that wait and the handlers, each of which begins, clears
-- its bit and counts in steps of its own, and the writes to `raise`, whose text the kernel turns into a
-- number; a list of steps is a run. Msi/Bits is about INT_STATUS, Msi/Counted, Msi/Beyond and
-- Msi/Events about the way of an event to its count.
--
-- Sg: examples/28_dma_sg/main.c and main.h, the driver of ldd-pcie that moves the user's pages themselves. Its
-- interrupt handler, its wait and the fields that both structures have are those of 27_dma in the
-- code, and taken from Dma/Device here. Sg/Device has `dma_sg_run`, `dma_sg_xfer` in parts, one for each
-- call that can fail, and `dma_sg_rw`; how many pages can be pinned, the errors, and the segments that
-- the mapping gives are arguments. Sg/Table and Sg/Started are about the table as the device reads it,
-- Sg/Transfers and Sg/RoundTrip are about the bytes, Sg/Guarded and Sg/Bounds about the size of the table.
--
-- AsyncIo: examples/25_async_io/main.c and main.h. AsyncIo/Device has the ring buffer, `async_io_do_read` and
-- `async_io_do_write`, and the requests, which are answered at once or through the work queue; how much
-- of a copy can be done, the lock and the memory are arguments, and the delays may end in any order.
-- What came in, what went out and what callers were told is kept in lists next to the device.
-- AsyncIo/Ring has what the ring holds as one list, AsyncIo/Calls, Answers and Fifo the proofs;
-- Answers has what the requests are to be told, from the steps alone.
--
-- Fuel: `number_from` of Io/Panel has as many steps as a 64-bit number has digits, 20 in base 10 and
-- 16 in base 16. All other loops are structural recursion on their list or counter.
--
-- Not modelled: the VMState tables and the glue of QEMU's object model (type registration, memory
-- regions, PCI capabilities), logging, and the kernel modules of examples/ but for those named above.
pub mod Prelude
pub mod AsyncIo
pub mod Block
pub mod Dma
pub mod Io
pub mod Ioctl
pub mod Msi
pub mod Netdev
pub mod Pcie
pub mod Pipe
pub mod Scull
pub mod Seeking
pub mod Setup
pub mod Sg
pub mod Tty
pub mod Usb
