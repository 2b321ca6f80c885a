-- ===== src/Setup/Short.antt =====
-- The set-up and removal of the drivers of ldd-io: examples/15_short_ioport, 17_short_mmio,
-- 18_short_irq and 19_short_irq_probe.
use linux_device_driver.Prelude.{not, some, [], if◌then◌else◌, arith}
use linux_device_driver.Setup.Ledger.{
  mapping, handler, numbers, node, range, Ledger, acquire, release, Errno, enomem, ebusy, call,
  Outcome, fail, success, Luck, Tidy,
}

-- examples/15_short_ioport/main.c
abbrev ioport_err_release : Errno → Ledger → Outcome
ioport_err_release e l = fail e (release range l)

abbrev ioport_err_unregister : Errno → Ledger → Outcome
ioport_err_unregister e l = ioport_err_release e (release numbers l)

unfoldable pub ioport_init : Luck → Outcome
ioport_init luck =
    let l1 = acquire range (some []) in
    let l2 = acquire numbers l1 in
    let l3 = acquire (node 0) l2 in
    if not (luck 0)
    then fail ebusy (some [])
    else if not (luck 1)
    then ioport_err_release (call 1) l1
    else if not (luck 2)
    then ioport_err_unregister (call 2) l2
    else success l3

unfoldable pub ioport_exit : Ledger → Ledger
ioport_exit l = release range (release numbers (release (node 0) l))

pub ioport-Tidy : Tidy 3 ioport_init ioport_exit
unfolding ioport_init ioport_exit
ioport-Tidy luck = ground arith

-- examples/17_short_mmio/main.c
abbrev mmio_err_release : Errno → Ledger → Outcome
mmio_err_release e l = fail e (release range l)

abbrev mmio_err_unmap : Errno → Ledger → Outcome
mmio_err_unmap e l = mmio_err_release e (release mapping l)

abbrev mmio_err_unregister : Errno → Ledger → Outcome
mmio_err_unregister e l = mmio_err_unmap e (release numbers l)

unfoldable pub mmio_init : Luck → Outcome
mmio_init luck =
    let l1 = acquire range (some []) in
    let l2 = acquire mapping l1 in
    let l3 = acquire numbers l2 in
    let l4 = acquire (node 0) l3 in
    if not (luck 0)
    then fail ebusy (some [])
    else if not (luck 1)
    then mmio_err_release enomem l1
    else if not (luck 2)
    then mmio_err_unmap (call 2) l2
    else if not (luck 3)
    then mmio_err_unregister (call 3) l3
    else success l4

unfoldable pub mmio_exit : Ledger → Ledger
mmio_exit l = release range (release mapping (release numbers (release (node 0) l)))

pub mmio-Tidy : Tidy 4 mmio_init mmio_exit
unfolding mmio_init mmio_exit
mmio-Tidy luck = ground arith

-- examples/18_short_irq/main.c
abbrev irq_err_release : Errno → Ledger → Outcome
irq_err_release e l = fail e (release range l)

abbrev irq_err_free_irq : Errno → Ledger → Outcome
irq_err_free_irq e l = irq_err_release e (release (handler 0) l)

abbrev irq_err_unregister : Errno → Ledger → Outcome
irq_err_unregister e l = irq_err_free_irq e (release numbers l)

unfoldable pub irq_init : Luck → Outcome
irq_init luck =
    let l1 = acquire range (some []) in
    let l2 = acquire (handler 0) l1 in
    let l3 = acquire numbers l2 in
    let l4 = acquire (node 0) l3 in
    if not (luck 0)
    then fail ebusy (some [])
    else if not (luck 1)
    then irq_err_release (call 1) l1
    else if not (luck 2)
    then irq_err_free_irq (call 2) l2
    else if not (luck 3)
    then irq_err_unregister (call 3) l3
    else success l4

unfoldable pub irq_exit : Ledger → Ledger
irq_exit l = release range (release numbers (release (node 0) (release (handler 0) l)))

pub irq-Tidy : Tidy 4 irq_init irq_exit
unfolding irq_init irq_exit
irq-Tidy luck = ground arith

-- examples/19_short_irq_probe/main.c: `short_probe_irq` is the second call.
abbrev irq_probe_err_release : Errno → Ledger → Outcome
irq_probe_err_release e l = fail e (release range l)

abbrev irq_probe_err_free_irq : Errno → Ledger → Outcome
irq_probe_err_free_irq e l = irq_probe_err_release e (release (handler 0) l)

abbrev irq_probe_err_unregister : Errno → Ledger → Outcome
irq_probe_err_unregister e l = irq_probe_err_free_irq e (release numbers l)

unfoldable pub irq_probe_init : Luck → Outcome
irq_probe_init luck =
    let l1 = acquire range (some []) in
    let l2 = acquire (handler 0) l1 in
    let l3 = acquire numbers l2 in
    let l4 = acquire (node 0) l3 in
    if not (luck 0)
    then fail ebusy (some [])
    else if not (luck 1)
    then irq_probe_err_release (call 1) l1
    else if not (luck 2)
    then irq_probe_err_release (call 2) l1
    else if not (luck 3)
    then irq_probe_err_free_irq (call 3) l2
    else if not (luck 4)
    then irq_probe_err_unregister (call 4) l3
    else success l4

unfoldable pub irq_probe_exit : Ledger → Ledger
irq_probe_exit l = release range (release numbers (release (node 0) (release (handler 0) l)))

pub irq_probe-Tidy : Tidy 5 irq_probe_init irq_probe_exit
unfolding irq_probe_init irq_probe_exit
irq_probe-Tidy luck = ground arith
