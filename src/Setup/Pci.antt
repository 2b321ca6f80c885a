-- ===== src/Setup/Pci.antt =====
-- The set-up and removal of the drivers of ldd-pcie: examples/27_dma and 28_dma_sg.
use linux_device_driver.Prelude.{not, some, [], if◌then◌else◌, arith}
use linux_device_driver.Setup.Ledger.{
  memory, enabled, regions, mapping, master, coherent, vectors, handler, numbers, node, driver,
  Ledger, acquire, release, release_if, Errno, enomem, enodev, call, Outcome, fail, success, Luck,
  Tidy,
}

-- examples/27_dma/main.c: `dma_probe` and `dma_remove`. The structure is memory 0, which the last
-- `put_device` frees, the buffer memory 1; the fifth call reads the identity of the device.
abbrev dma_err_put : Errno → Ledger → Outcome
dma_err_put e l = fail e (release (memory 0) l)

abbrev dma_err_disable : Errno → Ledger → Outcome
dma_err_disable e l = dma_err_put e (release enabled l)

abbrev dma_err_regions : Errno → Ledger → Outcome
dma_err_regions e l = dma_err_disable e (release regions l)

abbrev dma_err_unmap : Errno → Ledger → Outcome
dma_err_unmap e l = dma_err_regions e (release mapping l)

abbrev dma_err_master : Errno → Ledger → Outcome
dma_err_master e l = dma_err_unmap e (release master l)

abbrev dma_err_coherent : Errno → Ledger → Outcome
dma_err_coherent e l = dma_err_master e (release coherent l)

abbrev dma_err_buf : Errno → Ledger → Outcome
dma_err_buf e l = dma_err_coherent e (release (memory 1) l)

abbrev dma_err_vectors : Errno → Ledger → Outcome
dma_err_vectors e l = dma_err_buf e (release vectors l)

abbrev dma_err_irq : Errno → Ledger → Outcome
dma_err_irq e l = dma_err_vectors e (release (handler 0) l)

unfoldable pub dma_init : Luck → Outcome
dma_init luck =
    let l1 = acquire (memory 0) (some []) in
    let l2 = acquire enabled l1 in
    let l3 = acquire regions l2 in
    let l4 = acquire mapping l3 in
    let l5 = acquire master l4 in
    let l6 = acquire coherent l5 in
    let l7 = acquire (memory 1) l6 in
    let l8 = acquire vectors l7 in
    let l9 = acquire (handler 0) l8 in
    let l10 = acquire (node 0) l9 in
    if not (luck 0)
    then fail enomem (some [])
    else if not (luck 1)
    then dma_err_put (call 1) l1
    else if not (luck 2)
    then dma_err_disable (call 2) l2
    else if not (luck 3)
    then dma_err_regions enomem l3
    else if not (luck 4)
    then dma_err_unmap enodev l4
    else if not (luck 5)
    then dma_err_master (call 5) l5
    else if not (luck 6)
    then dma_err_master enomem l5
    else if not (luck 7)
    then dma_err_coherent enomem l6
    else if not (luck 8)
    then dma_err_buf (call 8) l7
    else if not (luck 9)
    then dma_err_vectors (call 9) l8
    else if not (luck 10)
    then dma_err_irq (call 10) l9
    else if not (luck 11)
    then dma_err_irq (call 11) l9
    else success l10

unfoldable pub dma_exit : Ledger → Ledger
dma_exit l = release (memory 0) (
    release enabled (
      release regions (
        release mapping (
          release master (
            release coherent
              (release (memory 1) (release vectors (release (handler 0) (release (node 0) l)))))))))

pub dma-Tidy : Tidy 12 dma_init dma_exit
unfolding dma_init dma_exit
dma-Tidy luck = ground arith

-- The last `put_device`, with `dma_sg_dev_release`.
abbrev put_device : Ledger → Ledger
put_device l = release (memory 0) (release_if (memory 1) l)

-- examples/28_dma_sg/main.c: `dma_sg_probe` and `dma_sg_remove`. The structure is memory 0 and its table of
-- pages memory 1: the last `put_device` frees both, the table if there is one. The fifth call reads the
-- identity of the device, the sixth is the test of its segment size.
abbrev dma_sg_err_put : Errno → Ledger → Outcome
dma_sg_err_put e l = fail e (put_device l)

abbrev dma_sg_err_disable : Errno → Ledger → Outcome
dma_sg_err_disable e l = dma_sg_err_put e (release enabled l)

abbrev dma_sg_err_regions : Errno → Ledger → Outcome
dma_sg_err_regions e l = dma_sg_err_disable e (release regions l)

abbrev dma_sg_err_unmap : Errno → Ledger → Outcome
dma_sg_err_unmap e l = dma_sg_err_regions e (release mapping l)

abbrev dma_sg_err_master : Errno → Ledger → Outcome
dma_sg_err_master e l = dma_sg_err_unmap e (release master l)

abbrev dma_sg_err_coherent : Errno → Ledger → Outcome
dma_sg_err_coherent e l = dma_sg_err_master e (release coherent l)

abbrev dma_sg_err_vectors : Errno → Ledger → Outcome
dma_sg_err_vectors e l = dma_sg_err_coherent e (release vectors l)

abbrev dma_sg_err_irq : Errno → Ledger → Outcome
dma_sg_err_irq e l = dma_sg_err_vectors e (release (handler 0) l)

unfoldable pub dma_sg_init : Luck → Outcome
dma_sg_init luck =
    let l1 = acquire (memory 0) (some []) in
    let l2 = acquire enabled l1 in
    let l3 = acquire regions l2 in
    let l4 = acquire mapping l3 in
    let l5 = acquire master l4 in
    let l6 = acquire coherent l5 in
    let l7 = acquire (memory 1) l6 in
    let l8 = acquire vectors l7 in
    let l9 = acquire (handler 0) l8 in
    let l10 = acquire (node 0) l9 in
    if not (luck 0)
    then fail enomem (some [])
    else if not (luck 1)
    then dma_sg_err_put (call 1) l1
    else if not (luck 2)
    then dma_sg_err_disable (call 2) l2
    else if not (luck 3)
    then dma_sg_err_regions enomem l3
    else if not (luck 4)
    then dma_sg_err_unmap enodev l4
    else if not (luck 5)
    then dma_sg_err_unmap enodev l4
    else if not (luck 6)
    then dma_sg_err_master (call 6) l5
    else if not (luck 7)
    then dma_sg_err_master enomem l5
    else if not (luck 8)
    then dma_sg_err_coherent enomem l6
    else if not (luck 9)
    then dma_sg_err_coherent (call 9) l7
    else if not (luck 10)
    then dma_sg_err_vectors (call 10) l8
    else if not (luck 11)
    then dma_sg_err_irq (call 11) l9
    else if not (luck 12)
    then dma_sg_err_irq (call 12) l9
    else success l10

unfoldable pub dma_sg_exit : Ledger → Ledger
dma_sg_exit l = put_device (
    release enabled (
      release regions (
        release mapping (
          release master
            (release coherent (release vectors (release (handler 0) (release (node 0) l))))))))

pub dma_sg-Tidy : Tidy 13 dma_sg_init dma_sg_exit
unfolding dma_sg_init dma_sg_exit
dma_sg-Tidy luck = ground arith

-- examples/27_dma/main.c, and examples/28_dma_sg/main.c alike: `m_init` and `m_exit`.
abbrev pci_module_undo : Errno → Ledger → Outcome
pci_module_undo e l = fail e (release numbers l)

unfoldable pub pci_module_init : Luck → Outcome
pci_module_init luck =
    let l1 = acquire numbers (some []) in
    let l2 = acquire driver l1 in
    if not (luck 0)
    then fail (call 0) (some [])
    else if not (luck 1)
    then pci_module_undo (call 1) l1
    else success l2

unfoldable pub pci_module_exit : Ledger → Ledger
pci_module_exit l = release numbers (release driver l)

pub pci_module-Tidy : Tidy 2 pci_module_init pci_module_exit
unfolding pci_module_init pci_module_exit
pci_module-Tidy luck = ground arith
