-- ===== src/Setup/Drivers.antt =====
-- The drivers of examples/ whose set-up and removal are modelled, and what holds of all of them.
use linux_device_driver.Prelude.{ℕ, ◌≡◌, true, false}
use linux_device_driver.Setup.Ledger.{Ledger, Outcome, Luck, Clean, is_none, all_from}
use linux_device_driver.Setup.Files.{
  async_io-Tidy, async_io_exit, async_io_init, simple-Tidy, simple_exit, simple_init,
  zero_copy-Tidy, zero_copy_exit, zero_copy_init,
}
use linux_device_driver.Setup.Loops.{
  devs_exit, devs_init, jiq-Tidy, jiq_exit, jiq_init, msi-Tidy, msi_exit, msi_init, msix-Tidy,
  pipe-Tidy, pipe_dev_nr, scull-Tidy, scull_nr_devs,
}
use linux_device_driver.Setup.Parts.{
  block_bio-Tidy, block_exit, block_init, block_mq-Tidy, net-Tidy, net_exit, net_init, tty-Tidy,
  tty_exit, tty_init,
}
use linux_device_driver.Setup.Pci.{
  dma-Tidy, dma_exit, dma_init, dma_sg-Tidy, dma_sg_exit, dma_sg_init, pci_module-Tidy,
  pci_module_exit, pci_module_init,
}
use linux_device_driver.Setup.Short.{
  ioport-Tidy, ioport_exit, ioport_init, irq-Tidy, irq_exit, irq_init, irq_probe-Tidy,
  irq_probe_exit, irq_probe_init, mmio-Tidy, mmio_exit, mmio_init,
}

-- The init functions of the modules, the probe functions of 26_msi_interrupt, 27_dma and 28_dma_sg, and the
-- init function that 27 and 28 share. 26_msi_interrupt comes with one vector or three,
-- 29_block_device with a request queue or without.
pub data Driver : Type 0 where
  scull pipe jiq short_ioport short_mmio short_irq short_irq_probe : Driver
  simple zero_copy async_io msi_one msi_three pci_module : Driver
  dma dma_sg block_mq block_bio netdev tty : Driver

abbrev pub set_up : Driver → Luck → Outcome
set_up scull = devs_init scull_nr_devs
set_up pipe = devs_init pipe_dev_nr
set_up jiq = jiq_init
set_up short_ioport = ioport_init
set_up short_mmio = mmio_init
set_up short_irq = irq_init
set_up short_irq_probe = irq_probe_init
set_up simple = simple_init
set_up zero_copy = zero_copy_init
set_up async_io = async_io_init
set_up msi_one = msi_init 1
set_up msi_three = msi_init 3
set_up pci_module = pci_module_init
set_up dma = dma_init
set_up dma_sg = dma_sg_init
set_up block_mq = block_init true
set_up block_bio = block_init false
set_up netdev = net_init
set_up tty = tty_init

abbrev pub remove : Driver → Ledger → Ledger
remove scull = devs_exit scull_nr_devs
remove pipe = devs_exit pipe_dev_nr
remove jiq = jiq_exit
remove short_ioport = ioport_exit
remove short_mmio = mmio_exit
remove short_irq = irq_exit
remove short_irq_probe = irq_probe_exit
remove simple = simple_exit
remove zero_copy = zero_copy_exit
remove async_io = async_io_exit
remove msi_one = msi_exit 1
remove msi_three = msi_exit 3
remove pci_module = pci_module_exit
remove dma = dma_exit
remove dma_sg = dma_sg_exit
remove block_mq = block_exit true
remove block_bio = block_exit false
remove netdev = net_exit
remove tty = tty_exit

-- How many calls of the set-up can fail.
abbrev pub calls : Driver → ℕ
calls scull = 7
calls pipe = 9
calls jiq = 5
calls short_ioport = 3
calls short_mmio = 4
calls short_irq = 4
calls short_irq_probe = 5
calls simple = 5
calls zero_copy = 2
calls async_io = 4
calls msi_one = 7
calls msi_three = 9
calls pci_module = 2
calls dma = 12
calls dma_sg = 13
calls block_mq = 7
calls block_bio = 6
calls netdev = 7
calls tty = 3

-- For each of the drivers, and whichever calls of the kernel fail: the set-up succeeds exactly when none of
-- its calls fails. If it fails, it has given back all that it had taken, by whatever label it left. If it
-- succeeds, the removal gives back all that it holds. Nothing is given back that is not held, and nothing
-- twice.
pub set_up-Clean :
    (d : Driver) (luck : Luck)
    → Clean (remove d) (set_up d luck).error (set_up d luck).held
      × (is_none (set_up d luck).error ≡ all_from 0 (calls d) luck)
set_up-Clean scull luck = scull-Tidy luck
set_up-Clean pipe luck = pipe-Tidy luck
set_up-Clean jiq luck = jiq-Tidy luck
set_up-Clean short_ioport luck = ioport-Tidy luck
set_up-Clean short_mmio luck = mmio-Tidy luck
set_up-Clean short_irq luck = irq-Tidy luck
set_up-Clean short_irq_probe luck = irq_probe-Tidy luck
set_up-Clean simple luck = simple-Tidy luck
set_up-Clean zero_copy luck = zero_copy-Tidy luck
set_up-Clean async_io luck = async_io-Tidy luck
set_up-Clean msi_one luck = msi-Tidy luck
set_up-Clean msi_three luck = msix-Tidy luck
set_up-Clean pci_module luck = pci_module-Tidy luck
set_up-Clean dma luck = dma-Tidy luck
set_up-Clean dma_sg luck = dma_sg-Tidy luck
set_up-Clean block_mq luck = block_mq-Tidy luck
set_up-Clean block_bio luck = block_bio-Tidy luck
set_up-Clean netdev luck = net-Tidy luck
set_up-Clean tty luck = tty-Tidy luck
