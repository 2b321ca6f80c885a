-- ===== src/Setup/Tests.antt =====
-- The set-up of examples/27_dma when its interrupt cannot be requested.
use linux_device_driver.Prelude.{◌≡◌, refl, ltb, some}
use linux_device_driver.Setup.Ledger.{Luck, Clean, is_none, all_from, call}
use linux_device_driver.Setup.Pci.{dma_init}
use linux_device_driver.Setup.Drivers.{dma, set_up, remove, calls, set_up-Clean}

abbrev no_interrupt : Luck
no_interrupt k = ltb k 9

error_of : (set_up dma no_interrupt).error ≡ some (call 9)
unfolding dma_init
error_of = refl

set_up-Clean_example :
    Clean (remove dma) (set_up dma no_interrupt).error (set_up dma no_interrupt).held
    × (is_none (set_up dma no_interrupt).error ≡ all_from 0 (calls dma) no_interrupt)
set_up-Clean_example = set_up-Clean dma no_interrupt
