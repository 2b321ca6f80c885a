-- ===== src/Dma/Tests.antt =====
-- examples/27_dma/main.c: the theorems with a device of 1 MiB in a machine whose memory never fails.
use linux_device_driver.Prelude.{◌≡◌, refl, inl, true, none, some, [], ◌∷◌, arith}
use linux_device_driver.Pcie.Transfer.{dma_ok}
use linux_device_driver.Pcie.Machine.{realized}
use linux_device_driver.Dma.Device.{Luck, to_device, etimedout, dma_xfer}
use linux_device_driver.Dma.Calls.{CallLuck, dma_read, dma_write}
use linux_device_driver.Dma.Finished.{IsReady, SameDevice}
use linux_device_driver.Dma.Timeout.{dma_xfer_late}
use linux_device_driver.Dma.File.{IsFine}
use linux_device_driver.Dma.RoundTrip.{Both, dma_read-dma_write}
use linux_device_driver.Dma.Plain.{plain, plain-HostLaws, probed, probed-IsAlive}

abbrev calm : CallLuck
calm = record {
  locked = true;
  xfer = record { mapped = some 0x20000; now = 5; reached = some 200 };
  fault = none;
}

calm-IsFine : IsFine probed.ps 0x1000 3 calm 0x20000 200
unfolding realized dma_ok
calm-IsFine = record {
  locked = refl;
  no_fault = refl;
  mapped = refl;
  reached = refl;
  late = omega arith;
  buffer_word = omega arith;
  buffer_reached = refl;
  apart = inl (omega arith);
}

dma_read-dma_write_example :
    (let w = dma_write plain calm (7 ∷ 8 ∷ 9 ∷ []) 0x40 probed in
      Both plain plain-HostLaws
        (7 ∷ 8 ∷ 9 ∷ [])
        0x40
        3
        probed
        w
        (dma_read plain calm 3 0x40 w.machine))
dma_read-dma_write_example =
    dma_read-dma_write plain plain-HostLaws (7 ∷ 8 ∷ 9 ∷ []) 0x40 3 probed calm calm 0x20000 200
      0x20000 200 probed-IsAlive refl refl (omega arith) calm-IsFine calm-IsFine

abbrev stuck : Luck
stuck = record { mapped = some 0x20000; now = 5; reached = none }

dma_xfer_late_example :
    (let r = dma_xfer plain stuck 0x40 3 to_device probed in
      (r.0 ≡ etimedout) × IsReady r.1.ps × (r.1.ps.timer ≡ none) × SameDevice probed.ps r.1.ps)
dma_xfer_late_example =
    dma_xfer_late plain probed stuck 0x40 3 0x20000 to_device probed-IsAlive.ready (omega arith)
      refl (omega arith) refl refl
