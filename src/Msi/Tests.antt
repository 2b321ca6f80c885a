-- ===== src/Msi/Tests.antt =====
-- examples/26_msi_interrupt: the theorem at a realized device, with an event that comes while the
-- handler of an earlier one runs.
use linux_device_driver.Prelude.{ℕ, ◌<◌, ◌≡◌, refl, true, List, [], ◌∷◌, arith}
use linux_device_driver.Prelude.Bits.{bit_not, test_bit}
use linux_device_driver.Pcie.State.{Pcie}
use linux_device_driver.Pcie.Machine.{realized}
use linux_device_driver.Pcie.Invariant.{IsValid, realized-IsValid}
use linux_device_driver.Pcie.TotalRam.{total_bus}
use linux_device_driver.Msi.Device.{Act, raise, enter, ack, account, act, run, probe}
use linux_device_driver.Msi.Events.{quiet, serve, run-raise_counted}

abbrev device : Pcie
device = record (realized true 65536 256 100) { msix_enabled = true }

device-IsValid : IsValid device
unfolding realized
device-IsValid =
    let v = realized-IsValid true 65536 256 100 in
    record {
      int_status_bits = v.int_status_bits;
      int_mask_bits = v.int_mask_bits;
      sent = v.sent;
      aligned = v.aligned;
      word = v.word;
      direction = v.direction;
      byte = v.byte;
      code = v.code;
      armed = v.armed;
      size = v.size;
    }

-- The soft event happens, and its handler begins and clears the bit.
abbrev first : List Act
first = raise 4 1 ∷ enter 2 ∷ ack 2 2 ∷ []

abbrev rest : List Act
rest = account 2 ∷ enter 2 ∷ ack 2 4 ∷ account 2 ∷ []

abbrev blank : ℕ → ℕ
blank q = 0

run-raise_counted_example :
    (let m = run total_bus first (probe total_bus 0 device blank) in
      let m' = run total_bus rest (act total_bus (raise 6 3) m) in
      (quiet 2 m' ≡ true → m.msi.count 2 < m'.msi.count 2)
      × ((later : ℕ) → quiet 2 (run total_bus (serve 2 later) m') ≡ true))
unfolding bit_not test_bit
run-raise_counted_example =
    run-raise_counted 2 (omega arith) total_bus first rest 6 3 0 device blank device-IsValid refl
      refl refl
