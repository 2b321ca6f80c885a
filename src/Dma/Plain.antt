-- ===== src/Dma/Plain.antt =====
-- examples/27_dma/main.c: a driver and a device of 1 MiB in a machine whose memory never fails.
use linux_device_driver.Prelude.{ℕ, refl, true, false, replicate, length-replicate, arith}
use linux_device_driver.Pcie.State.{zero_regs}
use linux_device_driver.Pcie.Transfer.{dma_ok}
use linux_device_driver.Pcie.Machine.{realized, length-blank}
use linux_device_driver.Pcie.TotalRam.{
  Memory, total_bus, total_laws, fetch, store, fetch-store_self, fetch-store_apart,
}
use linux_device_driver.Dma.Device.{Host, Machine}
use linux_device_driver.Dma.Transfers.{HostLaws}
use linux_device_driver.Dma.File.{IsAlive}

unfoldable pub plain : Host Memory
plain = record { bus = total_bus; store = store; load = fetch }

pub plain-HostLaws : HostLaws plain
unfolding plain total_bus total_laws
plain-HostLaws = record {
  bus_laws = total_laws;
  works = record { reads = λ r a b. refl; writes = λ r a b. refl };
  load_lem = λ r a n. refl;
  store_lem = fetch-store_self;
  store_apart = fetch-store_apart;
}

abbrev pub probed : Machine Memory
probed = record {
  dma = record {
    desc_bus = 0x1000;
    chunk = 65536;
    xor = 0;
    buf = replicate 65536 0;
    int_status = 0;
    completed = false;
    removed = false;
  };
  ps = record (realized true 65536 256 100) {
    master = true;
    regs = record zero_regs { int_mask = 3 };
  };
  ram = λ q. 0;
}

pub probed-IsAlive : IsAlive probed
unfolding realized dma_ok
probed-IsAlive = record {
  ready = record {
    valid = record {
      int_status_bits = omega arith;
      int_mask_bits = omega arith;
      sent = refl;
      aligned = refl;
      word = omega arith;
      direction = omega arith;
      byte = omega arith;
      code = omega arith;
      armed = refl;
      size = length-blank 0x10_0000;
    };
    realizable = record {
      seg_low = omega arith;
      seg_high = omega arith;
      desc_low = omega arith;
      desc_high = omega arith;
    };
    bus_master = refl;
    idle = refl;
    quiet = refl;
    unmasked = refl;
  };
  present = refl;
  buffer = length-replicate {A = ℕ} 65536 0;
  takes = omega arith;
  aligned = refl;
  table_word = omega arith;
  table_reached = refl;
}
