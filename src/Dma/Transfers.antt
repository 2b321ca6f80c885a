-- ===== src/Dma/Transfers.antt =====
-- examples/27_dma/main.c: `dma_xfer`, from the mapping to the result, with the device of
-- tools/qemu/hw/ldd/pcie.c.
use linux_device_driver.Prelude.{
  ℕ, ◌+◌, ◌%◌, ◌^◌, ◌≤◌, ◌<◌, ◌≡◌, ◌⊎◌, refl, sym, ◌∙◌, ap, true, false, some, List, [], ◌∷◌,
  append-nil, length, blit, bit_and, arith, subst,
}
use linux_device_driver.Pcie.State.{Pcie, BusLaws, ldd_mem_size}
use linux_device_driver.Pcie.Transfer.{start, dma_ok, payload, Desc}
use linux_device_driver.Pcie.Bar0.{busy}
use linux_device_driver.Pcie.Irq.{update_irq}
use linux_device_driver.Prelude.Bits.{bit_and_255}
use linux_device_driver.Pcie.Invariant.{IsValid, start-IsValid}
use linux_device_driver.Pcie.Verdict.{sum_len}
use linux_device_driver.Pcie.Checks.{IsRealizable, descs_of}
use linux_device_driver.Pcie.Copy.{gather, Apart}
use linux_device_driver.Pcie.Engine.{start_to_device, start-to_guest}
use linux_device_driver.Dma.Device.{
  Host, Dma, Machine, Luck, done, Dir, to_device, from_device, encode_desc, launch, wait, settle,
}
use linux_device_driver.Dma.Setup.{set_up, ready_to_start, launch_writes}
use linux_device_driver.Dma.Started.{Works, one_desc, start_zero}
use linux_device_driver.Dma.Finished.{
  IsReady, SameDevice, started_lem, settled, wait_lem, settled-IsReady,
}

-- What is documented of the machine's memory: the CPU loads what the device sees, and a store changes the
-- bytes that it names, to what it is given, and no others.
pub record HostLaws {Ram : Type 0} (host : Host Ram) : Type 0 where
  pub bus_laws : BusLaws host.bus
  pub works : Works host.bus
  pub load_lem : (ram : Ram) (a n : ℕ) → host.load ram a n ≡ bus_laws.peek ram a n
  pub store_lem :
      (ram : Ram) (a : ℕ) (bytes : List ℕ)
      → bus_laws.peek (host.store ram a bytes) a (length bytes) ≡ bytes
  pub store_apart :
      (ram : Ram) (a : ℕ) (bytes : List ℕ) (other n : ℕ)
      → (a + length bytes ≤ other) ⊎ (other + n ≤ a)
      → bus_laws.peek (host.store ram a bytes) other n ≡ bus_laws.peek ram other n

-- A transfer of `len` bytes at `pos` that can be made: the device is ready and reaches the descriptor and
-- the buffer, mapped at `addr`, which lie apart; the range lies in the on-board memory, and is no longer
-- than the buffer and than what the device takes; and the clock goes on until the device is done.
pub record CanMove {Ram : Type 0} (m : Machine Ram) (luck : Luck) (pos len addr t : ℕ)
    : Type 0 where
  pub ready : IsReady m.ps
  pub mapped : luck.mapped ≡ some addr
  pub reached : luck.reached ≡ some t
  pub late : luck.now + m.ps.latency_us ≤ t
  pub some_bytes : 0 < len
  pub within_seg : len ≤ m.ps.max_seg
  pub within_buf : len ≤ length m.dma.buf
  pub within_mem : pos + len ≤ ldd_mem_size
  pub aligned : m.dma.desc_bus % 16 ≡ 0
  pub table_word : m.dma.desc_bus < 2 ^ 64
  pub buffer_word : addr < 2 ^ 64
  pub table_reached : dma_ok m.ps m.dma.desc_bus 16 ≡ true
  pub buffer_reached : dma_ok m.ps addr len ≡ true
  pub apart : (m.dma.desc_bus + 16 ≤ addr) ⊎ (addr + len ≤ m.dma.desc_bus)

-- What a transfer leaves of the driver: that it has completed.
abbrev pub completed_with : List ℕ → Dma → Dma
completed_with buf d = record d { buf = buf; int_status = 1; completed = true }

length-encode_desc : (addr len : ℕ) → length (encode_desc addr len) ≡ 16
unfolding encode_desc
length-encode_desc addr len = refl

pub at_start-IsValid :
    (dir : Dir) (xor desc_bus pos : ℕ) (ps : Pcie)
    → IsValid ps
    → desc_bus < 2 ^ 64
    → desc_bus % 16 ≡ 0
    → IsValid (ready_to_start dir xor (set_up desc_bus pos ps))
at_start-IsValid to_device xor desc_bus pos ps v a b = ground arith
at_start-IsValid from_device xor desc_bus pos ps v a b =
    ground (arith, bit_and_255 (bit_and xor 255))

pub at_start-SameDevice :
    (dir : Dir) (xor desc_bus pos : ℕ) (ps : Pcie)
    → SameDevice ps (ready_to_start dir xor (set_up desc_bus pos ps))
at_start-SameDevice dir xor desc_bus pos ps = ground arith

pub SameDevice-trans : (a b c : Pcie) → SameDevice a b → SameDevice b c → SameDevice a c
SameDevice-trans a b c p q = ground arith

settled-SameDevice : (ps : Pcie) → SameDevice ps (settled ps)
unfolding update_irq
settled-SameDevice ps = ground arith

pub same-IsRealizable : (a b : Pcie) → SameDevice a b → IsRealizable a → IsRealizable b
same-IsRealizable a b s r = ground arith

module _ {Ram : Type 0} (host : Host Ram) (laws : HostLaws host) where
  open laws use {bus_laws}
  open bus_laws use {peek}

  -- The device that a transfer starts.
  abbrev pub at_start : Dir → ℕ → Machine Ram → Pcie
  at_start dir pos m = ready_to_start dir m.dma.xor (set_up m.dma.desc_bus pos m.ps)

  abbrev with_table : ℕ → ℕ → Machine Ram → Ram
  with_table addr len m = host.store m.ram m.dma.desc_bus (encode_desc addr len)

  launch_lem :
      (now pos len addr : ℕ) (dir : Dir) (m : Machine Ram)
      → busy m.ps ≡ false
      → m.dma.desc_bus < 2 ^ 64
      → m.dma.desc_bus % 16 ≡ 0
      → pos < 2 ^ 32
      → launch host now pos len dir addr m ≡ (
          let s = start host.bus now (at_start dir pos m) (with_table addr len m) in
          record { dma = record m.dma { completed = false }; ps = s.0; ram = s.1 })
  unfolding launch
  launch_lem now pos len addr dir m idle a b c =
      ap
        (λ (r : Pcie × Ram). record {
          dma = record m.dma { completed = false };
          ps = r.0;
          ram = r.1;
        })
        (launch_writes host now m.dma.desc_bus pos dir m.dma.xor m.ps (with_table addr len m) idle a
          b c)

  module _ (dir : Dir) (m : Machine Ram) (luck : Luck) (pos len addr t : ℕ)
      (c : CanMove m luck pos len addr t) where
    abbrev pub started : Pcie × Ram
    started = start host.bus luck.now (at_start dir pos m) (with_table addr len m)

    stored : peek (with_table addr len m) m.dma.desc_bus 16 ≡ encode_desc addr len
    unfolding encode_desc
    stored = laws.store_lem m.ram m.dma.desc_bus (encode_desc addr len)

    small : len < 2 ^ 32
    small = omega (arith, c.within_seg, c.ready.realizable.seg_high)

    started_zero : started.0.regs.result ≡ 0
    unfolding dma_ok
    started_zero =
        start_zero host.bus bus_laws laws.works luck.now addr len (at_start dir pos m)
          (with_table addr len m) c.ready.bus_master c.ready.realizable.desc_low refl stored
          c.buffer_word c.some_bytes c.within_seg c.ready.realizable.seg_high c.within_mem
          c.table_reached c.buffer_reached

    -- What the wait leaves, and what `dma_xfer` returns then.
    pub finished :
        settle host luck.now (wait host luck.reached (launch host luck.now pos len dir addr m)) ≡ (
          done 0,
          record {
            dma = record m.dma { int_status = 1; completed = true };
            ps = settled started.0;
            ram = started.1;
          },
        )
    unfolding settle
    finished =
        let s = started_lem host.bus luck.now (at_start dir pos m) (with_table addr len m) in
        let m' : Machine Ram = record {
          dma = record m.dma { completed = false };
          ps = started.0;
          ram = started.1;
        } in
        let launched_lem =
          launch_lem luck.now pos len addr dir m c.ready.idle c.table_word c.aligned
            (omega (arith, c.within_mem)) in
        ap (λ (k : Machine Ram). settle host luck.now (wait host luck.reached k)) launched_lem
        ∙ ap (λ (o : _). settle host luck.now (wait host o m')) c.reached
        ∙ ap (settle host luck.now) (
            wait_lem host (luck.now + m.ps.latency_us) t m' s.1 c.late started_zero
              (s.2 ∙ c.ready.quiet) (s.3 ∙ c.ready.unmasked))

    device_same : SameDevice m.ps started.0
    device_same =
        SameDevice-trans m.ps (at_start dir pos m) started.0
          (at_start-SameDevice dir m.dma.xor m.dma.desc_bus pos m.ps)
          (started_lem host.bus luck.now (at_start dir pos m) (with_table addr len m)).0

    pub started-IsReady : IsReady (settled started.0)
    started-IsReady =
        let s = started_lem host.bus luck.now (at_start dir pos m) (with_table addr len m) in
        let valid =
          at_start-IsValid dir m.dma.xor m.dma.desc_bus pos m.ps c.ready.valid c.table_word
            c.aligned in
        settled-IsReady started.0
          (start-IsValid host.bus luck.now (at_start dir pos m) (with_table addr len m) valid)
          (same-IsRealizable m.ps started.0 device_same c.ready.realizable)
          (device_same.master_same ∙ c.ready.bus_master) (s.3 ∙ c.ready.unmasked)

    pub started-SameDevice : SameDevice m.ps (settled started.0)
    started-SameDevice =
        SameDevice-trans m.ps started.0 (settled started.0) device_same
          (settled-SameDevice started.0)

    table_lem :
        descs_of host.bus (at_start dir pos m) (with_table addr len m)
        ≡ record { addr = addr; len = len; flags = 0 } ∷ []
    table_lem =
        one_desc host.bus bus_laws laws.works addr len (at_start dir pos m) (with_table addr len m)
          refl stored c.buffer_word small

  -- A transfer to the device, of what the buffer's address holds.
  pub sent_lem :
      (m : Machine Ram) (luck : Luck) (pos len addr t : ℕ) (c : CanMove m luck pos len addr t)
      → (settled (started to_device m luck pos len addr t c).0).mem
        ≡ blit m.ps.mem pos (peek m.ram addr len)
  unfolding update_irq gather encode_desc
  sent_lem m luck pos len addr t c =
      let ps = at_start to_device pos m in
      let ram = with_table addr len m in
      let s =
        start_to_device host.bus bus_laws luck.now ps ram
          (at_start-IsValid to_device m.dma.xor m.dma.desc_bus pos m.ps c.ready.valid c.table_word
            c.aligned)
          (same-IsRealizable m.ps ps
            (at_start-SameDevice to_device m.dma.xor m.dma.desc_bus pos m.ps) c.ready.realizable)
          refl (started_zero to_device m luck pos len addr t c) in
      s.2
      ∙ ap (λ (ds : List Desc). blit m.ps.mem pos (gather host.bus bus_laws ram ds))
          (table_lem to_device m luck pos len addr t c)
      ∙ ap (blit m.ps.mem pos) (append-nil (peek ram addr len))
      ∙ ap (blit m.ps.mem pos)
          (laws.store_apart m.ram m.dma.desc_bus (encode_desc addr len) addr len c.apart)

  -- A transfer from the device: the on-board memory stays, and the buffer's address holds what is sent.
  pub fetched_lem :
      (m : Machine Ram) (luck : Luck) (pos len addr t : ℕ) (c : CanMove m luck pos len addr t)
      → ((settled (started from_device m luck pos len addr t c).0).mem ≡ m.ps.mem)
        × (peek (started from_device m luck pos len addr t c).1 addr len
            ≡ payload (at_start from_device pos m) pos len)
  unfolding update_irq gather sum_len
  fetched_lem m luck pos len addr t c =
      let ps = at_start from_device pos m in
      let ram = with_table addr len m in
      let table = table_lem from_device m luck pos len addr t c in
      let ram' = (started from_device m luck pos len addr t c).1 in
      let s =
        start-to_guest host.bus bus_laws luck.now ps ram
          (at_start-IsValid from_device m.dma.xor m.dma.desc_bus pos m.ps c.ready.valid c.table_word
            c.aligned)
          (same-IsRealizable m.ps ps
            (at_start-SameDevice from_device m.dma.xor m.dma.desc_bus pos m.ps) c.ready.realizable)
          refl (subst (Apart host.bus bus_laws) (sym table) (tt, tt))
          (started_zero from_device m luck pos len addr t c) in
      let len_zero : len + 0 ≡ len = omega arith in
      (
        s.1,
        sym (append-nil (peek ram' addr len))
            ∙ ap (gather host.bus bus_laws ram') (sym table)
            ∙ s.2
            ∙ ap (λ (ds : List Desc). payload ps pos (sum_len ds)) table
            ∙ ap (payload ps pos) len_zero,
      )
