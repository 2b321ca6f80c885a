-- ===== src/Dma/File.antt =====
-- examples/27_dma/main.c: `dma_write` and `dma_read`.
use linux_device_driver.Prelude.{
  ℕ, ◌+◌, ◌%◌, ◌^◌, ◌≤◌, ◌<◌, ◌≡◌, ◌⊎◌, refl, sym, ◌∙◌, ap, Bool, true, false, Option, none, some,
  List, ◌==◌, if◌then◌else◌, take, length, length-blit, length-slice, slice, slice-blit_self, blit,
  bit_and, arith, subst, map, bit_xor,
}
use linux_device_driver.Pcie.State.{Pcie, ldd_mem_size}
use linux_device_driver.Pcie.Transfer.{dma_ok, payload}
use linux_device_driver.Dma.Device.{
  Host, Dma, Machine, Ret, done, to_device, from_device, dma_xfer, enodev,
}
use linux_device_driver.Dma.Calls.{
  CallLuck, Result, read_locked, write_locked, write_filled, wrote, deliver, filled, answer,
}
use linux_device_driver.Dma.Finished.{IsReady, SameDevice}
use linux_device_driver.Dma.Transfers.{HostLaws, CanMove, completed_with}
use linux_device_driver.Dma.Moved.{dma_xfer-to_device, dma_xfer-from_device}

-- The driver between two calls: the device is there and ready, the buffer has its size, which the device
-- takes, and the device reaches the descriptor.
pub record IsAlive {Ram : Type 0} (m : Machine Ram) : Type 0 where
  pub ready : IsReady m.ps
  pub present : m.dma.removed ≡ false
  pub buffer : length m.dma.buf ≡ m.dma.chunk
  pub takes : m.dma.chunk ≤ m.ps.max_seg
  pub aligned : m.dma.desc_bus % 16 ≡ 0
  pub table_word : m.dma.desc_bus < 2 ^ 64
  pub table_reached : dma_ok m.ps m.dma.desc_bus 16 ≡ true

abbrev xor_of : {Ram : Type 0} → Machine Ram → ℕ
xor_of m = bit_and (bit_and m.dma.xor 0xff) 0xff

-- A call that nothing disturbs: the lock is taken, no copy faults, the buffer is mapped where the device
-- reaches it, apart from the descriptor, and the clock goes on until the device is done.
pub record IsFine (ps : Pcie) (desc_bus len : ℕ) (luck : CallLuck) (addr t : ℕ) : Type 0 where
  pub locked : luck.locked ≡ true
  pub no_fault : luck.fault ≡ none
  pub mapped : luck.xfer.mapped ≡ some addr
  pub reached : luck.xfer.reached ≡ some t
  pub late : luck.xfer.now + ps.latency_us ≤ t
  pub buffer_word : addr < 2 ^ 64
  pub buffer_reached : dma_ok ps addr len ≡ true
  pub apart : (desc_bus + 16 ≤ addr) ⊎ (addr + len ≤ desc_bus)

can_move :
    {Ram : Type 0} (m : Machine Ram) (luck : CallLuck) (pos len addr t : ℕ)
    → IsAlive m
    → IsFine m.ps m.dma.desc_bus len luck addr t
    → 0 < len
    → len ≤ m.dma.chunk
    → pos + len ≤ ldd_mem_size
    → CanMove m luck.xfer pos len addr t
can_move m luck pos len addr t a f h c w = record {
  ready = a.ready;
  mapped = f.mapped;
  reached = f.reached;
  late = f.late;
  some_bytes = h;
  within_seg = omega (arith, a.takes);
  within_buf = omega (arith, a.buffer);
  within_mem = w;
  aligned = a.aligned;
  table_word = a.table_word;
  buffer_word = f.buffer_word;
  table_reached = a.table_reached;
  buffer_reached = f.buffer_reached;
  apart = f.apart;
}

-- The same driver with another buffer, after a transfer.
IsAlive-after :
    {Ram : Type 0} (m n : Machine Ram) (buf : List ℕ)
    → IsAlive m
    → IsReady n.ps
    → SameDevice m.ps n.ps
    → length buf ≡ length m.dma.buf
    → n.dma ≡ completed_with buf m.dma
    → IsAlive n
unfolding dma_ok
IsAlive-after m n buf a r s l e = ground arith

-- A fine call with the device as it is after another.
pub IsFine-later :
    (a b : Pcie) (desc_bus len : ℕ) (luck : CallLuck) (addr t : ℕ)
    → SameDevice a b
    → IsFine a desc_bus len luck addr t
    → IsFine b desc_bus len luck addr t
unfolding dma_ok
IsFine-later a b desc_bus len luck addr t s f = ground arith

module _ {Ram : Type 0} (host : Host Ram) (laws : HostLaws host) where
  -- A write that nothing disturbs.
  abbrev pub Wrote : Machine Ram → List ℕ → ℕ → Result Ram → Type 0
  Wrote m bytes pos r =
      (r.ret ≡ done (length bytes))
      × (r.pos ≡ pos + length bytes)
      × (r.machine.ps.mem ≡ blit m.ps.mem pos bytes)
      × SameDevice m.ps r.machine.ps
      × IsAlive r.machine
      × (r.machine.dma.desc_bus ≡ m.dma.desc_bus)
      × (r.machine.dma.chunk ≡ m.dma.chunk)
      × (r.machine.dma.xor ≡ m.dma.xor)

  wrote_done :
      (pos count : ℕ) (r : Ret × Machine Ram)
      → r.0 ≡ done 0
      → wrote host pos count r ≡ answer (done count) (pos + count) r.1
  unfolding wrote
  wrote_done pos count (x, m) e = ap (λ (q : Ret). wrote host pos count (q, m)) e

  delivered :
      (pos count : ℕ) (r : Ret × Machine Ram)
      → r.0 ≡ done 0
      → deliver host none pos count r ≡ record {
        ret = done count;
        pos = pos + count;
        machine = r.1;
        given = take count r.1.dma.buf;
      }
  unfolding deliver
  delivered pos count (x, m) e = ap (λ (q : Ret). deliver host none pos count (q, m)) e

  pub write_filled-Wrote :
      (m : Machine Ram) (luck : CallLuck) (bytes : List ℕ) (pos addr t : ℕ)
      → IsAlive m
      → IsFine m.ps m.dma.desc_bus (length bytes) luck addr t
      → 0 < length bytes
      → length bytes ≤ m.dma.chunk
      → pos + length bytes ≤ ldd_mem_size
      → Wrote m bytes pos (write_locked host luck bytes pos m)
  unfolding write_locked wrote
  write_filled-Wrote m luck bytes pos addr t a f h c w =
      let m' = filled host bytes m in
      let len = length-blit m.dma.buf 0 bytes in
      let a' : IsAlive m' = ground (arith, len) in
      let x =
        dma_xfer-to_device host laws m' luck.xfer pos (length bytes) addr t
          (can_move m' luck pos (length bytes) addr t a' f h c w) in
      let r = dma_xfer host luck.xfer pos (length bytes) to_device m' in
      subst (Wrote m bytes pos)
        (sym (
          ap
            (λ (b : Bool).
              if b then answer enodev pos m else write_filled host luck.fault luck.xfer bytes pos m)
            a.present
          ∙ ap (λ (o : Option (List ℕ)). write_filled host o luck.xfer bytes pos m) f.no_fault
          ∙ wrote_done pos (length bytes) r x.0))
        (
          refl,
          refl,
          x.1
              ∙ ap (blit m.ps.mem pos)
                  (slice-blit_self m.dma.buf 0 bytes (omega (arith, a.buffer))),
          x.3,
          IsAlive-after m' r.1 m'.dma.buf a' x.2 x.3 refl x.4,
          ap (λ (d : Dma). d.desc_bus) x.4,
          ap (λ (d : Dma). d.chunk) x.4,
          ap (λ (d : Dma). d.xor) x.4,
        )

  -- A read that nothing disturbs, with the module parameter `xor` at its default.
  abbrev pub Read : Machine Ram → ℕ → ℕ → Result Ram → Type 0
  Read m count pos r =
      (r.ret ≡ done count)
      × (r.pos ≡ pos + count)
      × (r.given ≡ slice pos count m.ps.mem)
      × (r.machine.ps.mem ≡ m.ps.mem)
      × IsAlive r.machine

  pub read_locked-Read :
      (m : Machine Ram) (luck : CallLuck) (count pos addr t : ℕ)
      → IsAlive m
      → IsFine m.ps m.dma.desc_bus count luck addr t
      → m.dma.xor ≡ 0
      → 0 < count
      → count ≤ m.dma.chunk
      → pos + count ≤ ldd_mem_size
      → Read m count pos (read_locked host luck count pos m)
  unfolding read_locked payload
  read_locked-Read m luck count pos addr t a f z h c w =
      let x =
        dma_xfer-from_device host laws m luck.xfer pos count addr t
          (can_move m luck pos count addr t a f h c w) in
      let r = dma_xfer host luck.xfer pos count from_device m in
      let sent = slice pos count m.ps.mem in
      let plain : (if xor_of m == 0 then sent else map (λ b. bit_xor b (xor_of m) % 256) sent)
          ≡ sent =
        ap
          (λ (k : ℕ).
            if bit_and (bit_and k 0xff) 0xff == 0
            then sent
            else map (λ b. bit_xor b (bit_and (bit_and k 0xff) 0xff) % 256) sent)
          z in
      let size : length sent ≡ count =
        omega (arith, length-slice pos count m.ps.mem, a.ready.valid.size) in
      let buf = x.4 ∙ ap (λ (bs : List ℕ). completed_with (blit m.dma.buf 0 bs) m.dma) plain in
      subst (Read m count pos)
        (sym (
          ap (λ (b : Bool). if b then answer enodev pos m else deliver host luck.fault pos count r)
            a.present
          ∙ ap (λ (o : Option (List ℕ)). deliver host o pos count r) f.no_fault
          ∙ delivered pos count r x.0))
        (
          refl,
          refl,
          ap (λ (d : Dma). take count d.buf) buf
              ∙ ap (λ (n : ℕ). take n (blit m.dma.buf 0 sent)) (sym size)
              ∙ slice-blit_self m.dma.buf 0 sent (omega (arith, a.buffer)),
          x.1,
          IsAlive-after m r.1 (blit m.dma.buf 0 sent) a x.2 x.3 (length-blit m.dma.buf 0 sent) buf,
        )
