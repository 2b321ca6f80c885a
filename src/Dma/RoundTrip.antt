-- ===== src/Dma/RoundTrip.antt =====
-- examples/27_dma/main.c with tools/qemu/hw/ldd/pcie.c: what is written to /dev/dma is read back.
use linux_device_driver.Prelude.{
  ℕ, ◌+◌, ◌≤◌, ◌<◌, ◌≡◌, sym, ◌∙◌, ap, true, List, take, length, length-take, slice,
  slice-blit_self, blit, arith, subst,
}
use linux_device_driver.Pcie.State.{ldd_mem_size}
use linux_device_driver.Dma.Device.{Host, Machine, done}
use linux_device_driver.Dma.Calls.{
  CallLuck, Result, dma_read, dma_write, clamp, read_locked, write_locked,
}
use linux_device_driver.Dma.Transfers.{HostLaws}
use linux_device_driver.Dma.File.{
  IsAlive, IsFine, IsFine-later, Wrote, Read, write_filled-Wrote, read_locked-Read,
}

module _ {Ram : Type 0} (host : Host Ram) (laws : HostLaws host) where
  dma_write_locked :
      (m : Machine Ram) (luck : CallLuck) (request : List ℕ) (pos : ℕ)
      → 0 < clamp (length request) pos m.dma.chunk
      → luck.locked ≡ true
      → dma_write host luck request pos m
        ≡ write_locked host luck (take (clamp (length request) pos m.dma.chunk) request) pos m
  unfolding dma_write
  dma_write_locked m luck request pos h l = ground arith

  dma_read_locked :
      (m : Machine Ram) (luck : CallLuck) (n pos : ℕ)
      → 0 < n
      → pos < ldd_mem_size
      → clamp n pos m.dma.chunk ≡ n
      → luck.locked ≡ true
      → dma_read host luck n pos m ≡ read_locked host luck n pos m
  unfolding dma_read
  dma_read_locked m luck n pos h q c l =
      ground (arith, ap (λ (k : ℕ). read_locked host luck k pos m) c)

  -- What the two calls return and leave.
  abbrev pub Both : List ℕ → ℕ → ℕ → Machine Ram → Result Ram → Result Ram → Type 0
  Both request pos n m w r =
      (w.ret ≡ done n)
      × (w.pos ≡ pos + n)
      × (w.machine.ps.mem ≡ blit m.ps.mem pos (take n request))
      × (r.ret ≡ done n)
      × (r.pos ≡ pos + n)
      × (r.given ≡ take n request)
      × (r.machine.ps.mem ≡ w.machine.ps.mem)
      × IsAlive r.machine

  -- With the device ready, and calls that nothing disturbs: a write to /dev/dma takes as many bytes as
  -- reach neither behind the on-board memory nor behind the buffer, puts them there at the position and
  -- leaves the rest; and a read at the same position, with no XOR set, returns these bytes and leaves the
  -- memory, with the driver and the device ready again. Each goes through the register writes, the
  -- device's transfer, its timer, the interrupt and the handler.
  pub dma_read-dma_write :
      (request : List ℕ) (pos n : ℕ) (m : Machine Ram) (wl rl : CallLuck) (a1 t1 a2 t2 : ℕ)
      → IsAlive m
      → m.dma.xor ≡ 0
      → n ≡ clamp (length request) pos m.dma.chunk
      → 0 < n
      → IsFine m.ps m.dma.desc_bus n wl a1 t1
      → IsFine m.ps m.dma.desc_bus n rl a2 t2
      → (let w = dma_write host wl request pos m in
          Both request pos n m w (dma_read host rl n pos w.machine))
  dma_read-dma_write request pos n m wl rl a1 t1 a2 t2 a z e h f g =
      let bytes = take n request in
      let size : length bytes ≡ n = omega (arith, length-take n request, e) in
      let w = write_locked host wl bytes pos m in
      let wrote : Wrote host laws m bytes pos w =
        write_filled-Wrote host laws m wl bytes pos a1 t1 a
          (subst (λ k. IsFine m.ps m.dma.desc_bus k wl a1 t1) (sym size) f) (omega arith)
          (omega (arith, e)) (omega (arith, e)) in
      let (w_ret, w_pos, w_mem, same, alive, table, chunk, xor) = wrote in
      let r = read_locked host rl n pos w.machine in
      let read : Read host laws w.machine n pos r =
        read_locked-Read host laws w.machine rl n pos a2 t2 alive
          (subst (λ k. IsFine w.machine.ps k n rl a2 t2) (sym table)
            (IsFine-later m.ps w.machine.ps m.dma.desc_bus n rl a2 t2 same g))
          (xor ∙ z) h (omega (arith, e, chunk)) (omega (arith, e)) in
      let e1 : dma_write host wl request pos m ≡ w =
        dma_write_locked m wl request pos (omega (arith, e)) f.locked
        ∙ ap (λ (k : ℕ). write_locked host wl (take k request) pos m) (sym e) in
      let e2 : dma_read host rl n pos w.machine ≡ r =
        dma_read_locked w.machine rl n pos h (omega (arith, e)) (omega (arith, e, chunk))
          g.locked in
      let fits : pos + length bytes ≤ length m.ps.mem =
        omega (arith, e, a.ready.valid.size, size) in
      let given =
        read.2
        ∙ ap (slice pos n) w_mem
        ∙ ap (λ (k : ℕ). slice pos k (blit m.ps.mem pos bytes)) (sym size)
        ∙ slice-blit_self m.ps.mem pos bytes fits in
      subst (λ (x : Result Ram). Both request pos n m x (dma_read host rl n pos x.machine)) (sym e1)
        (subst (Both request pos n m w) (sym e2) (
          w_ret ∙ ap done size,
          w_pos ∙ ap (λ (k : ℕ). pos + k) size,
          w_mem,
          read.0,
          read.1,
          given,
          read.3,
          read.4,
        ))
