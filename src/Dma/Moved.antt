-- ===== src/Dma/Moved.antt =====
-- examples/27_dma/main.c with tools/qemu/hw/ldd/pcie.c: the result of a transfer each way.
use linux_device_driver.Prelude.{
  ℕ, ◌≡◌, refl, sym, ◌∙◌, ap, Option, List, take, length, length-take, blit, arith, subst,
}
use linux_device_driver.Pcie.Transfer.{payload}
use linux_device_driver.Dma.Device.{
  Host, Machine, Luck, Ret, done, to_device, from_device, map_single, unmapped, dma_xfer,
  dma_xfer_at,
}
use linux_device_driver.Dma.Finished.{IsReady, SameDevice}
use linux_device_driver.Dma.Transfers.{
  HostLaws, CanMove, completed_with, at_start, started, finished, sent_lem, fetched_lem,
  started-IsReady, started-SameDevice,
}

module _ {Ram : Type 0} (host : Host Ram) (laws : HostLaws host) where
  open laws use {bus_laws}
  open bus_laws use {peek}

  -- A transfer to the device that can be made is made: the buffer's bytes stand at `pos`, the device is
  -- ready again, and the driver keeps its buffer.
  pub dma_xfer-to_device :
      (m : Machine Ram) (luck : Luck) (pos len addr t : ℕ)
      → CanMove m luck pos len addr t
      → (let r = dma_xfer host luck pos len to_device m in
          (r.0 ≡ done 0)
          × (r.1.ps.mem ≡ blit m.ps.mem pos (take len m.dma.buf))
          × IsReady r.1.ps
          × SameDevice m.ps r.1.ps
          × (r.1.dma ≡ completed_with m.dma.buf m.dma))
  unfolding dma_xfer dma_xfer_at unmapped
  dma_xfer-to_device m luck pos len addr t c =
      let bytes = take len m.dma.buf in
      let m' = map_single host to_device addr len m in
      let c' : CanMove m' luck pos len addr t = ground arith in
      let exact : length bytes ≡ len = omega (arith, length-take len m.dma.buf, c.within_buf) in
      let back =
        ap (λ (n : ℕ). peek (host.store m.ram addr bytes) addr n) (sym exact)
        ∙ laws.store_lem m.ram addr bytes in
      subst
        (λ (r : Ret × Machine Ram).
          (r.0 ≡ done 0)
          × (r.1.ps.mem ≡ blit m.ps.mem pos bytes)
          × IsReady r.1.ps
          × SameDevice m.ps r.1.ps
          × (r.1.dma ≡ completed_with m.dma.buf m.dma))
        (sym (
          ap (λ (o : Option ℕ). dma_xfer_at host o luck pos len to_device m) c.mapped
          ∙ ap (unmapped host to_device addr len)
              (finished host laws to_device m' luck pos len addr t c')))
        (
          refl,
          sent_lem host laws m' luck pos len addr t c' ∙ ap (blit m.ps.mem pos) back,
          started-IsReady host laws to_device m' luck pos len addr t c',
          started-SameDevice host laws to_device m' luck pos len addr t c',
          refl,
        )

  -- A transfer from the device that can be made is made: the on-board memory stays, and the buffer begins
  -- with what the device sends for the range.
  pub dma_xfer-from_device :
      (m : Machine Ram) (luck : Luck) (pos len addr t : ℕ)
      → CanMove m luck pos len addr t
      → (let r = dma_xfer host luck pos len from_device m in
          (r.0 ≡ done 0)
          × (r.1.ps.mem ≡ m.ps.mem)
          × IsReady r.1.ps
          × SameDevice m.ps r.1.ps
          × (r.1.dma
              ≡ completed_with
                  (blit m.dma.buf 0 (payload (at_start host laws from_device pos m) pos len))
                  m.dma))
  unfolding dma_xfer dma_xfer_at unmapped
  dma_xfer-from_device m luck pos len addr t c =
      let f = fetched_lem host laws m luck pos len addr t c in
      let ram' = (started host laws from_device m luck pos len addr t c).1 in
      subst
        (λ (r : Ret × Machine Ram).
          (r.0 ≡ done 0)
          × (r.1.ps.mem ≡ m.ps.mem)
          × IsReady r.1.ps
          × SameDevice m.ps r.1.ps
          × (r.1.dma
              ≡ completed_with
                  (blit m.dma.buf 0 (payload (at_start host laws from_device pos m) pos len))
                  m.dma))
        (sym (
          ap (λ (o : Option ℕ). dma_xfer_at host o luck pos len from_device m) c.mapped
          ∙ ap (unmapped host from_device addr len)
              (finished host laws from_device m luck pos len addr t c)))
        (
          refl,
          f.0,
          started-IsReady host laws from_device m luck pos len addr t c,
          started-SameDevice host laws from_device m luck pos len addr t c,
          ap (λ (bs : List ℕ). completed_with (blit m.dma.buf 0 bs) m.dma)
              (laws.load_lem ram' addr len ∙ f.1),
        )
