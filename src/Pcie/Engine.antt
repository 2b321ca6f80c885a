-- ===== src/Pcie/Engine.antt =====
-- tools/qemu/hw/ldd/pcie.c: a transfer from its start to its completion.
use linux_device_driver.Prelude.{
  ℕ, ◌+◌, ◌*◌, ◌^◌, ◌≤◌, ◌<◌, ◌≡◌, ◌⊎◌, refl, sym, ap, ◌∙◌, true, false, none, some, List, arith,
  leb, leb→le, if_cases, inl, inr, blit, bit_or, subst,
}
use linux_device_driver.Pcie.State.{
  Pcie, Bus, BusLaws, status_busy, status_done, status_error, int_dma_done, int_dma_error,
}
use linux_device_driver.Pcie.Transfer.{
  Desc, to_guest, payload, transfer, start, complete, expire, run_timer, fetch_table,
}
use linux_device_driver.Pcie.Irq.{update_irq}
use linux_device_driver.Pcie.Frame.{transfer-Frame, transfer-code-le}
use linux_device_driver.Pcie.Invariant.{IsValid, status_of_error}
use linux_device_driver.Pcie.Reached.{Copied, Copied-AllReach}
use linux_device_driver.Pcie.Verdict.{sum_len}
use linux_device_driver.Pcie.Checks.{
  Accepted, Passed, Refused-code, IsRealizable, descs_of, transfer-Outcome,
}
use linux_device_driver.Pcie.Copy.{gather, Apart, Away, In, Out, copy_descs-In, copy_descs-Out}

-- The device as the engine finds it.
abbrev pub launched : Pcie → Pcie
launched ps =
    let r = ps.regs in
    record ps { regs = record r { status = status_busy; xfer_bytes = 0; err_desc = 0 } }

realizable : (ps : Pcie) → IsRealizable ps → IsRealizable (launched ps)
realizable ps h = record {
  seg_low = h.seg_low;
  seg_high = h.seg_high;
  desc_low = h.desc_low;
  desc_high = h.desc_high;
}

module _ {Ram : Type 0} (bus : Bus Ram) where
  -- What the engine found in order is so on the device that was started.
  passed :
      (ps : Pcie) (ram : Ram) (ds : List Desc) (t : ℕ × Pcie × Ram)
      → Accepted bus (launched ps) ram ds
      → Copied bus (to_guest ps) ps.dma64 0 ds t
      → t.0 ≡ 0
      → Passed bus ps ram ds
  passed ps ram ds t a c z = (
    record {
      fetched = record {
        begun = record {
          bus_master = a.fetched.begun.bus_master;
          count_low = a.fetched.begun.count_low;
          count_high = a.fetched.begun.count_high;
        };
        reached = a.fetched.reached;
        read = a.fetched.read;
      };
      good = a.good;
      window = a.window;
    },
    Copied-AllReach bus (to_guest ps) ps.dma64 0 ds t c z,
  )

-- What a completion shows of a transfer with this code, where INT_STATUS held `old`: the timer is
-- off, and STATUS has DONE and INT_STATUS gains DMA_DONE, or STATUS has ERROR with the code and
-- INT_STATUS gains DMA_ERROR.
abbrev pub Completed : ℕ → ℕ → Pcie → Type 0
Completed code old done =
    (done.timer ≡ none)
    × ((code ≡ 0)
          × (done.regs.status ≡ status_done)
          × (done.regs.int_status ≡ bit_or old int_dma_done)
        ⊎ (0 < code)
          × (done.regs.status ≡ status_error + code * 2 ^ 8)
          × (done.regs.int_status ≡ bit_or old int_dma_error))

complete-Completed :
    (ps : Pcie)
    → ps.regs.result ≤ 5
    → Completed ps.regs.result ps.regs.int_status (complete (record ps { timer = none }))
unfolding complete update_irq
complete-Completed ps h = ground (arith, status_of_error ps.regs.result h)

expire_early : (d t : ℕ) (ps : Pcie) → t < d → expire (some d) t ps ≡ ps
unfolding expire
expire_early d t ps lt =
    if_cases (λ p. p ≡ ps) (leb d t) (λ b. absurd (omega (arith, leb→le d t b))) (λ _. refl)

pub expire_late :
    (d t : ℕ) (ps : Pcie) → d ≤ t → expire (some d) t ps ≡ complete (record ps { timer = none })
unfolding expire
expire_late d t ps le =
    if_cases (λ p. p ≡ complete (record ps { timer = none })) (leb d t) (λ _. refl)
      λ b. absurd (ground arith)

module _ {Ram : Type 0} (bus : Bus Ram) (laws : BusLaws bus) where
  open laws use {peek}

  -- On a valid device with limits that `ldd_pcie_realize` accepts, and a bus as documented: a started
  -- transfer to the device that reports no error has passed every check: the bus master, the
  -- count, the table, which the device reaches and the bus gives, the descriptors, the window in the
  -- on-board memory, and that the device reaches each segment. It has put the guest's bytes at the
  -- segments of its table, in order, at DEV_OFFSET in the on-board memory, counts them in XFER_BYTES,
  -- and changes nothing else there and nothing in the guest.
  pub start_to_device :
      (now : ℕ) (ps : Pcie) (ram : Ram)
      → IsValid ps
      → IsRealizable ps
      → to_guest ps ≡ false
      → (start bus now ps ram).0.regs.result ≡ 0
      → let (ps', ram') = start bus now ps ram in
        let ds = descs_of bus ps ram in
        Passed bus ps ram ds
        × (ram' ≡ ram)
        × (ps'.mem ≡ blit ps.mem ps.regs.dev_offset (gather bus laws ram ds))
        × (ps'.regs.xfer_bytes ≡ sum_len ds)
  unfolding start fetch_table
  start_to_device now ps ram v z g ok =
      elim (transfer-Outcome bus (launched ps) ram (realizable ps z)) [
        | inl (a, e, c) ↦
            let (same, new, count) =
              subst (In bus laws ps.regs.dev_offset (descs_of bus ps ram) (launched ps) ram) (sym e)
                (copy_descs-In bus laws 0 ps.regs.dev_offset (descs_of bus ps ram) (launched ps) ram
                  g v.size a.window (omega arith))
                ok in
            (
              passed bus ps ram (descs_of bus ps ram) (transfer bus (launched ps) ram) a c ok,
              same,
              new,
              omega (arith, count),
            )
        | inr r ↦ absurd (omega (arith, Refused-code bus (launched ps) ram _ r, ok))
      ]

  -- On a valid device with limits that `ldd_pcie_realize` accepts, and a bus as documented: a started
  -- transfer to the guest over segments that do not overlap, and that reports no error, has
  -- passed every check: the bus master, the count, the table, which the device reaches and the bus
  -- gives, the descriptors, the window in the on-board memory, and that the device reaches each
  -- segment. It has put the bytes from DEV_OFFSET on, XORed with XOR, at its segments, in order,
  -- counts them, and changes nothing in the on-board memory and nothing in the guest away from the
  -- segments.
  pub start-to_guest :
      (now : ℕ) (ps : Pcie) (ram : Ram)
      → IsValid ps
      → IsRealizable ps
      → to_guest ps ≡ true
      → Apart bus laws (descs_of bus ps ram)
      → (start bus now ps ram).0.regs.result ≡ 0
      → let (ps', ram') = start bus now ps ram in
        let ds = descs_of bus ps ram in
        Passed bus ps ram ds
        × (ps'.mem ≡ ps.mem)
        × (gather bus laws ram' ds ≡ payload ps ps.regs.dev_offset (sum_len ds))
        × (ps'.regs.xfer_bytes ≡ sum_len ds)
        × ((a n : ℕ) → Away bus laws a n ds → peek ram' a n ≡ peek ram a n)
  unfolding start fetch_table payload
  start-to_guest now ps ram v z g w ok =
      elim (transfer-Outcome bus (launched ps) ram (realizable ps z)) [
        | inl (a, e, c) ↦
            let (same, out, count, rest) =
              subst (Out bus laws ps.regs.dev_offset (descs_of bus ps ram) (launched ps) ram)
                (sym e)
                (copy_descs-Out bus laws 0 ps.regs.dev_offset (descs_of bus ps ram) (launched ps)
                  ram g w (omega (arith, a.window, v.size)) v.size (omega arith))
                ok in
            (
              passed bus ps ram (descs_of bus ps ram) (transfer bus (launched ps) ram) a c ok,
              same,
              out,
              omega (arith, count),
              rest,
            )
        | inr r ↦ absurd (omega (arith, Refused-code bus (launched ps) ram _ r, ok))
      ]

  start_state :
      (now : ℕ) (ps : Pcie) (ram : Ram)
      → let ps' = (start bus now ps ram).0 in
        (ps'.timer ≡ some (now + ps.latency_us))
        × (ps'.regs.status ≡ status_busy)
        × (ps'.regs.int_status ≡ ps.regs.int_status)
        × (ps'.regs.result ≤ 5)
  unfolding start
  start_state now ps ram =
      let f = transfer-Frame bus (launched ps) ram in
      (
        ap (λ l. some (now + l)) f.latency_same,
        f.status_same,
        f.int_status_same,
        transfer-code-le bus (launched ps) ram,
      )

  -- A start is answered at its deadline and not before: until then STATUS shows BUSY, and whenever
  -- the clock has reached it the completion shows the code of the transfer.
  pub start_completes :
      (now : ℕ) (ps : Pcie) (ram : Ram)
      → let ps' = (start bus now ps ram).0 in
        (ps'.regs.status ≡ status_busy)
        × (ps'.regs.result ≤ 5)
        × ((t : ℕ) → t < now + ps.latency_us → run_timer t ps' ≡ ps')
        × ((t : ℕ)
            → now + ps.latency_us ≤ t
            → Completed ps'.regs.result ps.regs.int_status (run_timer t ps'))
  unfolding run_timer
  start_completes now ps ram =
      let ps' = (start bus now ps ram).0 in
      let (timer, busy, bits, code) = start_state now ps ram in
      (
        busy,
        code,
        λ t lt. ap (λ o. expire o t ps') timer ∙ expire_early (now + ps.latency_us) t ps' lt,
        λ t le.
            subst (Completed ps'.regs.result ps.regs.int_status)
              (sym (ap (λ o. expire o t ps') timer ∙ expire_late (now + ps.latency_us) t ps' le))
              (subst (λ old. Completed ps'.regs.result old (complete (record ps' { timer = none })))
                bits (complete-Completed ps' code)),
      )
