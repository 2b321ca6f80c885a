-- ===== src/Pcie/Edges.antt =====
-- tools/qemu/hw/ldd/pcie.c: the interrupts of every event, against the pending bits before and
-- after it.
use linux_device_driver.Prelude.{
  ℕ, ◌+◌, ◌-◌, ◌^◌, ◌%◌, ◌<◌, ◌≡◌, ◌⊎◌, refl, ap, ap₂, subst, ◌∙◌, Bool, true, false, not, ◌&&◌,
  Option, none, some, List, [], ◌∷◌, ◌++◌, arith, bit_and, ◌==◌, leb, if_cases, inl, inr,
}
use linux_device_driver.Prelude.Bits.{test_bit, test_bit-zero}
use linux_device_driver.Pcie.State.{
  Pcie, Bus, Effect, set_dirty, Reg, reg_ctrl, reg_int_status, reg_int_mask, reg_int_raise,
  reg_dma_ctrl, reg_at,
}
use linux_device_driver.Pcie.Irq.{update_irq, pending, reset}
use linux_device_driver.Pcie.Transfer.{
  Desc, Checked, bad, total, outside, start, complete, expire, run_timer, transfer,
  transfer_checked, fetch_table, copy_descs, move_segment, count_bytes, blame, finish,
}
use linux_device_driver.Pcie.Frame.{transfer_cases, transfer-Frame}
use linux_device_driver.Pcie.Bar0.{write_reg, bar0_write, busy}
use linux_device_driver.Pcie.Machine.{
  Event, write, clock, qdev_reset, write_config, step, configure,
}
use linux_device_driver.Pcie.Invariant.{IsValid}
use linux_device_driver.Pcie.Signals.{
  messages, messages-set_irq, messages-set_dirty, messages-update_irq, one_if,
}

-- A transfer itself signals nothing: the only call it may add marks the on-board memory dirty.
abbrev IsQuiet : List Effect → List Effect → Type 0
IsQuiet es fs = (fs ≡ es) ⊎ ((a : ℕ) × (l : ℕ) × (fs ≡ es ++ set_dirty a l ∷ []))

module _ {Ram : Type 0} (bus : Bus Ram) where
  effects-move_segment :
      (ps : Pcie) (ram : Ram) (off : ℕ) (d : Desc)
      → (move_segment bus ps ram off d).1.effects ≡ ps.effects
  unfolding move_segment
  effects-move_segment ps ram off d = ground arith

  copy_descs-IsQuiet :
      (es : List Effect) (i off : ℕ) (ds : List Desc) (ps : Pcie) (ram : Ram)
      → ps.effects ≡ es
      → IsQuiet es (copy_descs bus i off ds ps ram).1.effects
  unfolding copy_descs finish
  copy_descs-IsQuiet es i off [] ps ram e =
      let first = ps.regs.dev_offset in
      let size = (off + 2 ^ 32 - first) % 2 ^ 32 in
      inr (first, size, ap (λ (fs : List Effect). fs ++ set_dirty first size ∷ []) e)
  copy_descs-IsQuiet es i off (d ∷ ds) ps ram e =
      let (ok, ps', ram') = move_segment bus ps ram off d in
      if_cases (λ (t : ℕ × Pcie × Ram). IsQuiet es t.1.effects) ok
        (λ _.
          copy_descs-IsQuiet es (i + 1) ((off + d.len) % 2 ^ 32) ds (count_bytes d.len ps') ram'
            (unfold count_bytes in effects-move_segment ps ram off d ∙ e))
        λ _. inl (unfold blame in effects-move_segment ps ram off d ∙ e)

  transfer_checked-IsQuiet :
      (ps : Pcie) (ram : Ram) (ds : List Desc) (c : Checked)
      → IsQuiet ps.effects (transfer_checked bus ps ram ds c).1.effects
  unfolding transfer_checked
  transfer_checked-IsQuiet ps ram ds (bad i) = inl (unfold blame in refl)
  transfer_checked-IsQuiet ps ram ds (total sum) =
      if_cases (λ (t : ℕ × Pcie × Ram). IsQuiet ps.effects t.1.effects) (outside ps sum)
        (λ _. inl refl) λ _. copy_descs-IsQuiet ps.effects 0 ps.regs.dev_offset ds ps ram refl

  transfer-IsQuiet : (ps : Pcie) (ram : Ram) → IsQuiet ps.effects (transfer bus ps ram).1.effects
  transfer-IsQuiet ps ram =
      transfer_cases bus (λ t. IsQuiet ps.effects t.1.effects) ps ram (inl refl) (inl refl)
        (inl refl) (transfer_checked-IsQuiet ps ram (fetch_table bus ps ram).1)

-- The bit `n` becomes pending from `a` to `b`.
abbrev pub rises : ℕ → Pcie → Pcie → Bool
rises n a b = test_bit (pending b) n && not (test_bit (pending a) n)

-- The messages of vector `n` from `a` to `b` are one for a rise of bit `n`, and none otherwise.
abbrev pub Signals : ℕ → Pcie → Pcie → Type 0
Signals n a b = messages n b.effects ≡ messages n a.effects + one_if (rises n a b)

module _ (n : ℕ) (h : n < 3) where
  update_irq-Signals :
      (a b : Pcie)
      → a.msix_enabled ≡ true
      → IsValid a
      → b.msix_enabled ≡ a.msix_enabled
      → b.effects ≡ a.effects
      → b.regs.irq_sent ≡ a.regs.irq_sent
      → Signals n a (update_irq b)
  unfolding pending update_irq
  update_irq-Signals a b m v mm e s =
      messages-update_irq n b h (mm ∙ m)
      ∙ ap₂
          (λ (es : List Effect) (old : ℕ).
            messages n es + one_if (test_bit (pending b) n && not (test_bit old n)))
          e (s ∙ v.sent)

  none_rises : (x : Bool) → one_if (x && not x) ≡ 0
  none_rises true = refl
  none_rises false = refl

  quiet-Signals : (a b : Pcie) → pending b ≡ pending a → IsQuiet a.effects b.effects → Signals n a b
  quiet-Signals a b p q = omega (
    arith,
    same q,
    ap (λ k. one_if (test_bit k n && not (test_bit (pending a) n))) p,
    none_rises (test_bit (pending a) n),
  )
    where
      same : IsQuiet a.effects b.effects → messages n b.effects ≡ messages n a.effects
      same (inl e) = ap (messages n) e
      same (inr (x, l, e)) = ap (messages n) e ∙ messages-set_dirty n a.effects x l

  reset-Signals : (a : Pcie) → Signals n a (reset a)
  unfolding pending reset
  reset-Signals a = ground (arith, messages-set_irq n a.effects false, test_bit-zero n)

  complete-Signals :
      (a : Pcie)
      → a.msix_enabled ≡ true
      → IsValid a
      → Signals n a (complete (record a { timer = none }))
  unfolding complete
  complete-Signals a m v =
      if_cases (Signals n a) (a.regs.result == 0) (λ _. update_irq-Signals a _ m v refl refl refl)
        λ _. update_irq-Signals a _ m v refl refl refl

  expire-Signals :
      (t : Option ℕ) (now : ℕ) (a : Pcie)
      → a.msix_enabled ≡ true
      → IsValid a
      → Signals n a (expire t now a)
  unfolding expire
  expire-Signals none now a m v = quiet-Signals a a refl (inl refl)
  expire-Signals (some d) now a m v =
      if_cases (Signals n a) (leb d now) (λ _. complete-Signals a m v)
        λ _. quiet-Signals a a refl (inl refl)

  module _ {Ram : Type 0} (bus : Bus Ram) where
    start-Signals :
        (now : ℕ) (a b : Pcie) (ram : Ram)
        → pending b ≡ pending a
        → b.effects ≡ a.effects
        → Signals n a (start bus now b ram).0
    unfolding start pending
    start-Signals now a b ram p e =
        let r = b.regs in
        let b' = record b { regs = record r { status = 1; xfer_bytes = 0; err_desc = 0 } } in
        let f = transfer-Frame bus b' ram in
        quiet-Signals a (start bus now b ram).0 (ap₂ bit_and f.int_status_same f.int_mask_same ∙ p)
          (subst (λ es. IsQuiet es (start bus now b ram).0.effects) e (transfer-IsQuiet bus b' ram))

    write_reg-Signals :
        (r : Reg) (val now : ℕ) (a : Pcie) (ram : Ram)
        → a.msix_enabled ≡ true
        → IsValid a
        → Signals n a (write_reg bus r val now a ram).0
    unfolding write_reg pending
    write_reg-Signals reg_ctrl val now a ram m v =
        if_cases (Signals n a) (bit_and val 1 == 0) (λ _. quiet-Signals a a refl (inl refl))
          λ _. reset-Signals a
    write_reg-Signals reg_int_status val now a ram m v = update_irq-Signals a _ m v refl refl refl
    write_reg-Signals reg_int_mask val now a ram m v = update_irq-Signals a _ m v refl refl refl
    write_reg-Signals reg_int_raise val now a ram m v = update_irq-Signals a _ m v refl refl refl
    write_reg-Signals reg_dma_ctrl val now a ram m v =
        let r = a.regs in
        let b = record a { regs = record r { dma_ctrl = bit_and val 1 } } in
        if_cases (λ (t : Pcie × Ram). Signals n a t.0) (busy a)
          (λ _. quiet-Signals a a refl (inl refl))
          λ _.
            if_cases (λ (t : Pcie × Ram). Signals n a t.0) (bit_and val 2 == 0)
              (λ _. quiet-Signals a b (unfold pending in refl) (inl refl))
              λ _. start-Signals now a b ram (unfold pending in refl) refl
    write_reg-Signals _ val now a ram m v = ground (arith, none_rises (test_bit (pending a) n))

    bar0_write-Signals :
        (o : Option Reg) (a val now : ℕ) (ps : Pcie) (ram : Ram)
        → reg_at a ≡ o
        → ps.msix_enabled ≡ true
        → IsValid ps
        → Signals n ps (bar0_write bus a val now ps ram).0
    unfolding bar0_write
    bar0_write-Signals none a val now ps ram e m v =
        rw (e, bar0_write) (quiet-Signals ps ps refl (inl refl))
    bar0_write-Signals (some r) a val now ps ram e m v =
        rw (e, bar0_write) (write_reg-Signals r val now ps ram m v)

    configure-Signals :
        (a : Pcie) (msix msi bus_master flr : Bool)
        → Signals n a (configure msix msi bus_master flr a)
    unfolding pending
    configure-Signals a msix msi bus_master true = reset-Signals _
    configure-Signals a msix msi bus_master false =
        quiet-Signals a (record a { msix_enabled = msix; msi_enabled = msi; master = bus_master })
          refl (inl refl)

    -- With MSI-X on, every event sends the message of vector `n` exactly when bit `n` of
    -- INT_STATUS & INT_MASK goes from 0 to 1, and then once.
    pub step-Signals :
        (ps : Pcie) (ram : Ram) (e : Event)
        → ps.msix_enabled ≡ true
        → IsValid ps
        → messages n (step bus ps ram e).0.effects
          ≡ messages n ps.effects + one_if (rises n ps (step bus ps ram e).0)
    unfolding step
    step-Signals ps ram (write a val now) m v =
        bar0_write-Signals (reg_at a) a val now ps ram refl m v
    step-Signals ps ram (clock now) m v = unfold run_timer in expire-Signals ps.timer now ps m v
    step-Signals ps ram qdev_reset m v = reset-Signals ps
    step-Signals ps ram (write_config msix msi bus_master flr) m v =
        configure-Signals ps msix msi bus_master flr
