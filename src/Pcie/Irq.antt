-- ===== src/Pcie/Irq.antt =====
-- tools/qemu/hw/ldd/pcie.c: `ldd_pcie_update_irq` and `ldd_pcie_reset`.
use linux_device_driver.Prelude.{
  ℕ, zero, suc, ◌+◌, false, not, none, List, [], ◌∷◌, ◌++◌, bit_and, ◌==◌, if◌then◌else◌,
}
use linux_device_driver.Prelude.Bits.{test_bit, bit_not}
use linux_device_driver.Pcie.State.{
  Pcie, Effect, msix_notify, msi_notify, set_irq, msix_vectors, zero_regs,
}

-- The `for` loop over `n` vectors from `i` on: a message for each bit of `new`.
unfoldable pub notify_vectors : ℕ → ℕ → ℕ → List Effect
notify_vectors new i zero = []
notify_vectors new i (suc n) =
    let rest = notify_vectors new (i + 1) n in if test_bit new i then msix_notify i ∷ rest else rest

unfoldable pub irq_effects : Pcie → ℕ → ℕ → List Effect
irq_effects ps pending new =
    if ps.msix_enabled
    then set_irq false ∷ notify_vectors new 0 msix_vectors
    else if ps.msi_enabled
    then set_irq false ∷ (if new == 0 then [] else msi_notify 0 ∷ [])
    else set_irq (not (pending == 0)) ∷ []

unfoldable pub pending : Pcie → ℕ
pending ps = bit_and ps.regs.int_status ps.regs.int_mask

unfoldable pub newly_pending : Pcie → ℕ
unfolding pending
newly_pending ps = bit_and (pending ps) (bit_not 32 ps.regs.irq_sent)

unfoldable pub update_irq : Pcie → Pcie
unfolding pending newly_pending
update_irq ps = record ps {
  regs = record r { irq_sent = pending ps };
  effects = ps.effects ++ irq_effects ps (pending ps) (newly_pending ps);
}
  where
    open ps use {regs as r}

unfoldable pub reset : Pcie → Pcie
reset ps = record ps { timer = none; regs = zero_regs; effects = ps.effects ++ set_irq false ∷ [] }
