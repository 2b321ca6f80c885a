-- ===== src/Pcie/Signals.antt =====
-- tools/qemu/hw/ldd/pcie.c: which interrupts the device signals, and when.
use linux_device_driver.Prelude.{
  ℕ, zero, suc, ◌+◌, ◌<◌, ◌≡◌, refl, ap, ◌∙◌, Bool, true, false, not, ◌&&◌, List, [], ◌∷◌, ◌++◌,
  arith, ◌==◌, if◌then◌else◌,
}
use linux_device_driver.Prelude.Bits.{test_bit, bit_not, test_bit-bit_and, test_bit-bit_not}
use linux_device_driver.Pcie.State.{Pcie, Effect, msix_notify, msi_notify, set_irq, set_dirty}
use linux_device_driver.Pcie.Irq.{notify_vectors, irq_effects, update_irq, pending, newly_pending}

-- How often the message of MSI-X vector `n` goes out.
pub messages : ℕ → List Effect → ℕ
messages n [] = 0
messages n (msix_notify m ∷ es) = let rest = messages n es in if m == n then suc rest else rest
messages n (msi_notify m ∷ es) = messages n es
messages n (set_irq b ∷ es) = messages n es
messages n (set_dirty a l ∷ es) = messages n es

-- The level of the INTx line, which starts low.
line_from : Bool → List Effect → Bool
line_from b [] = b
line_from b (set_irq c ∷ es) = line_from c es
line_from b (msix_notify m ∷ es) = line_from b es
line_from b (msi_notify m ∷ es) = line_from b es
line_from b (set_dirty a l ∷ es) = line_from b es

pub line : List Effect → Bool
unfolding line_from
line es = line_from false es

pub messages-append :
    (n : ℕ) (es fs : List Effect) → messages n (es ++ fs) ≡ messages n es + messages n fs
unfolding messages
messages-append n [] fs = omega arith
messages-append n (msix_notify m ∷ es) fs = ground (arith, messages-append n es fs)
messages-append n (msi_notify m ∷ es) fs = messages-append n es fs
messages-append n (set_irq b ∷ es) fs = messages-append n es fs
messages-append n (set_dirty a l ∷ es) fs = messages-append n es fs

pub messages-set_irq :
    (n : ℕ) (es : List Effect) (b : Bool) → messages n (es ++ set_irq b ∷ []) ≡ messages n es
unfolding messages
messages-set_irq n es b = omega (arith, messages-append n es (set_irq b ∷ []))

pub messages-set_dirty :
    (n : ℕ) (es : List Effect) (a l : ℕ) → messages n (es ++ set_dirty a l ∷ []) ≡ messages n es
unfolding messages
messages-set_dirty n es a l = omega (arith, messages-append n es (set_dirty a l ∷ []))

line_from-append :
    (b : Bool) (es fs : List Effect) → line_from b (es ++ fs) ≡ line_from (line_from b es) fs
unfolding line_from
line_from-append b [] fs = refl
line_from-append b (set_irq c ∷ es) fs = line_from-append c es fs
line_from-append b (msix_notify m ∷ es) fs = line_from-append b es fs
line_from-append b (msi_notify m ∷ es) fs = line_from-append b es fs
line_from-append b (set_dirty a l ∷ es) fs = line_from-append b es fs

pub line-set_irq : (es : List Effect) (c : Bool) → line (es ++ set_irq c ∷ []) ≡ c
unfolding line
line-set_irq es c = line_from-append false es (set_irq c ∷ [])

pub line-set_dirty : (es : List Effect) (a l : ℕ) → line (es ++ set_dirty a l ∷ []) ≡ line es
unfolding line
line-set_dirty es a l = line_from-append false es (set_dirty a l ∷ [])

abbrev pub one_if : Bool → ℕ
one_if b = if b then 1 else 0

-- The loop over the vectors sends one message for each bit of `new`.
messages-notify_vectors :
    (n new : ℕ) → n < 3 → messages n (notify_vectors new 0 3) ≡ one_if (test_bit new n)
unfolding messages notify_vectors
messages-notify_vectors zero new h = ground arith
messages-notify_vectors (suc zero) new h = ground arith
messages-notify_vectors (suc (suc zero)) new h = ground arith
messages-notify_vectors (suc (suc (suc n))) new h = absurd (omega arith)

-- With MSI-X on, an update sends the message of a vector exactly when its bit is pending and was
-- not signalled before, and records what it has signalled.
pub messages-update_irq :
    (n : ℕ) (ps : Pcie)
    → n < 3
    → ps.msix_enabled ≡ true
    → messages n (update_irq ps).effects
      ≡ messages n ps.effects
        + one_if (test_bit (pending ps) n && not (test_bit ps.regs.irq_sent n))
unfolding update_irq irq_effects newly_pending messages
messages-update_irq n ps h m =
    messages-append n ps.effects (irq_effects ps (pending ps) (newly_pending ps))
    ∙ ap (◌+◌ (messages n ps.effects)) (rw (m, irq_effects) sent)
  where
    sent :
        messages n (set_irq false ∷ notify_vectors (newly_pending ps) 0 3)
        ≡ one_if (test_bit (pending ps) n && not (test_bit ps.regs.irq_sent n))
    sent =
        messages-notify_vectors n (newly_pending ps) h
        ∙ ap one_if (
            test_bit-bit_and n (pending ps) (bit_not 32 ps.regs.irq_sent)
            ∙ ap (◌&&◌ (test_bit (pending ps) n))
                (test_bit-bit_not 32 n ps.regs.irq_sent (omega arith)))

-- Without MSI-X and MSI the line follows whether anything is pending.
pub line-update_irq :
    (ps : Pcie)
    → ps.msix_enabled ≡ false
    → ps.msi_enabled ≡ false
    → line (update_irq ps).effects ≡ not (pending ps == 0)
unfolding update_irq irq_effects
line-update_irq ps x m = rw (x, m, irq_effects) (line-set_irq ps.effects _)
