-- ===== src/Seeking/Tests.antt =====
-- examples/12_seeking/fops.c: the theorems at the table of the driver.
use linux_device_driver.Prelude.{ℕ, ◌≡◌, refl, true, List, [], ◌∷◌, arith}
use linux_device_driver.Seeking.Device.{
  pos, negsuc, done, einval, efault, read_at, seek_cur, seek_end, read, llseek, new_pos, settle,
  add_off, to_s64,
}
use linux_device_driver.Seeking.Circle.{Turns, read-Turns, Seeks, llseek-Seeks}

-- "0123456789ABCDEF"
abbrev digits : List ℕ
digits = 48 ∷ 49 ∷ 50 ∷ 51 ∷ 52 ∷ 53 ∷ 54 ∷ 55 ∷ 56 ∷ 57 ∷ 65 ∷ 66 ∷ 67 ∷ 68 ∷ 69 ∷ 70 ∷ []

read-Turns_example :
    Turns digits true 3 4 30 2 (read digits true 3 4 (pos 30))
    × (read digits true 3 4 (negsuc 30) ≡ (einval, [], negsuc 30))
read-Turns_example = read-Turns digits true 3 4 30 refl

-- One entry of two was copied before the fault.
faulted : read digits true 1 4 (pos 30) ≡ (efault, 69 ∷ [], pos 30)
unfolding read read_at
faulted = refl

from_the_end : llseek 3 (negsuc 1) seek_end ≡ (done 14, 14)
unfolding llseek new_pos settle add_off to_s64
from_the_end = refl

llseek-Seeks_example : Seeks 3 (negsuc 1) seek_cur (llseek 3 (negsuc 1) seek_cur)
llseek-Seeks_example = llseek-Seeks 3 (negsuc 1) seek_cur (omega arith) (omega arith)
