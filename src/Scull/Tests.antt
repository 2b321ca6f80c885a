-- ===== src/Scull/Tests.antt =====
-- examples/03_scull_basic/fops.c: the theorems at a device with blocks of four bytes.
use linux_device_driver.Prelude.{ℕ, ◌≡◌, refl, true, List, [], ◌∷◌, arith}
use linux_device_driver.Scull.Device.{Dev, done, init_dev, read, write}
use linux_device_driver.Scull.Blocks.{IsValid}
use linux_device_driver.Scull.Cells.{Wrote}
use linux_device_driver.Scull.Write.{write-Wrote}
use linux_device_driver.Scull.Read.{read-Reads, Reads}
use linux_device_driver.Scull.Loops.{identity_user, identity-UserLaws, write_all, read_all}
use linux_device_driver.Scull.Copy.{read_all-write_all}

init_dev-IsValid : IsValid 4 init_dev
init_dev-IsValid = record { counted = refl; blocks = tt }

abbrev text : List ℕ
text = 10 ∷ 11 ∷ 12 ∷ 13 ∷ 14 ∷ 15 ∷ []

-- A write stops at the end of its block.
write_short : (write 4 identity_user true 2 text 2 init_dev).0 ≡ done 2
unfolding write
write_short = refl

write-Wrote_example :
    let t = write 4 identity_user true 1 text 2 init_dev in
    Wrote 4 1 2 text init_dev t × IsValid 4 t.2
write-Wrote_example =
    write-Wrote 4 identity_user (identity-UserLaws 4) (omega arith) 1 2 text true init_dev
      init_dev-IsValid

abbrev written : Dev
written = (write 4 identity_user true 1 text 2 init_dev).2

written-IsValid : IsValid 4 written
written-IsValid =
    (write-Wrote 4 identity_user (identity-UserLaws 4) (omega arith) 1 2 text true init_dev
      init_dev-IsValid).1

read-Reads_example : Reads 4 true 8 8 2 written (read 4 true 8 8 2 written)
read-Reads_example = read-Reads 4 true 8 8 2 written (omega arith) written-IsValid

read_all-write_all_example : read_all 4 7 3 0 (write_all 4 6 text 0 init_dev) ≡ text
read_all-write_all_example = read_all-write_all 4 (omega arith) 3 text (omega arith)
