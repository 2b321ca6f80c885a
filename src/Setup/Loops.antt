-- ===== src/Setup/Loops.antt =====
-- The set-up and removal of drivers that make several devices, files or handlers in a loop:
-- examples/03_scull_basic, 09_pipe_advanced_sleep, 14_jiq and 26_msi_interrupt.
use linux_device_driver.Prelude.{ℕ, zero, suc, ◌+◌, not, some, [], if◌then◌else◌, arith}
use linux_device_driver.Setup.Ledger.{
  memory, enabled, regions, mapping, master, vectors, handler, numbers, node, file, Ledger, acquire,
  release, Errno, enomem, enodev, call, Outcome, fail, success, Luck, Tidy,
}

-- examples/03_scull_basic/main.c and 09_pipe_advanced_sleep/main.c: `scull_destroy_devs` and
-- `pipe_destroy_devs`, of the first `count` devices, the last one first. Device `i` is memory `i` with
-- node `i`.
unfoldable pub destroy_devs : ℕ → Ledger → Ledger
destroy_devs zero l = l
destroy_devs (suc i) l = destroy_devs i (release (memory i) (release (node i) l))

abbrev devs_err_destroy : ℕ → Errno → Ledger → Outcome
devs_err_destroy i e l = fail e (release numbers (destroy_devs i l))

-- The loop from device `i` on, over the `n` devices that are left.
unfoldable pub add_devs : ℕ → ℕ → Luck → Ledger → Outcome
unfolding destroy_devs
add_devs zero i luck l = success l
add_devs (suc n) i luck l =
    let l1 = acquire (memory i) l in
    let others = add_devs n (i + 1) luck (acquire (node i) l1) in
    if not (luck (i + i + 1))
    then devs_err_destroy i enomem l
    else if not (luck (i + i + 2))
    then devs_err_destroy i (call (i + i + 2)) (release (memory i) l1)
    else others

-- `m_init` and `m_exit` of a driver of `n` devices
unfoldable pub devs_init : ℕ → Luck → Outcome
unfolding add_devs
devs_init n luck =
    if not (luck 0) then fail (call 0) (some []) else add_devs n 0 luck (acquire numbers (some []))

unfoldable pub devs_exit : ℕ → Ledger → Ledger
unfolding destroy_devs
devs_exit n l = release numbers (destroy_devs n l)

-- SCULL_NR_DEVS and PIPE_DEV_NR
abbrev pub scull_nr_devs : ℕ
scull_nr_devs = 3

abbrev pub pipe_dev_nr : ℕ
pipe_dev_nr = 4

pub scull-Tidy : Tidy 7 (devs_init scull_nr_devs) (devs_exit scull_nr_devs)
unfolding devs_init devs_exit
scull-Tidy luck = ground arith

pub pipe-Tidy : Tidy 9 (devs_init pipe_dev_nr) (devs_exit pipe_dev_nr)
unfolding devs_init devs_exit
pipe-Tidy luck = ground arith

-- examples/14_jiq/main.c: `remove_files`, and the loop over the four files.
unfoldable pub remove_files : ℕ → Ledger → Ledger
remove_files zero l = l
remove_files (suc count) l = remove_files count (release (file count) l)

unfoldable pub create_files : ℕ → ℕ → Luck → Ledger → Outcome
unfolding remove_files
create_files zero i luck l = success l
create_files (suc n) i luck l =
    let others = create_files n (i + 1) luck (acquire (file i) l) in
    if not (luck (i + 1)) then fail enomem (release (memory 0) (remove_files i l)) else others

unfoldable pub jiq_init : Luck → Outcome
unfolding create_files
jiq_init luck =
    if not (luck 0)
    then fail enomem (some [])
    else create_files 4 0 luck (acquire (memory 0) (some []))

unfoldable pub jiq_exit : Ledger → Ledger
unfolding remove_files
jiq_exit l = release (memory 0) (remove_files 4 l)

pub jiq-Tidy : Tidy 5 jiq_init jiq_exit
unfolding jiq_init jiq_exit
jiq-Tidy luck = ground arith

-- examples/26_msi_interrupt/main.c: `free_irqs`, and the labels of `msi_probe`.
unfoldable pub free_irqs : ℕ → Ledger → Ledger
free_irqs zero l = l
free_irqs (suc n) l = free_irqs n (release (handler n) l)

abbrev msi_err_free : Errno → Ledger → Outcome
msi_err_free e l = fail e (release (memory 0) l)

abbrev msi_err_disable : Errno → Ledger → Outcome
msi_err_disable e l = msi_err_free e (release enabled l)

abbrev msi_err_regions : Errno → Ledger → Outcome
msi_err_regions e l = msi_err_disable e (release regions l)

abbrev msi_err_unmap : Errno → Ledger → Outcome
msi_err_unmap e l = msi_err_regions e (release mapping l)

abbrev msi_err_master : Errno → Ledger → Outcome
msi_err_master e l = msi_err_unmap e (release master l)

abbrev msi_err_vectors : Errno → Ledger → Outcome
msi_err_vectors e l = msi_err_master e (release vectors l)

-- The loop over the vectors, whose calls come behind the first six.
unfoldable pub request_irqs : ℕ → ℕ → Luck → Ledger → Outcome
unfolding free_irqs
request_irqs zero i luck l = success l
request_irqs (suc n) i luck l =
    let others = request_irqs n (i + 1) luck (acquire (handler i) l) in
    if not (luck (i + 6)) then msi_err_vectors (call (i + 6)) (free_irqs i l) else others

-- `msi_probe` where `alloc_vectors`, the sixth call, gives `nvec` vectors; the fifth reads the identity.
unfoldable pub msi_init : ℕ → Luck → Outcome
unfolding request_irqs
msi_init nvec luck =
    let l1 = acquire (memory 0) (some []) in
    let l2 = acquire enabled l1 in
    let l3 = acquire regions l2 in
    let l4 = acquire mapping l3 in
    let l5 = acquire master l4 in
    let l6 = acquire vectors l5 in
    if not (luck 0)
    then fail enomem (some [])
    else if not (luck 1)
    then msi_err_free (call 1) l1
    else if not (luck 2)
    then msi_err_disable (call 2) l2
    else if not (luck 3)
    then msi_err_regions enomem l3
    else if not (luck 4)
    then msi_err_unmap enodev l4
    else if not (luck 5)
    then msi_err_master (call 5) l5
    else request_irqs nvec 0 luck l6

unfoldable pub msi_exit : ℕ → Ledger → Ledger
unfolding free_irqs
msi_exit nvec l = release (memory 0) (
    release enabled
      (release regions (release mapping (release master (release vectors (free_irqs nvec l))))))

-- With one vector, and with one for each of the three events.
pub msi-Tidy : Tidy 7 (msi_init 1) (msi_exit 1)
unfolding msi_init msi_exit
msi-Tidy luck = ground arith

pub msix-Tidy : Tidy 9 (msi_init 3) (msi_exit 3)
unfolding msi_init msi_exit
msix-Tidy luck = ground arith
