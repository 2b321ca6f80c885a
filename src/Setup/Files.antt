-- ===== src/Setup/Files.antt =====
-- The set-up and removal of drivers with character devices: examples/23_simple, 24_zero_copy and
-- 25_async_io, whose one device is number 0.
use linux_device_driver.Prelude.{not, some, [], if◌then◌else◌, arith}
use linux_device_driver.Setup.Ledger.{
  memory, numbers, node, queue, Ledger, acquire, release, Errno, enomem, call, Outcome, fail,
  success, Luck, Tidy,
}

-- examples/23_simple/main.c: the pages of the first device are memory 0, the buffer of the second is memory 1.
abbrev simple_err_pages : Errno → Ledger → Outcome
simple_err_pages e l = fail e (release (memory 0) l)

abbrev simple_err_vfree : Errno → Ledger → Outcome
simple_err_vfree e l = simple_err_pages e (release (memory 1) l)

abbrev simple_err_region : Errno → Ledger → Outcome
simple_err_region e l = simple_err_vfree e (release numbers l)

abbrev simple_err_cdev0 : Errno → Ledger → Outcome
simple_err_cdev0 e l = simple_err_region e (release (node 0) l)

unfoldable pub simple_init : Luck → Outcome
simple_init luck =
    let l1 = acquire (memory 0) (some []) in
    let l2 = acquire (memory 1) l1 in
    let l3 = acquire numbers l2 in
    let l4 = acquire (node 0) l3 in
    let l5 = acquire (node 1) l4 in
    if not (luck 0)
    then fail enomem (some [])
    else if not (luck 1)
    then simple_err_pages enomem l1
    else if not (luck 2)
    then simple_err_vfree (call 2) l2
    else if not (luck 3)
    then simple_err_region (call 3) l3
    else if not (luck 4)
    then simple_err_cdev0 (call 4) l4
    else success l5

unfoldable pub simple_exit : Ledger → Ledger
simple_exit l =
    release (memory 0)
      (release (memory 1) (release numbers (release (node 0) (release (node 1) l))))

pub simple-Tidy : Tidy 5 simple_init simple_exit
unfolding simple_init simple_exit
simple-Tidy luck = ground arith

-- examples/24_zero_copy/main.c
abbrev zero_copy_err_unregister : Errno → Ledger → Outcome
zero_copy_err_unregister e l = fail e (release numbers l)

unfoldable pub zero_copy_init : Luck → Outcome
zero_copy_init luck =
    let l1 = acquire numbers (some []) in
    let l2 = acquire (node 0) l1 in
    if not (luck 0)
    then fail (call 0) (some [])
    else if not (luck 1)
    then zero_copy_err_unregister (call 1) l1
    else success l2

unfoldable pub zero_copy_exit : Ledger → Ledger
zero_copy_exit l = release numbers (release (node 0) l)

pub zero_copy-Tidy : Tidy 2 zero_copy_init zero_copy_exit
unfolding zero_copy_init zero_copy_exit
zero_copy-Tidy luck = ground arith

-- examples/25_async_io/main.c: DEV_NR is 1, so that no device is there to delete when the first one fails.
abbrev async_io_err_wq : Errno → Ledger → Outcome
async_io_err_wq e l = fail e (release queue l)

abbrev async_io_err_free : Errno → Ledger → Outcome
async_io_err_free e l = async_io_err_wq e (release (memory 0) l)

abbrev async_io_err_cdev : Errno → Ledger → Outcome
async_io_err_cdev e l = async_io_err_free e (release numbers l)

unfoldable pub async_io_init : Luck → Outcome
async_io_init luck =
    let l1 = acquire queue (some []) in
    let l2 = acquire (memory 0) l1 in
    let l3 = acquire numbers l2 in
    let l4 = acquire (node 0) l3 in
    if not (luck 0)
    then fail enomem (some [])
    else if not (luck 1)
    then async_io_err_wq enomem l1
    else if not (luck 2)
    then async_io_err_free (call 2) l2
    else if not (luck 3)
    then async_io_err_cdev (call 3) l3
    else success l4

unfoldable pub async_io_exit : Ledger → Ledger
async_io_exit l = release queue (release (memory 0) (release numbers (release (node 0) l)))

pub async_io-Tidy : Tidy 4 async_io_init async_io_exit
unfolding async_io_init async_io_exit
async_io-Tidy luck = ground arith
