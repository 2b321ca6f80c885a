-- ===== src/Setup/Parts.antt =====
-- The set-up and removal of drivers that make their devices in a function of their own:
-- examples/29_block_device, 30_netdev and 31_tty.
use linux_device_driver.Prelude.{
  ℕ, zero, suc, ◌+◌, Bool, true, false, not, Option, some, none, [], if◌then◌else◌, arith,
}
use linux_device_driver.Setup.Ledger.{
  memory, numbers, driver, tags, disk, added, netdev, registered, tty, port, Ledger, acquire,
  release, Errno, enomem, einval, call, Outcome, fail, success, Luck, Tidy,
}

-- examples/29_block_device/main.c: `memdisk_create_disk`, whose first call is number 4, and
-- `memdisk_destroy_disk`. `mq` is whether `request_mode` is not RM_NOQUEUE.
abbrev err_tags : Bool → Errno → Ledger → Outcome
err_tags mq e l = fail e (if mq then release tags l else l)

unfoldable pub add_disk_to : Bool → ℕ → Luck → Ledger → Outcome
add_disk_to mq k luck l =
    let l1 = acquire disk l in
    if not (luck k)
    then err_tags mq (call k) l
    else if not (luck (k + 1))
    then err_tags mq (call (k + 1)) (release disk l1)
    else success (acquire added l1)

unfoldable pub create_disk : Bool → Luck → Ledger → Outcome
unfolding add_disk_to
create_disk mq luck l =
    if mq
    then (if not (luck 4) then fail (call 4) l else add_disk_to mq 5 luck (acquire tags l))
    else add_disk_to mq 4 luck l

unfoldable pub destroy_disk : Bool → Ledger → Ledger
destroy_disk mq l = let l1 = release disk (release added l) in if mq then release tags l1 else l1

abbrev block_err_free : Errno → Ledger → Outcome
block_err_free e l = fail e (release (memory 0) l)

abbrev block_err_vfree : Errno → Ledger → Outcome
block_err_vfree e l = block_err_free e (release (memory 1) l)

abbrev block_err_major : Errno → Ledger → Outcome
block_err_major e l = block_err_vfree e (release numbers l)

-- What `m_init` makes of the result of `memdisk_create_disk`.
abbrev block_created : Option Errno → Ledger → Outcome
block_created none l = success l
block_created (some e) l = block_err_major e l

-- `m_init`, whose first call is the test of the parameters, and `m_exit`. The major is `numbers`.
unfoldable pub block_init : Bool → Luck → Outcome
unfolding create_disk
block_init mq luck =
    let l1 = acquire (memory 0) (some []) in
    let l2 = acquire (memory 1) l1 in
    let l3 = acquire numbers l2 in
    let r = create_disk mq luck l3 in
    if not (luck 0)
    then fail einval (some [])
    else if not (luck 1)
    then fail enomem (some [])
    else if not (luck 2)
    then block_err_free enomem l1
    else if not (luck 3)
    then block_err_vfree (call 3) l2
    else block_created r.error r.held

unfoldable pub block_exit : Bool → Ledger → Ledger
unfolding destroy_disk
block_exit mq l = release (memory 0) (release (memory 1) (release numbers (destroy_disk mq l)))

pub block_mq-Tidy : Tidy 7 (block_init true) (block_exit true)
unfolding block_init block_exit
block_mq-Tidy luck = ground arith

pub block_bio-Tidy : Tidy 6 (block_init false) (block_exit false)
unfolding block_init block_exit
block_bio-Tidy luck = ground arith

-- examples/30_netdev/main.c: `ldd_create` of device `i`, whose first call is number `k`. The packets of
-- device `i` are memory `i`.
abbrev net_err_free : ℕ → Errno → Ledger → Outcome
net_err_free i e l = fail e (release (netdev i) l)

abbrev net_err_pool : ℕ → Errno → Ledger → Outcome
net_err_pool i e l = net_err_free i e (release (memory i) l)

unfoldable pub ldd_create : ℕ → ℕ → Luck → Ledger → Outcome
ldd_create i k luck l =
    let l1 = acquire (netdev i) l in
    let l2 = acquire (memory i) l1 in
    if not (luck k)
    then fail enomem l
    else if not (luck (k + 1))
    then net_err_free i enomem l1
    else if not (luck (k + 2))
    then net_err_pool i (call (k + 2)) l2
    else success (acquire (registered i) l2)

-- `ldd_destroy` of no device, of the first, and of both.
unfoldable pub ldd_destroy : ℕ → Ledger → Ledger
ldd_destroy zero l = l
ldd_destroy (suc zero) l = release (netdev 0) (release (memory 0) (release (registered 0) l))
ldd_destroy (suc (suc n)) l = release (netdev 1) (
    release (memory 1)
      (release (netdev 0) (release (memory 0) (release (registered 1) (release (registered 0) l)))))

abbrev net_second : Option Errno → Ledger → Outcome
net_second none l = success l
net_second (some e) l = fail e (ldd_destroy 1 l)

abbrev net_first : Option Errno → Ledger → Luck → Outcome
net_first none l luck = let r = ldd_create 1 4 luck l in net_second r.error r.held
net_first (some e) l luck = fail e (ldd_destroy 0 l)

-- `m_init`, whose first call is the test of the pool size, and `m_exit`.
unfoldable pub net_init : Luck → Outcome
unfolding ldd_create ldd_destroy
net_init luck =
    let r = ldd_create 0 1 luck (some []) in
    if not (luck 0) then fail einval (some []) else net_first r.error r.held luck

unfoldable pub net_exit : Ledger → Ledger
unfolding ldd_destroy
net_exit l = ldd_destroy 2 l

pub net-Tidy : Tidy 7 net_init net_exit
unfolding net_init net_exit
net-Tidy luck = ground arith

-- examples/31_tty/main.c: the ports of the `n` lines, which `tty_port_init` cannot fail to make.
unfoldable pub init_ports : ℕ → ℕ → Ledger → Ledger
init_ports zero i l = l
init_ports (suc n) i l = init_ports n (i + 1) (acquire (port i) l)

unfoldable pub destroy_ports : ℕ → ℕ → Ledger → Ledger
destroy_ports zero i l = l
destroy_ports (suc n) i l = destroy_ports n (i + 1) (release (port i) l)

-- LDD_TTY_MINOR_NR
abbrev pub ldd_tty_minor_nr : ℕ
ldd_tty_minor_nr = 4

abbrev tty_err_driver : Errno → Ledger → Outcome
tty_err_driver e l = fail e (release (tty 0) l)

abbrev tty_err_ports : Errno → Ledger → Outcome
tty_err_ports e l = tty_err_driver e (release (memory 0) (destroy_ports ldd_tty_minor_nr 0 l))

unfoldable pub tty_init : Luck → Outcome
unfolding init_ports destroy_ports
tty_init luck =
    let l1 = acquire (tty 0) (some []) in
    let l2 = init_ports ldd_tty_minor_nr 0 (acquire (memory 0) l1) in
    if not (luck 0)
    then fail (call 0) (some [])
    else if not (luck 1)
    then tty_err_driver enomem l1
    else if not (luck 2)
    then tty_err_ports (call 2) l2
    else success (acquire driver l2)

unfoldable pub tty_exit : Ledger → Ledger
unfolding destroy_ports
tty_exit l =
    release (tty 0) (release (memory 0) (destroy_ports ldd_tty_minor_nr 0 (release driver l)))

pub tty-Tidy : Tidy 3 tty_init tty_exit
unfolding tty_init tty_exit
tty-Tidy luck = ground arith
