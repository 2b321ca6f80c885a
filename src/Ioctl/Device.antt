-- ===== src/Ioctl/Device.antt =====
-- examples/07_ioctl/fops.c: the message device, its reads and its commands.
use linux_device_driver.Prelude.{
  ℕ, ◌+◌, ◌-◌, ◌/◌, ◌%◌, ◌^◌, Bool, not, ◌||◌, List, [], ◌∷◌, ltb, leb, ◌==◌, if◌then◌else◌, length,
  slice, blit, replicate, min,
}

-- `struct ioctl_dev`, without the lock, which every operation holds
pub record Dev : Type 0 where
  pub howmany : ℕ
  pub buf_len : ℕ
  pub buff : List ℕ

-- What a call returns: a number, or an error.
pub data Ret : Type 0 where
  done : ℕ → Ret
  efault eperm einval enotty : Ret

-- `DEFAULT_HOWMANY` and `DEFAULT_MESSAGE`, "Hello ioctl()!" and a newline
abbrev pub default_howmany : ℕ
default_howmany = 3

abbrev pub default_message : List ℕ
default_message =
    72 ∷ 101 ∷ 108 ∷ 108 ∷ 111 ∷ 32 ∷ 105 ∷ 111 ∷ 99 ∷ 116 ∷ 108 ∷ 40 ∷ 41 ∷ 33 ∷ 10 ∷ []

-- `ioctl_dev_set_default`; `buff_size` is `BUFF_SIZE`, the size of a page.
unfoldable pub set_default : ℕ → Dev
set_default buff_size = record {
  howmany = default_howmany;
  buf_len = length default_message;
  buff = blit (replicate buff_size 0) 0 default_message;
}

-- `ioctl_read` at position `pos`: what it returns, the bytes it copies out, the new position.
unfoldable pub read : Bool → ℕ → ℕ → Dev → Ret × List ℕ × ℕ
read copied count pos dev =
    let offset = pos % dev.buf_len in
    let n = min count (dev.buf_len - offset) in
    if dev.buf_len == 0
    then (done 0, [], pos)
    else if leb dev.howmany (pos / dev.buf_len)
    then (done 0, [], pos)
    else if not copied
    then (efault, [], pos)
    else (done n, slice offset n dev.buff, pos + n)

-- `INT_MAX`
abbrev pub int_max : ℕ
int_max = 2 ^ 31 - 1

-- `capable` says whether the caller has `CAP_SYS_ADMIN`.
unfoldable pub set_howmany : Bool → ℕ → Dev → Ret × Dev
set_howmany capable arg dev =
    if not capable
    then (eperm, dev)
    else if ltb int_max arg
    then (einval, dev)
    else (done dev.howmany, record dev { howmany = arg })

-- `struct ioctl_msg_arg` as `copy_from_user` finds it: whether it is readable, whether its length is
-- negative and else what it is, and for the message whether it is readable, and the bytes that land.
pub record MsgArg : Type 0 where
  pub arg_readable : Bool
  pub negative : Bool
  pub len : ℕ
  pub msg_readable : Bool
  pub landed : List ℕ

unfoldable pub set_message : ℕ → MsgArg → Dev → Ret × Dev
set_message buff_size arg dev =
    if not arg.arg_readable
    then (efault, dev)
    else if arg.negative || ltb buff_size arg.len
    then (einval, dev)
    else if not arg.msg_readable
    then (efault, record dev { buff = blit dev.buff 0 arg.landed })
    else (
      done 0,
      record dev {
        buff = blit (blit dev.buff 0 arg.landed) arg.len (replicate (buff_size - arg.len) 0);
        buf_len = arg.len;
      },
    )

-- The encoding of commands (`_IO`, `_IOW`, `_IOC_TYPE`, `_IOC_NR`), and the three commands in it.
pub record Codes : Type 0 where
  pub ioc_type : ℕ → ℕ
  pub ioc_nr : ℕ → ℕ
  pub ioctl_reset : ℕ
  pub ioctl_howmany : ℕ
  pub ioctl_message : ℕ

abbrev pub ioc_magic : ℕ
ioc_magic = 0x64

abbrev pub ioctl_maxnr : ℕ
ioctl_maxnr = 2

-- `ioctl_ioctl`; `value` and `arg` are what the argument is as a number and as a pointer.
unfoldable pub ioctl : Codes → ℕ → Bool → ℕ → ℕ → MsgArg → Dev → Ret × Dev
unfolding set_howmany set_message set_default
ioctl codes buff_size capable cmd value arg dev =
    if not (codes.ioc_type cmd == ioc_magic)
    then (enotty, dev)
    else if ltb ioctl_maxnr (codes.ioc_nr cmd)
    then (enotty, dev)
    else if cmd == codes.ioctl_reset
    then (done 0, set_default buff_size)
    else if cmd == codes.ioctl_howmany
    then set_howmany capable value dev
    else if cmd == codes.ioctl_message
    then set_message buff_size arg dev
    else (enotty, dev)
