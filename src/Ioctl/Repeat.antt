-- ===== src/Ioctl/Repeat.antt =====
-- examples/07_ioctl/fops.c: reading the device to its end gives the message as often as it is set to.
use linux_device_driver.Prelude.{
  ℕ, zero, suc, ◌+◌, ◌*◌, ◌≡◌, ◌≤◌, ◌<◌, true, List, [], ◌++◌, ◌==◌, if◌then◌else◌, length, take,
  get_elem?,
}
use linux_device_driver.Ioctl.Device.{Dev, Ret, read}

-- The message `n` times.
unfoldable pub repeat : ℕ → List ℕ → List ℕ
repeat zero m = []
repeat (suc n) m = m ++ repeat n m

-- Read `count` bytes at a time until nothing comes.
unfoldable pub read_all : ℕ → ℕ → ℕ → Dev → List ℕ
read_all zero count pos dev = []
read_all (suc fuel) count pos dev =
    let (r, out, pos') = read true count pos dev in
    let rest = read_all fuel count pos' dev in if length out == 0 then [] else out ++ rest

abbrev pub message : Dev → List ℕ
message dev = take dev.buf_len dev.buff

pub record IsValid (dev : Dev) : Type 0 where
  pub fits : dev.buf_len ≤ length dev.buff

-- What a read gives: nothing at the end, else bytes of the repeated message.
abbrev Reads : ℕ → ℕ → Dev → Ret × List ℕ × ℕ → Type 0
Reads count pos dev (r, out, pos') =
    (pos' ≡ pos + length out)
    × (length out ≡ 0 → dev.howmany * dev.buf_len ≤ pos)
    × (0 < length out → pos + length out ≤ dev.howmany * dev.buf_len)
    × ((j : ℕ)
        → j < length out
        → get_elem? out j ≡ get_elem? (repeat dev.howmany (message dev)) (pos + j))
