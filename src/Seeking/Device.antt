-- ===== src/Seeking/Device.antt =====
-- examples/12_seeking/fops.c: positions, reads and seeks of the table of hexadecimal digits.
use linux_device_driver.Prelude.{
  ℕ, ◌+◌, ◌-◌, ◌%◌, ◌^◌, Bool, not, List, [], ltb, if◌then◌else◌, slice, min,
}

-- `loff_t`: `pos n` is n and `negsuc n` is -(n + 1).
pub data Off : Type 0 where
  pos negsuc : ℕ → Off

-- A sum of a position and an offset, before it is cut to 64 bits.
unfoldable pub add_off : ℕ → Off → Off
add_off a (pos b) = pos (a + b)
add_off a (negsuc b) = if ltb b a then pos (a - (b + 1)) else negsuc (b - a)

-- A sum that leaves the positive 64-bit numbers becomes negative.
unfoldable pub to_s64 : Off → Off
to_s64 (negsuc n) = negsuc n
to_s64 (pos n) = if ltb n (2 ^ 63) then pos n else negsuc (2 ^ 64 - 1 - n)

pub data Whence : Type 0 where
  seek_set seek_cur seek_end other : Whence

-- What a call returns.
pub data Ret : Type 0 where
  done : ℕ → Ret
  einval erestartsys efault : Ret

-- `HEX_DICT_LEN`
abbrev pub hex_dict_len : ℕ
hex_dict_len = 16

-- The part of `seeking_read` below the test of the position, at the entry `at` of the table. The memory of
-- the caller takes `able` bytes at most, and a copy of more fails after these.
unfoldable pub read_at : List ℕ → Bool → ℕ → ℕ → ℕ → Off → Ret × List ℕ × Off
read_at buff locked able count at f_pos =
    let n = min count (hex_dict_len - at) in
    if not locked
    then (erestartsys, [], f_pos)
    else if ltb able n
    then (efault, slice at able buff, f_pos)
    else (done n, slice at n buff, pos ((at + n) % hex_dict_len))

-- `seeking_read`: what it returns, the bytes it copies out, the new position.
unfoldable pub read : List ℕ → Bool → ℕ → ℕ → Off → Ret × List ℕ × Off
unfolding read_at
read buff locked able count (negsuc n) = (einval, [], negsuc n)
read buff locked able count (pos n) = read_at buff locked able count (n % hex_dict_len) (pos n)

-- `newpos` of `seeking_llseek`; `f_pos` is the position of the file.
unfoldable pub new_pos : ℕ → Off → Whence → Off
unfolding add_off to_s64
new_pos f_pos off seek_set = off
new_pos f_pos off seek_cur = to_s64 (add_off f_pos off)
new_pos f_pos off seek_end = to_s64 (add_off hex_dict_len off)
new_pos f_pos off other = negsuc 0

unfoldable pub settle : ℕ → Off → Ret × ℕ
settle f_pos (negsuc n) = (einval, f_pos)
settle f_pos (pos n) = (done (n % hex_dict_len), n % hex_dict_len)

-- `seeking_llseek`: what it returns, the new position.
unfoldable pub llseek : ℕ → Off → Whence → Ret × ℕ
unfolding new_pos settle
llseek f_pos off whence = settle f_pos (new_pos f_pos off whence)
