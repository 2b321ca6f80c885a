-- ===== src/Setup/Ledger.antt =====
-- What a driver holds of the kernel while its init function, or its probe function, goes on.
use linux_device_driver.Prelude.{
  ℕ, ◌+◌, ◌≡◌, Bool, true, false, ◌&&◌, Option, none, some, List, [], ◌∷◌, ◌==◌, if◌then◌else◌,
}

-- What there is to hold. A number tells several of a kind apart.
pub data Resource : Type 0 where
  -- memory of the driver, by its place in the driver
  memory : ℕ → Resource
  -- a reference to a device, an enabled PCI device, its regions, a mapping, bus mastering
  device enabled regions mapping master : Resource
  -- coherent DMA memory, interrupt vectors, a handler
  coherent vectors : Resource
  handler : ℕ → Resource
  -- a range of device numbers, a character device, a block major
  numbers : Resource
  node : ℕ → Resource
  -- a range of ports or of I/O memory
  range : Resource
  -- a registered driver, a work queue, a file of /proc
  driver queue : Resource
  file : ℕ → Resource
  -- a tag set, a disk that is allocated, and one that is added
  tags disk added : Resource
  -- a network device that is allocated, and one that is registered
  netdev registered : ℕ → Resource
  -- a terminal driver, and the ports of its lines
  tty port : ℕ → Resource

abbrev code : Resource → ℕ × ℕ
code (memory i) = (0, i)
code device = (1, 0)
code enabled = (2, 0)
code regions = (3, 0)
code mapping = (4, 0)
code master = (5, 0)
code coherent = (6, 0)
code vectors = (7, 0)
code (handler i) = (8, i)
code numbers = (9, 0)
code (node i) = (10, i)
code range = (11, 0)
code driver = (12, 0)
code queue = (13, 0)
code (file i) = (14, i)
code tags = (15, 0)
code disk = (16, 0)
code added = (17, 0)
code (netdev i) = (18, i)
code (registered i) = (19, i)
code (tty i) = (20, i)
code (port i) = (21, i)

abbrev pub same : Resource → Resource → Bool
same r q = (code r).0 == (code q).0 && (code r).1 == (code q).1

-- What is held; `none` once something was given back that was not held.
abbrev pub Ledger : Type 0
Ledger = Option (List Resource)

abbrev pub acquire : Resource → Ledger → Ledger
acquire r none = none
acquire r (some rs) = some (r ∷ rs)

abbrev pub without : Resource → List Resource → Ledger
without r [] = none
without r (q ∷ qs) = if same r q then some qs else acquire q (without r qs)

abbrev pub release : Resource → Ledger → Ledger
release r none = none
release r (some rs) = without r rs

-- `kfree` of a pointer that may be NULL
abbrev pub drop_held : Resource → List Resource → List Resource
drop_held r [] = []
drop_held r (q ∷ qs) = if same r q then qs else q ∷ drop_held r qs

abbrev pub release_if : Resource → Ledger → Ledger
release_if r none = none
release_if r (some rs) = some (drop_held r rs)

-- The error of a set-up: one of the driver's own, or that of the call with this number.
pub data Errno : Type 0 where
  enomem enodev einval ebusy : Errno
  call : ℕ → Errno

-- What a set-up returns, `none` for 0, and what it holds then.
pub record Outcome : Type 0 where
  pub error : Option Errno
  pub held : Ledger

abbrev pub fail : Errno → Ledger → Outcome
fail e l = record { error = some e; held = l }

abbrev pub success : Ledger → Outcome
success l = record { error = none; held = l }

-- Whether the calls of the kernel succeed, by their number in the order of the code.
abbrev pub Luck : Type 0
Luck = ℕ → Bool

abbrev pub all_from : ℕ → ℕ → Luck → Bool
all_from k ℕ.zero luck = true
all_from k (ℕ.suc n) luck = luck k && all_from (k + 1) n luck

-- After an error nothing is held, and nothing was given back that was not held; after a success the removal
-- gives back all, and nothing else.
abbrev pub Clean : (Ledger → Ledger) → Option Errno → Ledger → Type 0
Clean remove (some e) held = held ≡ some []
Clean remove none held = remove held ≡ some []

abbrev pub is_none : Option Errno → Bool
is_none none = true
is_none (some e) = false

-- A set-up of `n` calls that can fail is tidy: it is clean, and succeeds exactly when all of them do.
abbrev pub Tidy : ℕ → (Luck → Outcome) → (Ledger → Ledger) → Type 0
Tidy n init remove =
    (luck : Luck)
    → Clean remove (init luck).error (init luck).held
      × (is_none (init luck).error ≡ all_from 0 n luck)
