-- ===== src/Ioctl/Commands.antt =====
-- examples/07_ioctl/fops.c: the commands on each of their returns.
use linux_device_driver.Prelude.{
  ℕ, ◌-◌, ◌≡◌, ◌≤◌, ◌⊎◌, inl, inr, refl, ◌∙◌, sym, ap, Bool, true, not, ◌||◌, List, ltb, ==→eq,
  ◌==◌, if_cases, length, length-blit, length-replicate, take, blit, slice-blit_self, take-blit,
  replicate, arith,
}
use linux_device_driver.Ioctl.Device.{
  Dev, Ret, done, efault, default_message, set_default, int_max, set_howmany, MsgArg, set_message,
  Codes, ioc_magic, ioctl_maxnr, ioctl,
}

-- The buffer is a page, the message lies in it, and the count is an `int`.
pub record Holds (buff_size : ℕ) (dev : Dev) : Type 0 where
  pub size : length dev.buff ≡ buff_size
  pub fits : dev.buf_len ≤ buff_size
  pub count : dev.howmany ≤ int_max

-- Which part of the device a command may change, by what it returns: none if it refuses the command,
-- the permission or a value; after a fault the bytes of the buffer, but neither the length nor the
-- count; and on success the count, or the message, or all.
abbrev pub Answers : Codes → ℕ → Bool → ℕ → ℕ → MsgArg → Dev → Ret × Dev → Type 0
Answers codes buff_size capable cmd value arg dev (done n, dev') =
    ((cmd ≡ codes.ioctl_reset) × (dev' ≡ set_default buff_size))
    ⊎ (((cmd ≡ codes.ioctl_howmany)
          × (n ≡ dev.howmany)
          × (dev' ≡ record dev { howmany = value })
          × (capable ≡ true))
        ⊎ ((cmd ≡ codes.ioctl_message)
            × (dev'.howmany ≡ dev.howmany)
            × (dev'.buf_len ≡ arg.len)
            × (take arg.len dev'.buff ≡ arg.landed)))
Answers codes buff_size capable cmd value arg dev (efault, dev') =
    (dev'.howmany ≡ dev.howmany) × (dev'.buf_len ≡ dev.buf_len)
Answers codes buff_size capable cmd value arg dev (_, dev') = dev' ≡ dev

take-blit_front : (xs ys : List ℕ) → length ys ≤ length xs → take (length ys) (blit xs 0 ys) ≡ ys
take-blit_front xs ys h = slice-blit_self xs 0 ys (omega arith)

module _ (codes : Codes) (buff_size : ℕ) (capable : Bool) (cmd value : ℕ) (arg : MsgArg)
    (dev : Dev) where
  abbrev Good : Ret × Dev → Type 0
  Good t = Answers codes buff_size capable cmd value arg dev t × Holds buff_size t.1

  howmany-Good :
      Holds buff_size dev → cmd ≡ codes.ioctl_howmany → Good (set_howmany capable value dev)
  unfolding set_howmany
  howmany-Good h e =
      if_cases Good (not capable) (λ _. (refl, h))
        λ c.
          if_cases Good (ltb int_max value) (λ _. (refl, h))
            λ b. (
              inr (inl (e, refl, refl, ground arith)),
              record { size = h.size; fits = h.fits; count = ground arith },
            )

  message-Good :
      Holds buff_size dev
      → cmd ≡ codes.ioctl_message
      → length arg.landed ≡ arg.len
      → Good (set_message buff_size arg dev)
  unfolding set_message
  message-Good h e landed =
      let once = length-blit dev.buff 0 arg.landed in
      if_cases Good (not arg.arg_readable) (λ _. ((refl, refl), h))
        λ _.
          if_cases Good (arg.negative || ltb buff_size arg.len) (λ _. (refl, h))
            λ ok.
              if_cases Good (not arg.msg_readable)
                (λ _.
                  ((refl, refl), record { size = once ∙ h.size; fits = h.fits; count = h.count }))
                λ _. (
                  inr (
                      inr (
                        e,
                        refl,
                        refl,
                        take-blit (blit dev.buff 0 arg.landed) arg.len _
                            ∙ ap (λ n. take n (blit dev.buff 0 arg.landed)) (sym landed)
                            ∙ take-blit_front dev.buff arg.landed (ground (arith, landed, h.size)),
                      )),
                  record {
                    size =
                        length-blit (blit dev.buff 0 arg.landed) arg.len
                          (replicate (buff_size - arg.len) 0)
                        ∙ once
                        ∙ h.size;
                    fits = ground arith;
                    count = h.count;
                  },
                )

  -- On a valid device a command that is refused, for its code, the permission or a value, changes
  -- nothing; one that faults may change bytes of the buffer, but neither the length nor the count. A
  -- command that succeeds is one of the three: it restores the defaults, sets the count, with the
  -- permission and returning the old one, or makes the user's bytes the message. The device stays
  -- valid. The defaults are taken to fit in a page.
  pub ioctl-Answers :
      Holds buff_size dev
      → length default_message ≤ buff_size
      → length arg.landed ≡ arg.len
      → Good (ioctl codes buff_size capable cmd value arg dev)
  unfolding ioctl set_default
  ioctl-Answers h page landed =
      if_cases Good (not (codes.ioc_type cmd == ioc_magic)) (λ _. (refl, h))
        λ _.
          if_cases Good (ltb ioctl_maxnr (codes.ioc_nr cmd)) (λ _. (refl, h))
            λ _.
              if_cases Good (cmd == codes.ioctl_reset)
                (λ e. (
                  inl (==→eq cmd codes.ioctl_reset e, refl),
                  record {
                    size =
                        length-blit (replicate buff_size 0) 0 default_message
                        ∙ length-replicate buff_size 0;
                    fits = page;
                    count = omega arith;
                  },
                ))
                λ _.
                  if_cases Good (cmd == codes.ioctl_howmany)
                    (λ e. howmany-Good h (==→eq cmd codes.ioctl_howmany e))
                    λ _.
                      if_cases Good (cmd == codes.ioctl_message)
                        (λ e. message-Good h (==→eq cmd codes.ioctl_message e) landed)
                        λ _. (refl, h)
