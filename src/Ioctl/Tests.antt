-- ===== src/Ioctl/Tests.antt =====
-- examples/07_ioctl/fops.c: the theorems at a device with a page of 16 bytes.
use linux_device_driver.Prelude.{◌%◌, ◌/◌, refl, true, false, [], ◌∷◌, arith}
use linux_device_driver.Ioctl.Device.{Dev, Codes, MsgArg, ioctl, set_default}
use linux_device_driver.Ioctl.Commands.{Holds, Answers, ioctl-Answers}

abbrev twice : Dev
twice = record { howmany = 2; buf_len = 3; buff = 1 ∷ 2 ∷ 3 ∷ 0 ∷ [] }

-- The type of a command is its second byte, the number its first.
abbrev codes : Codes
codes = record {
  ioc_type = λ cmd. cmd / 256 % 256;
  ioc_nr = λ cmd. cmd % 256;
  ioctl_reset = 0x6400;
  ioctl_howmany = 0x6401;
  ioctl_message = 0x4010_6402;
}

abbrev hello : MsgArg
hello = record {
  arg_readable = true;
  negative = false;
  len = 2;
  msg_readable = true;
  landed = 104 ∷ 105 ∷ [];
}

abbrev default_dev : Dev
default_dev = set_default 16

default_dev-Holds : Holds 16 default_dev
unfolding set_default
default_dev-Holds = record { size = refl; fits = omega arith; count = omega arith }

ioctl-Answers_example :
    let t = ioctl codes 16 false 0x4010_6402 0 hello default_dev in
    Answers codes 16 false 0x4010_6402 0 hello default_dev t × Holds 16 t.1
ioctl-Answers_example =
    ioctl-Answers codes 16 false 0x4010_6402 0 hello default_dev default_dev-Holds (omega arith)
      refl
