-- ===== src/Pipe/Tests.antt =====
-- examples/09_pipe_advanced_sleep/fops.c: the theorems at a pipe with one reader and one writer.
use linux_device_driver.Prelude.{ℕ, ◌≡◌, refl, true, false, none, List, [], ◌∷◌, replicate, arith}
use linux_device_driver.Pipe.Device.{
  Pipe, reader, writer, trying, fine, Luck, run, step, step_of, act, lock, transfer, read_bytes,
  write_bytes, wake,
}
use linux_device_driver.Pipe.Order.{Flow, run-Flow}
use linux_device_driver.Pipe.Threads.{NoLost}
use linux_device_driver.Pipe.Wake.{run-NoLost}

abbrev quiet : Pipe
quiet = record {
  buff_len = 0;
  rd_pos = 0;
  buff = replicate 8 0;
  owner = none;
  threads =
      record { kind = reader; nonblock = false; count = 4; request = []; pc = trying; awake = true }
      ∷ record {
        kind = writer;
        nonblock = false;
        count = 0;
        request = 5 ∷ 6 ∷ [];
        pc = trying;
        awake = true;
      }
      ∷ [];
  taken_in = [];
  given_out = [];
}

-- The reader finds nothing, prepares to sleep and tests again; the writer writes in between and wakes
-- it up; then the reader reads.
abbrev schedule : List (ℕ × Luck)
schedule =
    (0, fine)
    ∷ (0, fine)
    ∷ (0, fine)
    ∷ (0, fine)
    ∷ (1, fine)
    ∷ (1, fine)
    ∷ (1, fine)
    ∷ (1, fine)
    ∷ (0, fine)
    ∷ (0, fine)
    ∷ (0, fine)
    ∷ (0, fine)
    ∷ []

delivered : (run schedule quiet).given_out ≡ 5 ∷ 6 ∷ []
unfolding run step step_of act lock transfer read_bytes write_bytes wake
delivered = refl

run-Flow_example : Flow (run schedule quiet)
run-Flow_example = run-Flow schedule quiet (refl, omega arith, omega arith, refl)

run-NoLost_example : NoLost reader (run schedule quiet)
run-NoLost_example = run-NoLost reader schedule quiet (λ a b. absurd (cc))
