-- ===== src/AsyncIo/Tests.antt =====
-- examples/25_async_io: a write that is deferred, a read of a part, and the completion.
use linux_device_driver.Prelude.{ℕ, ◌+◌, ◌≤◌, ◌≡◌, refl, true, false, List, [], ◌∷◌, ◌++◌, Bool}
use linux_device_driver.AsyncIo.Device.{
  buff_size, Ret, done, read, write, Call, Step, submits, completes, run, do_read, do_write,
}
use linux_device_driver.AsyncIo.Ring.{contents}
use linux_device_driver.AsyncIo.Answers.{results, tally, times, waits}
use linux_device_driver.AsyncIo.Fifo.{created, run-Fifo}

abbrev put_three : Call
put_three = record {
  request = write (7 ∷ 8 ∷ 9 ∷ []);
  sync = false;
  memory = true;
  locked = true;
  able = 10;
}

abbrev get_two : Call
get_two = record { request = read 2; sync = true; memory = true; locked = true; able = 10 }

abbrev steps : List Step
steps = submits put_three ∷ submits get_two ∷ completes 0 ∷ []

told_both : (run steps created).told ≡ (1, done 2) ∷ (0, done 3) ∷ []
unfolding run do_read do_write
told_both = refl

run-Fifo_example :
    (let s = run steps created in
      (s.out ++ contents s.dev ≡ s.taken)
      × (s.dev.len ≤ buff_size)
      × ((p : ℕ → Ret → Bool)
          → times p s.told + waits p s.works ≡ tally p 0 (results steps created)))
run-Fifo_example = run-Fifo steps
