-- ===== src/Fs/Pipe/Tests.antt =====
-- The theorems on src/fs/pipe.c at concrete pipes.
use unstable_os.Base.{
  List, [], arith, drop, false, ok, refl, replicate, set, take, true, ◌++◌, ◌∷◌, ◌≡◌, ◌≢◌,
}
use unstable_os.Fs.Pipe.{
  Pipe, View, Wake, done, out_of_fuel, pipe_buf, remain, wake_reader, wake_writer,
}
use unstable_os.Fs.Pipe.Ring.{IsValid, contents}
use unstable_os.Fs.Pipe.Write.{Writable, pipe_write, pipe_write_fits}
use unstable_os.Fs.Pipe.Read.{Readable, pipe_read, pipe_read_enough}
use unstable_os.Fs.Pipe.Schedule.{AllValid, Keeps, pipe_read-Keeps, pipe_write-Keeps}

-- The bytes 7 and 8 lie across the end of the storage.
abbrev wrapped : Pipe
wrapped = record {
  pipe_fifo = set (set (replicate pipe_buf 0) 2047 7) 0 8;
  head = 2047;
  tail = 1;
  readers = 1;
  writers = 1;
  named_wait = false;
}

wrapped-IsValid : IsValid wrapped
wrapped-IsValid = record { storage = refl; head_in = omega arith; tail_in = omega arith }

abbrev view : Pipe → View
view p = record { pipe = p; signal = false; effects = [] }

wrapped-remain : remain wrapped ≡ 2
unfolding remain
wrapped-remain = refl

wrapped-Writable : Writable wrapped
wrapped-Writable = record { ring = wrapped-IsValid; opened = refl; read_end = omega arith }

wrapped-Readable : Readable wrapped
wrapped-Readable = record { ring = wrapped-IsValid; opened = refl }

pipe_write_fits_example :
    (v' : View) × (pipe_write (5 ∷ 6 ∷ []) [] (view wrapped) ≡ done (ok 2) v' [])
    × (contents v'.pipe ≡ contents wrapped ++ (5 ∷ 6 ∷ []))
    × Writable v'.pipe
    × (v'.effects ≡ wake_reader ∷ [])
pipe_write_fits_example =
    pipe_write_fits 5 (6 ∷ []) [] (view wrapped) wrapped-Writable (omega (arith, wrapped-remain))

-- One byte below the limit.
abbrev nearly_full : Pipe
nearly_full = record wrapped { head = 3; tail = 1 }

nearly_full-Writable : Writable nearly_full
nearly_full-Writable = record {
  ring = record { storage = refl; head_in = omega arith; tail_in = omega arith };
  opened = refl;
  read_end = omega arith;
}

nearly_full-remain : remain nearly_full ≡ 2046
unfolding remain
nearly_full-remain = refl

abbrev unread : Pipe
unread = record wrapped { readers = 0 }

pipe_read_enough_example :
    (v' : View) × (pipe_read 1 [] (view wrapped) ≡ done (ok 1, take 1 (contents wrapped)) v' [])
    × (contents v'.pipe ≡ drop 1 (contents wrapped))
    × Readable v'.pipe
    × (v'.effects ≡ wake_writer ∷ [])
pipe_read_enough_example =
    pipe_read_enough 1 [] (view wrapped) wrapped-Readable (omega arith)
      (omega (arith, wrapped-remain))

abbrev unwritten : Pipe
unwritten = record wrapped { head = 1; writers = 0 }

-- The other threads have emptied the pipe, and then filled it by two bytes.
abbrev wakes : List Wake
wakes =
    record { pipe = record wrapped { head = 1 }; signal = false }
    ∷ record { pipe = wrapped; signal = true }
    ∷ []

wakes-AllValid : AllValid wakes
wakes-AllValid =
    (record { storage = refl; head_in = omega arith; tail_in = omega arith }, (wrapped-IsValid, tt))

pipe_read-Keeps_example :
    Keeps 2 (pipe_read 4 wakes (view wrapped)) × (pipe_read 4 wakes (view wrapped) ≢ out_of_fuel)
pipe_read-Keeps_example = pipe_read-Keeps 4 wakes (view wrapped) wrapped-IsValid wakes-AllValid

pipe_write-Keeps_example :
    Keeps 2 (pipe_write (1 ∷ 2 ∷ []) wakes (view nearly_full))
    × (pipe_write (1 ∷ 2 ∷ []) wakes (view nearly_full) ≢ out_of_fuel)
pipe_write-Keeps_example =
    pipe_write-Keeps (1 ∷ 2 ∷ []) wakes (view nearly_full) nearly_full-Writable.ring wakes-AllValid
