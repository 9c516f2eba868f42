-- ===== src/Fs/Pipe/Schedule.antt =====
-- The ring of src/fs/pipe.c stays well formed under every schedule, and every call ends.
use unstable_os.Base.{
  Bool, List, Outcome, [], arith, false, if◌then◌else◌, length, min, suc, true, zero, ℕ, ◌++◌, ◌+◌,
  ◌<◌, ◌==◌, ◌∷◌, ◌≢◌, ◌≤◌,
}
use unstable_os.Fs.Pipe.{
  Effect, Run, View, Wake, after_wait, asleep, await_ends, done, empty, full, join_readers,
  join_writers, note, out_of_fuel, resume, wake_reader, wake_writer,
}
use unstable_os.Fs.Pipe.Write.{
  PutCh, await_room, broken, interrupted, no_readers, pipe_put_ch, pipe_write, put_open, store,
  stored, write_loop, write_next,
}
use unstable_os.Fs.Pipe.Read.{
  GetCh, Reading, cut_short, get_open, got, no_writers, nothing, pipe_get_ch, pipe_read, read_loop,
  read_next, ssize_max,
}
use unstable_os.Fs.Pipe.Ring.{IsValid, drop_byte-IsValid, put_byte-IsValid}

-- Whenever the thread runs again it finds a well formed ring.
abbrev pub AllValid : List Wake → Type 0
AllValid [] = Unit {0}
AllValid (w ∷ ws) = IsValid w.pipe × AllValid ws

-- The run did not stop for lack of fuel, it leaves a well formed ring, returned or asleep, and no more
-- of the schedule than `n` wakes.
pub data Keeps {A : Type 0} (n : ℕ) : Run A → Type 0 where
  returned :
      {a : A} {v : View} {ws : List Wake}
      → length ws ≤ n
      → IsValid v.pipe
      → AllValid ws
      → Keeps n (done a v ws)
  sleeping : {v : View} → IsValid v.pipe → Keeps n (asleep v)

Keeps-fuel : {A : Type 0} (n : ℕ) (r : Run A) → Keeps n r → r ≢ out_of_fuel
Keeps-fuel n (done a v ws) (returned h i k) e = cc
Keeps-fuel n (asleep v) (sleeping i) e = cc
Keeps-fuel n out_of_fuel k e = elim k [ ]

weaken : {A : Type 0} (m n : ℕ) {r : Run A} → m ≤ n → Keeps m r → Keeps n r
weaken m n h (returned k v ws) = returned (omega arith) v ws
weaken m n h (sleeping v) = sleeping v

Keeps-if :
    {A : Type 0} (n : ℕ) (b : Bool) {r s : Run A}
    → Keeps n r
    → Keeps n s
    → Keeps n (if b then r else s)
Keeps-if n true p q = p
Keeps-if n false p q = q

resume-IsValid : (w : Wake) (v : View) → IsValid w.pipe → IsValid (resume w v).pipe
unfolding resume
resume-IsValid w v h = h

note-IsValid : (e : Effect) (v : View) → IsValid v.pipe → IsValid (note e v).pipe
unfolding note
note-IsValid e v h = h

await_ends-Keeps :
    (e : Effect) (ws : List Wake) (v : View)
    → IsValid v.pipe
    → AllValid ws
    → Keeps (length ws) (await_ends e ws v)
unfolding await_ends
await_ends-Keeps e [] v i k =
    Keeps-if 0 v.pipe.named_wait
      (Keeps-if 0 v.signal (returned (omega arith) i tt) (sleeping (note-IsValid e v i)))
      (returned (omega arith) i tt)
await_ends-Keeps e (w ∷ ws) v i k =
    Keeps-if (length (w ∷ ws)) v.pipe.named_wait
      (Keeps-if (length (w ∷ ws)) v.signal (returned (omega arith) i k) (
        weaken (length ws) (length (w ∷ ws)) (omega arith)
          (await_ends-Keeps e ws (resume w (note e v)) (resume-IsValid w _ k.0) k.1)))
      (returned (omega arith) i k)

get_open-Keeps :
    (ws : List Wake) (v : View) → IsValid v.pipe → AllValid ws → Keeps (length ws) (get_open ws v)
unfolding get_open
get_open-Keeps ws v i k =
    Keeps-if (length ws) (empty v.pipe)
      (Keeps-if (length ws) (v.pipe.writers == 0) (returned (omega arith) i k)
        (returned (omega arith) i k))
      (returned (omega arith) (drop_byte-IsValid v.pipe i) k)

after_wait-Keeps :
    {A : Type 0} (cut : A) (rest : List Wake → View → Run A) (n : ℕ) (r : Run Bool)
    → ((ws : List Wake) (v : View) → IsValid v.pipe → AllValid ws → Keeps (length ws) (rest ws v))
    → Keeps n r
    → Keeps n (after_wait cut rest r)
unfolding after_wait
after_wait-Keeps cut rest n (done true v ws) f (returned h i k) = returned h i k
after_wait-Keeps cut rest n (done false v ws) f (returned h i k) =
    weaken (length ws) n h (f ws v i k)
after_wait-Keeps cut rest n (asleep v) f (sleeping i) = sleeping i
after_wait-Keeps cut rest n out_of_fuel f k = elim k [ ]

pipe_get_ch-Keeps :
    (ws : List Wake) (v : View)
    → IsValid v.pipe
    → AllValid ws
    → Keeps (length ws) (pipe_get_ch ws v)
unfolding pipe_get_ch
pipe_get_ch-Keeps ws v i k =
    after_wait-Keeps cut_short get_open (length ws) (await_ends join_readers ws v) get_open-Keeps
      (await_ends-Keeps join_readers ws v i k)

-- The wakes and bytes that a step of the read loop leaves are fewer than `m`.
read_next-Keeps :
    (again : ℕ → List Wake → View → Reading) (retry : List Wake → View → Reading) (s : List ℕ)
    (n : ℕ) (r : Run GetCh)
    → ((b : ℕ) (ws : List Wake) (v : View)
        → IsValid v.pipe
        → AllValid ws
        → length ws ≤ n
        → Keeps (length ws) (again b ws v))
    → ((ws : List Wake) (v : View)
        → IsValid v.pipe
        → AllValid ws
        → length ws < n
        → Keeps (length ws) (retry ws v))
    → Keeps n r
    → Keeps n (read_next again retry s r)
unfolding read_next
read_next-Keeps again retry s n (done (got b) v ws) f g (returned h i k) =
    weaken (length ws) n h (f b ws v i k h)
read_next-Keeps again retry s n (done cut_short v ws) f g (returned h i k) =
    returned h (note-IsValid wake_writer v i) k
read_next-Keeps again retry s n (done nothing v []) f g (returned h i k) =
    Keeps-if n (length s == 0)
      (sleeping (note-IsValid join_readers _ (note-IsValid wake_writer v i))) (returned h i k)
read_next-Keeps again retry s n (done nothing v (w ∷ ws)) f g (returned h i k) =
    Keeps-if n (length s == 0)
      (weaken (length ws) n (omega arith) (g ws _ (resume-IsValid w _ k.0) k.1 (omega arith)))
      (returned h i k)
read_next-Keeps again retry s n (done no_writers v ws) f g (returned h i k) = returned h i k
read_next-Keeps again retry s n (asleep v) f g (sleeping i) = sleeping i
read_next-Keeps again retry s n out_of_fuel f g k = elim k [ ]

read_loop-Keeps :
    (f n : ℕ) (s : List ℕ) (ws : List Wake) (v : View)
    → IsValid v.pipe
    → AllValid ws
    → length ws + n < f
    → Keeps (length ws) (read_loop f n s ws v)
unfolding read_loop
read_loop-Keeps zero n s ws v i k h = absurd (omega arith)
read_loop-Keeps (suc f) zero s ws v i k h = returned (omega arith) (note-IsValid wake_writer v i) k
read_loop-Keeps (suc f) (suc n) s ws v i k h =
    read_next-Keeps _ _ s (length ws) (pipe_get_ch ws v)
      (λ b ws' v' i' k' l. read_loop-Keeps f n (s ++ (b ∷ [])) ws' v' i' k' (omega arith))
      (λ ws' v' i' k' l. read_loop-Keeps f (suc n) s ws' v' i' k' (omega arith))
      (pipe_get_ch-Keeps ws v i k)

-- Under every schedule that leaves the ring well formed, a read of any size ends, asleep or returned,
-- and leaves the ring well formed.
pub pipe_read-Keeps :
    (n : ℕ) (ws : List Wake) (v : View)
    → IsValid v.pipe
    → AllValid ws
    → Keeps (length ws) (pipe_read n ws v) × (pipe_read n ws v ≢ out_of_fuel)
unfolding pipe_read
pipe_read-Keeps n ws v i k =
    let all : Keeps (length ws) (pipe_read n ws v) =
      Keeps-if (length ws) (n == 0) (returned (omega arith) i k) (
        read_loop-Keeps (length ws + min n ssize_max + 1) (min n ssize_max) [] ws v i k
          (omega arith)) in
    (all, Keeps-fuel (length ws) (pipe_read n ws v) all)

no_readers-Keeps :
    (ws : List Wake) (v : View) → IsValid v.pipe → AllValid ws → Keeps (length ws) (no_readers ws v)
unfolding no_readers note
no_readers-Keeps ws v i k = returned (omega arith) i k

store-Keeps :
    (c : ℕ) (ws : List Wake) (v : View)
    → IsValid v.pipe
    → AllValid ws
    → Keeps (length ws) (store c ws v)
unfolding store
store-Keeps c ws v i k = returned (omega arith) (put_byte-IsValid c v.pipe i) k

await_room-Keeps :
    (c : ℕ) (ws : List Wake) (v : View)
    → IsValid v.pipe
    → AllValid ws
    → Keeps (length ws) (await_room c ws v)
unfolding await_room
await_room-Keeps c [] v i k =
    Keeps-if 0 (full v.pipe) (sleeping (note-IsValid wake_reader _ (note-IsValid join_writers v i)))
      (store-Keeps c [] v i k)
await_room-Keeps c (w ∷ ws) v i k =
    let u = resume w (note wake_reader (note join_writers v)) in
    let ui = resume-IsValid w (note wake_reader (note join_writers v)) k.0 in
    Keeps-if (length (w ∷ ws)) (full v.pipe)
      (weaken (length ws) (length (w ∷ ws)) (omega arith) (
        Keeps-if (length ws) (w.pipe.readers == 0) (no_readers-Keeps ws u ui k.1) (
          Keeps-if (length ws) w.signal (returned (omega arith) ui k.1)
            (await_room-Keeps c ws u ui k.1))))
      (store-Keeps c (w ∷ ws) v i k)

put_open-Keeps :
    (c : ℕ) (ws : List Wake) (v : View)
    → IsValid v.pipe
    → AllValid ws
    → Keeps (length ws) (put_open c ws v)
unfolding put_open
put_open-Keeps c ws v i k =
    Keeps-if (length ws) (v.pipe.readers == 0) (no_readers-Keeps ws v i k)
      (await_room-Keeps c ws v i k)

pipe_put_ch-Keeps :
    (c : ℕ) (ws : List Wake) (v : View)
    → IsValid v.pipe
    → AllValid ws
    → Keeps (length ws) (pipe_put_ch c ws v)
unfolding pipe_put_ch
pipe_put_ch-Keeps c ws v i k =
    after_wait-Keeps interrupted (put_open c) (length ws) (await_ends join_writers ws v)
      (put_open-Keeps c) (await_ends-Keeps join_writers ws v i k)

write_next-Keeps :
    (again : List Wake → View → Run Outcome) (i n : ℕ) (r : Run PutCh)
    → ((ws : List Wake) (v : View) → IsValid v.pipe → AllValid ws → Keeps (length ws) (again ws v))
    → Keeps n r
    → Keeps n (write_next again i r)
unfolding write_next note
write_next-Keeps again i n (done stored v ws) f (returned h p k) =
    weaken (length ws) n h (f ws v p k)
write_next-Keeps again i n (done interrupted v ws) f (returned h p k) = returned h p k
write_next-Keeps again i n (done broken v ws) f (returned h p k) = returned h p k
write_next-Keeps again i n (asleep v) f (sleeping p) = sleeping p
write_next-Keeps again i n out_of_fuel f k = elim k [ ]

write_loop-Keeps :
    (cs : List ℕ) (i : ℕ) (ws : List Wake) (v : View)
    → IsValid v.pipe
    → AllValid ws
    → Keeps (length ws) (write_loop cs i ws v)
unfolding write_loop
write_loop-Keeps [] i ws v p k = returned (omega arith) (note-IsValid wake_reader v p) k
write_loop-Keeps (c ∷ cs) i ws v p k =
    write_next-Keeps _ i (length ws) (pipe_put_ch c ws v)
      (λ ws' v' p' k'. write_loop-Keeps cs (i + 1) ws' v' p' k') (pipe_put_ch-Keeps c ws v p k)

-- Under every schedule that leaves the ring well formed, a write of any bytes ends, asleep or returned,
-- and leaves the ring well formed.
pub pipe_write-Keeps :
    (cs : List ℕ) (ws : List Wake) (v : View)
    → IsValid v.pipe
    → AllValid ws
    → Keeps (length ws) (pipe_write cs ws v) × (pipe_write cs ws v ≢ out_of_fuel)
unfolding pipe_write
pipe_write-Keeps [] ws v p k =
    let all : Keeps (length ws) (pipe_write [] ws v) = returned (omega arith) p k in
    (all, Keeps-fuel (length ws) (pipe_write [] ws v) all)
pipe_write-Keeps (c ∷ cs) ws v p k =
    let all = write_loop-Keeps (c ∷ cs) 0 ws v p k in
    (all, Keeps-fuel (length ws) (pipe_write (c ∷ cs) ws v) all)
