-- ===== src/Fs/Pipe/Write.antt =====
-- Writing to a pipe, src/fs/pipe.c.
use mathlib.Core.List.{append-nil, append_assoc}
use unstable_os.Base.{
  Bool-cases, List, Outcome, [], ap, arith, eintr, epipe, err, false, if◌then◌else◌, inl, inr,
  length, length-append, length-take, ltb, ltb_false→le, ltb→lt, ne→eqb_false, ok, refl, suc, take,
  true, ℕ, ◌++◌, ◌+◌, ◌-◌, ◌<◌, ◌==◌, ◌∙◌, ◌∷◌, ◌≡◌, ◌≢◌, ◌≤◌,
}
use unstable_os.Fs.Pipe.{
  Effect, Pipe, Run, View, Wake, after_wait, asleep, await_ends, done, full, join_writers, note,
  out_of_fuel, pipe_buf, put_byte, remain, resume, sigpipe, wake_all_writers, wake_reader,
}
use unstable_os.Fs.Pipe.Ring.{
  IsValid, contents, contents-put, full-remain, full_of_remain, length-contents, put_byte-IsValid,
  remain-lt,
}

-- 0, 256 and -2 of `pipe_put_ch`.
pub data PutCh : Type 0 where
  stored interrupted broken : PutCh

-- Both places where a writer finds no reader.
unfoldable pub no_readers : List Wake → View → Run PutCh
no_readers ws v = done broken (note sigpipe (note wake_all_writers v)) ws

-- The byte goes in once the ring has room.
unfoldable pub store : ℕ → List Wake → View → Run PutCh
store c ws v = done stored (record v { pipe = put_byte c v.pipe }) ws

-- `while (FULL(pq))`
unfoldable pub await_room : ℕ → List Wake → View → Run PutCh
unfolding no_readers store
await_room c [] v =
    if full v.pipe then asleep (note wake_reader (note join_writers v)) else store c [] v
await_room c (w ∷ ws) v =
    let rest = await_room c ws (resume w (note wake_reader (note join_writers v))) in
    let after =
      if w.pipe.readers == 0
      then no_readers ws (resume w (note wake_reader (note join_writers v)))
      else if w.signal
      then done interrupted (resume w (note wake_reader (note join_writers v))) ws
      else rest in
    if full v.pipe then after else store c (w ∷ ws) v

unfoldable pub put_open : ℕ → List Wake → View → Run PutCh
unfolding no_readers await_room
put_open c ws v = if v.pipe.readers == 0 then no_readers ws v else await_room c ws v

unfoldable pub pipe_put_ch : ℕ → List Wake → View → Run PutCh
unfolding await_ends put_open after_wait
pipe_put_ch c ws v = after_wait interrupted (put_open c) (await_ends join_writers ws v)

-- The body of the loop of `pipe_write` behind `pipe_put_ch`, with `i` bytes written.
unfoldable pub write_next : (List Wake → View → Run Outcome) → ℕ → Run PutCh → Run Outcome
write_next again i (done stored v ws) = again ws v
write_next again i (done interrupted v ws) =
    done (if i == 0 then err eintr else ok i) (note wake_reader v) ws
write_next again i (done broken v ws) = done (err epipe) v ws
write_next again i (asleep v) = asleep v
write_next again i out_of_fuel = out_of_fuel

-- The bytes that are left to write, and the number `i` of those written.
unfoldable pub write_loop : List ℕ → ℕ → List Wake → View → Run Outcome
unfolding pipe_put_ch write_next
write_loop [] i ws v = done (ok i) (note wake_reader v) ws
write_loop (c ∷ cs) i ws v = write_next (λ ws v. write_loop cs (i + 1) ws v) i (pipe_put_ch c ws v)

unfoldable pub pipe_write : List ℕ → List Wake → View → Run Outcome
unfolding write_loop
pipe_write [] ws v = done (ok 0) v ws
pipe_write (c ∷ cs) ws v = write_loop (c ∷ cs) 0 ws v

-- The pipe is open at both ends and its ring is well formed.
pub record Writable (p : Pipe) : Type 0 where
  pub ring : IsValid p
  pub opened : p.named_wait ≡ false
  pub read_end : p.readers ≢ 0

-- How many more bytes the ring takes.
abbrev pub room : Pipe → ℕ
room p = pipe_buf - 1 - remain p

-- The ring after bytes that fit.
unfoldable pub fill : List ℕ → Pipe → Pipe
fill [] p = p
fill (c ∷ cs) p = fill cs (put_byte c p)

put_byte-Writable : (c : ℕ) (p : Pipe) → Writable p → Writable (put_byte c p)
unfolding put_byte
put_byte-Writable c p w = record {
  ring = put_byte-IsValid c p w.ring;
  opened = w.opened;
  read_end = w.read_end;
}

room-put : (c : ℕ) (p : Pipe) → Writable p → full p ≡ false → room p ≡ suc (room (put_byte c p))
room-put c p w h = omega (
  arith,
  length-contents p,
  length-contents (put_byte c p),
  ap length (contents-put c p w.ring h),
  length-append (contents p) (c ∷ []),
  full-remain p w.ring h,
)

room-full : (p : Pipe) → Writable p → 0 < room p → full p ≡ false
room-full p w h = full_of_remain p w.ring (omega arith)

no_room_of_full : (p : Pipe) → Writable p → full p ≡ true → room p ≡ 0
no_room_of_full p w h = elim (Bool-cases (ltb 0 (room p))) [
  | inl more ↦ cc (room-full p w (ltb→lt _ _ more))
  | inr none_left ↦ omega (arith, ltb_false→le _ _ none_left)
]

await_open :
    (e : Effect) (ws : List Wake) (v : View)
    → v.pipe.named_wait ≡ false
    → await_ends e ws v ≡ done false v ws
unfolding await_ends
await_open e [] v h = rw h
await_open e (w ∷ ws) v h = rw h

await_room_free :
    (c : ℕ) (ws : List Wake) (v : View) → full v.pipe ≡ false → await_room c ws v ≡ store c ws v
unfolding await_room
await_room_free c [] v h = rw h
await_room_free c (w ∷ ws) v h = rw h

put_room :
    (c : ℕ) (ws : List Wake) (v : View)
    → Writable v.pipe
    → full v.pipe ≡ false
    → pipe_put_ch c ws v ≡ done stored (record v { pipe = put_byte c v.pipe }) ws
unfolding pipe_put_ch put_open store
put_room c ws v w h = rw (
  await_open join_writers ws v w.opened,
  pipe_put_ch,
  ne→eqb_false _ _ w.read_end,
  put_open,
  await_room_free c ws v h,
)

put_full :
    (c : ℕ) (v : View)
    → Writable v.pipe
    → full v.pipe ≡ true
    → pipe_put_ch c [] v ≡ asleep (note wake_reader (note join_writers v))
unfolding pipe_put_ch put_open await_room
put_full c v w h = rw (
  await_open join_writers [] v w.opened,
  pipe_put_ch,
  ne→eqb_false _ _ w.read_end,
  put_open,
  h,
  await_room,
)

pub contents-fill :
    (cs : List ℕ) (p : Pipe)
    → Writable p
    → length cs ≤ room p
    → Writable (fill cs p) × (contents (fill cs p) ≡ contents p ++ cs)
unfolding fill
contents-fill [] p w h = (w, rw append-nil)
contents-fill (c ∷ cs) p w h =
    let f = room-full p w (omega arith) in
    let ih =
      contents-fill cs (put_byte c p) (put_byte-Writable c p w) (omega (arith, room-put c p w f)) in
    (ih.0, rw (ih.1, contents-put c p w.ring f, append_assoc))

write_loop_fits :
    (cs : List ℕ) (i : ℕ) (ws : List Wake) (v : View)
    → Writable v.pipe
    → length cs ≤ room v.pipe
    → write_loop cs i ws v
      ≡ done (ok (i + length cs)) (note wake_reader (record v { pipe = fill cs v.pipe })) ws
unfolding write_loop fill
write_loop_fits [] i ws v w h = ap (λ k. done (ok k) (note wake_reader v) ws) (omega arith)
write_loop_fits (c ∷ cs) i ws v w h =
    let f = room-full v.pipe w (omega arith) in
    rw (put_room c ws v w f, write_loop)
      (write_loop_fits cs (i + 1) ws (record v { pipe = put_byte c v.pipe })
          (put_byte-Writable c v.pipe w) (omega (arith, room-put c v.pipe w f))
        ∙ ap
            (λ k.
              done (ok k) (note wake_reader (record v { pipe = fill cs (put_byte c v.pipe) })) ws)
            (omega arith))

write_loop_blocks :
    (cs : List ℕ) (i : ℕ) (v : View)
    → Writable v.pipe
    → room v.pipe < length cs
    → write_loop cs i [] v
      ≡ asleep (
          note wake_reader
            (note join_writers (record v { pipe = fill (take (room v.pipe) cs) v.pipe })))
unfolding write_loop fill
write_loop_blocks [] i v w h = absurd (omega arith)
write_loop_blocks (c ∷ cs) i v w h = elim (Bool-cases (full v.pipe)) [
  | inl f ↦ rw (put_full c v w f, write_loop) (rw (no_room_of_full v.pipe w f))
  | inr f ↦
      rw (put_room c [] v w f, write_loop)
        (rw (room-put c v.pipe w f) (
          write_loop_blocks cs (i + 1) (record v { pipe = put_byte c v.pipe })
            (put_byte-Writable c v.pipe w) (omega (arith, room-put c v.pipe w f))))
]

-- A write that fits in an open pipe returns its length at once, whatever the schedule, appends
-- exactly its bytes in order, leaves the pipe well formed, and wakes a reader and does no more.
pub pipe_write_fits :
    (c : ℕ) (cs : List ℕ) (ws : List Wake) (v : View)
    → Writable v.pipe
    → length (c ∷ cs) ≤ room v.pipe
    → (v' : View) × (pipe_write (c ∷ cs) ws v ≡ done (ok (length (c ∷ cs))) v' ws)
      × (contents v'.pipe ≡ contents v.pipe ++ (c ∷ cs))
      × Writable v'.pipe
      × (v'.effects ≡ v.effects ++ (wake_reader ∷ []))
unfolding pipe_write note
pipe_write_fits c cs ws v w h =
    let f = contents-fill (c ∷ cs) v.pipe w h in
    (
      note wake_reader (record v { pipe = fill (c ∷ cs) v.pipe }),
      write_loop_fits (c ∷ cs) 0 ws v w h
          ∙ ap (λ k. done (ok k) (note wake_reader (record v { pipe = fill (c ∷ cs) v.pipe })) ws)
              (omega arith),
      f.1,
      f.0,
      refl,
    )

-- A write that does not fit in an open pipe that no other thread touches fills the ring with as many
-- of its bytes as it holds, joins the writers' queue, wakes a reader and sleeps.
pub pipe_write_blocks :
    (c : ℕ) (cs : List ℕ) (v : View)
    → Writable v.pipe
    → room v.pipe < length (c ∷ cs)
    → (v' : View) × (pipe_write (c ∷ cs) [] v ≡ asleep v')
      × (contents v'.pipe ≡ contents v.pipe ++ take (room v.pipe) (c ∷ cs))
      × (length (contents v'.pipe) ≡ pipe_buf - 1)
      × (v'.effects ≡ (v.effects ++ (join_writers ∷ [])) ++ (wake_reader ∷ []))
unfolding pipe_write note
pipe_write_blocks c cs v w h =
    let l = length-take (room v.pipe) (c ∷ cs) in
    let f = contents-fill (take (room v.pipe) (c ∷ cs)) v.pipe w (omega (arith, l)) in
    (
      note wake_reader
          (note join_writers (record v { pipe = fill (take (room v.pipe) (c ∷ cs)) v.pipe })),
      write_loop_blocks (c ∷ cs) 0 v w h,
      f.1,
      omega (
        arith,
        ap length f.1,
        length-append (contents v.pipe) (take (room v.pipe) (c ∷ cs)),
        l,
        length-contents v.pipe,
        remain-lt v.pipe w.ring,
      ),
      refl,
    )

-- A write to a pipe that no one reads stores nothing, returns EPIPE, wakes the other writers and
-- raises SIGPIPE.
pub pipe_write_broken :
    (c : ℕ) (cs : List ℕ) (ws : List Wake) (v : View)
    → v.pipe.named_wait ≡ false
    → v.pipe.readers ≡ 0
    → pipe_write (c ∷ cs) ws v ≡ done (err epipe) (note sigpipe (note wake_all_writers v)) ws
unfolding pipe_write write_loop pipe_put_ch put_open no_readers
pipe_write_broken c cs ws v named gone =
    rw (await_open join_writers ws v named, pipe_put_ch, write_loop) (rw gone)
