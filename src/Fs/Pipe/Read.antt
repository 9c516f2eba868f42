-- ===== src/Fs/Pipe/Read.antt =====
-- Reading from a pipe, src/fs/pipe.c.
use mathlib.Core.List.{append-nil, append_assoc}
use unstable_os.Base.{
  Bool-cases, List, Outcome, [], ap, arith, drop, eintr, err, false, get_or, if◌then◌else◌, inl,
  inr, length, length-append, length-drop, length-take, min, ne→eqb_false, ok, refl, suc, take,
  true, zero, ℕ, ◌++◌, ◌+◌, ◌-◌, ◌<◌, ◌==◌, ◌^◌, ◌∙◌, ◌∷◌, ◌≡◌, ◌≤◌,
}
use unstable_os.Fs.Pipe.{
  Effect, Pipe, Run, View, Wake, after_wait, asleep, await_ends, done, drop_byte, empty,
  join_readers, note, out_of_fuel, remain, resume, wake_writer,
}
use unstable_os.Fs.Pipe.Ring.{
  IsValid, contents, contents-drop, drop_byte-IsValid, empty_of_remain, length-contents, remain-lt,
  remain_of_empty,
}

-- A byte, 256, -1 and -2 of `pipe_get_ch`.
pub data GetCh : Type 0 where
  got : ℕ → GetCh
  cut_short nothing no_writers : GetCh

unfoldable pub get_open : List Wake → View → Run GetCh
get_open ws v =
    if empty v.pipe
    then if v.pipe.writers == 0 then done no_writers v ws else done nothing v ws
    else done (got (get_or v.pipe.pipe_fifo v.pipe.head 0)) (record v { pipe = drop_byte v.pipe })
        ws

unfoldable pub pipe_get_ch : List Wake → View → Run GetCh
unfolding await_ends get_open after_wait
pipe_get_ch ws v = after_wait cut_short get_open (await_ends join_readers ws v)

abbrev pub Reading : Type 0
Reading = Run (Outcome × List ℕ)

-- The body of the loop of `pipe_read` behind `pipe_get_ch`, with the bytes `s` read. `retry` is
-- `i--; continue`, which follows the sleep of a reader that has no byte yet.
unfoldable pub read_next :
    (ℕ → List Wake → View → Reading) → (List Wake → View → Reading) → List ℕ → Run GetCh → Reading
read_next again retry s (done (got b) v ws) = again b ws v
read_next again retry s (done cut_short v ws) =
    done (if length s == 0 then err eintr else ok (length s), s) (note wake_writer v) ws
read_next again retry s (done nothing v []) =
    if length s == 0
    then asleep (note join_readers (note wake_writer v))
    else done (ok (length s), s) v []
read_next again retry s (done nothing v (w ∷ ws)) =
    if length s == 0
    then retry ws (resume w (note join_readers (note wake_writer v)))
    else done (ok (length s), s) v (w ∷ ws)
read_next again retry s (done no_writers v ws) = done (ok (length s), s) v ws
read_next again retry s (asleep v) = asleep v
read_next again retry s out_of_fuel = out_of_fuel

-- `n` more bytes are wanted behind those of `s`. The fuel bounds the calls of `pipe_get_ch`.
unfoldable pub read_loop : ℕ → ℕ → List ℕ → List Wake → View → Reading
unfolding pipe_get_ch read_next
read_loop zero n s ws v = out_of_fuel
read_loop (suc f) zero s ws v = done (ok (length s), s) (note wake_writer v) ws
read_loop (suc f) (suc n) s ws v =
    read_next (λ b ws v. read_loop f n (s ++ (b ∷ [])) ws v) (λ ws v. read_loop f (suc n) s ws v) s
      (pipe_get_ch ws v)

abbrev pub ssize_max : ℕ
ssize_max = 2 ^ 31 - 1

-- Each call of `pipe_get_ch` takes a byte, uses up a wake or ends the loop.
unfoldable pub pipe_read : ℕ → List Wake → View → Reading
unfolding read_loop
pipe_read n ws v =
    if n == 0
    then done (ok 0, []) v ws
    else read_loop (length ws + min n ssize_max + 1) (min n ssize_max) [] ws v

await_open :
    (e : Effect) (ws : List Wake) (v : View)
    → v.pipe.named_wait ≡ false
    → await_ends e ws v ≡ done false v ws
unfolding await_ends
await_open e [] v h = rw h
await_open e (w ∷ ws) v h = rw h

get_byte :
    (ws : List Wake) (v : View)
    → v.pipe.named_wait ≡ false
    → empty v.pipe ≡ false
    → pipe_get_ch ws v
      ≡ done (got (get_or v.pipe.pipe_fifo v.pipe.head 0)) (record v { pipe = drop_byte v.pipe }) ws
unfolding pipe_get_ch get_open
get_byte ws v named h = rw (await_open join_readers ws v named, pipe_get_ch) (rw h)

get_none :
    (ws : List Wake) (v : View)
    → v.pipe.named_wait ≡ false
    → empty v.pipe ≡ true
    → pipe_get_ch ws v ≡ (if v.pipe.writers == 0 then done no_writers v ws else done nothing v ws)
unfolding pipe_get_ch get_open
get_none ws v named h = rw (await_open join_readers ws v named, pipe_get_ch) (rw h)

-- The ring after `n` bytes have been taken.
unfoldable pub drain : ℕ → Pipe → Pipe
drain zero p = p
drain (suc n) p = drain n (drop_byte p)

-- The pipe has both ends open for the wait, and its ring is well formed.
pub record Readable (p : Pipe) : Type 0 where
  pub ring : IsValid p
  pub opened : p.named_wait ≡ false

drop_byte-Readable : (p : Pipe) → Readable p → Readable (drop_byte p)
unfolding drop_byte
drop_byte-Readable p r = record { ring = drop_byte-IsValid p r.ring; opened = r.opened }

contents-empty : (p : Pipe) → empty p ≡ true → contents p ≡ []
contents-empty p h = rw (remain_of_empty p h)

remain-drop_byte : (p : Pipe) → IsValid p → empty p ≡ false → suc (remain (drop_byte p)) ≡ remain p
remain-drop_byte p v h =
    omega (arith, length-contents p, length-contents (drop_byte p), ap length (contents-drop p v h))

drain-contents :
    (n : ℕ) (p : Pipe)
    → Readable p
    → n ≤ remain p
    → Readable (drain n p) × (contents (drain n p) ≡ drop n (contents p))
unfolding drain
drain-contents zero p r h = (r, refl)
drain-contents (suc n) p r h = elim (Bool-cases (empty p)) [
  | inl e ↦ absurd (omega (arith, remain_of_empty p e))
  | inr e ↦
      let ih =
        drain-contents n (drop_byte p) (drop_byte-Readable p r)
          (omega (arith, remain-drop_byte p r.ring e)) in
      (ih.0, rw (contents-drop p r.ring e) ih.1)
]

append_byte : (s t : List ℕ) (b : ℕ) → s ++ (b ∷ t) ≡ (s ++ (b ∷ [])) ++ t
append_byte s t b = rw append_assoc

length_snoc : (s : List ℕ) (b : ℕ) → 0 < length (s ++ (b ∷ []))
length_snoc s b = omega (arith, length-append s (b ∷ []))

read_loop_got :
    (f n : ℕ) (s : List ℕ) (ws : List Wake) (v : View)
    → Readable v.pipe
    → empty v.pipe ≡ false
    → read_loop (suc f) (suc n) s ws v
      ≡ read_loop f n
          (s ++ (get_or v.pipe.pipe_fifo v.pipe.head 0 ∷ []))
          ws
          (record v { pipe = drop_byte v.pipe })
unfolding read_loop
read_loop_got f n s ws v r g = rw (get_byte ws v r.opened g, read_loop)

-- The ring holds all the bytes that are still wanted.
read_loop_enough :
    (f n : ℕ) (s out : List ℕ) (ws : List Wake) (v : View)
    → Readable v.pipe
    → n < f
    → n ≤ remain v.pipe
    → out ≡ s ++ take n (contents v.pipe)
    → read_loop f n s ws v
      ≡ done (ok (length out), out) (note wake_writer (record v { pipe = drain n v.pipe })) ws
unfolding read_loop drain
read_loop_enough zero n s out ws v r h k e = absurd (omega arith)
read_loop_enough (suc f) zero s out ws v r h k e = rw (e, append-nil)
read_loop_enough (suc f) (suc n) s out ws v r h k e = elim (Bool-cases (empty v.pipe)) [
  | inl g ↦ absurd (omega (arith, remain_of_empty v.pipe g))
  | inr g ↦
      read_loop_got f n s ws v r g
      ∙ (read_loop_enough f n (s ++ (get_or v.pipe.pipe_fifo v.pipe.head 0 ∷ [])) out ws
          (record v { pipe = drop_byte v.pipe }) (drop_byte-Readable v.pipe r) (omega arith)
          (omega (arith, remain-drop_byte v.pipe r.ring g))
          (e
            ∙ ap (λ l. s ++ take (suc n) l) (contents-drop v.pipe r.ring g)
            ∙ append_byte s (take n (contents (drop_byte v.pipe)))
                (get_or v.pipe.pipe_fifo v.pipe.head 0)))
]

-- The ring runs dry, with at least one byte read.
read_loop_dry :
    (f n : ℕ) (s : List ℕ) (ws : List Wake) (v : View)
    → Readable v.pipe
    → 0 < length s
    → empty v.pipe ≡ true
    → read_loop (suc f) (suc n) s ws v ≡ done (ok (length s), s) v ws
unfolding read_loop
read_loop_dry f n s [] v r l g = elim (Bool-cases (v.pipe.writers == 0)) [
  | inl w ↦ rw (get_none [] v r.opened g, read_loop, w)
  | inr w ↦
      rw (get_none [] v r.opened g, read_loop, w) (rw (ne→eqb_false (length s) 0 (omega arith)))
]
read_loop_dry f n s (k ∷ ws) v r l g = elim (Bool-cases (v.pipe.writers == 0)) [
  | inl w ↦ rw (get_none (k ∷ ws) v r.opened g, read_loop, w)
  | inr w ↦
      rw (get_none (k ∷ ws) v r.opened g, read_loop, w)
        (rw (ne→eqb_false (length s) 0 (omega arith)))
]

read_loop_short :
    (f n : ℕ) (s out : List ℕ) (ws : List Wake) (v : View)
    → Readable v.pipe
    → n < f
    → remain v.pipe < n
    → 0 < length s
    → out ≡ s ++ contents v.pipe
    → read_loop f n s ws v
      ≡ done (ok (length out), out) (record v { pipe = drain (remain v.pipe) v.pipe }) ws
unfolding drain
read_loop_short zero n s out ws v r h k l e = absurd (omega arith)
read_loop_short (suc f) zero s out ws v r h k l e = absurd (omega arith)
read_loop_short (suc f) (suc n) s out ws v r h k l e = elim (Bool-cases (empty v.pipe)) [
  | inl g ↦ read_loop_dry f n s ws v r l g ∙ rw (e, remain_of_empty v.pipe g, append-nil)
  | inr g ↦
      read_loop_got f n s ws v r g
      ∙ rw (← remain-drop_byte v.pipe r.ring g) (
          read_loop_short f n (s ++ (get_or v.pipe.pipe_fifo v.pipe.head 0 ∷ [])) out ws
            (record v { pipe = drop_byte v.pipe }) (drop_byte-Readable v.pipe r) (omega arith)
            (omega (arith, remain-drop_byte v.pipe r.ring g))
            (length_snoc s (get_or v.pipe.pipe_fifo v.pipe.head 0))
            (e
              ∙ ap (λ t. s ++ t) (contents-drop v.pipe r.ring g)
              ∙ append_byte s (contents (drop_byte v.pipe))
                  (get_or v.pipe.pipe_fifo v.pipe.head 0)))
]

-- A read of no more bytes than an open pipe holds returns at once, whatever the schedule, with exactly
-- the oldest bytes; the rest stays in order, the pipe stays well formed and a writer is woken.
pub pipe_read_enough :
    (n : ℕ) (ws : List Wake) (v : View)
    → Readable v.pipe
    → 0 < n
    → n ≤ remain v.pipe
    → (v' : View) × (pipe_read n ws v ≡ done (ok n, take n (contents v.pipe)) v' ws)
      × (contents v'.pipe ≡ drop n (contents v.pipe))
      × Readable v'.pipe
      × (v'.effects ≡ v.effects ++ (wake_writer ∷ []))
unfolding pipe_read note
pipe_read_enough n ws v r pos k =
    let d = drain-contents n v.pipe r k in
    let small : min n ssize_max ≡ n = omega (arith, remain-lt v.pipe r.ring) in
    let len : length (take n (contents v.pipe)) ≡ n =
      omega (arith, length-take n (contents v.pipe), length-contents v.pipe) in
    (
      note wake_writer (record v { pipe = drain n v.pipe }),
      rw (ne→eqb_false n 0 (omega arith), small)
          (read_loop_enough (length ws + n + 1) n [] (take n (contents v.pipe)) ws v r (omega arith)
              k refl
            ∙ ap
                (λ k.
                  done (ok k, take n (contents v.pipe))
                    (note wake_writer (record v { pipe = drain n v.pipe })) ws)
                len),
      d.1,
      d.0,
      refl,
    )

read_loop_first :
    (f n : ℕ) (out : List ℕ) (ws : List Wake) (v : View)
    → Readable v.pipe
    → n < f
    → 0 < remain v.pipe
    → remain v.pipe < n
    → out ≡ contents v.pipe
    → read_loop f n [] ws v
      ≡ done (ok (length out), out) (record v { pipe = drain (remain v.pipe) v.pipe }) ws
unfolding drain
read_loop_first zero n out ws v r h pos k e = absurd (omega arith)
read_loop_first (suc f) zero out ws v r h pos k e = absurd (omega arith)
read_loop_first (suc f) (suc n) out ws v r h pos k e =
    let g = empty_of_remain v.pipe r.ring pos in
    let b = get_or v.pipe.pipe_fifo v.pipe.head 0 in
    read_loop_got f n [] ws v r g
    ∙ rw (← remain-drop_byte v.pipe r.ring g) (
        read_loop_short f n (b ∷ []) out ws (record v { pipe = drop_byte v.pipe })
          (drop_byte-Readable v.pipe r) (omega arith)
          (omega (arith, remain-drop_byte v.pipe r.ring g)) (omega arith)
          (e ∙ contents-drop v.pipe r.ring g))

-- A read that wants more bytes than an open pipe holds, which is not empty, returns what there is
-- without waiting, and leaves the pipe empty and well formed. It wakes nobody.
pub pipe_read_short :
    (n : ℕ) (ws : List Wake) (v : View)
    → Readable v.pipe
    → 0 < remain v.pipe
    → remain v.pipe < n
    → (v' : View) × (pipe_read n ws v ≡ done (ok (remain v.pipe), contents v.pipe) v' ws)
      × (contents v'.pipe ≡ drop (remain v.pipe) (contents v.pipe))
      × (remain v'.pipe ≡ 0)
      × Readable v'.pipe
      × (v'.effects ≡ v.effects)
unfolding pipe_read
pipe_read_short n ws v r pos k =
    let d = drain-contents (remain v.pipe) v.pipe r (omega arith) in
    (
      record v { pipe = drain (remain v.pipe) v.pipe },
      rw (ne→eqb_false n 0 (omega arith)) (
          read_loop_first (length ws + min n ssize_max + 1) (min n ssize_max) (contents v.pipe) ws v
            r (omega arith) pos (omega (arith, remain-lt v.pipe r.ring)) refl
          ∙ ap
              (λ k.
                done (ok k, contents v.pipe) (record v { pipe = drain (remain v.pipe) v.pipe }) ws)
              (length-contents v.pipe)),
      d.1,
      omega (
        arith,
        length-contents (drain (remain v.pipe) v.pipe),
        ap length d.1,
        length-drop (remain v.pipe) (contents v.pipe),
        length-contents v.pipe,
      ),
      d.0,
      refl,
    )

read_loop_eof :
    (f n : ℕ) (ws : List Wake) (v : View)
    → v.pipe.named_wait ≡ false
    → v.pipe.writers ≡ 0
    → empty v.pipe ≡ true
    → 0 < n
    → n < f
    → read_loop f n [] ws v ≡ done (ok 0, []) v ws
unfolding read_loop
read_loop_eof zero n ws v named gone e pos h = absurd (omega arith)
read_loop_eof (suc f) zero ws v named gone e pos h = absurd (omega arith)
read_loop_eof (suc f) (suc n) ws v named gone e pos h =
    let w : (v.pipe.writers == 0) ≡ true = ground arith in rw (get_none ws v named e, read_loop, w)

-- A read of a pipe that is empty and has no writer left is the end of the file: 0 bytes, no wait, and
-- nothing changes.
pub pipe_read_eof :
    (n : ℕ) (ws : List Wake) (v : View)
    → v.pipe.named_wait ≡ false
    → v.pipe.writers ≡ 0
    → empty v.pipe ≡ true
    → pipe_read n ws v ≡ done (ok 0, []) v ws
unfolding pipe_read
pipe_read_eof zero ws v named gone e = refl
pipe_read_eof (suc n) ws v named gone e = rw (ne→eqb_false (suc n) 0 (omega arith)) (
    read_loop_eof (length ws + min (suc n) ssize_max + 1) (min (suc n) ssize_max) ws v named gone e
      (omega arith) (omega arith))
