-- ===== src/Fs/Pipe/Ring.antt =====
-- The ring of src/fs/pipe.c holds a queue of at most `pipe_buf - 1` bytes.
use unstable_os.Base.{
  List, [], ap, arith, false, get_or, get_or-set_ne, get_or-set_self, length, length-set, refl, set,
  suc, true, zero, ℕ, ◌%◌, ◌++◌, ◌+◌, ◌-◌, ◌<◌, ◌∷◌, ◌≡◌,
}
use mathlib.Core.Path.{ap₂}
use unstable_os.Fs.Pipe.{Pipe, drop_byte, empty, full, pipe_buf, put_byte, remain}

pub record IsValid (p : Pipe) : Type 0 where
  pub storage : length p.pipe_fifo ≡ pipe_buf
  pub head_in : p.head < pipe_buf
  pub tail_in : p.tail < pipe_buf

module _ (buf : List ℕ) where
  -- The `n` bytes from index `h` on, going round at `pipe_buf`.
  abbrev pub window : ℕ → ℕ → List ℕ
  window h zero = []
  window h (suc n) = get_or buf h 0 ∷ window ((h + 1) % pipe_buf) n

  pub length-window : (h n : ℕ) → length (window h n) ≡ n
  length-window h zero = refl
  length-window h (suc n) = ap suc (length-window ((h + 1) % pipe_buf) n)

  window_of_pos :
      (h n : ℕ) → 0 < n → window h n ≡ get_or buf h 0 ∷ window ((h + 1) % pipe_buf) (n - 1)
  window_of_pos h zero p = absurd (omega arith)
  window_of_pos h (suc n) p = ap (λ k. window h (suc k)) (omega arith)

-- The bytes in the pipe, oldest first.
abbrev pub contents : Pipe → List ℕ
contents p = window p.pipe_fifo p.head (remain p)

pub length-contents : (p : Pipe) → length (contents p) ≡ remain p
length-contents p = length-window p.pipe_fifo p.head (remain p)

-- Writing just past a window extends it by that byte.
window-set :
    (buf : List ℕ) (x n h i : ℕ)
    → length buf ≡ pipe_buf
    → h < pipe_buf
    → n < pipe_buf
    → i ≡ (h + n) % pipe_buf
    → window (set buf i x) h (suc n) ≡ window buf h n ++ (x ∷ [])
window-set buf x zero h i hs hh hn e =
    let e' : i ≡ h = omega arith in rw (e', get_or-set_self buf h x 0 (omega arith))
window-set buf x (suc n) h i hs hh hn e =
    ap₂ ◌∷◌ (get_or-set_ne buf x 0 (omega arith))
      (window-set buf x n ((h + 1) % pipe_buf) i hs (omega arith) (omega arith) (omega arith))

pub remain-lt : (p : Pipe) → IsValid p → remain p < pipe_buf
unfolding remain
remain-lt p v = ground arith

pub full-remain : (p : Pipe) → IsValid p → full p ≡ false → remain p + 1 < pipe_buf
unfolding full remain
full-remain p v h = ground arith

pub full_of_remain : (p : Pipe) → IsValid p → remain p + 1 < pipe_buf → full p ≡ false
unfolding full remain
full_of_remain p v h = ground arith

pub empty-remain : (p : Pipe) → IsValid p → empty p ≡ false → 0 < remain p
unfolding empty remain
empty-remain p v h = ground arith

pub empty_of_remain : (p : Pipe) → IsValid p → 0 < remain p → empty p ≡ false
unfolding empty remain
empty_of_remain p v h = ground arith

pub remain_of_empty : (p : Pipe) → empty p ≡ true → remain p ≡ 0
unfolding empty remain
remain_of_empty p h = ground arith

tail-remain : (p : Pipe) → IsValid p → p.tail ≡ (p.head + remain p) % pipe_buf
unfolding remain
tail-remain p v = ground arith

remain-put :
    (c : ℕ) (p : Pipe) → IsValid p → full p ≡ false → remain (put_byte c p) ≡ suc (remain p)
unfolding full remain put_byte
remain-put c p v h = ground arith

remain-drop : (p : Pipe) → IsValid p → empty p ≡ false → remain (drop_byte p) ≡ remain p - 1
unfolding empty remain drop_byte
remain-drop p v h = ground arith

pub put_byte-IsValid : (c : ℕ) (p : Pipe) → IsValid p → IsValid (put_byte c p)
unfolding put_byte
put_byte-IsValid c p v = ground (arith, length-set p.pipe_fifo p.tail c)

pub drop_byte-IsValid : (p : Pipe) → IsValid p → IsValid (drop_byte p)
unfolding drop_byte
drop_byte-IsValid p v = ground arith

pub contents-put :
    (c : ℕ) (p : Pipe)
    → IsValid p
    → full p ≡ false
    → contents (put_byte c p) ≡ contents p ++ (c ∷ [])
contents-put c p v h = rw (remain-put c p v h) (
    unfold put_byte in
    window-set p.pipe_fifo c (remain p) p.head p.tail v.storage v.head_in
      (omega (arith, full-remain p v h)) (tail-remain p v))

pub contents-drop :
    (p : Pipe)
    → IsValid p
    → empty p ≡ false
    → contents p ≡ get_or p.pipe_fifo p.head 0 ∷ contents (drop_byte p)
contents-drop p v h =
    rw (remain-drop p v h)
      (unfold drop_byte in window_of_pos p.pipe_fifo p.head (remain p) (empty-remain p v h))
