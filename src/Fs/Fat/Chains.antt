-- ===== src/Fs/Fat/Chains.antt =====
-- Freeing a chain of clusters on FAT16, src/fs/vfat/fat_chains.c.
use mathlib.Core.Path.{subst}
use unstable_os.Base.{
  List, [], arith, false, length, le→ltb_false, ltb, lt→ltb, ok, some, suc, sym, true, zero, ℕ, ◌+◌,
  ◌<◌, ◌==◌, ◌∙◌, ◌∷◌, ◌≡◌, ◌≢◌, ◌≤◌,
}
use unstable_os.Fs.Fat.{
  Volume, cluster_end, fat16, fat_free_chain, fat_next_in_chain, fat_set_chain, free_loop,
}
use unstable_os.Fs.Fat.Entries.{InRange, Layout, Set16, set16_lem}

abbrev pub NotIn : ℕ → List ℕ → Type 0
NotIn cl [] = Unit {0}
NotIn cl (c ∷ cs) = (c ≢ cl) × NotIn cl cs

-- The chain of the clusters `cl` and `rest`: each entry links to the next cluster, and the last has an
-- end mark. No cluster comes twice.
pub data IsChain (v : Volume) : ℕ → List ℕ → Type 0 where
  last :
      {cl : ℕ} (end : ℕ)
      → InRange cl v
      → fat_next_in_chain cl v ≡ some end
      → 0xFFF0 ≤ end
      → IsChain v cl []
  link :
      {cl : ℕ} {rest : List ℕ} (next : ℕ)
      → InRange cl v
      → fat_next_in_chain cl v ≡ some next
      → NotIn cl (next ∷ rest)
      → IsChain v next rest
      → IsChain v cl (next ∷ rest)

first_low : {v : Volume} {c : ℕ} {cs : List ℕ} → IsChain v c cs → 2 ≤ c
first_low (last end r e h) = r.low
first_low (link d r e n ch) = r.low

InRange-moves :
    {o : ℕ} (v w : Volume) → w.info.data_clusters ≡ v.info.data_clusters → InRange o v → InRange o w
InRange-moves v w same r = record { low = r.low; high = rw same r.high; not_end = r.not_end }

-- A chain without `cl` is still there when the entry of `cl` has been set.
IsChain-moves :
    (v w : Volume) (cl next : ℕ) {c : ℕ} {cs : List ℕ}
    → Set16 cl next v w
    → NotIn cl (c ∷ cs)
    → IsChain v c cs
    → IsChain w c cs
IsChain-moves v w cl next s (ne, n) (last {cl = c} end r e h) =
    last end (InRange-moves v w s.clusters r) (s.others c r ne ∙ e) h
IsChain-moves v w cl next s (ne, n) (link {cl = c} d r e k ch) =
    link d (InRange-moves v w s.clusters r) (s.others c r ne ∙ e) k
      (IsChain-moves v w cl next s n ch)

free_step :
    (f cl next : ℕ) (v w : Volume)
    → v.info.type ≡ fat16
    → cl < 0xFFF0
    → fat_next_in_chain cl v ≡ some next
    → fat_set_chain cl 0 v ≡ some (ok 0, w)
    → 2 ≤ next
    → free_loop (suc f) cl v ≡ free_loop f next w
unfolding free_loop
free_step f cl next v w t end e s ok_next =
    let a : ltb cl (cluster_end v.info.type) ≡ true =
      subst (λ k. ltb cl (cluster_end k) ≡ true) (sym t) (lt→ltb cl 0xFFF0 end) in
    let b : (next == 0) ≡ false = ground arith in
    let c : ltb next 2 ≡ false = ground arith in
    rw (a, free_loop)
      (rw (e, free_loop) (rw (s, free_loop) (rw (b, free_loop) (rw (c, free_loop)))))

free_stop :
    (f cl : ℕ) (v : Volume)
    → v.info.type ≡ fat16
    → 0xFFF0 ≤ cl
    → free_loop (suc f) cl v ≡ some (ok 0, v)
unfolding free_loop
free_stop f cl v t end =
    let a : ltb cl (cluster_end v.info.type) ≡ false =
      subst (λ k. ltb cl (cluster_end k) ≡ false) (sym t) (le→ltb_false cl 0xFFF0 end) in
    rw (a, free_loop)

-- Every cluster of the list reads as free.
abbrev pub AllFree : Volume → List ℕ → Type 0
AllFree v [] = Unit {0}
AllFree v (c ∷ cs) = (fat_next_in_chain c v ≡ some 0) × AllFree v cs

-- What freeing the clusters `cs` of `v` leaves.
pub record Freed (cs : List ℕ) (v w : Volume) : Type 0 where
  pub layout : Layout w
  pub clusters : w.info.data_clusters ≡ v.info.data_clusters
  pub free : AllFree w cs
  pub others : (o : ℕ) → InRange o v → NotIn o cs → fat_next_in_chain o w ≡ fat_next_in_chain o v

ne_symm : (a b : ℕ) → a ≢ b → b ≢ a
ne_symm a b h e = h (sym e)

free_loop-Freed :
    (f : ℕ) (v : Volume) {cl : ℕ} {rest : List ℕ}
    → Layout v
    → IsChain v cl rest
    → length rest + 1 < f
    → (w : Volume) × (free_loop f cl v ≡ some (ok 0, w)) × Freed (cl ∷ rest) v w
free_loop-Freed zero v l ch h = absurd (omega arith)
free_loop-Freed (suc zero) v l ch h = absurd (omega arith)
free_loop-Freed (suc (suc f)) v l (last {cl} end r e mark) h =
    let s = set16_lem v l cl 0 r in
    (
      s.0,
      free_step (suc f) cl end v s.0 l.type r.not_end e s.1 (omega arith)
          ∙ free_stop f end s.0 s.2.layout.type mark,
      record {
        layout = s.2.layout;
        clusters = s.2.clusters;
        free = (s.2.entry, tt);
        others = λ o ro n. s.2.others o ro (ne_symm cl o n.0);
      },
    )
free_loop-Freed (suc (suc f)) v l (link {cl} {rest} next r e n ch) h =
    let s = set16_lem v l cl 0 r in
    let m = IsChain-moves v s.0 cl 0 s.2 n ch in
    let i = free_loop-Freed (suc f) s.0 s.2.layout m (omega arith) in
    let two : 2 ≤ next = first_low m in
    (
      i.0,
      free_step (suc f) cl next v s.0 l.type r.not_end e s.1 two ∙ i.1,
      record {
        layout = i.2.layout;
        clusters = i.2.clusters ∙ s.2.clusters;
        free = (i.2.others cl (InRange-moves v s.0 s.2.clusters r) n ∙ s.2.entry, i.2.free);
        others = λ o ro k.
            i.2.others o (InRange-moves v s.0 s.2.clusters ro) k.1
            ∙ s.2.others o ro (ne_symm cl o k.0);
      },
    )

-- Freeing a chain on FAT16 succeeds with fuel for one round more than the chain has clusters. Every
-- cluster of the chain then reads as free, and the volume keeps its layout.
pub fat16_free_chain :
    (fuel : ℕ) (v : Volume) (cl : ℕ) (rest : List ℕ)
    → Layout v
    → IsChain v cl rest
    → length rest + 1 < fuel
    → (w : Volume) × (fat_free_chain fuel cl v ≡ some (ok 0, w)) × AllFree w (cl ∷ rest) × Layout w
unfolding fat_free_chain
fat16_free_chain fuel v cl rest l ch h =
    let i = free_loop-Freed fuel v l ch h in (i.0, i.1, i.2.free, i.2.layout)

-- Freeing a chain does not touch the entry of any other cluster.
pub fat16_free_chain_others :
    (fuel : ℕ) (v : Volume) (cl other : ℕ) (rest : List ℕ)
    → Layout v
    → IsChain v cl rest
    → length rest + 1 < fuel
    → InRange other v
    → NotIn other (cl ∷ rest)
    → (w : Volume) × (fat_free_chain fuel cl v ≡ some (ok 0, w))
      × (fat_next_in_chain other w ≡ fat_next_in_chain other v)
unfolding fat_free_chain
fat16_free_chain_others fuel v cl other rest l ch h r n =
    let i = free_loop-Freed fuel v l ch h in (i.0, i.1, i.2.others other r n)
