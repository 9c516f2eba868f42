-- ===== src/Fs/Fat/Tests.antt =====
-- The theorems on fat_chains.c at small volumes.
use unstable_os.Base.{[], arith, if◌then◌else◌, ok, refl, some, ℕ, ◌==◌, ◌∷◌, ◌≡◌}
use unstable_os.Fs.Disk.{read16}
use unstable_os.Fs.Fat.{
  FatInfo, Volume, fat12, fat16, fat_free_chain, fat_next_in_chain, fat_set_chain, search_free,
}
use unstable_os.Fs.Fat.FreeCluster.{Means, search_free-Means}
use unstable_os.Fs.Fat.Entries.{InRange, Layout, fat16_set_then_next}
use unstable_os.Fs.Fat.Chains.{AllFree, IsChain, fat16_free_chain, last, link}

abbrev info : FatInfo
info = record {
  type = fat16;
  bytes_per_sector = 16;
  data_clusters = 5;
  last_free_cluster = 0;
  fat_start_sector = 1;
  sectors_per_fat = 1;
  fat_copies = 2;
}

-- Cluster 3 links to 4, which ends its chain; 2, 5, 6 and 7 are free.
abbrev table_byte : ℕ → ℕ
table_byte a = if a == 22 then 4 else if a == 24 then 0xF8 else if a == 25 then 0xFF else 0

abbrev volume : Volume
volume = record { info = info; disk = record { bytes = table_byte; size = 48 } }

volume-Layout : Layout volume
volume-Layout = record {
  type = refl;
  copies = omega arith;
  table = omega arith;
  on_disk = omega arith;
  small = omega arith;
}

next_of_three : fat_next_in_chain 3 volume ≡ some 4
unfolding fat_next_in_chain read16
next_of_three = refl

next_of_four : fat_next_in_chain 4 volume ≡ some 0xFFF0
unfolding fat_next_in_chain read16
next_of_four = refl

three-InRange : InRange 3 volume
three-InRange = omega arith

four-InRange : InRange 4 volume
four-InRange = omega arith

five-InRange : InRange 5 volume
five-InRange = omega arith

volume-IsChain : IsChain volume 3 (4 ∷ [])
volume-IsChain =
    link 4 three-InRange next_of_three (omega arith, tt)
      (last 0xFFF0 four-InRange next_of_four (omega arith))

search_free-Means_example : Means 2 5 volume (search_free volume)
search_free-Means_example = search_free-Means volume (omega arith)

fat16_set_then_next_example :
    (w : Volume) × (fat_set_chain 4 5 volume ≡ some (ok 0, w))
    × (fat_next_in_chain 4 w ≡ some 5)
    × (fat_next_in_chain 3 w ≡ fat_next_in_chain 3 volume)
    × Layout w
fat16_set_then_next_example =
    fat16_set_then_next volume 4 5 3 volume-Layout four-InRange three-InRange (omega arith)
      (omega arith)

fat16_free_chain_example :
    (w : Volume) × (fat_free_chain 3 3 volume ≡ some (ok 0, w)) × AllFree w (3 ∷ 4 ∷ []) × Layout w
fat16_free_chain_example =
    fat16_free_chain 3 volume 3 (4 ∷ []) volume-Layout volume-IsChain (omega arith)

abbrev volume12 : Volume
volume12 = record {
  info = record info { type = fat12 };
  disk = record { bytes = λ _. 0x77; size = 48 };
}
