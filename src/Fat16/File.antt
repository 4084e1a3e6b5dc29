-- ===== src/Fat16/File.antt =====
-- Files: `write_file_data`, the two `fat16_create_file` functions and `fat16_read_file`.
use alderkernel.Prelude.{
  ℕ, zero, suc, ◌+◌, ◌-◌, min, Bool, true, false, not, ◌||◌, Option, none, some, List, ◌==◌, leb,
  ltb, if◌then◌else◌, store, take, drop, add32, mul32,
}
use alderkernel.Disk.{Device}
use alderkernel.Fat16.{Volume, Fs, M, zero_sector, cluster_to_lba}
use alderkernel.Fat16.Fat.{fat_read_entry, fat_write_entry, fat_alloc_cluster}
use alderkernel.Fat16.Dir.{set_dir_entry, write_entry_in_root, write_entry_in_dir_cluster}

abbrev pub bytes_per_cluster : Volume → ℕ
bytes_per_cluster vol = mul32 vol.sectors_per_cluster vol.bytes_per_sector

-- The sector that holds what is left of a chunk from `written` on.
unfoldable pub data_sector : List ℕ → ℕ → ℕ → ℕ → List ℕ
data_sector content offset this_chunk written =
    if ltb written this_chunk
    then store zero_sector 0
        (take (min (this_chunk - written) 512) (drop (add32 offset written) content))
    else zero_sector

module _ (d : Device) (vol : Volume) where
  open d use {State, read_sector, write_sector}

  -- The sectors of one cluster, with `n` left.
  unfoldable pub write_cluster : ℕ → ℕ → List ℕ → ℕ → ℕ → ℕ → M State Bool
  write_cluster zero lba content offset this_chunk written s = (true, s)
  write_cluster (suc n) lba content offset this_chunk written s =
      let (ok, s1) = write_sector lba (data_sector content offset this_chunk written) s in
      let rest = write_cluster n (add32 lba 1) content offset this_chunk (add32 written 512) s1 in
      if ok then rest else (false, s1)

  -- while (1), on fuel; `none` means that the fuel ran out.
  unfoldable pub write_file_from : ℕ → ℕ → List ℕ → ℕ → ℕ → M State (Option Bool)
  write_file_from zero cluster content offset remaining s = (none, s)
  write_file_from (suc fuel) cluster content offset remaining s =
      let this_chunk =
        if ltb remaining (bytes_per_cluster vol) then remaining else bytes_per_cluster vol in
      let (ok, s1) =
        write_cluster vol.sectors_per_cluster (cluster_to_lba vol cluster) content offset this_chunk
          0 s in
      let (next, s2) = fat_alloc_cluster d vol s1 in
      let rest =
        write_file_from fuel next content (add32 offset this_chunk) (remaining - this_chunk)
          (fat_write_entry d vol cluster next s2) in
      if not ok
      then (some false, s1)
      else if remaining - this_chunk == 0
      then (some true, fat_write_entry d vol cluster 0xffff s1)
      else if next == 0
      then (some false, s2)
      else rest

  -- A round takes a whole cluster, so `size` rounds and one are enough where a cluster has a byte.
  unfoldable pub write_file_data : ℕ → List ℕ → ℕ → M State (Option Bool)
  write_file_data first_cluster content size s =
      write_file_from (size + 1) first_cluster content 0 size s

  -- The sectors of one cluster: `read` counts the bytes of the chunk that were read.
  unfoldable pub read_cluster : ℕ → ℕ → ℕ → ℕ → ℕ → ℕ → List ℕ → M State (Bool × List ℕ)
  read_cluster zero lba offset this_chunk read buffer_size buffer s = ((true, buffer), s)
  read_cluster (suc n) lba offset this_chunk read buffer_size buffer s =
      let (ok, sector, s1) = read_sector lba s in
      let copy_len = min (this_chunk - read) 512 in
      let dest = add32 offset read in
      let buffer' = store buffer dest (take (min copy_len (buffer_size - dest)) sector) in
      let rest =
        read_cluster n (add32 lba 1) offset this_chunk (add32 read 512) buffer_size buffer' s1 in
      if not (ltb read this_chunk)
      then ((true, buffer), s)
      else if ok
      then rest
      else ((false, buffer), s1)

  -- while (remaining > 0), on fuel
  unfoldable pub read_file_from : ℕ → ℕ → ℕ → ℕ → ℕ → List ℕ → M State (Option (Bool × List ℕ))
  read_file_from zero cluster remaining offset buffer_size buffer s = (none, s)
  read_file_from (suc fuel) cluster remaining offset buffer_size buffer s =
      let this_chunk =
        if ltb remaining (bytes_per_cluster vol) then remaining else bytes_per_cluster vol in
      let ((ok, buffer'), s1) =
        read_cluster vol.sectors_per_cluster (cluster_to_lba vol cluster) offset this_chunk 0
          buffer_size buffer s in
      let (next, s2) = fat_read_entry d vol cluster s1 in
      let rest =
        read_file_from fuel next (remaining - this_chunk) (add32 offset this_chunk) buffer_size
          buffer' s2 in
      if remaining == 0
      then (some (true, buffer), s)
      else if not ok
      then (some (false, buffer'), s1)
      else if remaining - this_chunk == 0
      then (some (true, buffer'), s1)
      else if leb 0xfff8 next
      then (some (true, buffer'), s2)
      else rest

-- What a file's first cluster and its data come to, before its directory entry is written.
pub data Stored : Type 0 where
  stored : ℕ → Stored
  failed : Stored
  out_of_fuel : Stored

module _ (d : Device) where
  open d use {State, read_sector, write_sector}

  unfoldable pub store_data : Volume → List ℕ → ℕ → M State Stored
  store_data vol content size s =
      let (first_cluster, s1) = fat_alloc_cluster d vol s in
      let (r, s2) = write_file_data d vol first_cluster content size s1 in
      if size == 0 then (stored 0, s) else if first_cluster == 0 then (failed, s1) else elim r [
        | none ↦ (out_of_fuel, s2)
        | some done ↦ ((if done then stored first_cluster else failed), s2)
      ]

  unfoldable pub fat16_create_file_root : Fs → List ℕ → List ℕ → List ℕ → ℕ → M State (Option Bool)
  fat16_create_file_root fs name ext content size s =
      let (r, s1) = store_data fs.vol content size s in
      if not fs.mounted then (some false, s) else elim r [
        | stored c ↦
            let (ok, s2) = write_entry_in_root d fs.vol (set_dir_entry name ext 0x20 c size) s1 in
            (some ok, s2)
        | failed ↦ (some false, s1)
        | out_of_fuel ↦ (none, s1)
      ]

  unfoldable pub fat16_create_file_in_dir :
      Fs → ℕ → List ℕ → List ℕ → List ℕ → ℕ → M State (Option Bool)
  fat16_create_file_in_dir fs dir_cluster name ext content size s =
      let (r, s1) = store_data fs.vol content size s in
      if not fs.mounted then (some false, s) else elim r [
        | stored c ↦
            let (ok, s2) =
              write_entry_in_dir_cluster d fs.vol dir_cluster (set_dir_entry name ext 0x20 c size)
                s1 in
            (some ok, s2)
        | failed ↦ (some false, s1)
        | out_of_fuel ↦ (none, s1)
      ]

  -- The result and the buffer afterwards.
  unfoldable pub fat16_read_file : Fs → ℕ → ℕ → List ℕ → ℕ → M State (Option (Bool × List ℕ))
  fat16_read_file fs first_cluster size buffer buffer_size s =
      let r = read_file_from d fs.vol (size + 1) first_cluster size 0 buffer_size buffer s in
      if not fs.mounted
      then (some (false, buffer), s)
      else if size == 0 || first_cluster == 0
      then (some (true, buffer), s)
      else r
