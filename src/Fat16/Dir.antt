-- ===== src/Fat16/Dir.antt =====
-- Directories: the 32-byte entries, and the loops that list, search and fill directory sectors.
-- A C string is the list of its characters; what stands behind the end reads as the '\0'.
pub mod Record
pub mod Names
use alderkernel.Prelude.{
  ℕ, zero, suc, ◌+◌, ◌-◌, ◌*◌, ◌/◌, ◌%◌, ◌^◌, Bool, true, false, not, ◌&&◌, ◌||◌, Option, none,
  some, List, [], ◌∷◌, ◌++◌, ◌==◌, leb, ltb, if◌then◌else◌, get_or, store, take, drop, replicate,
  length, byte, le16, le32, add32, ℤ, pos, negsuc,
}
use alderkernel.Disk.{Device}
use alderkernel.Fat16.{Volume, Fs, M, pure, ◌>>=◌, when_ok, zero_sector, cluster_to_lba}
use alderkernel.Fat16.Fat.{fat_alloc_cluster}

-- `fat16_dirent_t`
pub record Dirent : Type 0 where
  pub name : List ℕ
  pub ext : List ℕ
  pub attr : ℕ
  pub cluster : ℕ
  pub size : ℕ

-- `copy_padded`: exactly `len` bytes, of the string and then of spaces.
unfoldable pub copy_padded : ℕ → List ℕ → List ℕ
copy_padded zero src = []
copy_padded (suc len) [] = b' ' ∷ copy_padded len []
copy_padded (suc len) (c ∷ src) =
    if c == 0 then b' ' ∷ copy_padded len [] else c ∷ copy_padded len src

-- The 32 bytes of `set_dir_entry`.
unfoldable pub set_dir_entry : List ℕ → List ℕ → ℕ → ℕ → ℕ → List ℕ
set_dir_entry name ext attr cluster size =
    copy_padded 8 name
    ++ (copy_padded 3 ext
        ++ (attr ∷ replicate 14 0
            ++ (byte cluster 0
                ∷ byte cluster 8
                ∷ byte size 0
                ∷ byte size 8
                ∷ byte size 16
                ∷ byte size 24
                ∷ [])))

-- `c - 32` for a lower-case letter
unfoldable pub upper : ℕ → ℕ
upper c = if leb b'a' c && leb c b'z' then c - 32 else c

-- The comparison loop over the next `n` bytes.
unfoldable pub matches : ℕ → List ℕ → List ℕ → Bool
matches zero entry query = true
matches (suc n) entry query =
    if get_or entry 0 0 == upper (get_or query 0 0)
    then matches n (drop 1 entry) (drop 1 query)
    else false

unfoldable pub names_equal : List ℕ → List ℕ → List ℕ → Bool
names_equal entry name ext =
    matches 8 entry (copy_padded 8 name) && matches 3 (drop 8 entry) (copy_padded 3 ext)

-- The number of bytes of `src[0..n)` before its trailing spaces.
unfoldable pub trim_end : ℕ → List ℕ → ℕ
trim_end zero src = 0
trim_end (suc n) src = let rest = trim_end n src in if get_or src n 0 == b' ' then rest else suc n

unfoldable pub trim_copy : List ℕ → ℕ → List ℕ
trim_copy src len = take (trim_end len src) src

unfoldable pub fill_dirent : List ℕ → Dirent
fill_dirent e = record {
  name = trim_copy e 8;
  ext = trim_copy (drop 8 e) 3;
  attr = get_or e 11 0;
  cluster = le16 (get_or e 26 0) (get_or e 27 0);
  size = le32 (get_or e 28 0) (get_or e 29 0) (get_or e 30 0) (get_or e 31 0);
}

-- `&sector[i * 32]`
unfoldable pub slot : List ℕ → ℕ → List ℕ
slot sector i = take 32 (drop (i * 32) sector)

unfoldable pub is_end : List ℕ → Bool
is_end e = get_or e 0 0 == 0x00

unfoldable pub is_skipped : List ℕ → Bool
is_skipped e = get_or e 0 0 == 0xe5 || get_or e 11 0 == 0x0f

-- The first free or deleted slot from `i` on, with `n` left.
unfoldable pub free_slot : ℕ → ℕ → List ℕ → Option ℕ
free_slot zero i sector = none
free_slot (suc n) i sector =
    let e = slot sector i in
    let rest = free_slot n (i + 1) sector in
    if get_or e 0 0 == 0x00 || get_or e 0 0 == 0xe5 then some i else rest

-- The state of a listing: the entries that were stored, in order, and how many there are.
pub record Listing : Type 0 where
  pub out : List Dirent
  pub count : ℕ

unfoldable pub add_entry : ℕ → List ℕ → Listing → Listing
add_entry max_entries e l = record {
  out = if ltb l.count max_entries then l.out ++ fill_dirent e ∷ [] else l.out;
  count = l.count + 1;
}

-- The slots of one sector; the Bool says that the end of the directory was met.
unfoldable pub list_slots : ℕ → ℕ → ℕ → List ℕ → Listing → Bool × Listing
list_slots zero i max_entries sector l = (false, l)
list_slots (suc n) i max_entries sector l =
    let e = slot sector i in
    let rest =
      list_slots n (i + 1) max_entries sector
        (if is_skipped e then l else add_entry max_entries e l) in
    if is_end e then (true, l) else rest

-- What a search of one sector finds.
pub data Search : Type 0 where
  found : Dirent → Search
  at_end : Search
  go_on : Search

unfoldable pub find_slots : ℕ → ℕ → List ℕ → List ℕ → List ℕ → Search
find_slots zero i name ext sector = go_on
find_slots (suc n) i name ext sector =
    let e = slot sector i in
    let rest = find_slots n (i + 1) name ext sector in
    if is_end e
    then at_end
    else if is_skipped e
    then rest
    else if names_equal e name ext
    then found (fill_dirent e)
    else rest

module _ (d : Device) where
  open d use {State, read_sector, write_sector}

  -- The loop of `write_entry_in_root` and `write_entry_in_dir_cluster`, with `n` sectors left.
  unfoldable pub write_entry_from : ℕ → ℕ → List ℕ → M State Bool
  write_entry_from zero lba entry s = (false, s)
  write_entry_from (suc n) lba entry s =
      let (ok, sector, s1) = read_sector lba s in
      let rest = write_entry_from n (add32 lba 1) entry s1 in
      if not ok then (false, s1) else elim (free_slot 16 0 sector) [
        | none ↦ rest
        | some i ↦ write_sector lba (store sector (i * 32) entry) s1
      ]

  unfoldable pub write_entry_in_root : Volume → List ℕ → M State Bool
  write_entry_in_root vol entry = write_entry_from vol.root_dir_sectors vol.root_start entry

  unfoldable pub write_entry_in_dir_cluster : Volume → ℕ → List ℕ → M State Bool
  write_entry_in_dir_cluster vol dir_cluster entry =
      write_entry_from vol.sectors_per_cluster (cluster_to_lba vol dir_cluster) entry

  unfoldable pub list_dir_sectors : ℕ → ℕ → ℕ → Listing → M State Listing
  list_dir_sectors zero lba max_entries l s = (l, s)
  list_dir_sectors (suc n) lba max_entries l s =
      let (ok, sector, s1) = read_sector lba s in
      let (done, l1) = list_slots 16 0 max_entries sector l in
      let rest = list_dir_sectors n (add32 lba 1) max_entries l1 s1 in
      if not ok then (l, s1) else if done then (l1, s1) else rest

  abbrev pub empty_listing : Listing
  empty_listing = record { out = []; count = 0 }

  -- The entries that were stored, and the count or -1.
  unfoldable pub fat16_list_root : Fs → ℕ → M State (List Dirent × ℤ)
  fat16_list_root fs max_entries s =
      let (l, s1) =
        list_dir_sectors fs.vol.root_dir_sectors fs.vol.root_start max_entries empty_listing s in
      if fs.mounted then ((l.out, pos l.count), s1) else (([], negsuc 0), s)

  unfoldable pub fat16_list_dir : Fs → ℕ → ℕ → M State (List Dirent × ℤ)
  fat16_list_dir fs dir_cluster max_entries s =
      let (l, s1) =
        list_dir_sectors fs.vol.sectors_per_cluster (cluster_to_lba fs.vol dir_cluster) max_entries
          empty_listing s in
      if fs.mounted then ((l.out, pos l.count), s1) else (([], negsuc 0), s)

  unfoldable pub find_in_sectors : ℕ → ℕ → List ℕ → List ℕ → M State (Option Dirent)
  find_in_sectors zero lba name ext s = (none, s)
  find_in_sectors (suc n) lba name ext s =
      let (ok, sector, s1) = read_sector lba s in
      let rest = find_in_sectors n (add32 lba 1) name ext s1 in
      if not ok then (none, s1) else elim (find_slots 16 0 name ext sector) [
        | found e ↦ (some e, s1)
        | at_end ↦ (none, s1)
        | go_on ↦ rest
      ]

  unfoldable pub fat16_find_in_root : Fs → List ℕ → List ℕ → M State (Option Dirent)
  fat16_find_in_root fs name ext s =
      let r = find_in_sectors fs.vol.root_dir_sectors fs.vol.root_start name ext s in
      if fs.mounted then r else (none, s)

  unfoldable pub fat16_find_in_dir : Fs → ℕ → List ℕ → List ℕ → M State (Option Dirent)
  fat16_find_in_dir fs dir_cluster name ext s =
      let r =
        find_in_sectors fs.vol.sectors_per_cluster (cluster_to_lba fs.vol dir_cluster) name ext s in
      if fs.mounted then r else (none, s)

  -- The sectors of a fresh directory's cluster after the first.
  unfoldable pub clear_sectors : ℕ → ℕ → M State Bool
  clear_sectors zero lba s = (true, s)
  clear_sectors (suc n) lba s =
      let (ok, s1) = write_sector lba zero_sector s in
      let rest = clear_sectors n (add32 lba 1) s1 in if ok then rest else (false, s1)

  -- The first sector of a fresh directory: "." and "..".
  unfoldable pub dir_head : ℕ → List ℕ
  dir_head cluster =
      store (store zero_sector 0 (set_dir_entry (b'.' ∷ []) [] 0x10 cluster 0)) 32
        (set_dir_entry (b'.' ∷ b'.' ∷ []) [] 0x10 0 0)

  -- `none` is the C function's 0, the cluster of success is what `out_cluster` receives.
  unfoldable pub fat16_mkdir_root : Fs → List ℕ → List ℕ → M State (Option ℕ)
  fat16_mkdir_root fs name ext s =
      let (cluster, s1) = fat_alloc_cluster d fs.vol s in
      let base = cluster_to_lba fs.vol cluster in
      let (ok, s2) =
        when_ok (write_sector base (dir_head cluster))
          (when_ok (clear_sectors (fs.vol.sectors_per_cluster - 1) (add32 base 1))
            (write_entry_in_root fs.vol (set_dir_entry name ext 0x10 cluster 0)))
          s1 in
      if not fs.mounted
      then (none, s)
      else if cluster == 0
      then (none, s1)
      else if ok
      then (some cluster, s2)
      else (none, s2)
