-- ===== src/Tests/Devices.antt =====
-- The keyboard, the drive, the partition table and FAT16 at concrete inputs.
use alderkernel.Prelude.{
  ℕ, zero, suc, ◌+◌, ◌%◌, ◌^◌, ◌<◌, ◌≡◌, refl, ◌⊎◌, inl, ◌↔◌, true, false, ◌&&◌, List, [], ◌∷◌,
  ◌++◌, length, ◌==◌, ltb, leb, if◌then◌else◌, get_or, replicate, length-replicate, pos, arith,
}
use alderkernel.Disk.Sector.{AreBytes-replicate}
use alderkernel.Disk.Ram.{ram, ram-IsDisk}
use alderkernel.Ps2.{Keyboard, key_buffer_pop, keyboard_handler}
use alderkernel.Ps2.Queue.{IsValid, keys, dequeue, keys-key_buffer_pop}
use alderkernel.Ps2.Handler.{
  mode, decode, deliver, keyboard_handler-IsValid, mode-keyboard_handler, keys-keyboard_handler,
}
use alderkernel.Ata.{Ports, ata_write_sector}
use alderkernel.Ata.Laws.{IsTraced, request, payload, ready, asked, sent-ata_write_sector}
use alderkernel.Mbr.{no_partition, mbr_read_partitions, mbr_write_partition}
use alderkernel.Mbr.Table.{given, mbr_read_partitions-mbr_write_partition}
use alderkernel.Fat16.{Fs}
use alderkernel.Fat16.Format.{can_format, write_all, write_fat, fat16_format, fat16_mount}
use alderkernel.Fat16.Format.Geometry.{
  layout, formatted, sector-fat16_format, fat16_mount-fat16_format,
}
use alderkernel.Fat16.Dir.{set_dir_entry, fill_dirent, names_equal}
use alderkernel.Fat16.Dir.Record.{IsName, fill_dirent-set_dir_entry}
use alderkernel.Fat16.Dir.Names.{IsShort, names_equal-set_dir_entry, names_equal-lower_case}

-- Two keys wait, over the end of the ring.
abbrev two_keys : Keyboard
two_keys = record {
  key_buffer = replicate 256 120;
  key_buf_head = 1;
  key_buf_tail = 255;
  extended_prefix = false;
  shift_held = true;
  capslock_on = false;
}

two_keys-IsValid : IsValid two_keys
two_keys-IsValid = record {
  size = length-replicate {A = ℕ} 256 120;
  head_in = omega arith;
  tail_in = omega arith;
}

keys-key_buffer_pop_example :
    ((key_buffer_pop two_keys).0, keys (key_buffer_pop two_keys).1) ≡ dequeue (keys two_keys)
keys-key_buffer_pop_example = keys-key_buffer_pop two_keys-IsValid

-- 0x1e is the key of the letter a.
keys-keyboard_handler_example :
    keys (keyboard_handler 0x1e two_keys) ≡ deliver (decode (mode two_keys) 0x1e).1 (keys two_keys)
keys-keyboard_handler_example = keys-keyboard_handler 0x1e (omega arith) two_keys-IsValid

mode-keyboard_handler_example :
    mode (keyboard_handler 0xaa two_keys) ≡ (decode (mode two_keys) 0xaa).0
mode-keyboard_handler_example = mode-keyboard_handler 0xaa two_keys (omega arith)

keyboard_handler-IsValid_example : IsValid (keyboard_handler 0x1e two_keys)
keyboard_handler-IsValid_example = keyboard_handler-IsValid 0x1e two_keys-IsValid

-- Hardware that writes down what it is sent, with a drive that is ready and asks for data.
abbrev recorder : Ports
recorder = record {
  State = List (ℕ × ℕ);
  inb = λ q h. (0x48, h);
  outb = λ q v h. h ++ (q, v) ∷ [];
  inw = λ q h. (0, h);
  outw = λ q v h. h ++ (q, v) ∷ [];
}

abbrev recorder-IsTraced : IsTraced recorder
recorder-IsTraced = record {
  sent = λ h. h;
  sent-outb = λ q v h. refl;
  sent-outw = λ q v h. refl;
  sent-inb = λ q h. refl;
}

abbrev marked_sector : List ℕ
marked_sector = 0x55 ∷ 0xaa ∷ replicate 510 0

marked_sector-lt : (i : ℕ) → get_or marked_sector i 0 < 256
marked_sector-lt zero = omega arith
marked_sector-lt (suc zero) = omega arith
marked_sector-lt (suc (suc i)) = AreBytes-replicate 510 i

marked_sector-length : length marked_sector ≡ 512
marked_sector-length = omega (arith, length-replicate {A = ℕ} 510 0)

sent-ata_write_sector_example :
    ((ata_write_sector recorder 0x1234567 marked_sector []).0
      ≡ (ready recorder [] && asked recorder 0x1234567 []))
    × ((ata_write_sector recorder 0x1234567 marked_sector []).1
        ≡ []
          ++ (if ready recorder []
              then request 0x1234567
                ++ (if asked recorder 0x1234567 [] then payload 256 0 marked_sector else [])
              else []))
sent-ata_write_sector_example =
    sent-ata_write_sector recorder recorder-IsTraced 0x1234567 marked_sector [] marked_sector-length
      marked_sector-lt

blank_disk : ram.State
unfolding ram
blank_disk = λ _. []

-- README.TXT, and readme.
abbrev readme : List ℕ
readme = b'R' ∷ b'E' ∷ b'A' ∷ b'D' ∷ b'M' ∷ b'E' ∷ []

abbrev text : List ℕ
text = b'T' ∷ b'X' ∷ b'T' ∷ []

abbrev lower : List ℕ
lower = b'r' ∷ b'e' ∷ []

readme-IsName : IsName readme
readme-IsName = omega arith

text-IsName : IsName text
text-IsName = omega arith

lower-IsName : IsName lower
lower-IsName = omega arith

low : {c : ℕ} → c < b'a' → (c < b'a') ⊎ (b'z' < c)
low h = inl h

readme-IsShort : IsShort 8 readme
readme-IsShort = record {
  name_ok = readme-IsName;
  upper_case = (
    low (omega arith),
    (
      low (omega arith),
      (low (omega arith), (low (omega arith), (low (omega arith), (low (omega arith), tt)))),
    ),
  );
  fits = omega arith;
}

text-IsShort : IsShort 3 text
text-IsShort = record {
  name_ok = text-IsName;
  upper_case = (low (omega arith), (low (omega arith), (low (omega arith), tt)));
  fits = omega arith;
}

fill_dirent-set_dir_entry_example :
    fill_dirent (set_dir_entry readme text 0x20 70000 1000)
    ≡ record { name = readme; ext = text; attr = 0x20; cluster = 70000 % 2 ^ 16; size = 1000 }
fill_dirent-set_dir_entry_example =
    fill_dirent-set_dir_entry readme text 0x20 70000 1000 readme-IsName text-IsName (omega arith)
      (omega arith) (omega arith)

names_equal-set_dir_entry_example :
    (names_equal (set_dir_entry readme text 0x20 5 1000) readme text ≡ true)
    ↔ ((readme ≡ readme) × (text ≡ text))
names_equal-set_dir_entry_example =
    names_equal-set_dir_entry readme text 0x20 5 1000 readme text readme-IsShort text-IsShort
      readme-IsShort text-IsShort

names_equal-lower_case_example :
    names_equal (set_dir_entry lower text 0x20 5 1000) lower text ≡ false
names_equal-lower_case_example =
    names_equal-lower_case lower text 0x20 5 1000 1 lower-IsName (omega arith) (omega arith)
      (omega arith) (omega arith)

write_done : (mbr_write_partition ram (pos 1) 1 6 2048 300000 blank_disk).0 ≡ true
unfolding ram mbr_write_partition
write_done = refl

read_done :
    (ram.read_sector 0 (mbr_write_partition ram (pos 1) 1 6 2048 300000 blank_disk).1).0 ≡ true
unfolding ram
read_done = refl

mbr_read_partitions-mbr_write_partition_example :
    ((j : ℕ)
      → j < 4
      → get_or
          (mbr_read_partitions ram
            (mbr_write_partition ram (pos 1) 1 6 2048 300000 blank_disk).1).0.0
          j
          no_partition
        ≡ (if j == 1
            then given 1 6 2048 300000
            else get_or (mbr_read_partitions ram blank_disk).0.0 j no_partition))
    × ((6 ≡ zero)
        ⊎ (0
            < (mbr_read_partitions ram
                (mbr_write_partition ram (pos 1) 1 6 2048 300000 blank_disk).1).0.1))
mbr_read_partitions-mbr_write_partition_example =
    mbr_read_partitions-mbr_write_partition ram ram-IsDisk 1 1 6 2048 300000 blank_disk
      (omega arith) (omega arith) (omega arith) (omega arith) write_done read_done

write_all_done : (n l : ℕ) (x : List ℕ) (s : ram.State) → (write_all ram n l x s).0 ≡ true
unfolding write_all ram
write_all_done zero l x s = refl
write_all_done (suc n) l x s = write_all_done n _ x _

can_format_disk : can_format 300000 ≡ true
unfolding can_format
can_format_disk = ground arith

format_done : (fat16_format ram 2048 300000 blank_disk).0 ≡ true
unfolding ram fat16_format write_fat
format_done = simp (can_format_disk, write_all_done)

sector-fat16_format_example : ram-IsDisk.sector (fat16_format ram 2048 300000 blank_disk).1 2305 ≡ (
    if leb 2048 2305 && ltb 2305 (2048 + 545)
    then layout 2048 300000 2305
    else ram-IsDisk.sector blank_disk 2305)
sector-fat16_format_example =
    sector-fat16_format ram ram-IsDisk 2048 300000 blank_disk (omega arith) format_done 2305
      (omega arith)

abbrev unmounted : Fs
unmounted = record {
  vol = record {
    partition_lba = 0;
    bytes_per_sector = 0;
    sectors_per_cluster = 0;
    reserved_sectors = 0;
    num_fats = 0;
    root_entries = 0;
    fat_size_sectors = 0;
    root_dir_sectors = 0;
    fat_start = 0;
    root_start = 0;
    data_start = 0;
  };
  mounted = false;
}

boot_sector_read : (ram.read_sector 2048 (fat16_format ram 2048 300000 blank_disk).1).0 ≡ true
unfolding ram
boot_sector_read = refl

fat16_mount-fat16_format_example :
    (fat16_mount ram 2048 unmounted (fat16_format ram 2048 300000 blank_disk).1).0
    ≡ (true, record { vol = formatted 2048; mounted = true })
fat16_mount-fat16_format_example =
    fat16_mount-fat16_format ram ram-IsDisk 2048 300000 blank_disk unmounted (omega arith)
      format_done boot_sector_read
