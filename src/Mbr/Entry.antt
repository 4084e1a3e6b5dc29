-- ===== src/Mbr/Entry.antt =====
-- One sector: what an update changes of it, and what is parsed from the result.
use alderkernel.Prelude.{
  ℕ, ◌+◌, ◌*◌, ◌^◌, ◌<◌, ◌≤◌, ◌≡◌, refl, ◌≢◌, ◌⊎◌, inl, inr, ◌∙◌, List, [], ◌∷◌, ◌==◌,
  if◌then◌else◌, if_both, get_or, length, length-store, get_or-store_in, get_or-store_out, store,
  le16_lem, le32-byte, arith,
}
use native.Mathlib.Decide.{dec_lt}
use alderkernel.Mbr.{entry_byte, signature, parse_entry, entry_bytes, base_sector, put_entry}
use alderkernel.Disk.{IsSector}
use alderkernel.Disk.Sector.{AreBytes, AllBytes-AreBytes, store-IsSector, zero-IsSector}

base_sector-IsSector : {x : List ℕ} → IsSector x → IsSector (base_sector x)
unfolding base_sector
base_sector-IsSector {x} v = if_both IsSector (signature x == 0xaa55) (λ _. v) (λ _. zero-IsSector)

-- The bytes of two entries lie apart.
aside :
    (i j n : ℕ)
    → j ≢ i
    → n < 16
    → (446 + j * 16 + n < 446 + i * 16) ⊎ (446 + i * 16 + 16 ≤ 446 + j * 16 + n)
aside i j n ne lt = elim (dec_lt j i) [ yes p ↦ inl (omega arith) | no p ↦ inr (omega arith) ]

-- The places of an update: the entry, the signature, and all else.
module _ {x : List ℕ} (v : IsSector x) (i : ℕ) (h : i < 4) (e : List ℕ) (size : length e ≡ 16) where
  length-base : length (base_sector x) ≡ 512
  length-base = (base_sector-IsSector v).size

  length-inner : length (store (base_sector x) (446 + i * 16) e) ≡ 512
  length-inner = length-store (base_sector x) (446 + i * 16) e ∙ length-base

  at_entry : (n : ℕ) → n < 16 → get_or (put_entry x i e) (446 + i * 16 + n) 0 ≡ get_or e n 0
  unfolding put_entry
  at_entry n lt =
      get_or-store_out (store (base_sector x) (446 + i * 16) e) 510 (0x55 ∷ 0xaa ∷ [])
        (446 + i * 16 + n) 0 (omega (arith, length-inner)) (omega arith)
      ∙ get_or-store_in (base_sector x) (446 + i * 16) e n (446 + i * 16 + n) 0
          (omega (arith, length-base, size)) (omega (arith, size)) refl

  elsewhere :
      (q : ℕ)
      → (q < 446 + i * 16) ⊎ (446 + i * 16 + 16 ≤ q)
      → q < 510
      → get_or (put_entry x i e) q 0 ≡ get_or (base_sector x) q 0
  unfolding put_entry
  elsewhere q out lt =
      get_or-store_out (store (base_sector x) (446 + i * 16) e) 510 (0x55 ∷ 0xaa ∷ []) q 0
        (omega (arith, length-inner)) (omega arith)
      ∙ get_or-store_out (base_sector x) (446 + i * 16) e q 0 (omega (arith, length-base, size))
          (omega (arith, size))

  at_signature : (get_or (put_entry x i e) 510 0 ≡ 0x55) × (get_or (put_entry x i e) 511 0 ≡ 0xaa)
  unfolding put_entry
  at_signature = (
    get_or-store_in (store (base_sector x) (446 + i * 16) e) 510 (0x55 ∷ 0xaa ∷ []) 0 510 0
        (omega (arith, length-inner)) (omega arith) refl,
    get_or-store_in (store (base_sector x) (446 + i * 16) e) 510 (0x55 ∷ 0xaa ∷ []) 1 511 0
        (omega (arith, length-inner)) (omega arith) refl,
  )

  pub signature-put_entry : signature (put_entry x i e) ≡ 0xaa55
  unfolding signature
  signature-put_entry =
      rw (at_signature.0, at_signature.1) (omega (arith, le16_lem 0x55 0xaa (omega arith)))

  pub put_entry-IsSector : AreBytes e → IsSector (put_entry x i e)
  unfolding put_entry
  put_entry-IsSector b =
      store-IsSector 510 (0x55 ∷ 0xaa ∷ [])
        (store-IsSector (446 + i * 16) e (base_sector-IsSector v) b)
        (AllBytes-AreBytes (0x55 ∷ 0xaa ∷ []) (omega arith))

  -- Another entry, and everything before the table, are those of the sector that was there.
  pub parse_entry-put_entry_ne :
      (j : ℕ) → j < 4 → j ≢ i → parse_entry (put_entry x i e) j ≡ parse_entry (base_sector x) j
  unfolding parse_entry
  parse_entry-put_entry_ne j hj ne =
      let same : (n : ℕ)
          → n < 16
          → entry_byte (put_entry x i e) j n ≡ entry_byte (base_sector x) j n =
        λ n lt. elsewhere (446 + j * 16 + n) (aside i j n ne lt) (omega arith) in
      ground (
        arith,
        same 0 (omega arith),
        same 4 (omega arith),
        same 8 (omega arith),
        same 9 (omega arith),
        same 10 (omega arith),
        same 11 (omega arith),
        same 12 (omega arith),
        same 13 (omega arith),
        same 14 (omega arith),
        same 15 (omega arith),
      )

  pub boot_code-put_entry :
      (q : ℕ) → q < 446 → get_or (put_entry x i e) q 0 ≡ get_or (base_sector x) q 0
  boot_code-put_entry q lt = elsewhere q (inl (omega arith)) (omega arith)

pub length-entry_bytes : (b k l c : ℕ) → length (entry_bytes b k l c) ≡ 16
unfolding entry_bytes
length-entry_bytes b k l c = refl

pub entry_bytes-AreBytes : (b k l c : ℕ) → k < 256 → AreBytes (entry_bytes b k l c)
unfolding entry_bytes
entry_bytes-AreBytes b k l c hk = AllBytes-AreBytes (entry_bytes b k l c) (ground arith)

-- What is read back is the entry that was written.
module _ {x : List ℕ} (v : IsSector x) (i : ℕ) (h : i < 4) (b k l c : ℕ) where
  pub parse_entry-put_entry :
      l < 2 ^ 32
      → c < 2 ^ 32
      → parse_entry (put_entry x i (entry_bytes b k l c)) i
        ≡ record { bootable = if b == 0 then 0 else 1; kind = k; lba_start = l; sector_count = c }
  unfolding parse_entry entry_bytes
  parse_entry-put_entry hl hc =
      let e : List ℕ = entry_bytes b k l c in
      let put : (n : ℕ) → n < 16 → entry_byte (put_entry x i e) i n ≡ get_or e n 0 =
        at_entry v i h e refl in
      ground (
        arith,
        put 0 (omega arith),
        put 4 (omega arith),
        put 8 (omega arith),
        put 9 (omega arith),
        put 10 (omega arith),
        put 11 (omega arith),
        put 12 (omega arith),
        put 13 (omega arith),
        put 14 (omega arith),
        put 15 (omega arith),
        le32-byte l hl,
        le32-byte c hc,
      )
