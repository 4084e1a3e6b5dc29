-- ===== src/Fat16/Dir/Record.antt =====
-- Directory entries: what is read back of an entry, and which names it answers to.
use alderkernel.Prelude.{
  ℕ, zero, suc, ◌+◌, ◌%◌, ◌^◌, ◌<◌, ◌≤◌, ◌≡◌, refl, ◌≢◌, ap, ap₂, sym, ◌∙◌, List, [], ◌∷◌, ◌++◌,
  get_or, take, drop, replicate, length, get_or-append_right, drop-append, byte, le16-byte,
  le32-byte, arith,
}
use native.Mathlib.Decide.{ℕ_discrete}
use alderkernel.Fat16.Dir.{copy_padded, set_dir_entry, trim_end, trim_copy, fill_dirent}

-- A part of a file name: no '\\0' and no space in it.
abbrev pub IsName : List ℕ → Type 0
IsName [] = Unit
IsName (c ∷ cs) = (c ≢ 0) × (c ≢ b' ') × IsName cs

pub length-copy_padded : (len : ℕ) (src : List ℕ) → length (copy_padded len src) ≡ len
unfolding copy_padded
length-copy_padded zero src = refl
length-copy_padded (suc len) [] = ap suc (length-copy_padded len [])
length-copy_padded (suc len) (c ∷ src) =
    ground (arith, length-copy_padded len [], length-copy_padded len src)

-- The padded field, from its first byte.
pub copy_padded-nil : (len : ℕ) → copy_padded (suc len) [] ≡ b' ' ∷ copy_padded len []
unfolding copy_padded
copy_padded-nil len = refl

pub copy_padded-nonzero :
    (len c : ℕ) (cs : List ℕ) → c ≢ 0 → copy_padded (suc len) (c ∷ cs) ≡ c ∷ copy_padded len cs
unfolding copy_padded
copy_padded-nonzero len c cs h = ground arith

take-copy_padded :
    (len : ℕ) (name : List ℕ)
    → IsName name
    → length name ≤ len
    → (rest : List ℕ) → take (length name) (copy_padded len name ++ rest) ≡ name
take-copy_padded len [] v h rest = refl
take-copy_padded zero (c ∷ cs) v h rest = absurd (omega arith)
take-copy_padded (suc len) (c ∷ cs) v h rest =
    ap (λ xs. take (suc (length cs)) (xs ++ rest)) (copy_padded-nonzero len c cs v.0)
    ∙ ap (λ xs. c ∷ xs) (take-copy_padded len cs v.2 (omega arith) rest)

-- Behind the name the field is blank; the name's own bytes are not.
blank-copy_padded :
    (len : ℕ) (name rest : List ℕ) (i : ℕ)
    → IsName name
    → length name ≤ i
    → i < len
    → get_or (copy_padded len name ++ rest) i 0 ≡ b' '
blank-copy_padded zero name rest i v h lt = absurd (omega arith)
blank-copy_padded (suc len) [] rest zero v h lt =
    ap (λ xs. get_or (xs ++ rest) 0 0) (copy_padded-nil len)
blank-copy_padded (suc len) [] rest (suc i) v h lt =
    ap (λ xs. get_or (xs ++ rest) (suc i) 0) (copy_padded-nil len)
    ∙ blank-copy_padded len [] rest i v (omega arith) (omega arith)
blank-copy_padded (suc len) (c ∷ cs) rest zero v h lt = absurd (omega arith)
blank-copy_padded (suc len) (c ∷ cs) rest (suc i) v h lt =
    ap (λ xs. get_or (xs ++ rest) (suc i) 0) (copy_padded-nonzero len c cs v.0)
    ∙ blank-copy_padded len cs rest i v.2 (omega arith) (omega arith)

solid-copy_padded :
    (len : ℕ) (name rest : List ℕ) (i : ℕ)
    → IsName name
    → i < length name
    → length name ≤ len
    → get_or (copy_padded len name ++ rest) i 0 ≢ b' '
solid-copy_padded len [] rest i v h lt e = absurd (omega arith)
solid-copy_padded zero (c ∷ cs) rest i v h lt e = absurd (omega arith)
solid-copy_padded (suc len) (c ∷ cs) rest zero v h lt e =
    v.1 (ap (λ xs. get_or (xs ++ rest) 0 0) (sym (copy_padded-nonzero len c cs v.0)) ∙ e)
solid-copy_padded (suc len) (c ∷ cs) rest (suc i) v h lt e =
    solid-copy_padded len cs rest i v.2 (omega arith) (omega arith)
      (ap (λ xs. get_or (xs ++ rest) (suc i) 0) (sym (copy_padded-nonzero len c cs v.0)) ∙ e)

trim_end_lem :
    (n m : ℕ) (xs : List ℕ)
    → m ≤ n
    → ((i : ℕ) → m ≤ i → i < n → get_or xs i 0 ≡ b' ')
    → ((i : ℕ) → i < m → get_or xs i 0 ≢ b' ')
    → trim_end n xs ≡ m
unfolding trim_end
trim_end_lem zero m xs h blank solid = omega arith
trim_end_lem (suc n) m xs h blank solid = elim (ℕ_discrete m (suc n)) [
  | yes at ↦ ground (arith, solid n (omega arith))
  | no ne ↦ ground (
    arith,
    blank n (omega arith) (omega arith),
    trim_end_lem n m xs (omega arith) (λ i l u. blank i l (omega arith)) solid,
  )
]

trim_copy_lem :
    (len : ℕ) (name rest : List ℕ)
    → IsName name
    → length name ≤ len
    → trim_copy (copy_padded len name ++ rest) len ≡ name
unfolding trim_copy
trim_copy_lem len name rest v h =
    ap (λ n. take n (copy_padded len name ++ rest))
      (trim_end_lem len (length name) (copy_padded len name ++ rest) h
        (λ i l u. blank-copy_padded len name rest i v l u)
        (λ i l. solid-copy_padded len name rest i v l h))
    ∙ take-copy_padded len name v h rest

-- Two names that fit are equal where their padded fields read alike.
pub copy_padded-injective :
    (len : ℕ) (name name' : List ℕ)
    → IsName name
    → IsName name'
    → length name ≤ len
    → length name' ≤ len
    → ((i : ℕ) → i < len → get_or (copy_padded len name) i 0 ≡ get_or (copy_padded len name') i 0)
    → name ≡ name'
copy_padded-injective len [] [] v v' h h' same = refl
copy_padded-injective zero (c ∷ cs) name' v v' h h' same = absurd (omega arith)
copy_padded-injective zero [] (c ∷ cs) v v' h h' same = absurd (omega arith)
copy_padded-injective (suc len) [] (c ∷ cs) v v' h h' same = absurd (
    v'.1 (
      ap (λ xs. get_or xs 0 0) (sym (copy_padded-nonzero len c cs v'.0))
      ∙ sym (same 0 (omega arith))
      ∙ ap (λ xs. get_or xs 0 0) (copy_padded-nil len)))
copy_padded-injective (suc len) (c ∷ cs) [] v v' h h' same = absurd (
    v.1 (
      ap (λ xs. get_or xs 0 0) (sym (copy_padded-nonzero len c cs v.0))
      ∙ same 0 (omega arith)
      ∙ ap (λ xs. get_or xs 0 0) (copy_padded-nil len)))
copy_padded-injective (suc len) (c ∷ cs) (c' ∷ cs') v v' h h' same =
    let padded : (i : ℕ)
        → i < suc len
        → get_or (c ∷ copy_padded len cs) i 0 ≡ get_or (c' ∷ copy_padded len cs') i 0 =
      λ i lt.
        ap (λ xs. get_or xs i 0) (sym (copy_padded-nonzero len c cs v.0))
        ∙ same i lt
        ∙ ap (λ xs. get_or xs i 0) (copy_padded-nonzero len c' cs' v'.0) in
    ap₂ ◌∷◌ (padded 0 (omega arith)) (
      copy_padded-injective len cs cs' v.2 v'.2 (omega arith) (omega arith)
        (λ i lt. padded (suc i) (omega arith)))

-- The bytes of an entry behind its name.
abbrev pub tail_bytes : ℕ → ℕ → ℕ → List ℕ
tail_bytes attr cluster size =
    attr ∷ replicate 14 0
    ++ (byte cluster 0
        ∷ byte cluster 8
        ∷ byte size 0
        ∷ byte size 8
        ∷ byte size 16
        ∷ byte size 24
        ∷ [])

module _ (name ext : List ℕ) (attr cluster size : ℕ) where
  get_or-set_dir_entry :
      (i : ℕ)
      → get_or (set_dir_entry name ext attr cluster size) (11 + i) 0
        ≡ get_or (tail_bytes attr cluster size) i 0
  unfolding set_dir_entry
  get_or-set_dir_entry i =
      get_or-append_right (copy_padded 8 name) (copy_padded 3 ext ++ tail_bytes attr cluster size)
        (3 + i) (11 + i) 0 (omega (arith, length-copy_padded 8 name))
      ∙ get_or-append_right (copy_padded 3 ext) (tail_bytes attr cluster size) i (3 + i) 0
          (omega (arith, length-copy_padded 3 ext))

  pub drop-set_dir_entry :
      drop 8 (set_dir_entry name ext attr cluster size)
      ≡ copy_padded 3 ext ++ tail_bytes attr cluster size
  unfolding set_dir_entry
  drop-set_dir_entry =
      drop-append (copy_padded 8 name) (copy_padded 3 ext ++ tail_bytes attr cluster size) 8
        (omega (arith, length-copy_padded 8 name))

  -- An entry that is written for a name of at most eight characters and an extension of at most three,
  -- without spaces, reads back as it was given: the name and the extension with no padding, the
  -- attributes, the size, and the low 16 bits of the cluster.
  pub fill_dirent-set_dir_entry :
      IsName name
      → IsName ext
      → length name ≤ 8
      → length ext ≤ 3
      → size < 2 ^ 32
      → fill_dirent (set_dir_entry name ext attr cluster size)
        ≡ record { name = name; ext = ext; attr = attr; cluster = cluster % 2 ^ 16; size = size }
  unfolding fill_dirent set_dir_entry
  fill_dirent-set_dir_entry vn ve hn he hs =
      let rest : List ℕ = tail_bytes attr cluster size in
      ground (
        arith,
        trim_copy_lem 8 name (copy_padded 3 ext ++ rest) vn hn,
        ap (λ xs. trim_copy xs 3) drop-set_dir_entry ∙ trim_copy_lem 3 ext rest ve he,
        get_or-set_dir_entry 0,
        get_or-set_dir_entry 15,
        get_or-set_dir_entry 16,
        get_or-set_dir_entry 17,
        get_or-set_dir_entry 18,
        get_or-set_dir_entry 19,
        get_or-set_dir_entry 20,
        le16-byte cluster,
        le32-byte size hs,
      )
