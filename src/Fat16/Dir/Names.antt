-- ===== src/Fat16/Dir/Names.antt =====
-- Which names a directory entry answers to.
use alderkernel.Prelude.{
  ℕ, zero, suc, ◌+◌, ◌-◌, ◌<◌, ◌≤◌, ◌≡◌, refl, ap, sym, ◌∙◌, ◌↔◌, ◌⊎◌, and_left, and_right, true,
  false, List, [], ◌∷◌, ◌++◌, get_or, drop, get_or-drop, length, get_or-append_left, arith,
  Bool-cases, inl, inr,
}
use alderkernel.Fat16.Dir.{copy_padded, set_dir_entry, upper, matches, names_equal}
use alderkernel.Fat16.Dir.Record.{
  IsName, copy_padded-injective, tail_bytes, length-copy_padded, copy_padded-nonzero,
  copy_padded-nil, drop-set_dir_entry,
}

one_add : (i : ℕ) → 1 + i ≡ suc i
one_add i = omega arith

upper-lower : (c : ℕ) → b'a' ≤ c → c ≤ b'z' → upper c ≡ c - 32
unfolding upper
upper-lower c lo hi = ground arith

upper-space :
    (len : ℕ)
    → upper (get_or (copy_padded (suc len) []) 0 0) ≡ get_or (copy_padded (suc len) []) 0 0
unfolding upper copy_padded
upper-space len = refl

matches_get :
    (n : ℕ) (e q : List ℕ)
    → matches n e q ≡ true
    → (i : ℕ) → i < n
    → get_or e i 0 ≡ upper (get_or q i 0)
unfolding matches
matches_get zero e q h i lt = absurd (omega arith)
matches_get (suc n) e q h zero lt = ground arith
matches_get (suc n) e q h (suc i) lt =
    sym (get_or-drop 1 e i 0 ∙ ap (λ m. get_or e m 0) (one_add i))
    ∙ matches_get n (drop 1 e) (drop 1 q) (ground arith) i (omega arith)
    ∙ ap upper (get_or-drop 1 q i 0 ∙ ap (λ m. get_or q m 0) (one_add i))

matches_intro :
    (n : ℕ) (e q : List ℕ)
    → ((i : ℕ) → i < n → get_or e i 0 ≡ upper (get_or q i 0))
    → matches n e q ≡ true
unfolding matches
matches_intro zero e q h = refl
matches_intro (suc n) e q h =
    let rest : matches n (drop 1 e) (drop 1 q) ≡ true =
      matches_intro n (drop 1 e) (drop 1 q) (λ i lt.
        get_or-drop 1 e i 0
        ∙ ap (λ m. get_or e m 0) (one_add i)
        ∙ h (suc i) (omega arith)
        ∙ ap upper (sym (get_or-drop 1 q i 0 ∙ ap (λ m. get_or q m 0) (one_add i)))) in
    ground (arith, h 0)

-- No lower-case letter.
abbrev pub IsUpper : List ℕ → Type 0
IsUpper [] = Unit
IsUpper (c ∷ cs) = ((c < b'a') ⊎ (b'z' < c)) × IsUpper cs

upper-other : (c : ℕ) → (c < b'a') ⊎ (b'z' < c) → upper c ≡ c
unfolding upper
upper-other c h = ground arith

upper-copy_padded :
    (len : ℕ) (name : List ℕ) (i : ℕ)
    → IsName name
    → IsUpper name
    → i < len
    → upper (get_or (copy_padded len name) i 0) ≡ get_or (copy_padded len name) i 0
upper-copy_padded zero name i v u h = absurd (omega arith)
upper-copy_padded (suc len) [] zero v u h = upper-space len
upper-copy_padded (suc len) [] (suc i) v u h =
    let e : get_or (copy_padded (suc len) []) (suc i) 0 ≡ get_or (copy_padded len []) i 0 =
      ap (λ xs. get_or xs (suc i) 0) (copy_padded-nil len) in
    ap upper e ∙ upper-copy_padded len [] i v u (omega arith) ∙ sym e
upper-copy_padded (suc len) (c ∷ cs) zero v u h =
    let e : get_or (copy_padded (suc len) (c ∷ cs)) 0 0 ≡ c =
      ap (λ xs. get_or xs 0 0) (copy_padded-nonzero len c cs v.0) in
    ap upper e ∙ upper-other c u.0 ∙ sym e
upper-copy_padded (suc len) (c ∷ cs) (suc i) v u h =
    let e : get_or (copy_padded (suc len) (c ∷ cs)) (suc i) 0 ≡ get_or (copy_padded len cs) i 0 =
      ap (λ xs. get_or xs (suc i) 0) (copy_padded-nonzero len c cs v.0) in
    ap upper e ∙ upper-copy_padded len cs i v.2 u.1 (omega arith) ∙ sym e

get_or-copy_padded :
    (len : ℕ) (name : List ℕ) (i : ℕ)
    → IsName name
    → i < len
    → i < length name
    → get_or (copy_padded len name) i 0 ≡ get_or name i 0
get_or-copy_padded len [] i v h lt = absurd (omega arith)
get_or-copy_padded zero (c ∷ cs) i v h lt = absurd (omega arith)
get_or-copy_padded (suc len) (c ∷ cs) zero v h lt =
    ap (λ xs. get_or xs 0 0) (copy_padded-nonzero len c cs v.0)
get_or-copy_padded (suc len) (c ∷ cs) (suc i) v h lt =
    ap (λ xs. get_or xs (suc i) 0) (copy_padded-nonzero len c cs v.0)
    ∙ get_or-copy_padded len cs i v.2 (omega arith) (omega arith)

-- A part of a file name that has `len` characters at most, none of them a lower-case letter, a space or
-- an end of string.
pub record IsShort (len : ℕ) (name : List ℕ) : Type 0 where
  pub name_ok : IsName name
  pub upper_case : IsUpper name
  pub fits : length name ≤ len

-- A field that reads as the padded name matches the name.
matches_own :
    (len : ℕ) (e name name' : List ℕ)
    → IsShort len name
    → ((i : ℕ) → i < len → get_or e i 0 ≡ get_or (copy_padded len name) i 0)
    → name ≡ name'
    → matches len e (copy_padded len name') ≡ true
matches_own len e name name' v there same =
    ap (λ x. matches len e (copy_padded len x)) (sym same)
    ∙ matches_intro len e (copy_padded len name)
        (λ i h. there i h ∙ sym (upper-copy_padded len name i v.name_ok v.upper_case h))

matches_same :
    (len : ℕ) (e name name' : List ℕ)
    → IsShort len name
    → IsShort len name'
    → ((i : ℕ) → i < len → get_or e i 0 ≡ get_or (copy_padded len name) i 0)
    → matches len e (copy_padded len name') ≡ true
    → name ≡ name'
matches_same len e name name' v v' there h =
    copy_padded-injective len name name' v.name_ok v'.name_ok v.fits v'.fits (λ i lt.
      sym (there i lt)
      ∙ matches_get len e (copy_padded len name') h i lt
      ∙ upper-copy_padded len name' i v'.name_ok v'.upper_case lt)

module _ (name ext : List ℕ) (attr cluster size : ℕ) where
  get_or-entry_name :
      (i : ℕ)
      → i < 8
      → get_or (set_dir_entry name ext attr cluster size) i 0 ≡ get_or (copy_padded 8 name) i 0
  unfolding set_dir_entry
  get_or-entry_name i h =
      get_or-append_left (copy_padded 8 name) (copy_padded 3 ext ++ tail_bytes attr cluster size) i
        0 (omega (arith, length-copy_padded 8 name))

  get_or-entry_ext :
      (i : ℕ)
      → i < 3
      → get_or (drop 8 (set_dir_entry name ext attr cluster size)) i 0
        ≡ get_or (copy_padded 3 ext) i 0
  get_or-entry_ext i h =
      ap (λ xs. get_or xs i 0) (drop-set_dir_entry name ext attr cluster size)
      ∙ get_or-append_left (copy_padded 3 ext) (tail_bytes attr cluster size) i 0
          (omega (arith, length-copy_padded 3 ext))

  -- An entry that is written for a name and an extension that fit it answers to exactly that name and
  -- that extension, among those that fit: none of the four has a lower-case letter, a space or an end of
  -- string in it.
  pub names_equal-set_dir_entry :
      (name' ext' : List ℕ)
      → IsShort 8 name
      → IsShort 3 ext
      → IsShort 8 name'
      → IsShort 3 ext'
      → (names_equal (set_dir_entry name ext attr cluster size) name' ext' ≡ true)
        ↔ ((name ≡ name') × (ext ≡ ext'))
  unfolding names_equal
  names_equal-set_dir_entry name' ext' n e n' e' =
      let entry : List ℕ = set_dir_entry name ext attr cluster size in
      let there : (i : ℕ) → i < 8 → get_or entry i 0 ≡ get_or (copy_padded 8 name) i 0 =
        get_or-entry_name in
      let then : (i : ℕ) → i < 3 → get_or (drop 8 entry) i 0 ≡ get_or (copy_padded 3 ext) i 0 =
        get_or-entry_ext in
      (
        λ h. (
          matches_same 8 entry name name' n n' there (and_left _ _ h),
          matches_same 3 (drop 8 entry) ext ext' e e' then (and_right _ _ h),
        ),
        λ h. ground (
          arith,
          matches_own 8 entry name name' n there h.0,
          matches_own 3 (drop 8 entry) ext ext' e then h.1,
        ),
      )

  -- An entry that is written for a name with a lower-case letter among its first eight characters is
  -- not found under that name: the comparison raises the letters of the query, and nothing raised
  -- those of the entry.
  pub names_equal-lower_case :
      (i : ℕ)
      → IsName name
      → i < 8
      → i < length name
      → b'a' ≤ get_or name i 0
      → get_or name i 0 ≤ b'z'
      → names_equal (set_dir_entry name ext attr cluster size) name ext ≡ false
  unfolding names_equal
  names_equal-lower_case i v h lt lo hi =
      let entry : List ℕ = set_dir_entry name ext attr cluster size in
      let c : ℕ = get_or name i 0 in
      let same : get_or (copy_padded 8 name) i 0 ≡ c = get_or-copy_padded 8 name i v h lt in
      elim (Bool-cases (matches 8 entry (copy_padded 8 name))) [
        | inl e ↦
            let clash : c ≡ c - 32 =
              sym same
              ∙ sym (get_or-entry_name i h)
              ∙ matches_get 8 entry (copy_padded 8 name) e i h
              ∙ ap upper same
              ∙ upper-lower c lo hi in
            absurd (omega arith)
        | inr e ↦ rw e
      ]
