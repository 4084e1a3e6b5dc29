-- ===== src/Vfs/Children.antt =====
-- A directory and its lookup: what `vfs_mkdir` adds, and what every lookup finds afterwards.
use alderkernel.Prelude.{
  ℕ, zero, suc, ◌+◌, ◌≤◌, ◌<◌, ◌≡◌, ◌≢◌, refl, ap, ap₂, ◌∙◌, sym, Bool, true, false, not, ◌&&◌,
  List, ◌==◌, ltb, if◌then◌else◌, if_eq, if_ne, get_or, set, length, get_or-set, take, arith,
}
use native.Mathlib.Decide.{ℕ_discrete, dec_lt}
use alderkernel.Util.Strings.{c_string, c_string-take}
use alderkernel.Vfs.{
  Allocator, IsAllocator, Node, dir, Vfs, write, str_eq, name_copy, find_from, fill_node,
  link_child, vfs_alloc_node, vfs_mkdir, vfs_find_child, node_size,
}
use alderkernel.Vfs.Names.{same_text, str_eq_lem, str_eq_of_c_string, c_string-name_copy}

-- The loop looks at the names of its children only.
find_from-congr :
    (n i : ℕ) (f g : ℕ → Node) (xs ys : List ℕ) (q : List ℕ)
    → ((j : ℕ)
        → i ≤ j
        → j < i + n
        → (get_or xs j 0 ≡ get_or ys j 0) × ((f (get_or xs j 0)).name ≡ (g (get_or ys j 0)).name))
    → find_from n i f xs q ≡ find_from n i g ys q
unfolding find_from
find_from-congr zero i f g xs ys q h = refl
find_from-congr (suc n) i f g xs ys q h =
    let first = h i (omega arith) (omega arith) in
    let rest : find_from n (i + 1) f xs q ≡ find_from n (i + 1) g ys q =
      find_from-congr n (i + 1) f g xs ys q (λ j lo hi. h j (omega arith) (omega arith)) in
    λ t. if str_eq (first.1 t) q then first.0 t else rest t

first_or :
    (b : Bool) (x y r z : ℕ)
    → x ≢ 0
    → y ≡ (if r == 0 then z else r)
    → (if b then x else y) ≡ (if (if b then x else r) == 0 then z else (if b then x else r))
first_or b x y r z nz e = ground arith

-- The last child is found where no other is.
find_from-last :
    (n i : ℕ) (f : ℕ → Node) (xs q : List ℕ)
    → ((j : ℕ) → i ≤ j → j < i + n → get_or xs j 0 ≢ 0)
    → find_from (suc n) i f xs q ≡ (
        if find_from n i f xs q == 0
        then (if str_eq (f (get_or xs (i + n) 0)).name q then get_or xs (i + n) 0 else 0)
        else find_from n i f xs q)
unfolding find_from
find_from-last zero i f xs q nz =
    ap (λ m. if str_eq (f (get_or xs m 0)).name q then get_or xs m 0 else 0) (omega arith)
find_from-last (suc n) i f xs q nz =
    let index : i + 1 + n ≡ i + suc n = omega arith in
    let x : ℕ = get_or xs i 0 in
    let found : x ≢ 0 = nz i (omega arith) (omega arith) in
    let rest = find_from-last n (i + 1) f xs q (λ j lo hi. nz j (omega arith) (omega arith)) in
    let last =
      ap
        (λ m.
          if find_from n (i + 1) f xs q == 0
          then (if str_eq (f (get_or xs m 0)).name q then get_or xs m 0 else 0)
          else find_from n (i + 1) f xs q)
        index in
    first_or (str_eq (f x).name q) x (find_from (suc n) (i + 1) f xs q) (find_from n (i + 1) f xs q)
      _ found (rest ∙ last)

-- The comparison of the code is that of the two strings.
named :
    (name q : List ℕ)
    → str_eq (take 31 (c_string name)) q ≡ same_text (take 31 (c_string name)) (c_string q)
named name q =
    str_eq_lem (take 31 (c_string name)) q
    ∙ ap (λ x. same_text x (c_string q)) (c_string-take 31 name)

or_zero : (r : ℕ) → r ≡ (if r == 0 then 0 else r)
or_zero r = ground arith

module _ (a : Allocator) (k : IsAllocator a) where
  -- A directory in use, whose children are in use too; the buffers have their declared sizes.
  pub record IsDirectory (v : Vfs a) (d : ℕ) : Type 0 where
    pub not_null : d ≢ 0
    pub live : k.Live v.heap d
    pub count : (v.nodes d).child_count ≤ 16
    pub slots : length (v.nodes d).children ≡ 16
    pub child_not_null : (j : ℕ) → j < (v.nodes d).child_count → get_or (v.nodes d).children j 0 ≢ 0
    pub child_live :
        (j : ℕ) → j < (v.nodes d).child_count → k.Live v.heap (get_or (v.nodes d).children j 0)
    pub names : (p : ℕ) → length (v.nodes p).name ≡ 32

  module _ (d p : ℕ) (name q : List ℕ) {v : Vfs a} (w : IsDirectory v d) (fresh : p ≢ d)
      (fresh_child : (j : ℕ)
        → j < (v.nodes d).child_count
        → p ≢ get_or (v.nodes d).children j 0) where
    new : Node
    new = fill_node a name dir d (v.nodes p)

    filled : ℕ → Node
    filled = write v.nodes p new

    abbrev count : ℕ
    count = (v.nodes d).child_count

    abbrev kids : List ℕ
    kids = (v.nodes d).children

    abbrev old : ℕ
    old = find_from count 0 v.nodes kids q

    at_new : str_eq new.name q ≡ str_eq (take 31 (c_string name)) q
    unfolding new fill_node
    at_new = str_eq_of_c_string (name_copy (v.nodes p).name name 32) (take 31 (c_string name)) q (
        c_string-name_copy (v.nodes p).name name 32 (w.names p) (omega arith)
        ∙ sym (c_string-take 31 name))

    abbrev look : (ℕ → Node) → ℕ
    look nodes = find_from (nodes d).child_count 0 nodes (nodes d).children q

    filled_ne : (c : ℕ) → p ≢ c → filled c ≡ v.nodes c
    unfolding filled
    filled_ne c ne = if_ne p c new (v.nodes c) ne

    filled-new : filled p ≡ new
    unfolding filled
    filled-new = if_eq p p new (v.nodes p) refl

    -- The node is linked, as the last child.
    abbrev with_child : Node → Node
    with_child n = record n {
      children = set n.children n.child_count p;
      child_count = n.child_count + 1;
    }

    link_if :
        (b : Bool)
        → ltb count 16 ≡ b
        → link_child a d p filled ≡ (if b then write filled d (with_child (filled d)) else filled)
    unfolding link_child
    link_if b e =
        let test : (not (d == 0) && ltb (filled d).child_count 16) ≡ b =
          ground (arith, w.not_null, e, ap (λ (n : Node). n.child_count) (filled_ne d fresh)) in
        ap (λ t. if t then write filled d (with_child (filled d)) else filled) test

    full_directory : 16 ≤ count → look (link_child a d p filled) ≡ old
    full_directory full =
        ap look (link_if false (ground arith))
        ∙ ap (λ (n : Node). find_from n.child_count 0 filled n.children q) (filled_ne d fresh)
        ∙ find_from-congr count 0 filled v.nodes kids kids q (λ j lo hi. (
          refl,
          ap (λ (n : Node). n.name) (filled_ne (get_or kids j 0) (fresh_child j (omega arith))),
        ))

    linked : ℕ → Node
    linked = write filled d (with_child (v.nodes d))

    linked_dir : linked d ≡ with_child (v.nodes d)
    unfolding linked
    linked_dir = if_eq d d (with_child (v.nodes d)) (filled d) refl

    linked-new : linked p ≡ new
    unfolding linked
    linked-new = if_ne d p (with_child (v.nodes d)) (filled p) (λ e. fresh (sym e)) ∙ filled-new

    linked_name : (c : ℕ) → p ≢ c → (linked c).name ≡ (v.nodes c).name
    unfolding linked
    linked_name c ne = elim (ℕ_discrete d c) [
      | yes e ↦
          ap (λ (n : Node). n.name) (if_eq d c (with_child (v.nodes d)) (filled c) e)
          ∙ ap (λ x. (v.nodes x).name) e
      | no other ↦
          ap (λ (n : Node). n.name)
            (if_ne d c (with_child (v.nodes d)) (filled c) other ∙ filled_ne c ne)
    ]

    kid_at :
        (j : ℕ)
        → count < 16
        → get_or (set kids count p) j 0 ≡ (if count == j then p else get_or kids j 0)
    kid_at j room = get_or-set kids count j p 0 (omega (arith, w.slots))

    old_kid : (j : ℕ) → count < 16 → j < count → get_or (set kids count p) j 0 ≡ get_or kids j 0
    old_kid j room h = kid_at j room ∙ if_ne count j p (get_or kids j 0) (omega arith)

    new_kid : count < 16 → get_or (set kids count p) (0 + count) 0 ≡ p
    new_kid room =
        ap (λ m. get_or (set kids count p) m 0) (omega arith)
        ∙ kid_at count room
        ∙ if_eq count count p (get_or kids count 0) refl

    room_directory :
        count < 16
        → look (link_child a d p filled)
          ≡ (if old == 0 then (if str_eq (take 31 (c_string name)) q then p else 0) else old)
    unfolding linked
    room_directory room =
        let kids' : List ℕ = set kids count p in
        let inner : find_from count 0 linked kids' q ≡ old =
          find_from-congr count 0 linked v.nodes kids' kids q (λ j lo hi. (
            old_kid j room (omega arith),
            ap (λ x. (linked x).name) (old_kid j room (omega arith))
                ∙ linked_name (get_or kids j 0) (fresh_child j (omega arith)),
          )) in
        let last : (if str_eq (linked (get_or kids' (0 + count) 0)).name q
              then get_or kids' (0 + count) 0
              else 0)
            ≡ (if str_eq (take 31 (c_string name)) q then p else 0) =
          ap (λ x. if str_eq (linked x).name q then x else 0) (new_kid room)
          ∙ ap (λ (n : Node). if str_eq n.name q then p else 0) linked-new
          ∙ ap (λ b. if b then p else 0) at_new in
        ap look (
          link_if true (ground arith) ∙ ap (λ n. write filled d (with_child n)) (filled_ne d fresh))
        ∙ ap (λ (n : Node). find_from n.child_count 0 linked n.children q) linked_dir
        ∙ ap (λ m. find_from m 0 linked kids' q) (omega arith)
        ∙ find_from-last count 0 linked kids' q
            (λ j lo hi e. w.child_not_null j (omega arith) (sym (old_kid j room (omega arith)) ∙ e))
        ∙ ap₂ (λ x y. if x == 0 then y else x) inner last

    looked : look (link_child a d p filled) ≡ (
        if old == 0
        then (if ltb count 16 && str_eq (take 31 (c_string name)) q then p else 0)
        else old)
    looked = elim (dec_lt count 16) [
      | yes room ↦
          let t : true ≡ ltb count 16 = ground arith in
          room_directory room
          ∙ ap
              (λ b.
                if old == 0
                then (if b && str_eq (take 31 (c_string name)) q then p else 0)
                else old)
              t
      | no full ↦
          let t : false ≡ ltb count 16 = ground arith in
          full_directory (omega arith)
          ∙ or_zero old
          ∙ ap
              (λ b.
                if old == 0
                then (if b && str_eq (take 31 (c_string name)) q then p else 0)
                else old)
              t
    ]

  -- A lookup after `vfs_mkdir`, under any name, over an allocator that hands out no address in use.
  -- Where the allocator gives memory, it finds what it found before; else the new node, if the directory has a free slot and the name is the first 31
  -- characters of the new one's. In a directory of sixteen children the new node is not found under
  -- any name, although `vfs_mkdir` returns it.
  pub vfs_find_child-vfs_mkdir :
      (d : ℕ) (name q : List ℕ) {v : Vfs a}
      → IsDirectory v d
      → (vfs_mkdir a d name v).0 ≢ 0
      → vfs_find_child a d q (vfs_mkdir a d name v).1 ≡ (
          if vfs_find_child a d q v == 0
          then (if ltb (v.nodes d).child_count 16
                && same_text (take 31 (c_string name)) (c_string q)
              then (vfs_mkdir a d name v).0
              else 0)
          else vfs_find_child a d q v)
  unfolding vfs_mkdir vfs_alloc_node vfs_find_child filled new
  vfs_find_child-vfs_mkdir d name q {v} w nz =
      let p : ℕ = (a.kmalloc node_size v.heap).0 in
      let h : a.State = (a.kmalloc node_size v.heap).1 in
      let none_made : ℕ × Vfs a = (0, record v { heap = h }) in
      let v1 : Vfs a = record v {
        heap = h;
        nodes = link_child a d p (write v.nodes p (fill_node a name dir d (v.nodes p)));
      } in
      elim (ℕ_discrete p 0) [
        | yes e ↦ absurd (nz (ap (λ (r : ℕ × Vfs a). r.0) (if_eq p 0 none_made (p, v1) e)))
        | no ne ↦
            let made : vfs_mkdir a d name v ≡ (p, v1) = if_ne p 0 none_made (p, v1) ne in
            let fresh : p ≢ d = k.kmalloc_fresh node_size v.heap d w.live ne in
            let fresh_child : (j : ℕ)
                → j < (v.nodes d).child_count
                → p ≢ get_or (v.nodes d).children j 0 =
              λ j lt. k.kmalloc_fresh node_size v.heap _ (w.child_live j lt) ne in
            ap (λ (r : ℕ × Vfs a). vfs_find_child a d q r.1) made
            ∙ looked d p name q w fresh fresh_child
            ∙ ap
                (λ b.
                  if vfs_find_child a d q v == 0
                  then (if ltb (v.nodes d).child_count 16 && b then p else 0)
                  else vfs_find_child a d q v)
                (named name q)
            ∙ ap
                (λ (r : ℕ × Vfs a).
                  if vfs_find_child a d q v == 0
                  then (if ltb (v.nodes d).child_count 16
                        && same_text (take 31 (c_string name)) (c_string q)
                      then r.0
                      else 0)
                  else vfs_find_child a d q v)
                (sym made)
      ]
