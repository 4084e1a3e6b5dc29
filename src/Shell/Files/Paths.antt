-- ===== src/Shell/Files/Paths.antt =====
-- The working directory as a path, and what cd and pwd do to it.
use alderkernel.Prelude.{
  ℕ, zero, suc, ◌+◌, ◌<◌, ◌≡◌, ◌≢◌, refl, ap, ◌∙◌, sym, Bool, true, false, not, ◌||◌, ◌&&◌, Option,
  none, some, List, [], ◌∷◌, ◌==◌, if◌then◌else◌, if_eq, if_ne, if_both, if_related, get_or, length,
  codes, arith,
}
use mathlib.Core.Path.{subst}
use native.Mathlib.Decide.{ℕ_discrete}
use alderkernel.Util.{strcmp}
use alderkernel.Util.Strings.{c_string}
use alderkernel.Console.{Console, print_text, put_text, put_cell, new_line, update_cursor, say}
use alderkernel.Vfs.{
  Allocator, Node, Vfs, find_from, str_eq, vfs_find_child, vfs_get_root, vfs_get_cwd, vfs_set_cwd,
  print_path_recursive, vfs_print_cwd_path,
}
use alderkernel.Vfs.Names.{str_eq_iff}
use alderkernel.Shell.Files.{is_dir, command_cd, command_pwd}

if_zero {ℓ} : {A : Type ℓ} (x : ℕ) (y z : A) → x ≡ 0 → (if not (x == 0) then y else z) ≡ z
if_zero x y z e = rw e refl

if_not_zero {ℓ} : {A : Type ℓ} (x : ℕ) (y z : A) → x ≢ 0 → (if not (x == 0) then y else z) ≡ y
if_not_zero x y z ne =
    let t : not (x == 0) ≡ true = ground arith in ap (λ (b : Bool). if b then y else z) t

ne_of_or : (x : ℕ) (y : Bool) → (x == 0 || y) ≡ false → x ≢ 0
ne_of_or x y e = λ z. ground arith

abbrev after : ℕ → Console → Console
after x c = if x == b'\n' then new_line c else put_cell x c

-- A string prints as the buffer that it stands in.
put_text-c_string : (s : List ℕ) (c : Console) → put_text (c_string s) c ≡ put_text s c
unfolding put_text
put_text-c_string [] c = refl
put_text-c_string (x ∷ s) c = elim (ℕ_discrete x 0) [
  | yes e ↦
      ap (λ l. put_text l c) (if_eq x 0 [] (x ∷ c_string s) e)
      ∙ sym (if_eq x 0 c (put_text s (after x c)) e)
  | no ne ↦
      ap (λ l. put_text l c) (if_ne x 0 [] (x ∷ c_string s) ne)
      ∙ if_ne x 0 c (put_text (c_string s) (after x c)) ne
      ∙ put_text-c_string s (after x c)
      ∙ sym (if_ne x 0 c (put_text s (after x c)) ne)
]

print_text-c_string : (s : List ℕ) (c : Console) → print_text (c_string s) c ≡ print_text s c
unfolding print_text
print_text-c_string s c = ap update_cursor (put_text-c_string s c)

module _ (a : Allocator) where
  -- `c` stands among the children of `p`.
  abbrev pub IsChild : Vfs a → ℕ → ℕ → Type 0
  IsChild v p c = (j : ℕ) × (j < (v.nodes p).child_count) × (get_or (v.nodes p).children j 0 ≡ c)

  -- A node with the names on the way to it, the last one first.
  pub data Located (v : Vfs a) : ℕ → List (List ℕ) → Type 0 where
    top : (p : ℕ) → p ≡ v.vfs_root → Located v p []
    below :
        {p : ℕ} {path : List (List ℕ)} (c : ℕ)
        → Located v p path
        → IsChild v p c
        → (name : List ℕ) → c_string (v.nodes c).name ≡ name
        → Located v c (name ∷ path)

  -- The links upwards are right at every node that can be reached from the root.
  pub record IsTree (v : Vfs a) : Type 0 where
    pub root_not_null : v.vfs_root ≢ 0
    pub root_parent : (v.nodes v.vfs_root).parent ≡ 0
    pub child_not_null : (p c : ℕ) (path : List (List ℕ)) → Located v p path → IsChild v p c → c ≢ 0
    pub child_parent :
        (p c : ℕ) (path : List (List ℕ)) → Located v p path → IsChild v p c → (v.nodes c).parent ≡ p

  -- A lookup that finds something finds a child of that name.
  abbrev IsFound : ℕ → (ℕ → Node) → List ℕ → List ℕ → ℕ → Type 0
  IsFound end nodes xs q r =
      r ≢ 0 → (j : ℕ) × (j < end) × (get_or xs j 0 ≡ r) × (c_string (nodes r).name ≡ c_string q)

  find_from-IsFound :
      (n i : ℕ) (nodes : ℕ → Node) (xs q : List ℕ)
      → IsFound (i + n) nodes xs q (find_from n i nodes xs q)
  unfolding find_from
  find_from-IsFound zero i nodes xs q = λ nz. absurd (nz refl)
  find_from-IsFound (suc n) i nodes xs q =
      if_both (IsFound (i + suc n) nodes xs q) (str_eq (nodes (get_or xs i 0)).name q)
        (λ e nz. (i, omega arith, refl, (str_eq_iff (nodes (get_or xs i 0)).name q).0 e))
        (λ _ nz.
          let (j, lt, at, same) = find_from-IsFound n (i + 1) nodes xs q nz in
          (j, omega arith, at, same))

  Located-not_null :
      {v : Vfs a} (t : IsTree v) (p : ℕ) (path : List (List ℕ)) → Located v p path → p ≢ 0
  Located-not_null t p [] (top _ e) = λ z. t.root_not_null (sym e ∙ z)
  Located-not_null t p (name ∷ path) (below {p = q} c l k _ _) = t.child_not_null q c path l k

  -- What the description of cd makes of a path: no argument or / is the root, .. drops the last name.
  abbrev pub parent_path : List (List ℕ) → List (List ℕ)
  parent_path [] = []
  parent_path (name ∷ path) = path

  abbrev pub walk : Option (List ℕ) → Bool → List (List ℕ) → List (List ℕ)
  walk none enters path = []
  walk (some arg) enters path =
      if strcmp arg (codes "/") == 0
      then []
      else if strcmp arg (codes "..") == 0
      then parent_path path
      else if enters
      then c_string arg ∷ path
      else path

  -- The current directory has a child directory of that name.
  abbrev pub enters : Option (List ℕ) → Vfs a → Bool
  enters none v = false
  enters (some arg) v =
      let found = vfs_find_child a (vfs_get_cwd a v) arg v in
      not (found == 0) && is_dir (v.nodes found).kind

  enters_not : (x y : Bool) {b : Bool} → (x || not y) ≡ b → (not x && y) ≡ not b
  enters_not true y e = ap not e
  enters_not false true e = ap not e
  enters_not false false e = ap not e

  abbrev At : Vfs a → Vfs a × Console → List (List ℕ) → Type 0
  At v r path = Located v r.0.vfs_cwd path

  to_parent :
      {v : Vfs a} (path : List (List ℕ))
      → IsTree v
      → Located v v.vfs_cwd path
      → Located v
          (if not ((v.nodes v.vfs_cwd).parent == 0)
            then vfs_set_cwd a (v.nodes v.vfs_cwd).parent v
            else v).vfs_cwd
          (parent_path path)
  unfolding vfs_set_cwd
  to_parent {v} [] t (top p e) =
      subst (λ (u : Vfs a). Located v u.vfs_cwd [])
        (sym (if_zero _ _ v (ap (λ r. (v.nodes r).parent) e ∙ t.root_parent))) (top p e)
  to_parent {v} (name ∷ path) t (below {p = q} c l k _ _) =
      let parent : (v.nodes c).parent ≡ q = t.child_parent q c path l k in
      subst (λ (u : Vfs a). Located v u.vfs_cwd path)
        (sym (if_not_zero _ _ v (λ z. Located-not_null t q path l (sym parent ∙ z))))
        (subst (λ r. Located v r path) (sym parent) l)

  -- In a tree, `cd` takes a working directory with a path to the one with the path that its description
  -- says: no argument or / gives the root, .. drops the last name, and any other argument adds its name
  -- if a lookup of it finds a directory, else the path stays.
  pub Located-command_cd :
      (arg : Option (List ℕ)) (c : Console) {v : Vfs a} (path : List (List ℕ))
      → IsTree v
      → Located v v.vfs_cwd path
      → Located v (command_cd a arg v c).0.vfs_cwd (walk arg (enters arg v) path)
  unfolding command_cd vfs_set_cwd vfs_get_root vfs_get_cwd vfs_find_child
  Located-command_cd none c path t l = top _ refl
  Located-command_cd (some arg) c {v} path t l =
      let found : ℕ = vfs_find_child a v.vfs_cwd arg v in
      if_related (At v) (strcmp arg (codes "/") == 0) (λ _. top _ refl)
        (λ _.
          if_related (At v) (strcmp arg (codes "..") == 0) (λ _. to_parent path t l)
            (λ _.
              if_both (λ r. At v r (if enters (some arg) v then c_string arg ∷ path else path))
                (found == 0 || not (is_dir (v.nodes found).kind))
                (λ e.
                  subst
                    (λ (b : Bool). Located v v.vfs_cwd (if b then c_string arg ∷ path else path))
                    (sym (enters_not (found == 0) (is_dir (v.nodes found).kind) e)) l)
                (λ e.
                  let nz : found ≢ 0 = ne_of_or found (not (is_dir (v.nodes found).kind)) e in
                  let (j, lt, at, same) =
                    find_from-IsFound (v.nodes v.vfs_cwd).child_count 0 v.nodes
                      (v.nodes v.vfs_cwd).children arg nz in
                  subst (λ (b : Bool). Located v found (if b then c_string arg ∷ path else path))
                    (sym (enters_not (found == 0) (is_dir (v.nodes found).kind) e))
                    (below found l (j, omega arith, at) (c_string arg) same))))

  -- What `pwd` prints for a path: a slash before each name, or a slash alone for the root.
  abbrev pub show_names : List (List ℕ) → Console → Console
  show_names [] c = c
  show_names (name ∷ path) c = print_text name (say "/" (show_names path c))

  abbrev pub show_path : List (List ℕ) → Console → Console
  show_path [] c = say "/" c
  show_path (name ∷ path) c = show_names (name ∷ path) c

  printed :
      (fuel : ℕ) (c : Console) {v : Vfs a} (p : ℕ) (path : List (List ℕ))
      → IsTree v
      → Located v p path
      → length path < fuel
      → print_path_recursive a fuel v p c ≡ some (show_names path c)
  unfolding print_path_recursive say
  printed zero c p path t l h = absurd (omega arith)
  printed (suc fuel) c {v} p [] t (top _ e) h =
      if_eq _ 0 (some c) _ (ap (λ r. (v.nodes r).parent) e ∙ t.root_parent)
  printed (suc fuel) c {v} p (name ∷ path) t (below {p = q} _ l k _ same) h =
      let parent : (v.nodes p).parent ≡ q = t.child_parent q p path l k in
      let ih : print_path_recursive a fuel v (v.nodes p).parent c ≡ some (show_names path c) =
        ap (λ r. print_path_recursive a fuel v r c) parent
        ∙ printed fuel c q path t l (omega arith) in
      let c1 : Console = say "/" (show_names path c) in
      if_ne (v.nodes p).parent 0 (some c) _ (λ z. Located-not_null t q path l (sym parent ∙ z))
      ∙ rw ih
          (ap some (sym (print_text-c_string (v.nodes p).name c1) ∙ ap (λ n. print_text n c1) same))

  printed_cwd :
      (fuel : ℕ) (c : Console) {v : Vfs a} (path : List (List ℕ))
      → IsTree v
      → Located v v.vfs_cwd path
      → length path < fuel
      → vfs_print_cwd_path a fuel v c ≡ some (show_path path c)
  unfolding vfs_print_cwd_path say
  printed_cwd fuel c {v} [] t (top _ e) h = if_eq v.vfs_cwd v.vfs_root _ _ e
  printed_cwd fuel c {v} (name ∷ path) t (below {p = q} _ l k _ same) h =
      let parent : (v.nodes v.vfs_cwd).parent ≡ q = t.child_parent q v.vfs_cwd path l k in
      let other : v.vfs_cwd ≢ v.vfs_root = λ e.
        Located-not_null t q path l (sym parent ∙ ap (λ r. (v.nodes r).parent) e ∙ t.root_parent) in
      if_ne v.vfs_cwd v.vfs_root _ _ other
      ∙ printed fuel c v.vfs_cwd (name ∷ path) t (below v.vfs_cwd l k name same) h

  -- The working directory of a tree is printed as its path and a new line, with more fuel than the
  -- path has names.
  pub command_pwd_lem :
      (fuel : ℕ) (c : Console) {v : Vfs a} (path : List (List ℕ))
      → IsTree v
      → Located v v.vfs_cwd path
      → length path < fuel
      → command_pwd a fuel v c ≡ some (say "\n" (show_path path c))
  unfolding command_pwd
  command_pwd_lem fuel c path t l h = rw (printed_cwd fuel c path t l h, command_pwd) refl
