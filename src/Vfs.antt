-- ===== src/Vfs.antt =====
-- The in-memory file tree, kernel/fs/vfs.c. Nodes stand in a store by address; 0 is the null pointer.
-- The memory comes from an allocator with the interface of `kmalloc`, which is a parameter.
pub mod Names
pub mod Children
pub mod Memory
use alderkernel.Prelude.{
  ℕ, zero, suc, ◌+◌, ◌-◌, ◌≡◌, ◌≢◌, Bool, true, false, not, ◌&&◌, ◌||◌, Option, none, some, List,
  [], ◌∷◌, ◌==◌, ltb, if◌then◌else◌, get_or, set, codes,
}
use alderkernel.Console.{Console, print_text}

-- `kmalloc`: an address, or 0 where there is no memory.
pub record Allocator : Type 1 where
  pub State : Type 0
  pub kmalloc : ℕ → State → ℕ × State

-- What a client relies on: an address that is handed out is not one that is in use.
pub record IsAllocator (a : Allocator) : Type 1 where
  pub Live : a.State → ℕ → Type 0
  pub kmalloc_fresh :
      (n : ℕ) (s : a.State) (p : ℕ) → Live s p → (a.kmalloc n s).0 ≢ 0 → (a.kmalloc n s).0 ≢ p

pub data NodeType : Type 0 where
  dir : NodeType
  file : NodeType

-- `vfs_node_t`
pub record Node : Type 0 where
  pub name : List ℕ
  pub kind : NodeType
  pub parent : ℕ
  pub children : List ℕ
  pub child_count : ℕ
  pub content : List ℕ

abbrev pub vfs_max_name : ℕ
vfs_max_name = 32

abbrev pub vfs_max_children : ℕ
vfs_max_children = 16

abbrev pub vfs_max_file_size : ℕ
vfs_max_file_size = 256

-- sizeof(vfs_node_t)
abbrev pub node_size : ℕ
node_size = 364

-- The loop of `name_copy` from index `i` on, with room for `room` characters more before the last 0.
unfoldable pub name_copy_from : ℕ → List ℕ → ℕ → List ℕ → List ℕ
name_copy_from room dst i [] = set dst i 0
name_copy_from zero dst i (c ∷ s) = set dst i 0
name_copy_from (suc room) dst i (c ∷ s) =
    let rest = name_copy_from room (set dst i c) (suc i) s in if c == 0 then set dst i 0 else rest

unfoldable pub name_copy : List ℕ → List ℕ → ℕ → List ℕ
name_copy dst src max = name_copy_from (max - 1) dst 0 src

unfoldable pub str_eq : List ℕ → List ℕ → Bool
str_eq [] b = get_or b 0 0 == 0
str_eq (x ∷ a) [] = x == 0
str_eq (x ∷ a) (y ∷ b) =
    let rest = str_eq a b in if x == 0 || y == 0 then x == y else if x == y then rest else false

abbrev pub write : (ℕ → Node) → ℕ → Node → ℕ → Node
write nodes p n q = if p == q then n else nodes q

-- The loop of `vfs_find_child` from child `i` on, with `n` left.
unfoldable pub find_from : ℕ → ℕ → (ℕ → Node) → List ℕ → List ℕ → ℕ
find_from zero i nodes children name = 0
find_from (suc n) i nodes children name =
    let rest = find_from n (i + 1) nodes children name in
    if str_eq (nodes (get_or children i 0)).name name then get_or children i 0 else rest

module _ (a : Allocator) where
  open a use {State, kmalloc}

  -- The statics, the nodes, and the heap.
  pub record Vfs : Type 0 where
    pub heap : State
    pub nodes : ℕ → Node
    pub vfs_root : ℕ
    pub vfs_cwd : ℕ

  -- The fields of a new node; the rest of its memory is left as it was.
  unfoldable pub fill_node : List ℕ → NodeType → ℕ → Node → Node
  fill_node name kind parent n = record n {
    name = name_copy n.name name vfs_max_name;
    kind = kind;
    parent = parent;
    child_count = 0;
    content = set n.content 0 0;
  }

  -- `if (parent != 0 && parent->child_count < VFS_MAX_CHILDREN)`
  unfoldable pub link_child : ℕ → ℕ → (ℕ → Node) → ℕ → Node
  link_child parent node nodes =
      let d = nodes parent in
      if not (parent == 0) && ltb d.child_count vfs_max_children
      then write nodes parent (record d {
        children = set d.children d.child_count node;
        child_count = d.child_count + 1;
      })
      else nodes

  unfoldable pub vfs_alloc_node : List ℕ → NodeType → ℕ → Vfs → ℕ × Vfs
  vfs_alloc_node name kind parent v =
      let (node, heap) = kmalloc node_size v.heap in
      if node == 0 then (0, record v { heap = heap }) else (
        node,
        record v {
          heap = heap;
          nodes =
              link_child parent node
                (write v.nodes node (fill_node name kind parent (v.nodes node)));
        },
      )

  unfoldable pub vfs_mkdir : ℕ → List ℕ → Vfs → ℕ × Vfs
  vfs_mkdir parent name v = vfs_alloc_node name dir parent v

  -- A content that is `none` is a null pointer.
  unfoldable pub vfs_create_file : ℕ → List ℕ → Option (List ℕ) → Vfs → ℕ × Vfs
  vfs_create_file parent name content v =
      let (node, v1) = vfs_alloc_node name file parent v in
      let n = v1.nodes node in
      if node == 0 then (node, v1) else elim content [
        | none ↦ (node, v1)
        | some c ↦ (
          node,
          record v1 {
            nodes =
                write v1.nodes node
                  (record n { content = name_copy n.content c vfs_max_file_size });
          },
        )
      ]

  -- The child's address, or 0.
  unfoldable pub vfs_find_child : ℕ → List ℕ → Vfs → ℕ
  vfs_find_child parent name v =
      find_from (v.nodes parent).child_count 0 v.nodes (v.nodes parent).children name

  unfoldable pub vfs_init : Vfs → Vfs
  vfs_init v =
      let (root, v1) = vfs_alloc_node (codes "/") dir 0 v in
      let (kernel_dir, v2) = vfs_mkdir root (codes "kernel") (record v1 { vfs_root = root }) in
      let (shell_dir, v3) = vfs_mkdir root (codes "shell") v2 in
      let (f1, v4) =
        vfs_create_file kernel_dir (codes "README")
          (some (codes "AlderKernel in-RAM VFS.\nThis directory represents kernel space.")) v3 in
      let (f2, v5) =
        vfs_create_file shell_dir (codes "README")
          (some (codes "zSlash shell space.\nAdd shell-related files here as they show up.")) v4 in
      record v5 { vfs_cwd = root }

  unfoldable pub vfs_get_root : Vfs → ℕ
  vfs_get_root v = v.vfs_root

  unfoldable pub vfs_get_cwd : Vfs → ℕ
  vfs_get_cwd v = v.vfs_cwd

  unfoldable pub vfs_set_cwd : ℕ → Vfs → Vfs
  vfs_set_cwd node v = record v { vfs_cwd = node }

  -- The recursion along the parents, on fuel; `none` means that it ran out.
  unfoldable pub print_path_recursive : ℕ → Vfs → ℕ → Console → Option Console
  print_path_recursive zero v node c = none
  print_path_recursive (suc fuel) v node c =
      let above = print_path_recursive fuel v (v.nodes node).parent c in
      if (v.nodes node).parent == 0 then some c else elim above [
        | none ↦ none
        | some c1 ↦ some (print_text (v.nodes node).name (print_text (codes "/") c1))
      ]

  unfoldable pub vfs_print_cwd_path : ℕ → Vfs → Console → Option Console
  vfs_print_cwd_path fuel v c =
      if v.vfs_cwd == v.vfs_root
      then some (print_text (codes "/") c)
      else print_path_recursive fuel v v.vfs_cwd c
