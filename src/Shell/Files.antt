-- ===== src/Shell/Files.antt =====
-- The commands on the tree in memory, kernel/shell/fs_commands.c: ls, cd, pwd and cat. An argument that
-- is `none` is a null pointer.
pub mod Paths
use Prim.Native.String.{String}
use alderkernel.Prelude.{
  ℕ, zero, suc, ◌+◌, Bool, true, false, not, ◌||◌, Option, none, some, List, [], ◌∷◌, ◌==◌,
  if◌then◌else◌, get_or, codes, ◌|>◌,
}
use alderkernel.Util.{strcmp}
use alderkernel.Console.{Console, print_text, say}
use alderkernel.Vfs.{
  Allocator, NodeType, Node, dir, file, Vfs, vfs_find_child, vfs_get_root, vfs_get_cwd, vfs_set_cwd,
  vfs_print_cwd_path,
}

-- `type == VFS_DIR` and `type == VFS_FILE`
abbrev pub is_dir : NodeType → Bool
is_dir dir = true
is_dir file = false

abbrev pub is_file : NodeType → Bool
is_file dir = false
is_file file = true

-- A message with the argument in it.
unfoldable pub complain : String → List ℕ → Console → Console
complain message arg c = c |> say message |> print_text arg |> say "\n"

-- The loop of `command_ls` from child `i` on, with `n` left.
unfoldable pub list_children : ℕ → ℕ → (ℕ → Node) → List ℕ → Console → Console
list_children zero i nodes children c = c
list_children (suc n) i nodes children c =
    let child = nodes (get_or children i 0) in
    let c1 = print_text child.name c in
    let c2 = if is_dir child.kind then say "/" c1 else c1 in
    list_children n (i + 1) nodes children (say "\n" c2)

module _ (a : Allocator) where
  -- From `if (target->child_count == 0)` on.
  unfoldable pub list_target : ℕ → Vfs a → Console → Console
  list_target target v c =
      let t = v.nodes target in
      if t.child_count == 0
      then say "(empty)\n" c
      else list_children t.child_count 0 v.nodes t.children c

  unfoldable pub command_ls : Option (List ℕ) → Vfs a → Console → Console
  command_ls none v c = list_target (vfs_get_cwd a v) v c
  command_ls (some arg) v c =
      let target = vfs_get_cwd a v in
      let parent = (v.nodes target).parent in
      let found = vfs_find_child a target arg v in
      if strcmp arg (codes "/") == 0
      then list_target (vfs_get_root a v) v c
      else if strcmp arg (codes "..") == 0
      then list_target (if not (parent == 0) then parent else target) v c
      else if found == 0 || not (is_dir (v.nodes found).kind)
      then complain "ls: not a directory: " arg c
      else list_target found v c

  unfoldable pub command_cd : Option (List ℕ) → Vfs a → Console → Vfs a × Console
  command_cd none v c = (vfs_set_cwd a (vfs_get_root a v) v, c)
  command_cd (some arg) v c =
      let parent = (v.nodes (vfs_get_cwd a v)).parent in
      let found = vfs_find_child a (vfs_get_cwd a v) arg v in
      if strcmp arg (codes "/") == 0
      then (vfs_set_cwd a (vfs_get_root a v) v, c)
      else if strcmp arg (codes "..") == 0
      then ((if not (parent == 0) then vfs_set_cwd a parent v else v), c)
      else if found == 0 || not (is_dir (v.nodes found).kind)
      then (v, complain "cd: no such directory: " arg c)
      else (vfs_set_cwd a found v, c)

  -- The recursion along the parents takes fuel; `none` means that it ran out.
  unfoldable pub command_pwd : ℕ → Vfs a → Console → Option Console
  command_pwd fuel v c = elim (vfs_print_cwd_path a fuel v c) [
    | none ↦ none
    | some c1 ↦ some (say "\n" c1)
  ]

  unfoldable pub command_cat : Option (List ℕ) → Vfs a → Console → Console
  command_cat none v c = say "Usage: cat <file>\n" c
  command_cat (some arg) v c =
      let found = vfs_find_child a (vfs_get_cwd a v) arg v in
      if found == 0 || not (is_file (v.nodes found).kind)
      then complain "cat: no such file: " arg c
      else (c |> print_text (v.nodes found).content |> say "\n")
