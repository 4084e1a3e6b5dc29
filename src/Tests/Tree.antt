-- ===== src/Tests/Tree.antt =====
-- A root directory that stands in the kernel's heap, in the first of two blocks.
use alderkernel.Prelude.{
  ◌<◌, ◌≡◌, ◌≢◌, refl, ◌&&◌, ◌==◌, ltb, if◌then◌else◌, if_both, take, replicate, codes, arith,
}
use alderkernel.Util.Strings.{c_string}
use alderkernel.Pmm.{bitmap_test}
use alderkernel.Heap.{
  Block, kmalloc, kmalloc_aligned, find_block, take_block, can_split, split_block, align_up,
}
use alderkernel.Vfs.{Node, dir, Vfs, vfs_alloc_node, vfs_mkdir, vfs_find_child}
use alderkernel.Vfs.Names.{same_text}
use alderkernel.Vfs.Memory.{answer, heap_allocator, IsLive, heap-IsAllocator, heap-kmalloc_fresh}
use alderkernel.Vfs.Children.{IsDirectory, vfs_find_child-vfs_mkdir}
use alderkernel.Tests.Heaps.{two_blocks}

abbrev root : Node
root = record {
  name = replicate 32 0;
  kind = dir;
  parent = 0;
  children = replicate 16 0;
  child_count = 0;
  content = replicate 256 0;
}

abbrev root_only : Vfs (heap_allocator 3)
root_only = record { heap = two_blocks; nodes = λ _. root; vfs_root = 4112; vfs_cwd = 4112 }

root-IsLive : IsLive two_blocks 4112
unfolding bitmap_test
root-IsLive = record {
  behind_header = omega arith;
  below_top = omega arith;
  in_use = refl;
  page_used = refl;
  head_word = omega arith;
  link_words = λ q.
      if_both (λ (b : Block). b.next < 4294967296) (q == 4096) (λ _. omega arith)
        (λ _. omega arith);
}

root_only-IsDirectory : IsDirectory (heap_allocator 3) (heap-IsAllocator 3) root_only 4112
root_only-IsDirectory = record {
  not_null = omega arith;
  live = root-IsLive;
  count = omega arith;
  slots = refl;
  child_not_null = λ j h. absurd (omega arith);
  child_live = λ j h. absurd (omega arith);
  names = λ p. refl;
}

second_block : (answer two_blocks (kmalloc 3 364 two_blocks)).0 ≡ 5136
unfolding answer kmalloc kmalloc_aligned find_block take_block can_split split_block align_up
second_block = refl

heap-kmalloc_fresh_example : (answer two_blocks (kmalloc 3 364 two_blocks)).0 ≢ 4112
heap-kmalloc_fresh_example =
    heap-kmalloc_fresh 3 364 two_blocks 4112 root-IsLive (omega (arith, second_block))

made : (vfs_mkdir (heap_allocator 3) 4112 (codes "kernel") root_only).0 ≡ 5136
unfolding vfs_mkdir vfs_alloc_node answer kmalloc kmalloc_aligned find_block take_block can_split
    split_block align_up
made = refl

vfs_find_child-vfs_mkdir_example :
    vfs_find_child
      (heap_allocator 3)
      4112
      (codes "kernel")
      (vfs_mkdir (heap_allocator 3) 4112 (codes "kernel") root_only).1
    ≡ (if vfs_find_child (heap_allocator 3) 4112 (codes "kernel") root_only == 0
        then (if ltb (root_only.nodes 4112).child_count 16
              && same_text (take 31 (c_string (codes "kernel"))) (c_string (codes "kernel"))
            then (vfs_mkdir (heap_allocator 3) 4112 (codes "kernel") root_only).0
            else 0)
        else vfs_find_child (heap_allocator 3) 4112 (codes "kernel") root_only)
vfs_find_child-vfs_mkdir_example =
    vfs_find_child-vfs_mkdir (heap_allocator 3) (heap-IsAllocator 3) 4112 (codes "kernel")
      (codes "kernel") root_only-IsDirectory (omega (arith, made))
