-- ===== src/Heap/Tests.antt =====
-- Runs of the kernel heap of kernel/mm/heap.c.
use eclipse32_gui.Base.{◌≡◌, refl, inr, if◌then◌else◌, ◌==◌, arith}
use eclipse32_gui.Heap.{
  Heap, data_size, put, put_free, put_size, find_free, find_from, fl_remove, fl_add, split, mark,
  kmalloc, kfree, join_next, join_prev, prev_block,
}
use eclipse32_gui.Heap.Links.{fl_remove-fl_add}

-- One free block of 972 bytes, of a heap of 1000.
abbrev one_block : Heap
one_block = record {
  mem = λ x.
      if x == 4096
      then 972
      else if x == 4100
      then 1
      else if x == 4112
      then 0xec32_beef
      else if x == 5088
      then 972
      else if x == 5092
      then 1
      else 0;
  heap_start = 4096;
  heap_end = 5096;
  heap_max = 5096;
  free_list = 4096;
}

-- A block is cut off, and given back it joins the rest.
cut_test : (kmalloc 100 one_block).0 ≡ 4116
unfolding kmalloc find_free find_from
cut_test = refl

rest_test : data_size 4228 (kmalloc 100 one_block).1 ≡ 840
unfolding kmalloc find_free find_from fl_remove split mark put put_size put_free fl_add
rest_test = refl

join_test : data_size 4096 (kfree 4116 (kmalloc 100 one_block).1) ≡ 972
unfolding kmalloc find_free find_from fl_remove split mark put put_size put_free fl_add kfree
    join_next join_prev prev_block
join_test = refl

fl_remove-fl_add_example :
    ((fl_remove 8000 (fl_add 8000 one_block)).free_list ≡ 4096)
    × ((fl_remove 8000 (fl_add 8000 one_block)).mem 4108 ≡ 0)
fl_remove-fl_add_example =
    fl_remove-fl_add 8000 4108 one_block (omega arith) refl (inr (omega arith)) (omega arith)
      (omega arith)
