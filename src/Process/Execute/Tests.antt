-- ===== src/Process/Execute/Tests.antt =====
-- `processExecute` of kernel/process.c on a machine of 32 MB, and the theorem there.
use holo_os.Base.{◌+◌, ◌*◌, ◌≡◌, refl, inr, [], ◌∷◌, arith}
use holo_os.Base.Memory.{Mem}
use holo_os.Base.Bits.{test_bit, set_bit}
use holo_os.Base.Run.{ok}
use holo_os.Bitmap.{bitmap_init, bitmap_scan, bitmap_test, bitmap_set}
use holo_os.CString.Block.{copied, fill, memset_lem}
use holo_os.Memory.Alloc.{
  malloc_page, vaddr_get, set_bits, map_pages, clear_pages, get_kernel_pages, space, below_stack,
}
use holo_os.Memory.Paging.{Store, page_table_add, pte_ptr, pde_ptr}
use holo_os.Memory.Pool.{pools_of, palloc, mem_pool, pf_kernel}
use holo_os.CString.Text.Copy.{strcpy_lem}
use holo_os.LinkedList.Segment.{IsList}
use holo_os.Process.{create_page_dir, process_execute}
use holo_os.Process.Directory.{create_page_dir_lem}
use holo_os.Process.Execute.{spaced, space_of, process_execute_lem}
use holo_os.Thread.{Kernel, all_list_tag, thread_create}
use holo_os.Thread.Turns.{IsRunning}
use holo_os.Process.Tests.{
  pools, user, got_page, zeroed, new_page, no_name, alone, alone-IsRunning, alone-all, alone-IsNew,
}

abbrev named : Store
named = record zeroed { bytes = copied zeroed.bytes (0xc0100000 + 12) 500 0 }

got_bits : (s' : Store) × (malloc_page named pools user pf_kernel 23 ≡ ok (0xc0101000, s'))
unfolding pools_of mem_pool malloc_page vaddr_get set_bits map_pages palloc bitmap_scan bitmap_test
    bitmap_set test_bit set_bit page_table_add space below_stack pte_ptr pde_ptr got_page copied
    fill
got_bits = (_, refl)

abbrev spread : Store
spread = record {
  bytes = fill got_bits.0.bytes 0xc0101000 0 (23 * 4096);
  words = fill got_bits.0.words 0xc0101000 0 (23 * 4096);
}

bitmap_pages : get_kernel_pages named pools user 23 ≡ ok (0xc0101000, spread)
unfolding get_kernel_pages clear_pages
bitmap_pages =
    rw
      (
        got_bits.1,
        memset_lem got_bits.0.bytes 0xc0101000 0 (23 * 4096),
        memset_lem got_bits.0.words 0xc0101000 0 (23 * 4096),
      )
      refl

abbrev bitmap_bytes : Mem
bitmap_bytes = fill spread.bytes 0xc0101000 0 94199

no_page_used :
    bitmap_init spread.bytes (record { bits = 0xc0101000; size = 94199 }) ≡ ok bitmap_bytes
unfolding bitmap_init
no_page_used = memset_lem spread.bytes 0xc0101000 0 94199

-- The state in which `createPageDir` is called.
abbrev before_dir : Kernel
before_dir =
    thread_create (spaced alone 0xc0100000 zeroed named.bytes 0xc0101000 spread bitmap_bytes)
      0xc0100000 0xc0003000 0xc0003100 0x8048000

got_dir : (s' : Store) × (malloc_page before_dir.store pools user pf_kernel 1 ≡ ok (0xc0118000, s'))
unfolding pools_of mem_pool malloc_page vaddr_get set_bits map_pages palloc bitmap_scan bitmap_test
    bitmap_set test_bit set_bit page_table_add space below_stack pte_ptr pde_ptr got_page copied
    fill thread_create got_bits
got_dir = (_, refl)

abbrev cleared : Store
cleared = record {
  bytes = fill got_dir.0.bytes 0xc0118000 0 4096;
  words = fill got_dir.0.words 0xc0118000 0 4096;
}

dir_page : get_kernel_pages before_dir.store pools user 1 ≡ ok (0xc0118000, cleared)
unfolding get_kernel_pages clear_pages
dir_page =
    rw
      (
        got_dir.1,
        memset_lem got_dir.0.bytes 0xc0118000 0 4096,
        memset_lem got_dir.0.words 0xc0118000 0 4096,
      )
      refl

made : (k3 : Kernel) × (create_page_dir before_dir pools ≡ ok (0xc0118000, k3))
unfolding thread_create
made =
    let (k3, run, dir) =
      create_page_dir_lem before_dir pools 0xc0118000 cleared dir_page (omega arith) refl
        (omega arith) in
    (k3, run)

process_execute_lem_example :
    (k' : Kernel) × (process_execute 5 alone pools 0xc0003000 0xc0003100 0x8048000 500 ≡ ok k')
    × IsRunning k' (0xc0100000 ∷ [])
    × IsList k'.links k'.all_list (all_list_tag 0xc0200000 ∷ all_list_tag 0xc0100000 ∷ [])
    × (k'.current ≡ 0xc0200000)
    × (k'.tasks.page_dir 0xc0100000 ≡ 0xc0118000)
    × (k'.tasks.user_vaddr 0xc0100000 ≡ space_of 0xc0101000)
process_execute_lem_example =
    process_execute_lem alone [] (all_list_tag 0xc0200000 ∷ []) alone-IsRunning alone-all refl refl
      0xc0100000 alone-IsNew (omega arith) (omega arith) pools zeroed new_page 5 500 _
      (strcpy_lem 5 zeroed.bytes (0xc0100000 + 12) 500 [] (omega arith) (omega arith) (omega arith)
        no_name (inr (omega arith)))
      0xc0101000 spread bitmap_pages bitmap_bytes no_page_used 0xc0003000 0xc0003100 0x8048000
      0xc0118000 made.0 made.1 (omega arith) (omega arith)
