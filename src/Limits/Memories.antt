-- ===== src/Limits/Memories.antt =====
-- What holds of every memory that loads (core/iwasm/common/wasm_loader.c).
use wasm2native.Common.{
  ℕ, zero, suc, ◌+◌, ◌-◌, ◌*◌, ◌%◌, ◌^◌, ◌≤◌, ◌<◌, ◌≡◌, refl, Bool, true, false, ◌||◌, List, [],
  arith, length, All, bit_and, ltb, ◌==◌, nonzero, same_bytes, if◌then◌else◌,
}
use wasm2native.Common.Ensures.{
  Ensures, holds, Ensures-bind, Ensures-check, Ensures-reject, Ensures-if, Ensures-then, Ensures-ok,
  Ensures-of_ok,
}
use wasm2native.Common.Outcome.{ok, ◌>>◌}
use wasm2native.Leb.{read_leb_uint32}
use wasm2native.Leb.Takes.{read_leb_uint32_takes}
use wasm2native.Limits.{
  WasmMemory, check_memory_flags, check_memory_init_size, check_memory_max_size, read_memory_max,
  load_memory, link_memory, load_memory_import, load_memories, load_memory_section, name_spectest,
  name_memory, default_max_pages, memory64_flag, shared_memory_flag, max_page_count_flag,
}
use wasm2native.Loader.{Host, loader_malloc, memories_array}

-- The sizes are in order and within what the address space of the memory allows, pages have 64 KiB,
-- the flags are known ones, and a shared memory declares its maximum.
pub record IsValidMemory (m : WasmMemory) : Type 0 where
  pub ordered : m.init_page_count ≤ m.max_page_count
  pub bounded : m.max_page_count ≤ default_max_pages (nonzero (bit_and m.flags memory64_flag))
  pub page_size : m.num_bytes_per_page ≡ 65536
  pub known_flags : m.flags ≤ 7
  pub shared_bounded :
      nonzero (bit_and m.flags shared_memory_flag) ≡ true
      → nonzero (bit_and m.flags max_page_count_flag) ≡ true

flags_checked :
    (flags : ℕ)
    → check_memory_flags flags ≡ ok tt
    → (flags ≤ 7)
      × (nonzero (bit_and flags shared_memory_flag) ≡ true
          → nonzero (bit_and flags max_page_count_flag) ≡ true)
unfolding check_memory_flags
flags_checked flags e = (ground arith, λ h. ground arith)

init_checked :
    (is_memory64 : Bool) (init : ℕ)
    → check_memory_init_size is_memory64 init ≡ ok tt
    → init ≤ default_max_pages is_memory64
unfolding check_memory_init_size
init_checked true init e = ground arith
init_checked false init e = ground arith

max_checked :
    (is_memory64 : Bool) (init max_size : ℕ)
    → check_memory_max_size is_memory64 init max_size ≡ ok tt
    → (init ≤ max_size) × (max_size ≤ default_max_pages is_memory64)
unfolding check_memory_max_size
max_checked true init max_size e = ground arith
max_checked false init max_size e = ground arith

max_read :
    (flags : ℕ) (is_memory64 : Bool) (init : ℕ) (p : List ℕ)
    → init ≤ default_max_pages is_memory64
    → Ensures
        (λ r. (init ≤ r.0) × (r.0 ≤ default_max_pages is_memory64))
        (read_memory_max flags is_memory64 init p)
unfolding read_memory_max
max_read flags is_memory64 init p h =
    Ensures-if (nonzero (bit_and flags max_page_count_flag))
      (λ _. Ensures-bind (read_leb_uint32 p) λ m e.
        Ensures-then (check_memory_max_size is_memory64 init m.0)
          λ c. holds (ground (arith, max_checked is_memory64 init m.0 c)))
      (λ _. holds (h, omega arith))

pub load_memory-Ensures : (p : List ℕ) → Ensures (λ r. IsValidMemory r.0) (load_memory p)
unfolding load_memory
load_memory-Ensures p = Ensures-bind (read_leb_uint32 p) λ flags e1.
    let is64 = nonzero (bit_and flags.0 memory64_flag) in
    Ensures-reject (ltb 1 (length p - length flags.1)) _ λ _.
      Ensures-then (check_memory_flags flags.0) λ f.
        Ensures-bind (read_leb_uint32 flags.1) λ init e2.
          Ensures-then (check_memory_init_size is64 init.0) λ i.
            Ensures-bind (read_memory_max flags.0 is64 init.0 init.1) λ m e3.
              let (lo, hi) =
                Ensures-ok (max_read flags.0 is64 init.0 init.1 (init_checked is64 init.0 i)) e3 in
              let (known, shared) = flags_checked flags.0 f in
              holds (record {
                ordered = lo;
                bounded = hi;
                page_size = refl;
                known_flags = known;
                shared_bounded = shared;
              })

-- A memory that is defined in a module and loads is valid: its initial size is at most its
-- maximum, which the address space of its flags allows, its pages have 64 KiB, its flags are known
-- ones, and if it is shared it declares a maximum.
pub load_memory-IsValid :
    (p : List ℕ) (m : WasmMemory) (rest : List ℕ) → load_memory p ≡ ok (m, rest) → IsValidMemory m
load_memory-IsValid p m rest e = Ensures-ok (load_memory-Ensures p) e

two_pages : (is_memory64 : Bool) → 2 ≤ default_max_pages is_memory64
two_pages true = omega arith
two_pages false = omega arith

link_memory-IsValid :
    (sub_module_name memory_name : List ℕ) (m : WasmMemory)
    → IsValidMemory m
    → Ensures IsValidMemory (link_memory sub_module_name memory_name m)
unfolding link_memory
link_memory-IsValid sub_module_name memory_name m h =
    Ensures-if (same_bytes name_spectest sub_module_name)
      (λ _. Ensures-check (same_bytes name_memory memory_name) _ λ _.
        Ensures-reject (ltb 1 m.init_page_count || ltb m.max_page_count 2) _ λ _. holds (record {
          ordered = omega arith;
          bounded = two_pages (nonzero (bit_and m.flags memory64_flag));
          page_size = h.page_size;
          known_flags = h.known_flags;
          shared_bounded = h.shared_bounded;
        }))
      (λ _. holds h)

import_checked :
    (sub_module_name memory_name p : List ℕ)
    → Ensures (λ r. IsValidMemory r.0) (load_memory_import sub_module_name memory_name p)
unfolding load_memory_import
import_checked sub_module_name memory_name p = Ensures-bind (load_memory p) λ m e1.
    Ensures-bind (link_memory sub_module_name memory_name m.0) λ m' e2. holds (
      Ensures-ok
        (link_memory-IsValid sub_module_name memory_name m.0
          (Ensures-ok (load_memory-Ensures p) e1))
        e2)

-- A memory that is imported and loads is valid in the same sense, the host module's memory
-- included.
pub load_memory_import-IsValid :
    (sub_module_name memory_name p : List ℕ) (m : WasmMemory) (rest : List ℕ)
    → load_memory_import sub_module_name memory_name p ≡ ok (m, rest)
    → IsValidMemory m
load_memory_import-IsValid sub_module_name memory_name p m rest e =
    Ensures-ok (import_checked sub_module_name memory_name p) e

load_memories-Ensures :
    (n : ℕ) (p : List ℕ)
    → Ensures (λ r. (length r.0 ≡ n) × All IsValidMemory r.0) (load_memories n p)
unfolding load_memories
load_memories-Ensures zero p = holds (refl, tt)
load_memories-Ensures (suc n) p = Ensures-bind (load_memory p) λ m e1.
    Ensures-bind (load_memories n m.1) λ ms e2.
      let (count, valid) = Ensures-ok (load_memories-Ensures n m.1) e2 in
      holds (omega arith, (Ensures-ok (load_memory-Ensures p) e1, valid))

malloc_small :
    (host : Host) (size count : ℕ)
    → 1 ≤ size
    → loader_malloc host memories_array (size * count) ≡ ok tt
    → count < 2 ^ 32 - 1
unfolding loader_malloc
malloc_small host size count h e =
    let small : size * count < 2 ^ 32 - 1 = ground arith in grind arith

section :
    (host : Host) (imported : ℕ) (p : List ℕ)
    → 1 ≤ host.sizeof_memory
    → imported ≤ 1
    → Ensures
        (λ ms. (imported + length ms ≤ 1) × All IsValidMemory ms)
        (load_memory_section host imported p)
unfolding load_memory_section
section host imported p h i = Ensures-bind (read_leb_uint32 p) λ n e1.
    Ensures-reject (ltb 1 ((imported + n.0) % 2 ^ 32)) _ λ few. Ensures-bind _ λ r e2.
      Ensures-check (length r.1 == 0) _
        λ _. holds (Ensures-ok (loaded n (read_leb_uint32_takes _ _ _ e1).1 few) e2)
  where
    loaded :
        (n : ℕ × List ℕ)
        → n.0 < 2 ^ 32
        → ltb 1 ((imported + n.0) % 2 ^ 32) ≡ false
        → Ensures
            (λ (r : List WasmMemory × List ℕ). (imported + length r.0 ≤ 1) × All IsValidMemory r.0)
            (if n.0 == 0
              then ok ([], n.1)
              else (loader_malloc host memories_array (host.sizeof_memory * n.0)
                  >> load_memories n.0 n.1))
    loaded n fits few =
        Ensures-if (n.0 == 0) (λ _. holds (omega arith, tt))
          (λ _. Ensures-then (loader_malloc host memories_array _) λ got.
            Ensures-of_ok (load_memories n.0 n.1) λ r e.
              let (count, valid) = Ensures-ok (load_memories-Ensures n.0 n.1) e in
              (ground (arith, malloc_small host host.sizeof_memory n.0 h got), valid))

-- After the memory section a module has one memory at most, imported or defined, and each defined
-- one is valid, where at most one is imported and the structure of a memory takes some space. The
-- sum of the two counts may wrap to zero; then the allocation of the array is refused.
pub load_memory_section_one :
    (host : Host) (imported : ℕ) (p : List ℕ) (ms : List WasmMemory)
    → 1 ≤ host.sizeof_memory
    → imported ≤ 1
    → load_memory_section host imported p ≡ ok ms
    → (imported + length ms ≤ 1) × All IsValidMemory ms
load_memory_section_one host imported p ms h i e = Ensures-ok (section host imported p h i) e
