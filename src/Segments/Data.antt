-- ===== src/Segments/Data.antt =====
-- What holds of the data segments of a module that loads (core/iwasm/common/wasm_loader.c,
-- `load_data_segment_section`).
use wasm2native.Common.{
  ℕ, zero, suc, ◌+◌, ◌*◌, ◌<◌, ◌≡◌, refl, ◌∙◌, Option, none, some, List, [], arith, length, All,
  ◌==◌, bit_and, if◌then◌else◌,
}
use wasm2native.Common.Ensures.{
  Ensures, holds, refused, Ensures-bind, Ensures-check, Ensures-then, Ensures-ok, Ensures-if,
}
use wasm2native.Common.Outcome.{ok, ◌>>◌}
use wasm2native.Globals.{InitExpr, load_init_expr}
use wasm2native.Leb.{read_leb_uint32}
use wasm2native.Loader.{Host, data_segments_array, data_segment, loader_malloc, need}
use wasm2native.Segments.{
  Loaded, DataSegment, check_memory_index, read_memory_index, mem_offset_type, load_offset,
  load_data_segment, load_data_segments, check_data_count, load_data_segment_section,
}

-- The memory of an active segment is one of the module's.
IsPlacedAt : Loaded → Option (ℕ × InitExpr) → Type 0
IsPlacedAt m none = Unit
IsPlacedAt m (some (i, offset)) = i < length m.imports.memories + length m.memories

pub IsSoundData : Loaded → DataSegment → Type 0
IsSoundData m s = IsPlacedAt m s.active

IsIndex : Loaded → Option ℕ → Type 0
IsIndex m none = Unit
IsIndex m (some i) = i < length m.imports.memories + length m.memories

memory_known :
    (m : Loaded) (i : ℕ)
    → check_memory_index m i ≡ ok tt
    → i < length m.imports.memories + length m.memories
unfolding check_memory_index
memory_known m i e = ground arith

IsIndex-known : (m : Loaded) (p : List ℕ) → Ensures (λ r. IsIndex m r.0) (read_memory_index m p)
unfolding read_memory_index IsIndex
IsIndex-known m p = Ensures-bind (read_leb_uint32 p) λ i e.
    Ensures-if (bit_and i.0 0x03 == 1) (λ _. holds tt)
      λ _.
        Ensures-if (bit_and i.0 0x03 == 0)
          (λ _. Ensures-then (check_memory_index m 0) λ e1. holds (memory_known m 0 e1))
          λ _.
            Ensures-if (bit_and i.0 0x03 == 2)
              (λ _.
                Ensures-bind (read_leb_uint32 i.1) λ j e2.
                  Ensures-then (check_memory_index m j.0) λ e3. holds (memory_known m j.0 e3))
              λ _. refused

offset_known :
    (m : Loaded) (i : Option ℕ) (p : List ℕ)
    → IsIndex m i
    → Ensures (λ r. IsPlacedAt m r.0) (load_offset m i p)
unfolding load_offset IsIndex IsPlacedAt
offset_known m none p h = holds tt
offset_known m (some i) p h =
    Ensures-bind (mem_offset_type m i)
      λ t e1. Ensures-bind (load_init_expr m.imports.globals t p) λ x e2. holds h

segment_sound :
    (host : Host) (m : Loaded) (i : ℕ) (p : List ℕ)
    → Ensures (λ r. IsSoundData m r.0) (load_data_segment host m i p)
unfolding load_data_segment IsSoundData
segment_sound host m i p = Ensures-bind (read_memory_index m p) λ index e1.
    Ensures-bind (load_offset m index.0 index.1) λ active e2.
      Ensures-bind (read_leb_uint32 active.1) λ len e3.
        Ensures-then (loader_malloc host (data_segment i) host.sizeof_data_seg) λ _.
          Ensures-then (need len.0 len.1) λ _.
            holds
              (Ensures-ok (offset_known m index.0 index.1 (Ensures-ok (IsIndex-known m p) e1)) e2)

segments_sound :
    (host : Host) (m : Loaded) (n i : ℕ) (p : List ℕ)
    → Ensures (λ r. (length r.0 ≡ n) × All (IsSoundData m) r.0) (load_data_segments host m n i p)
unfolding load_data_segments
segments_sound host m zero i p = holds (refl, tt)
segments_sound host m (suc n) i p = Ensures-bind (load_data_segment host m i p) λ s e1.
    Ensures-bind (load_data_segments host m n (i + 1) s.1) λ ss e2.
      let (count, sound) = Ensures-ok (segments_sound host m n (i + 1) s.1) e2 in
      holds (omega arith, (Ensures-ok (segment_sound host m i p) e1, sound))

loaded_sound :
    (host : Host) (m : Loaded) (n : ℕ) (p : List ℕ)
    → Ensures
        (λ (r : List DataSegment × List ℕ). (length r.0 ≡ n) × All (IsSoundData m) r.0)
        (if n == 0
          then ok ([], p)
          else (loader_malloc host data_segments_array (host.sizeof_pointer * n)
              >> load_data_segments host m n 0 p))
loaded_sound host m n p =
    Ensures-if (n == 0) (λ none_given. holds (ground arith, tt))
      (λ _.
        Ensures-then (loader_malloc host data_segments_array (host.sizeof_pointer * n))
          λ _. segments_sound host m n 0 p)

declared : (c n : ℕ) → check_data_count (some c) n ≡ ok tt → n ≡ c
unfolding check_data_count
declared c n e = ground arith

section_sound :
    (host : Host) (m : Loaded) (c : ℕ) (p : List ℕ)
    → Ensures
        (λ ss. (length ss ≡ c) × All (IsSoundData m) ss)
        (load_data_segment_section host m (some c) p)
unfolding load_data_segment_section
section_sound host m c p = Ensures-bind (read_leb_uint32 p) λ n e1.
    Ensures-then (check_data_count (some c) n.0) λ e2. Ensures-bind _ λ r e3.
      Ensures-check (length r.1 == 0) _ λ _.
        let (count, sound) = Ensures-ok (loaded_sound host m n.0 n.1) e3 in
        holds (count ∙ declared c n.0 e2, sound)

-- After a data count section there are as many data segments as it says, and the memory of each that
-- is active is one that the module has.
pub load_data_segment_section-IsSound :
    (host : Host) (m : Loaded) (count : ℕ) (p : List ℕ) (ss : List DataSegment)
    → load_data_segment_section host m (some count) p ≡ ok ss
    → (length ss ≡ count) × All (IsSoundData m) ss
load_data_segment_section-IsSound host m count p ss e = Ensures-ok (section_sound host m count p) e
