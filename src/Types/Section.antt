-- ===== src/Types/Section.antt =====
-- The whole type section (`load_type_section`, core/iwasm/common/wasm_loader.c).
use wasm2native.Common.{
  ℕ, zero, suc, ◌+◌, ◌*◌, ◌≡◌, inl, inr, some, List, [], ◌∷◌, ◌++◌, arith, length, All, ◌==◌,
  if◌then◌else◌, Option-cases,
}
use wasm2native.Common.Ensures.{
  Ensures, holds, Ensures-bind, Ensures-check, Ensures-if, Ensures-then, Ensures-ok,
}
use wasm2native.Common.Outcome.{ok, ◌>>◌}
use wasm2native.Leb.{read_leb_uint32}
use wasm2native.Loader.{Host, loader_malloc, types_array}
use wasm2native.Types.{
  TypeTable, no_types, add_reference, find_equal, share_type, load_type_entry, load_types,
  load_type_section,
}
use wasm2native.Types.Entries.{IsWellFormed, load_type_entry-Ensures}
use wasm2native.Types.Sharing.{IsShared, share_type-IsShared, count}
use wasm2native.Wasm.{WasmType}

-- Every object is a well-formed type, and the objects are shared.
pub record IsLoaded (t : TypeTable) : Type 0 where
  pub well_formed : All IsWellFormed t.objects
  pub shared : IsShared t

All-push :
    (os : List WasmType) (o : WasmType)
    → All IsWellFormed os
    → IsWellFormed o
    → All IsWellFormed (os ++ o ∷ [])
All-push [] o h k = (k, tt)
All-push (x ∷ os) o (h, hs) k = (h, All-push os o hs k)

-- A reference more changes nothing else about an object.
All-add_reference :
    (os os' : List WasmType) (a : ℕ)
    → All IsWellFormed os
    → add_reference os a ≡ some os'
    → All IsWellFormed os'
unfolding add_reference
All-add_reference [] os' a h e = cc
All-add_reference (o ∷ os) [] zero h e = ground arith
All-add_reference (o ∷ os) (u ∷ us) zero (h, hs) e =
    let same : u ≡ record o { ref_count = o.ref_count + 1 } = ground arith in
    let rest : us ≡ os = ground arith in
    rw (same, rest)
      (
        record {
          counts = h.counts;
          small = h.small;
          value_types = h.value_types;
          param_cells = h.param_cells;
          ret_cells = h.ret_cells;
          cells_fit = h.cells_fit;
        },
        hs,
      )
All-add_reference (o ∷ os) [] (suc a) (h, hs) e = elim (Option-cases (add_reference os a)) [
  | inl n ↦ ground arith
  | inr (vs, found) ↦ ground arith
]
All-add_reference (o ∷ os) (u ∷ us) (suc a) (h, hs) e = elim (Option-cases (add_reference os a)) [
  | inl n ↦ ground arith
  | inr (vs, found) ↦
      let same : u ≡ o = ground arith in
      let rest : us ≡ vs = ground arith in rw (same, rest) (h, All-add_reference os vs a hs found)
]

share_type-IsLoaded :
    (type : WasmType) (t t' : TypeTable)
    → IsLoaded t
    → IsWellFormed type
    → type.ref_count ≡ 1
    → share_type type t ≡ ok t'
    → IsLoaded t'
unfolding share_type
share_type-IsLoaded type t t' h w one e = record {
  well_formed = elim (Option-cases (find_equal type t.objects t.types)) [
    | inl new ↦
        let same : t'.objects ≡ t.objects ++ type ∷ [] = ground arith in
        rw same (All-push t.objects type h.well_formed w)
    | inr (a, found) ↦ elim (Option-cases (add_reference t.objects a)) [
      | inl full ↦ ground arith
      | inr (os, added) ↦
          let same : t'.objects ≡ os = ground arith in
          rw same (All-add_reference t.objects os a h.well_formed added)
    ]
  ];
  shared = share_type-IsShared type t t' h.shared one e;
}

load_types-IsLoaded :
    (host : Host) (left i : ℕ) (p : List ℕ) (t : TypeTable)
    → IsLoaded t
    → Ensures (λ r. IsLoaded r.0) (load_types host left i p t)
unfolding load_types
load_types-IsLoaded host zero i p t h = holds h
load_types-IsLoaded host (suc left) i p t h = Ensures-bind (load_type_entry host i p) λ r e.
    let (w, one) = Ensures-ok (load_type_entry-Ensures host i p) e in
    Ensures-bind (share_type r.0 t) λ t' e'.
      load_types-IsLoaded host left (i + 1) r.1 t' (share_type-IsLoaded r.0 t t' h w one e')

none-IsLoaded : IsLoaded no_types
unfolding count
none-IsLoaded = record {
  well_formed = tt;
  shared = record {
    in_range = λ a h. absurd (omega arith);
    exact = λ a o e. cc;
    distinct = λ a b o u lt e. cc;
  };
}

section : (host : Host) (p : List ℕ) → Ensures IsLoaded (load_type_section host p)
unfolding load_type_section
section host p = Ensures-bind (read_leb_uint32 p) λ n e1.
    Ensures-bind _ λ r e2. Ensures-check (length r.1 == 0) _ λ _. holds (Ensures-ok (loaded n) e2)
  where
    loaded :
        (n : ℕ × List ℕ)
        → Ensures
            (λ (r : TypeTable × List ℕ). IsLoaded r.0)
            (if n.0 == 0
              then ok (no_types, n.1)
              else (loader_malloc host types_array (host.sizeof_pointer * n.0)
                  >> load_types host n.0 0 n.1 no_types))
    loaded n =
        Ensures-if (n.0 == 0) (λ _. holds none-IsLoaded)
          (λ _.
            Ensures-then (loader_malloc host types_array _)
              λ _. load_types-IsLoaded host n.0 0 n.1 no_types none-IsLoaded)

-- A type section that loads gives well-formed types: each has as many types as it counts, all value
-- types, with cell numbers that fit 16 bits. Entries point to objects in range; each object's
-- reference count is the number of entries that point to it, and no object equals an earlier one.
pub load_type_section-IsLoaded :
    (host : Host) (p : List ℕ) (t : TypeTable) → load_type_section host p ≡ ok t → IsLoaded t
load_type_section-IsLoaded host p t e = Ensures-ok (section host p) e
