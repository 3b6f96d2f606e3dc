-- ===== src/Imports/Skipped.antt =====
-- What both passes over the imports take from the file for each kind (core/iwasm/common/wasm_loader.c,
-- `load_import_section`).
use wasm2native.Common.{
  ℕ, zero, suc, ◌-◌, ◌≡◌, Bool, false, not, List, [], ◌∷◌, arith, length, ltb, leb, ◌==◌, nonzero,
  bit_and, inl, inr,
}
use wasm2native.Common.Ensures.{
  Ensures, holds, Ensures-bind, Ensures-reject, Ensures-check, Ensures-then, Ensures-ok,
}
use wasm2native.Common.Outcome.{ok, Result-cases}
use wasm2native.Globals.{
  load_global_import, link_global, lookup_builtin_import_global, spectest_import_globals,
}
use wasm2native.Imports.{skip_max, skip_limits}
use wasm2native.Leb.{read_leb_uint32}
use wasm2native.Limits.{
  check_memory_flags, check_memory_init_size, memory64_flag, load_table_import, load_memory_import,
  load_memory, read_table_max, read_memory_max, adjust_table_max_size, link_table, link_memory,
}
use wasm2native.Loader.{read_uint8, skip, need, is_value_type}
use wasm2native.Wasm.{value_type_funcref}

-- The flags of an imported table are 0 or 1, so both tests of the flags agree.
table_max_skips :
    (flags init_size : ℕ) (p : List ℕ) (m : ℕ) (rest : List ℕ)
    → ltb 1 flags ≡ false
    → read_table_max flags init_size p ≡ ok (m, rest)
    → skip_max flags p ≡ ok rest
unfolding read_table_max skip_max
table_max_skips zero init_size p m rest small e = ground arith
table_max_skips (suc zero) init_size p m rest small e = elim (Result-cases (read_leb_uint32 p)) [
  | inl ((v, q), e1) ↦ ground arith
  | inr (x, e1) ↦ ground arith
]
table_max_skips (suc (suc n)) init_size p m rest small e = absurd (ground arith)

memory_max_skips :
    (flags : ℕ) (is_memory64 : Bool) (init_size : ℕ) (p : List ℕ) (m : ℕ) (rest : List ℕ)
    → read_memory_max flags is_memory64 init_size p ≡ ok (m, rest)
    → skip_max flags p ≡ ok rest
unfolding read_memory_max skip_max
memory_max_skips flags is_memory64 init_size p m rest e = elim (Result-cases (read_leb_uint32 p)) [
  | inl ((v, q), e1) ↦ ground arith
  | inr (x, e1) ↦ ground arith
]

limits :
    (p q r : List ℕ) (flags init_size : ℕ) (rest : List ℕ)
    → read_leb_uint32 p ≡ ok (flags, q)
    → read_leb_uint32 q ≡ ok (init_size, r)
    → skip_max flags r ≡ ok rest
    → skip_limits p ≡ ok rest
unfolding skip_limits
limits p q r flags init_size rest e1 e2 e3 = ground arith

pub table_import_skips :
    (module_name name p : List ℕ)
    → Ensures
        (λ r. (b : ℕ) × (p1 : List ℕ) × (read_uint8 p ≡ ok (b, p1)) × (skip_limits p1 ≡ ok r.1))
        (load_table_import module_name name p)
unfolding load_table_import
table_import_skips module_name name p = Ensures-bind (read_uint8 p) λ b e1.
    Ensures-reject (not (value_type_funcref == b.0)) _ λ _.
      Ensures-bind (read_leb_uint32 b.1) λ flags e2. Ensures-reject (ltb 1 flags.0) _ λ small.
        Ensures-bind (read_leb_uint32 flags.1) λ size e3.
          Ensures-bind (read_table_max flags.0 size.0 size.1) λ m e4.
            Ensures-bind
              (link_table module_name name (record {
                elem_type = b.0;
                flags = flags.0;
                init_size = size.0;
                max_size = adjust_table_max_size size.0 flags.0 m.0;
              }))
              λ t e5. holds (
                b.0,
                b.1,
                e1,
                limits b.1 flags.1 size.1 flags.0 size.0 m.1 e2 e3
                    (table_max_skips flags.0 size.0 size.1 m.0 m.1 small e4),
              )

two_bytes :
    (p q rest : List ℕ) (a b : ℕ)
    → read_uint8 p ≡ ok (a, q)
    → read_uint8 q ≡ ok (b, rest)
    → skip 2 p ≡ ok rest
unfolding skip need read_uint8
two_bytes [] q rest a b e1 e2 = cc
two_bytes (x ∷ []) q rest a b e1 e2 = ground arith
two_bytes (x ∷ y ∷ p) q rest a b e1 e2 = ground arith

memory_body : (p : List ℕ) → Ensures (λ r. skip_limits p ≡ ok r.1) (load_memory p)
unfolding load_memory
memory_body p = Ensures-bind (read_leb_uint32 p) λ flags e2.
    Ensures-reject (ltb 1 (length p - length flags.1)) _ λ _.
      Ensures-then (check_memory_flags flags.0) λ _.
        Ensures-bind (read_leb_uint32 flags.1) λ size e3.
          Ensures-then (check_memory_init_size (nonzero (bit_and flags.0 memory64_flag)) size.0)
            λ _. Ensures-bind (read_memory_max flags.0 _ size.0 size.1) λ m e4. holds (
              limits p flags.1 size.1 flags.0 size.0 m.1 e2 e3
                (memory_max_skips flags.0 _ size.0 size.1 m.0 m.1 e4))

pub global_import_skips :
    (module_name name p : List ℕ)
    → Ensures (λ r. skip 2 p ≡ ok r.1) (load_global_import module_name name p)
unfolding load_global_import
global_import_skips module_name name p = Ensures-then (need 2 p) λ enough.
    Ensures-bind (read_uint8 p) λ a e1. Ensures-check (is_value_type a.0) _ λ _.
      Ensures-bind (read_uint8 a.1) λ b e2. Ensures-reject (leb 2 b.0) _ λ _.
        Ensures-bind
          (link_global (lookup_builtin_import_global module_name name spectest_import_globals) a.0
            b.0)
          λ l e3. holds (two_bytes p a.1 b.1 a.0 b.0 e1 e2)

pub memory_import_skips :
    (module_name name p : List ℕ)
    → Ensures (λ r. skip_limits p ≡ ok r.1) (load_memory_import module_name name p)
unfolding load_memory_import
memory_import_skips module_name name p = Ensures-bind (load_memory p) λ m e.
    Ensures-bind (link_memory module_name name m.0) λ t e5. holds (Ensures-ok (memory_body p) e)
