-- ===== src/Globals/Checked.antt =====
-- What holds of the constant expressions that load (core/iwasm/common/wasm_loader.c,
-- `load_init_expr`, `load_global_section`).
use wasm2native.Common.{
  ℕ, zero, suc, ◌*◌, ◌-◌, ◌^◌, ◌<◌, ◌≡◌, refl, true, false, some, List, [], arith, length,
  get_elem?, All, ltb, leb, ◌==◌, if◌then◌else◌, Option-cases, inl, inr,
}
use wasm2native.Common.Ensures.{
  Ensures, holds, refused, Ensures-bind, Ensures-reject, Ensures-check, Ensures-then, Ensures-ok,
  Ensures-of_ok, Ensures-if, Ensures-mono,
}
use wasm2native.Common.Outcome.{ok, ◌>>◌}
use wasm2native.Globals.{
  InitExpr, i32_const, i64_const, f32_const, f64_const, v128_const, get_global, GlobalImport,
  WasmGlobal, check_global_operand, read_operand, read_init_value, load_init_expr, load_global,
  load_globals, load_global_section, recheck_operand,
}
use wasm2native.Leb.{read_leb_uint32, read_leb_int32, read_leb_int64}
use wasm2native.Leb.Takes.{read_leb_int32_takes, read_leb_int64_takes}
use wasm2native.Loader.{
  Host, globals_array, loader_malloc, need, read_uint8, read_uint8s, is_value_type,
}
use wasm2native.Loader.Reads.{read_uint8s_takes}
use wasm2native.Wasm.{
  value_type_i32, value_type_i64, value_type_f32, value_type_f64, value_type_v128,
}

-- A constant has the type that is asked for and fits it: an integer is below 2 ^ 32 or 2 ^ 64, and the other
-- constants have as many bytes as their type. A global that is read is imported and immutable; of
-- its type nothing is said.
pub data IsConstant (globals : List GlobalImport) (type : ℕ) : InitExpr → Type 0 where
  is_i32 : {v : ℕ} → type ≡ value_type_i32 → v < 2 ^ 32 → IsConstant globals type (i32_const v)
  is_i64 : {v : ℕ} → type ≡ value_type_i64 → v < 2 ^ 64 → IsConstant globals type (i64_const v)
  is_f32 :
      {v : List ℕ} → type ≡ value_type_f32 → length v ≡ 4 → IsConstant globals type (f32_const v)
  is_f64 :
      {v : List ℕ} → type ≡ value_type_f64 → length v ≡ 8 → IsConstant globals type (f64_const v)
  is_v128 :
      {v : List ℕ} → type ≡ value_type_v128 → length v ≡ 16 → IsConstant globals type (v128_const v)
  is_global :
      {i : ℕ} {g : GlobalImport}
      → get_elem? globals i ≡ some g
      → g.is_mutable ≡ false
      → IsConstant globals type (get_global i)

operand_known :
    (globals : List GlobalImport) (i : ℕ)
    → check_global_operand globals i ≡ ok tt
    → (g : GlobalImport) × (get_elem? globals i ≡ some g) × (g.is_mutable ≡ false)
unfolding check_global_operand
operand_known globals i e = elim (Option-cases (get_elem? globals i)) [
  | inl missing ↦ absurd (ground arith)
  | inr (g, found) ↦ (g, found, ground arith)
]

operand_sized : (n : ℕ) (p : List ℕ) → Ensures (λ r. length r.0 ≡ n) (read_operand n p)
unfolding read_operand
operand_sized n p =
    Ensures-then (need n p)
      λ _. Ensures-of_ok (read_uint8s n p) λ r e. (read_uint8s_takes n p r.0 r.1 e).1

is_type : (a b : ℕ) → (a == b) ≡ true → a ≡ b
is_type a b h = ground arith

module _ (globals : List GlobalImport) (type : ℕ) where
  value-IsConstant :
      (flag : ℕ) (p : List ℕ)
      → Ensures (λ r. IsConstant globals type r.0) (read_init_value globals type flag p)
  unfolding read_init_value
  value-IsConstant flag p =
      Ensures-if (flag == 0x41)
        (λ _. Ensures-check (type == value_type_i32) _ λ t. Ensures-bind (read_leb_int32 p) λ v e.
          holds (is_i32 (is_type type value_type_i32 t) (read_leb_int32_takes p v.0 v.1 e).1))
        λ _.
          Ensures-if (flag == 0x42)
            (λ _. Ensures-check (type == value_type_i64) _ λ t.
              Ensures-bind (read_leb_int64 p) λ v e.
                holds (is_i64 (is_type type value_type_i64 t) (read_leb_int64_takes p v.0 v.1 e).1))
            λ _.
              Ensures-if (flag == 0x43)
                (λ _. Ensures-check (type == value_type_f32) _ λ t.
                  Ensures-bind (read_operand 4 p) λ v e.
                    holds
                      (is_f32 (is_type type value_type_f32 t) (Ensures-ok (operand_sized 4 p) e)))
                λ _.
                  Ensures-if (flag == 0x44)
                    (λ _. Ensures-check (type == value_type_f64) _ λ t.
                      Ensures-bind (read_operand 8 p) λ v e.
                        holds (
                          is_f64 (is_type type value_type_f64 t)
                            (Ensures-ok (operand_sized 8 p) e)))
                    λ _.
                      Ensures-if (flag == 0xFD)
                        (λ _. Ensures-check (type == value_type_v128) _ λ t.
                          Ensures-bind (read_uint8 p) λ f e1.
                            Ensures-bind (read_operand 16 f.1) λ v e. holds (
                              is_v128 (is_type type value_type_v128 t)
                                (Ensures-ok (operand_sized 16 f.1) e)))
                        λ _.
                          Ensures-if (flag == 0x23)
                            (λ _. Ensures-bind (read_leb_uint32 p) λ i e1.
                              Ensures-then (check_global_operand globals i.0) λ e2.
                                let (g, found, fixed) = operand_known globals i.0 e2 in
                                holds (is_global found fixed))
                            λ _. refused

  expr-IsConstant :
      (p : List ℕ) → Ensures (λ r. IsConstant globals type r.0) (load_init_expr globals type p)
  unfolding load_init_expr
  expr-IsConstant p = Ensures-bind (read_uint8 p) λ flag e1.
      Ensures-bind (read_init_value globals type flag.0 flag.1) λ v e2.
        Ensures-bind (read_uint8 v.1) λ end_byte e3.
          Ensures-check (end_byte.0 == 0x0b) _
            λ _. holds (Ensures-ok (value-IsConstant flag.0 flag.1) e2)

  -- A constant expression that loads is a constant of the type that is asked for, where an i32 is below
  -- 2 ^ 32, an i64 below 2 ^ 64, and an f32, f64 or v128 has 4, 8 or 16 bytes; or it reads an imported
  -- global that is immutable, whose type the loader does not compare with the one that is asked for.
  pub load_init_expr-IsConstant :
      (p : List ℕ) (expr : InitExpr) (rest : List ℕ)
      → load_init_expr globals type p ≡ ok (expr, rest)
      → IsConstant globals type expr
  load_init_expr-IsConstant p expr rest e = Ensures-ok (expr-IsConstant p) e

-- A global that is defined has a value type, and its value is constant.
unfoldable pub IsSoundGlobal : List GlobalImport → WasmGlobal → Type 0
IsSoundGlobal globals g = (is_value_type g.type ≡ true) × IsConstant globals g.type g.init_expr

global_sound :
    (globals : List GlobalImport) (p : List ℕ)
    → Ensures (λ r. IsSoundGlobal globals r.0) (load_global globals p)
unfolding load_global IsSoundGlobal
global_sound globals p = Ensures-then (need 2 p) λ _. Ensures-bind (read_uint8 p) λ type e1.
    Ensures-check (is_value_type type.0) _ λ value. Ensures-bind (read_uint8 type.1) λ mutable e2.
      Ensures-reject (leb 2 mutable.0) _ λ _.
        Ensures-bind (load_init_expr globals type.0 mutable.1) λ expr e3.
          Ensures-then (recheck_operand (length globals) expr.0)
            λ _. holds (value, Ensures-ok (expr-IsConstant globals type.0 mutable.1) e3)

globals_sound :
    (globals : List GlobalImport) (n : ℕ) (p : List ℕ)
    → Ensures (λ r. (length r.0 ≡ n) × All (IsSoundGlobal globals) r.0) (load_globals globals n p)
unfolding load_globals
globals_sound globals zero p = holds (refl, tt)
globals_sound globals (suc n) p = Ensures-bind (load_global globals p) λ g e1.
    Ensures-bind (load_globals globals n g.1) λ gs e2.
      let (count, sound) = Ensures-ok (globals_sound globals n g.1) e2 in
      holds (omega arith, (Ensures-ok (global_sound globals p) e1, sound))

section_sound :
    (host : Host) (globals : List GlobalImport) (p : List ℕ)
    → Ensures (All (IsSoundGlobal globals)) (load_global_section host globals p)
unfolding load_global_section
section_sound host globals p = Ensures-bind (read_leb_uint32 p) λ n e1.
    Ensures-reject (ltb (2 ^ 32 - 1 - length globals) n.0) _ λ _.
      Ensures-bind _
        λ r e2. Ensures-check (length r.1 == 0) _ λ _. holds (Ensures-ok (loaded n.0 n.1) e2)
  where
    loaded :
        (n : ℕ) (p : List ℕ)
        → Ensures
            (λ (r : List WasmGlobal × List ℕ). All (IsSoundGlobal globals) r.0)
            (if n == 0
              then ok ([], p)
              else (loader_malloc host globals_array (host.sizeof_global * n)
                  >> load_globals globals n p))
    loaded n p =
        Ensures-if (n == 0) (λ _. holds tt)
          (λ _.
            Ensures-then (loader_malloc host globals_array (host.sizeof_global * n))
              λ _. Ensures-mono (globals_sound globals n p) λ r h. h.1)

-- The globals of a module that loads have value types. The value of each is a constant of its type that
-- fits it, or that of an imported, immutable global, whose type may be another one.
pub load_global_section-IsSound :
    (host : Host) (globals : List GlobalImport) (p : List ℕ) (gs : List WasmGlobal)
    → load_global_section host globals p ≡ ok gs
    → All (IsSoundGlobal globals) gs
load_global_section-IsSound host globals p gs e = Ensures-ok (section_sound host globals p) e
