-- ===== src/Functions/Locals.antt =====
-- The locals of a function: what the two passes over them agree on, and the offsets at which they
-- are kept (core/iwasm/common/wasm_loader.c, `load_function_section` and
-- `init_function_local_offsets`).
use wasm2native.Common.{
  ℕ, zero, suc, ◌+◌, ◌-◌, ◌*◌, ◌%◌, ◌^◌, ◌≤◌, ◌<◌, ◌≡◌, ◌∙◌, refl, ap, true, ◌||◌, some, List, [],
  ◌∷◌, ◌++◌, arith, length, get_elem?, take, replicate, All, ltb, ◌==◌, if◌then◌else◌,
  length-append, length-replicate,
}
use wasm2native.Common.Ensures.{
  Ensures, holds, Ensures-bind, Ensures-reject, Ensures-check, Ensures-then, Ensures-ok,
}
use wasm2native.Common.Outcome.{ok}
use wasm2native.Functions.{
  WasmFunction, offsets_from, init_function_local_offsets, count_locals, load_local_types,
  load_function_body,
}
use wasm2native.Leb.{read_leb_uint32}
use wasm2native.Loader.{
  Host, loader_malloc, read_uint8, is_value_type, local_offsets, function_entry,
}
use wasm2native.Wasm.{WasmType, wasm_value_type_cell_num, wasm_get_cell_num}
use wasm2native.Wasm.Cells.{cells}

-- The types of the locals are value types.
AllLocals : List ℕ → Type 0
AllLocals ts = All (λ t. is_value_type t ≡ true) ts

pub All-append : (P : ℕ → Type 0) (xs ys : List ℕ) → All P xs → All P ys → All P (xs ++ ys)
All-append P [] ys h k = k
All-append P (x ∷ xs) ys (h, hs) k = (h, All-append P xs ys hs k)

All-replicate : (P : ℕ → Type 0) (n x : ℕ) → P x → All P (replicate n x)
All-replicate P zero x h = tt
All-replicate P (suc n) x h = (h, All-replicate P n x h)

-- One round of the count, undone.
counted :
    (left total count sub : ℕ) (p q rest : List ℕ) (type : ℕ) (r : List ℕ)
    → read_leb_uint32 p ≡ ok (sub, q)
    → read_uint8 q ≡ ok (type, r)
    → count_locals (suc left) count p ≡ ok (total, rest)
    → count_locals left (count + sub) r ≡ ok (total, rest)
unfolding count_locals
counted left total count sub p q rest type r e1 e2 e = ground arith

-- The second pass over the same bytes: it stores as many types as the first has counted.
types_loaded :
    (left total count : ℕ) (ts p rest : List ℕ)
    → count_locals left count p ≡ ok (total, rest)
    → length ts ≡ count
    → AllLocals ts
    → Ensures (λ out. (length out ≡ total) × AllLocals out) (load_local_types total left ts p)
unfolding load_local_types count_locals AllLocals
types_loaded zero total count ts p rest e h known = holds (ground arith, known)
types_loaded (suc left) total count ts p rest e h known = Ensures-bind (read_leb_uint32 p) λ sub e1.
    Ensures-reject
      (ltb (2 ^ 32 - 1 - sub.0) (length ts) || ltb total ((length ts + sub.0) % 2 ^ 32)) _
      λ _. Ensures-bind (read_uint8 sub.1) λ type e2.
        Ensures-check (is_value_type type.0) _ λ value.
          let more = counted left total count sub.0 p sub.1 rest type.0 type.1 e1 e2 e in
          types_loaded left total (count + sub.0) (ts ++ replicate sub.0 type.0) type.1 rest more
            (omega
              (arith, length-append ts (replicate sub.0 type.0), length-replicate sub.0 type.0))
            (All-append (λ t. is_value_type t ≡ true) ts (replicate sub.0 type.0) known
              (All-replicate (λ t. is_value_type t ≡ true) sub.0 type.0 value))

-- Where the first pass counts the locals and the second one reads their types, it fills the array
-- that was allocated for the count exactly, with value types.
pub load_local_types-count :
    (local_set_count total : ℕ) (p rest types : List ℕ)
    → count_locals local_set_count 0 p ≡ ok (total, rest)
    → load_local_types total local_set_count [] p ≡ ok types
    → (length types ≡ total) × All (λ t. is_value_type t ≡ true) types
unfolding AllLocals
load_local_types-count local_set_count total p rest types e1 e2 =
    Ensures-ok (types_loaded local_set_count total 0 [] p rest e1 refl tt) e2

wasm_get_cell_num-wraps :
    (ts : List ℕ) (n : ℕ) → n < 2 ^ 32 → wasm_get_cell_num ts n ≡ (n + cells ts) % 2 ^ 32
unfolding wasm_get_cell_num cells
wasm_get_cell_num-wraps [] n h = omega arith
wasm_get_cell_num-wraps (t ∷ ts) n h =
    omega
      (arith, wasm_get_cell_num-wraps ts ((n + wasm_value_type_cell_num t) % 2 ^ 32) (omega arith))

offsets_from-get :
    (ts : List ℕ) (n k : ℕ)
    → k < length ts
    → get_elem? (offsets_from ts n) k ≡ some ((n + cells (take k ts)) % 2 ^ 16)
unfolding offsets_from cells
offsets_from-get [] n k h = absurd (omega arith)
offsets_from-get (t ∷ ts) n zero h = ap some (omega arith)
offsets_from-get (t ∷ ts) n (suc k) h =
    offsets_from-get ts ((n + wasm_value_type_cell_num t) % 2 ^ 32) k (omega arith)
    ∙ ap some (omega arith)

offset_get :
    (ts : List ℕ) (k : ℕ)
    → k < length ts
    → get_elem? (offsets_from ts 0) k ≡ some (cells (take k ts) % 2 ^ 16)
offset_get ts k h = offsets_from-get ts 0 k h ∙ ap some (omega arith)

cell_num_wraps : (ts : List ℕ) → wasm_get_cell_num ts 0 ≡ cells ts % 2 ^ 32
cell_num_wraps ts = omega (arith, wasm_get_cell_num-wraps ts 0 (omega arith))

-- A variable of a function is kept behind the cells of those before it, parameters first; the offset
-- is cut to 16 bits. The cells of the locals fit 16 bits, modulo the uint32 that counts them.
pub record IsPlaced (f : WasmFunction) : Type 0 where
  pub offsets :
      (k : ℕ)
      → k < length (take f.func_type.param_count f.func_type.types ++ f.local_types)
      → get_elem? f.local_offsets k
        ≡ some (
            cells (take k (take f.func_type.param_count f.func_type.types ++ f.local_types))
            % 2 ^ 16)
  pub cell_num : f.local_cell_num ≡ cells f.local_types % 2 ^ 32
  pub cells_fit : f.local_cell_num ≤ 0xFFFF
  pub value_types : All (λ t. is_value_type t ≡ true) f.local_types
  pub sized : f.code_size < 2 ^ 32

offsets_known :
    (host : Host) (i : ℕ) (ps ls : List ℕ)
    → Ensures (λ os. os ≡ offsets_from (ps ++ ls) 0) (init_function_local_offsets host i ps ls)
unfolding init_function_local_offsets
offsets_known host i ps ls =
    Ensures-then
      (if 2 * (length ps + length ls) == 0
        then ok tt
        else loader_malloc host (local_offsets i) (2 * (length ps + length ls)))
      λ _. holds refl

body-IsPlaced :
    (host : Host) (import_function_count i : ℕ) (func_type : WasmType) (p_code : List ℕ)
    → Ensures (λ r. IsPlaced r.0) (load_function_body host import_function_count i func_type p_code)
unfolding load_function_body
body-IsPlaced host import_function_count i func_type p_code =
    Ensures-bind (read_leb_uint32 p_code) λ size e1.
      Ensures-reject (size.0 == 0 || ltb (length size.1) size.0) _ λ _.
        Ensures-bind (read_leb_uint32 size.1) λ sets e2.
          Ensures-bind (count_locals sets.0 0 sets.1) λ total e3.
            Ensures-then (loader_malloc host (function_entry i) (host.sizeof_function + total.0))
              λ _. Ensures-bind (load_local_types total.0 sets.0 [] sets.1) λ ls e4.
                Ensures-reject (ltb 0xFFFF (wasm_get_cell_num ls 0)) _ λ fit.
                  Ensures-bind
                    (init_function_local_offsets host i (take func_type.param_count func_type.types)
                      ls)
                    λ os e5.
                      let ps = take func_type.param_count func_type.types in
                      let known = Ensures-ok (offsets_known host i ps ls) e5 in
                      holds (record {
                        offsets = λ k h. ap (λ o. get_elem? o k) known ∙ offset_get (ps ++ ls) k h;
                        cell_num = cell_num_wraps ls;
                        cells_fit = ground arith;
                        value_types =
                            (load_local_types-count sets.0 total.0 sets.1 total.1 ls e3 e4).1;
                        sized = omega arith;
                      })

-- In a function that loads, the offset of each variable is the number of cells of those before it,
-- parameters first, modulo 2 ^ 16; the locals have value types; the number of their cells, modulo
-- 2 ^ 32, is recorded and at most 65535; and the size of the code is below 2 ^ 32.
pub load_function_body-IsPlaced :
    (host : Host) (import_function_count i : ℕ) (func_type : WasmType) (p_code : List ℕ)
    (f : WasmFunction) (rest : List ℕ)
    → load_function_body host import_function_count i func_type p_code ≡ ok (f, rest)
    → IsPlaced f
load_function_body-IsPlaced host import_function_count i func_type p_code f rest e =
    Ensures-ok (body-IsPlaced host import_function_count i func_type p_code) e
