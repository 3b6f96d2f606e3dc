-- ===== src/Exports/Checked.antt =====
-- What holds of the exports of a module that loads (core/iwasm/common/wasm_loader.c,
-- `load_export_section`).
use mathlib.Core.Path.{subst}
use wasm2native.Common.{
  ℕ, zero, suc, ◌+◌, ◌*◌, ◌<◌, ◌≡◌, ◌≢◌, refl, sym, ap, Bool, true, false, List, [], ◌∷◌, ◌++◌,
  arith, length, take, drop, ◌∙◌, ◌==◌, same_bytes, if◌then◌else◌, ◌⊎◌, All,
}
use wasm2native.Common.Ensures.{
  Ensures, holds, Ensures-bind, Ensures-reject, Ensures-check, Ensures-then, Ensures-ok, Ensures-if,
}
use wasm2native.Common.Outcome.{ok, ◌>>◌}
use wasm2native.Exports.{
  Export, Spaces, c_string, already_exported, check_export_index, load_export, load_exports,
  load_export_section,
}
use wasm2native.Leb.{read_leb_uint32}
use wasm2native.Loader.{Host, exports_array, loader_malloc, need, read_uint8, string_node}
use wasm2native.Names.{const_str_list_insert, listed}
use wasm2native.Utf8.{check_utf8_str}
use wasm2native.Utf8.Scalars.{IsScalar, encode, encode_all}
use wasm2native.Utf8.Valid.{IsUtf8, check_utf8_str_iff}

-- The index of an export is one of its kind.
pub IsInRange : Spaces → Export → Type 0
IsInRange spaces e =
    ((e.kind ≡ 0) × (e.index < spaces.functions))
    ⊎ ((e.kind ≡ 1) × (e.index < spaces.tables))
    ⊎ ((e.kind ≡ 2) × (e.index < spaces.memories))
    ⊎ ((e.kind ≡ 3) × (e.index < spaces.globals))

check_export_index_cases :
    (spaces : Spaces) (name : List ℕ) (kind index : ℕ)
    → check_export_index spaces kind index ≡ ok tt
    → IsInRange spaces (record { name = name; kind = kind; index = index })
unfolding check_export_index IsInRange
check_export_index_cases spaces name kind index e = ground arith

empty_list : (str : List ℕ) → (length str == 0) ≡ true → [] ≡ str
empty_list [] e = refl
empty_list (b ∷ str) e = absurd (ground arith)

const_str_list_insert_name :
    (host : Host) (n : ℕ) (str : List ℕ) (in_buf : Bool) (names : List (List ℕ))
    → Ensures
        (λ r. (r.0 ≡ str) × (check_utf8_str str ≡ true))
        (const_str_list_insert host n str in_buf names)
unfolding const_str_list_insert
const_str_list_insert_name host n str in_buf names = Ensures-check (check_utf8_str str) _ λ valid.
    Ensures-if (length str == 0) (λ e. holds (empty_list str e, valid))
      λ _.
        Ensures-if in_buf (λ _. holds (refl, valid))
          (λ _.
            Ensures-if (listed str names) (λ _. holds (refl, valid))
              (λ _.
                Ensures-then
                  (loader_malloc host (string_node n) (host.sizeof_string_node + length str + 1))
                  λ _. holds (refl, valid)))

-- A byte of an encoding is never zero, so that the C string of a name is the whole name.
c_string-cons : (b : ℕ) (s : List ℕ) → 0 < b → c_string (b ∷ s) ≡ b ∷ c_string s
unfolding c_string
c_string-cons b s h = ground arith

c_string-encode :
    (n : ℕ) (s : List ℕ) → IsScalar n → c_string (encode n ++ s) ≡ encode n ++ c_string s
unfolding encode c_string
c_string-encode n s h = ground arith

c_string-encode_all : (ns : List ℕ) → All IsScalar ns → c_string (encode_all ns) ≡ encode_all ns
unfolding encode_all c_string
c_string-encode_all [] h = refl
c_string-encode_all (n ∷ ns) (h, hs) =
    c_string-encode n (encode_all ns) h ∙ ap (λ s. encode n ++ s) (c_string-encode_all ns hs)

c_string-utf8 : (s : List ℕ) → check_utf8_str s ≡ true → c_string s ≡ s
c_string-utf8 s e =
    let (ns, scalars, same) = (check_utf8_str_iff s).0 e in
    rw (← same) (c_string-encode_all ns scalars)

same_bytes_self : (s : List ℕ) → same_bytes s s ≡ true
same_bytes_self [] = refl
same_bytes_self (b ∷ s) = ground (arith, same_bytes_self s)

-- No two exports have one name.
abbrev pub HasUniqueNames : List Export → Type 0
HasUniqueNames [] = Unit
HasUniqueNames (e ∷ es) = All (λ (f : Export). e.name ≢ f.name) es × HasUniqueNames es

-- The index of an export is in range, and its name is UTF-8.
abbrev pub IsSound : Spaces → Export → Type 0
IsSound spaces e = IsInRange spaces e × IsUtf8 e.name

IsSoundList : Spaces → List Export → Type 0
IsSoundList spaces es = All (IsSound spaces) es × HasUniqueNames es

c_string-IsUtf8 : (s : List ℕ) → IsUtf8 s → c_string s ≡ s
c_string-IsUtf8 s h = c_string-utf8 s ((check_utf8_str_iff s).1 h)

not_exported :
    (spaces : Spaces) (str : List ℕ) (es : List Export)
    → All (IsSound spaces) es
    → already_exported str es ≡ false
    → All (λ (f : Export). f.name ≢ str) es
unfolding already_exported
not_exported spaces str [] h e = tt
not_exported spaces str (x ∷ es) (hx, hs) e =
    let differ : same_bytes (c_string x.name) str ≡ false = ground arith in
    let more : already_exported str es ≡ false = ground arith in
    (
      λ same. differs x.name str (c_string-IsUtf8 x.name hx.1) differ same,
      not_exported spaces str es hs more,
    )
  where
    differs :
        (name str : List ℕ)
        → c_string name ≡ name
        → same_bytes (c_string name) str ≡ false
        → name ≢ str
    differs name str clean differ same =
        let self : same_bytes name name ≡ true = same_bytes_self name in cc

append_sound :
    (spaces : Spaces) (es : List Export) (x : Export)
    → IsSoundList spaces es
    → IsSound spaces x
    → All (λ (f : Export). f.name ≢ x.name) es
    → IsSoundList spaces (es ++ (x ∷ []))
unfolding IsSoundList
append_sound spaces [] x h hx new = ((hx, tt), (tt, tt))
append_sound spaces (e ∷ es) x ((he, hs), (apart, unique)) hx (new, news) =
    let (sound, distinct) = append_sound spaces es x (hs, unique) hx news in
    ((he, sound), (append_apart es x e.name apart new, distinct))
  where
    append_apart :
        (es : List Export) (x : Export) (name : List ℕ)
        → All (λ (f : Export). name ≢ f.name) es
        → name ≢ x.name
        → All (λ (f : Export). name ≢ f.name) (es ++ (x ∷ []))
    append_apart [] x name h new = (new, tt)
    append_apart (e ∷ es) x name (h, hs) new = (h, append_apart es x name hs new)

module _ (host : Host) (spaces : Spaces) (in_buf : Bool) where
  export_sound :
      (n : ℕ) (names : List (List ℕ)) (es : List Export) (p : List ℕ)
      → IsSoundList spaces es
      → Ensures
          (λ r. IsSoundList spaces (es ++ (r.0.0 ∷ [])))
          (load_export host spaces in_buf n names es p)
  unfolding load_export IsSoundList
  export_sound n names es p h = Ensures-reject (length p == 0) _ λ _.
      Ensures-bind (read_leb_uint32 p) λ len e1. Ensures-then (need len.0 len.1) λ _.
        Ensures-reject (already_exported (take len.0 len.1) es) _ λ new.
          Ensures-bind (const_str_list_insert host n (take len.0 len.1) in_buf names) λ name e2.
            Ensures-bind (read_uint8 (drop len.0 len.1)) λ kind e3.
              Ensures-bind (read_leb_uint32 kind.1) λ index e4.
                Ensures-then (check_export_index spaces kind.0 index.0) λ e5.
                  let (same, valid) =
                    Ensures-ok (const_str_list_insert_name host n (take len.0 len.1) in_buf names)
                      e2 in
                  holds (
                    append_sound spaces es
                      (record { name = name.0; kind = kind.0; index = index.0 }) h
                      (
                        check_export_index_cases spaces name.0 kind.0 index.0 e5,
                        subst IsUtf8 (sym same) ((check_utf8_str_iff (take len.0 len.1)).0 valid),
                      )
                      (subst (λ s. All (λ (f : Export). f.name ≢ s) es) (sym same)
                        (not_exported spaces (take len.0 len.1) es h.0 new)))

  exports_sound :
      (left n : ℕ) (names : List (List ℕ)) (es : List Export) (p : List ℕ)
      → IsSoundList spaces es
      → Ensures (λ r. IsSoundList spaces r.0.0) (load_exports host spaces in_buf left n names es p)
  unfolding load_exports
  exports_sound zero n names es p h = holds h
  exports_sound (suc left) n names es p h =
      Ensures-bind (load_export host spaces in_buf n names es p) λ x e.
        exports_sound left (n + 1) x.0.1 (es ++ (x.0.0 ∷ [])) x.1
          (Ensures-ok (export_sound n names es p h) e)

  no_exports : Unit {0} → IsSoundList spaces []
  unfolding IsSoundList
  no_exports u = (tt, tt)

  loaded :
      (n count : ℕ) (names : List (List ℕ)) (p : List ℕ)
      → Ensures
          (λ (r : (List Export × List (List ℕ)) × List ℕ). IsSoundList spaces r.0.0)
          (if count == 0
            then ok (([], names), p)
            else (loader_malloc host exports_array (host.sizeof_export * count)
                >> load_exports host spaces in_buf count n names [] p))
  loaded n count names p =
      Ensures-if (count == 0) (λ _. holds (no_exports tt))
        (λ _.
          Ensures-then (loader_malloc host exports_array (host.sizeof_export * count))
            λ _. exports_sound count n names [] p (no_exports tt))

  section_sound :
      (n : ℕ) (names : List (List ℕ)) (p : List ℕ)
      → Ensures (λ r. IsSoundList spaces r.0) (load_export_section host spaces in_buf n names p)
  unfolding load_export_section
  section_sound n names p = Ensures-bind (read_leb_uint32 p) λ count e. Ensures-bind _ λ r e1.
      Ensures-check (length r.1 == 0) _ λ _. holds (Ensures-ok (loaded n count.0 names count.1) e1)

-- In a module that loads every export names something that the module has, by a name that is UTF-8,
-- and no two exports have one name.
pub load_export_section-IsSound :
    (host : Host) (spaces : Spaces) (in_buf : Bool) (n : ℕ) (names : List (List ℕ)) (p : List ℕ)
    (r : List Export × List (List ℕ))
    → load_export_section host spaces in_buf n names p ≡ ok r
    → All (IsSound spaces) r.0 × HasUniqueNames r.0
unfolding IsSoundList
load_export_section-IsSound host spaces in_buf n names p r e =
    Ensures-ok (section_sound host spaces in_buf n names p) e
