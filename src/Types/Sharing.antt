-- ===== src/Types/Sharing.antt =====
-- The shared objects of the type section (`load_type_section`, core/iwasm/common/wasm_loader.c).
use mathlib.Core.Path.{subst}
use wasm2native.Common.{
  ℕ, zero, suc, ◌+◌, ◌≤◌, ◌<◌, ◌≡◌, refl, ◌≢◌, inl, inr, true, false, none, some, List, [], ◌∷◌,
  ◌++◌, arith, length, get_elem?, ◌==◌, if◌then◌else◌, Bool-cases, Option-cases, length-append,
}
use wasm2native.Common.Outcome.{ok}
use wasm2native.Types.{TypeTable, add_reference, find_equal, share_type}
use wasm2native.Wasm.{WasmType, wasm_type_equal}

-- How often a pointer stands in an array.
unfoldable pub count : ℕ → List ℕ → ℕ
count a [] = 0
count a (b ∷ bs) = (if a == b then 1 else 0) + count a bs

count-append :
    (a b : ℕ) (bs : List ℕ) → count a (bs ++ b ∷ []) ≡ count a bs + (if a == b then 1 else 0)
unfolding count
count-append a b [] = ground arith
count-append a b (c ∷ bs) = ground (arith, count-append a b bs)

-- The objects are in range of every pointer, each object's `ref_count` is the number of entries that
-- point to it and fits 16 bits, and no object equals an earlier one.
pub record IsShared (t : TypeTable) : Type 0 where
  pub in_range : (a : ℕ) → 0 < count a t.types → a < length t.objects
  pub exact :
      (a : ℕ) (o : WasmType)
      → get_elem? t.objects a ≡ some o
      → (o.ref_count ≡ count a t.types) × (1 ≤ o.ref_count) × (o.ref_count ≤ 0xFFFF)
  pub distinct :
      (a b : ℕ) (o u : WasmType)
      → a < b
      → get_elem? t.objects a ≡ some o
      → get_elem? t.objects b ≡ some u
      → wasm_type_equal u o ≡ false

get_elem?-push :
    (os : List WasmType) (x : WasmType) (b : ℕ)
    → get_elem? (os ++ x ∷ []) b ≡ (if b == length os then some x else get_elem? os b)
get_elem?-push [] x zero = refl
get_elem?-push [] x (suc b) = ground arith
get_elem?-push (o ∷ os) x zero = ground arith
get_elem?-push (o ∷ os) x (suc b) = ground (arith, get_elem?-push os x b)

get_elem?-in_range :
    (os : List WasmType) (a : ℕ) (o : WasmType) → get_elem? os a ≡ some o → a < length os
get_elem?-in_range [] a o e = cc
get_elem?-in_range (u ∷ os) zero o e = omega arith
get_elem?-in_range (u ∷ os) (suc a) o e = omega (arith, get_elem?-in_range os a o e)

-- No entry before has an equal object, or the pointer of one is returned.
find_equal-none :
    (type : WasmType) (os : List WasmType) (ps : List ℕ) (a : ℕ) (o : WasmType)
    → find_equal type os ps ≡ none
    → 0 < count a ps
    → get_elem? os a ≡ some o
    → wasm_type_equal type o ≡ false
unfolding find_equal count
find_equal-none type os [] a o e h g = absurd (omega arith)
find_equal-none type os (b ∷ ps) a o e h g = ground (arith, find_equal-none type os ps a o)

find_equal-some :
    (type : WasmType) (os : List WasmType) (ps : List ℕ) (a : ℕ)
    → find_equal type os ps ≡ some a
    → (o : WasmType) × (get_elem? os a ≡ some o)
      × (wasm_type_equal type o ≡ true)
      × (0 < count a ps)
unfolding find_equal count
find_equal-some type os [] a e = cc
find_equal-some type os (b ∷ ps) a e = elim (Option-cases (get_elem? os b)) [
  | inl absent ↦ further (find_equal-some type os ps a (ground arith))
  | inr (u, here) ↦ elim (Bool-cases (wasm_type_equal type u)) [
    | inl same ↦ (u, ground arith, same, ground arith)
    | inr other ↦ further (find_equal-some type os ps a (ground arith))
  ]
]
  where
    further :
        (o : WasmType) × (get_elem? os a ≡ some o)
          × (wasm_type_equal type o ≡ true)
          × (0 < count a ps)
        → (o : WasmType) × (get_elem? os a ≡ some o)
          × (wasm_type_equal type o ≡ true)
          × (0 < count a (b ∷ ps))
    further (o, g, q, h) = (o, g, q, omega arith)

abbrev bumped : WasmType → WasmType
bumped o = record o { ref_count = o.ref_count + 1 }

add_reference-get :
    (os os' : List WasmType) (a b : ℕ) (o : WasmType)
    → add_reference os a ≡ some os'
    → get_elem? os a ≡ some o
    → (get_elem? os' b ≡ (if b == a then some (bumped o) else get_elem? os b))
      × (o.ref_count ≢ 0xFFFF)
unfolding add_reference
add_reference-get [] os' a b o e g = cc
add_reference-get (u ∷ os) os' zero zero o e g = ground arith
add_reference-get (u ∷ os) os' zero (suc b) o e g = ground arith
add_reference-get (u ∷ os) os' (suc a) zero o e g = elim (Option-cases (add_reference os a)) [
  | inl n ↦ ground arith
  | inr (vs, found) ↦ ground (arith, add_reference-get os vs a 0 o)
]
add_reference-get (u ∷ os) os' (suc a) (suc b) o e g = elim (Option-cases (add_reference os a)) [
  | inl n ↦ ground arith
  | inr (vs, found) ↦ ground (arith, add_reference-get os vs a b o)
]

length-add_reference :
    (os os' : List WasmType) (a : ℕ) → add_reference os a ≡ some os' → length os' ≡ length os
unfolding add_reference
length-add_reference [] os' a e = cc
length-add_reference (u ∷ os) os' zero e = ground arith
length-add_reference (u ∷ os) os' (suc a) e = elim (Option-cases (add_reference os a)) [
  | inl n ↦ ground arith
  | inr (vs, found) ↦ ground (arith, length-add_reference os vs a found)
]

-- An object after a reference is added, and what it was before.
before :
    (os os' : List WasmType) (a : ℕ) (w : WasmType)
    → add_reference os a ≡ some os'
    → get_elem? os a ≡ some w
    → (b : ℕ) (u : WasmType) → get_elem? os' b ≡ some u
    → (v : WasmType) × (get_elem? os b ≡ some v)
      × (u.param_count ≡ v.param_count)
      × (u.result_count ≡ v.result_count)
      × (u.types ≡ v.types)
before os os' a w added here b u g = elim (Bool-cases (b == a)) [
  | inl same ↦ (
    w,
    ground (arith, add_reference-get os os' a b w),
    ground (arith, add_reference-get os os' a b w),
    ground (arith, add_reference-get os os' a b w),
    ground (arith, add_reference-get os os' a b w),
  )
  | inr other ↦ (u, ground (arith, add_reference-get os os' a b w), refl, refl, refl)
]

module _ (type : WasmType) (t : TypeTable) (h : IsShared t) where
  -- A type that equals none of the objects is added.
  fresh :
      find_equal type t.objects t.types ≡ none
      → type.ref_count ≡ 1
      → IsShared
          (record { objects = t.objects ++ type ∷ []; types = t.types ++ length t.objects ∷ [] })
  fresh none_equal one = record {
    in_range = λ a c. ground (
      arith,
      count-append a (length t.objects) t.types,
      h.in_range a,
      length-append t.objects (type ∷ []),
    );
    exact = λ a o g. ground (
      arith,
      get_elem?-push t.objects type a,
      count-append a (length t.objects) t.types,
      h.in_range a,
      h.exact a o,
      get_elem?-in_range t.objects a o,
    );
    distinct = λ a b o u lt g k. ground (
      arith,
      get_elem?-push t.objects type a,
      get_elem?-push t.objects type b,
      h.exact a o,
      h.distinct a b o u,
      find_equal-none type t.objects t.types a o,
      get_elem?-in_range t.objects a o,
      get_elem?-in_range t.objects b u,
      get_elem?-in_range (t.objects ++ type ∷ []) b u,
      length-append t.objects (type ∷ []),
    );
  }

  -- An entry more for an object.
  shared :
      (a : ℕ) (os : List WasmType)
      → find_equal type t.objects t.types ≡ some a
      → add_reference t.objects a ≡ some os
      → IsShared (record { objects = os; types = t.types ++ a ∷ [] })
  shared a os found added =
      let (w, here, same, often) = find_equal-some type t.objects t.types a found in
      record {
        in_range = λ b c. ground (
          arith,
          count-append b a t.types,
          h.in_range b,
          h.in_range a,
          length-add_reference t.objects os a added,
        );
        exact = λ b o g. ground (
          arith,
          count-append b a t.types,
          add_reference-get t.objects os a b w added here,
          h.exact b o,
          h.exact a w,
        );
        distinct = λ b c o u lt g k.
            let (v, gv, o1, o2, o3) = before t.objects os a w added here b o g in
            let (x, kx, u1, u2, u3) = before t.objects os a w added here c u k in
            unfold wasm_type_equal in ground (arith, h.distinct b c v x);
      }

-- Loading one more entry keeps the invariant.
pub share_type-IsShared :
    (type : WasmType) (t t' : TypeTable)
    → IsShared t
    → type.ref_count ≡ 1
    → share_type type t ≡ ok t'
    → IsShared t'
unfolding share_type
share_type-IsShared type t t' h one e = elim (Option-cases (find_equal type t.objects t.types)) [
  | inl new ↦ subst IsShared (ground arith) (fresh type t h new one)
  | inr (a, found) ↦ elim (Option-cases (add_reference t.objects a)) [
    | inl full ↦ ground arith
    | inr (os, added) ↦ subst IsShared (ground arith) (shared type t h a os found added)
  ]
]
