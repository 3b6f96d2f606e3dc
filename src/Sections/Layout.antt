-- ===== src/Sections/Layout.antt =====
-- How the sections lie in a file that is accepted (core/iwasm/common/wasm_loader.c,
-- `create_sections`).
use mathlib.Core.Path.{subst, ◌∙◌, ap}
use wasm2native.Common.{
  ℕ, zero, suc, ◌+◌, ◌%◌, ◌^◌, ◌≤◌, ◌<◌, ◌≡◌, ◌≢◌, refl, sym, true, false, Option, none, some, List,
  [], ◌∷◌, ◌++◌, arith, length, take, drop, leb, ◌==◌, take-append-drop, length-take, length-drop,
  leb→le, ◌⊎◌, inl, inr,
}
use wasm2native.Common.Ensures.{
  Ensures, holds, Ensures-bind, Ensures-reject, Ensures-then, Ensures-ok,
}
use wasm2native.Common.Outcome.{Result, ok, err, Result-cases, check-eq-ok, unexpected_end}
use wasm2native.Leb.{read_leb_uint32}
use wasm2native.Leb.Takes.{read_leb_uint32_takes}
use wasm2native.Loader.{Host, section_entry, loader_malloc, need1, read_uint8}
use wasm2native.Sections.{
  Section, no_index, get_section_index, index_from, next_index, read_section, link_section,
  sections_from, create_sections,
}

-- The bytes are the sections one after the other, and nothing else: the id, the size of the body and
-- the body.
pub data IsLaidOut : List ℕ → List Section → Type 0 where
  nothing : IsLaidOut [] []
  section :
      {p rest : List ℕ} {s : Section} {ss : List Section}
      → read_leb_uint32 p ≡ ok (length s.section_body, s.section_body ++ rest)
      → IsLaidOut rest ss
      → IsLaidOut (s.section_type ∷ p) (s ∷ ss)

-- The sections that are not custom follow the prescribed order, each after the place `last`; where
-- that is `no_index` there is none before.
pub data IsOrdered : ℕ → List Section → Type 0 where
  nothing : {last : ℕ} → IsOrdered last []
  custom :
      {last : ℕ} {s : Section} {ss : List Section}
      → s.section_type ≡ 0
      → IsOrdered last ss
      → IsOrdered last (s ∷ ss)
  known :
      {last : ℕ} {s : Section} {ss : List Section}
      → s.section_type ≢ 0
      → get_section_index s.section_type < 13
      → (last ≡ no_index) ⊎ (last < get_section_index s.section_type)
      → IsOrdered (get_section_index s.section_type) ss
      → IsOrdered last (s ∷ ss)

-- What one round of the loop has read.
record IsRead (b last : ℕ) (p : List ℕ) (s : Section) (last' : ℕ) (rest : List ℕ) : Type 0 where
  id : s.section_type ≡ b
  body : read_leb_uint32 p ≡ ok (length s.section_body, s.section_body ++ rest)
  next : next_index last b ≡ ok last'
  known : (get_section_index b == no_index) ≡ false
  shorter : length rest ≤ length p

split_body :
    (n : ℕ) (p q : List ℕ)
    → read_leb_uint32 p ≡ ok (n, q)
    → leb n (length q) ≡ true
    → (read_leb_uint32 p ≡ ok (length (take n q), take n q ++ drop n q))
      × (length (drop n q) ≤ length p)
split_body n p q e h =
    let l = leb→le n (length q) h in
    let rewritten : read_leb_uint32 p ≡ ok (length (take n q), take n q ++ drop n q) =
      rw (take-append-drop n q, length-take n q l, e) in
    (rewritten, omega (arith, length-drop n q, (read_leb_uint32_takes p n q e).0))

needed : (n : ℕ) (p : List ℕ) → need1 n p ≡ ok tt → leb n (length p) ≡ true
unfolding need1
needed n p e = check-eq-ok (leb n (length p)) unexpected_end e

read_section-Ensures :
    (host : Host) (n last b : ℕ) (p : List ℕ)
    → Ensures (λ r. IsRead b last p r.0.0 r.0.1 r.1) (read_section host n last (b ∷ p))
unfolding read_section read_uint8
read_section-Ensures host n last b p = Ensures-reject (get_section_index b == no_index) _ λ known.
    Ensures-bind (next_index last b) λ last' e1. Ensures-bind (read_leb_uint32 p) λ size e2.
      Ensures-then (need1 size.0 size.1) λ e3.
        Ensures-then (loader_malloc host (section_entry n) host.sizeof_section) λ e4.
          let (body, shorter) = split_body size.0 p size.1 e2 (needed size.0 size.1 e3) in
          holds (record { id = refl; body = body; next = e1; known = known; shorter = shorter })

linked : (s : Section) (o : Option (Result (List Section))) → o ≢ none → link_section s o ≢ none
unfolding link_section
linked s none h = λ e. h refl
linked s (some (ok ss)) h = λ e. cc
linked s (some (err x)) h = λ e. cc

-- The rounds that are left never outnumber the bytes that are left, so the fuel is enough.
sections_from_total :
    (host : Host) (fuel n last : ℕ) (p : List ℕ)
    → length p ≤ fuel
    → sections_from host fuel n last p ≢ none
unfolding sections_from
sections_from_total host fuel n last [] h = λ e. cc
sections_from_total host zero n last (b ∷ p) h = absurd (omega arith)
sections_from_total host (suc fuel) n last (b ∷ p) h =
    elim (Result-cases (read_section host n last (b ∷ p))) [
      | inr (x, e) ↦ ground arith
      | inl (((s, last'), rest), e) ↦
          let read = Ensures-ok (read_section-Ensures host n last b p) e in
          let shorter : length rest ≤ fuel = omega (arith, read.shorter) in
          let more = sections_from_total host fuel ((n + 1) % 2 ^ 32) last' rest shorter in
          λ none_left. linked s _ more (ground arith)
    ]

-- The loop over the sections of a file ends: the fuel is enough, and there is always a list of
-- sections or a message.
pub create_sections_total : (host : Host) (buf : List ℕ) → create_sections host buf ≢ none
unfolding create_sections
create_sections_total host buf =
    sections_from_total host (length buf) 0 no_index (drop 8 buf) (omega (arith, length-drop 8 buf))

known_index : (b : ℕ) → (get_section_index b == no_index) ≡ false → get_section_index b < 13
unfolding get_section_index index_from
known_index b h = ground arith

next_index_cases :
    (last b last' : ℕ)
    → next_index last b ≡ ok last'
    → ((b ≡ 0) × (last' ≡ last))
      ⊎ ((b ≢ 0)
          × (last' ≡ get_section_index b)
          × ((last ≡ no_index) ⊎ (last < get_section_index b)))
unfolding next_index
next_index_cases last b last' e = ground arith

in_order :
    (last last' b : ℕ) (p rest : List ℕ) (s : Section) (ss : List Section)
    → IsRead b last p s last' rest
    → IsOrdered last' ss
    → IsOrdered last (s ∷ ss)
in_order last last' b p rest s ss read more = elim (next_index_cases last b last' read.next) [
  | inl (zero_id, same) ↦ custom (cc read.id) (subst (λ l. IsOrdered l ss) same more)
  | inr (nonzero_id, same, after) ↦
      let index : get_section_index b ≡ get_section_index s.section_type =
        ap get_section_index (sym read.id) in
      known (λ z. nonzero_id (cc read.id)) (subst (λ i. i < 13) index (known_index b read.known))
        (subst (λ i. (last ≡ no_index) ⊎ (last < i)) index after)
        (subst (λ l. IsOrdered l ss) (same ∙ index) more)
]

laid_out :
    (b last last' : ℕ) (p rest : List ℕ) (s : Section) (ss : List Section)
    → IsRead b last p s last' rest
    → IsLaidOut rest ss
    → IsLaidOut (b ∷ p) (s ∷ ss)
laid_out b last last' p rest s ss read more =
    subst (λ c. IsLaidOut (c ∷ p) (s ∷ ss)) read.id (section read.body more)

link_section-eq-ok :
    (s : Section) (o : Option (Result (List Section))) (ss : List Section)
    → link_section s o ≡ some (ok ss)
    → (tail : List Section) × (o ≡ some (ok tail)) × (ss ≡ s ∷ tail)
unfolding link_section
link_section-eq-ok s none ss e = cc
link_section-eq-ok s (some (err x)) ss e = cc
link_section-eq-ok s (some (ok tail)) ss e = (tail, refl, cc)

sections_from-IsLaidOut :
    (host : Host) (fuel n last : ℕ) (p : List ℕ) (ss : List Section)
    → sections_from host fuel n last p ≡ some (ok ss)
    → IsLaidOut p ss × IsOrdered last ss
unfolding sections_from
sections_from-IsLaidOut host fuel n last [] [] e = (nothing, nothing)
sections_from-IsLaidOut host fuel n last [] (s ∷ ss) e = cc
sections_from-IsLaidOut host zero n last (b ∷ p) ss e = cc
sections_from-IsLaidOut host (suc fuel) n last (b ∷ p) ss e =
    elim (Result-cases (read_section host n last (b ∷ p))) [
      | inr (x, e1) ↦ ground arith
      | inl (((s, last'), rest), e1) ↦
          let read = Ensures-ok (read_section-Ensures host n last b p) e1 in
          let next = sections_from host fuel ((n + 1) % 2 ^ 32) last' rest in
          let (tail, e2, same) = link_section-eq-ok s next ss (ground arith) in
          let (out, order) =
            sections_from-IsLaidOut host fuel ((n + 1) % 2 ^ 32) last' rest tail e2 in
          subst (λ l. IsLaidOut (b ∷ p) l × IsOrdered last l) (sym same)
            (
              laid_out b last last' p rest s tail read out,
              in_order last last' b p rest s tail read order,
            )
    ]

-- Where a file is divided into sections, they fill it behind its header, byte for byte, and those
-- that are not custom stand in the prescribed order, each once at most.
pub create_sections-IsLaidOut :
    (host : Host) (buf : List ℕ) (ss : List Section)
    → create_sections host buf ≡ some (ok ss)
    → IsLaidOut (drop 8 buf) ss × IsOrdered no_index ss
unfolding create_sections
create_sections-IsLaidOut host buf ss e =
    sections_from-IsLaidOut host (length buf) 0 no_index (drop 8 buf) ss e
