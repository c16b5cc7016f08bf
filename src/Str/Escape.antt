-- ===== src/Str/Escape.antt =====
-- odb-sdk/src/Str.cpp: `escape` against a plain recursion and a decoder.
use open_dark_basic.Prelude.{
  ℕ, zero, suc, ◌+◌, ◌≡◌, refl, ap, ◌∙◌, Bool, true, false, inl, inr, [], ◌∷◌, ◌++◌, Bytes, arith,
  ◌==◌, if◌then◌else◌, length, Bool-cases, Option, none, some, length-append,
}
use mathlib.Core.Option
use mathlib.Core.List.{append_assoc}
use open_dark_basic.Str.{insert_at, backslash, is_escaped, escape_loop, escape}

-- Each backslash and each quote with a backslash in front.
abbrev escaped : Bytes → Bytes
escaped [] = []
escaped (c ∷ s) = if is_escaped c then backslash ∷ c ∷ escaped s else c ∷ escaped s

insert_at-length :
    (xs ys : Bytes) (n v : ℕ) → n ≡ length xs → insert_at (xs ++ ys) n v ≡ xs ++ (v ∷ ys)
insert_at-length [] ys zero v h = refl
insert_at-length [] ys (suc n) v h = absurd (omega arith)
insert_at-length (x ∷ xs) ys zero v h = absurd (omega arith)
insert_at-length (x ∷ xs) ys (suc n) v h =
    ap (λ t. x ∷ t) (insert_at-length xs ys n v (omega arith))

escape_loop-eq :
    (s done : Bytes) (i off : ℕ)
    → i + off ≡ length done
    → escape_loop s i off (done ++ s) ≡ done ++ escaped s
unfolding escape_loop
escape_loop-eq [] done i off h = refl
escape_loop-eq (c ∷ s) done i off h = elim (Bool-cases (is_escaped c)) [
  | inl e ↦
      rw (e, insert_at-length done (c ∷ s) (i + off) backslash h)
        (rw (← append_assoc done (backslash ∷ c ∷ []) s) (
          escape_loop-eq s (done ++ (backslash ∷ c ∷ [])) (i + 1) (off + 1)
            (omega (arith, length-append done (backslash ∷ c ∷ [])))
          ∙ append_assoc done (backslash ∷ c ∷ []) (escaped s)))
  | inr e ↦ rw e (
      rw (← append_assoc done (c ∷ []) s) (
        escape_loop-eq s (done ++ (c ∷ [])) (i + 1) off (omega (arith, length-append done (c ∷ [])))
        ∙ append_assoc done (c ∷ []) (escaped s)))
]

escape-eq : (s : Bytes) → escape s ≡ escaped s
unfolding escape
escape-eq s = escape_loop-eq s [] 0 0 (omega arith)

-- A reader of an escaped text: a backslash takes the next byte as it is, and a bare quote, or a
-- backslash at the end, is an error. The flag says that a backslash has just been read.
unescape_from : Bool → Bytes → Option Bytes
unescape_from true [] = none
unescape_from false [] = some []
unescape_from true (c ∷ s) = Option.map (λ t. c ∷ t) (unescape_from false s)
unescape_from false (c ∷ s) =
    let quoted = unescape_from true s in
    let plain = unescape_from false s in
    if c == backslash then quoted else if c == b'"' then none else Option.map (λ t. c ∷ t) plain

pub unescape : Bytes → Option Bytes
unfolding unescape_from
unescape s = unescape_from false s

unescape-escaped : (s : Bytes) → unescape_from false (escaped s) ≡ some s
unfolding unescape_from
unescape-escaped [] = refl
unescape-escaped (c ∷ s) = elim (Bool-cases (is_escaped c)) [
  | inl e ↦ rw e (rw (unescape-escaped s))
  | inr e ↦ rw e (ground (arith, e, unescape-escaped s))
]

-- An escaped text reads back as the text it came from: no byte is lost, and no quote of the text
-- ends it early.
pub unescape-escape : (s : Bytes) → unescape (escape s) ≡ some s
unfolding unescape
unescape-escape s = rw (escape-eq s) (unescape-escaped s)
