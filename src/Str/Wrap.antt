-- ===== src/Str/Wrap.antt =====
-- odb-sdk/src/Str.cpp: `justifyWrap`.
use open_dark_basic.Prelude.{
  ℕ, zero, suc, ◌+◌, ◌*◌, ◌<◌, ◌≤◌, ◌≡◌, ◌≢◌, refl, ap, sym, ◌∙◌, false, inl, inr, List, [], ◌∷◌,
  ◌++◌, Bytes, arith, ltb, if◌then◌else◌, length, Bool-cases, All, In, Option, none, some,
  length-append, lt→ltb,
}
use mathlib.Core.List.{append-nil, append_assoc}
use open_dark_basic.Str.{justify, wrap_loop, justify_wrap}
use open_dark_basic.Str.Split.{join, pieces_of, split-eq, join-pieces_of, pieces_of-cons}

justify-join : (ws : List Bytes) → justify ws ≡ join b' ' ws
unfolding justify join
justify-join [] = refl
justify-join (w ∷ []) = refl
justify-join (w ∷ v ∷ ws) = ap (λ t. w ++ (b' ' ∷ t)) (justify-join (v ∷ ws))

justify-append :
    (l : Bytes) (ls : List Bytes) (w : Bytes) (ws : List Bytes)
    → justify ((l ∷ ls) ++ (w ∷ ws)) ≡ justify (l ∷ ls) ++ (b' ' ∷ justify (w ∷ ws))
unfolding justify
justify-append l [] w ws = refl
justify-append l (m ∷ ls) w ws =
    ap (λ t. l ++ (b' ' ∷ t)) (justify-append m ls w ws)
    ∙ sym (append_assoc l (b' ' ∷ justify (m ∷ ls)) _)

abbrev measure : List Bytes → List Bytes → ℕ
measure [] words = 2 * length words
measure (l ∷ ls) words = 2 * length words + 1

-- What the loop keeps of the open line.
abbrev IsLine : ℕ → List Bytes → ℕ → Type 0
IsLine width [] len = len ≡ 0
IsLine width (l ∷ ls) len = (len ≡ length (justify (l ∷ ls)) + 1) × (len ≤ width + 1)

abbrev Wrapped : ℕ → Option (List Bytes) → List Bytes → List Bytes → Type 0
Wrapped width result lines words =
    (l : Bytes) × (ls : List Bytes) × (result ≡ some (lines ++ (l ∷ ls)))
    × (justify (l ∷ ls) ≡ justify words)
    × All (λ t. length t ≤ width) (l ∷ ls)

loop_wraps :
    (fuel width : ℕ) (line words : List Bytes) (len : ℕ) (lines : List Bytes)
    → line ++ words ≢ []
    → IsLine width line len
    → All (λ w. length w ≤ width) words
    → measure line words < fuel
    → Wrapped width (wrap_loop fuel width line words len lines) lines (line ++ words)
unfolding wrap_loop justify
loop_wraps zero width line words len lines ne inv fit m = absurd (omega arith)
loop_wraps (suc fuel) width [] [] len lines ne inv fit m = absurd (ne refl)
loop_wraps (suc fuel) width (l ∷ ls) [] len lines ne inv fit m =
    (justify (l ∷ ls), [], refl, ap (λ t. justify (l ∷ t)) (sym (append-nil ls)), (omega arith, tt))
loop_wraps (suc fuel) width [] (w ∷ ws) len lines ne inv fit m =
    let goes_in : ltb width (len + length w) ≡ false = ground (arith, inv, fit.0) in
    rw goes_in (
      loop_wraps fuel width (w ∷ []) ws (len + (length w + 1)) lines (λ e. cc)
        (omega arith, omega arith) fit.1 (omega arith))
loop_wraps (suc fuel) width (l ∷ ls) (w ∷ ws) len lines ne inv fit m =
    elim (Bool-cases (ltb width (len + length w))) [
      | inl over ↦
          let (x, xs, e, j, a) =
            loop_wraps fuel width [] (w ∷ ws) 0 (lines ++ justify (l ∷ ls) ∷ []) (λ e. cc) refl fit
              (omega arith) in
          (
            justify (l ∷ ls),
            x ∷ xs,
            rw over (e ∙ ap some (append_assoc lines (justify (l ∷ ls) ∷ []) (x ∷ xs))),
            ap (λ t. justify (l ∷ ls) ++ (b' ' ∷ t)) j ∙ sym (justify-append l ls w ws),
            (omega arith, a),
          )
      | inr fits ↦
          let longer : length (justify (l ∷ (ls ++ w ∷ []))) ≡ len + length w = omega (
            arith,
            ap length (justify-append l ls w []),
            length-append (justify (l ∷ ls)) (b' ' ∷ w),
          ) in
          let (x, xs, e, j, a) =
            loop_wraps fuel width (l ∷ (ls ++ w ∷ [])) ws (len + (length w + 1)) lines (λ e. cc)
              (ground (arith, longer, fits), ground (arith, fits)) fit.1 (omega arith) in
          (x, xs, rw fits e, j ∙ ap (λ t. justify (l ∷ t)) (append_assoc ls (w ∷ []) ws), a)
    ]

-- A round with a word ahead that is too long: it breaks the line, or takes another word.
stuck_step :
    (width len : ℕ) (v : Bytes) (vs : List Bytes) (w : Bytes)
    → In w (v ∷ vs)
    → width < length w
    → {broken longer : Option (List Bytes)} → broken ≡ none
    → (In w vs → longer ≡ none)
    → (if ltb width (len + length v) then broken else longer) ≡ none
stuck_step width len v vs w (inl e) h b f =
    let long : width < len + length v = omega (arith, ap length e) in rw (lt→ltb _ _ long) b
stuck_step width len v vs w (inr i) h b f = ground (arith, f i)

stuck_loop :
    (fuel width : ℕ) (line words : List Bytes) (len : ℕ) (lines : List Bytes) (w : Bytes)
    → In w words
    → width < length w
    → wrap_loop fuel width line words len lines ≡ none
unfolding wrap_loop
stuck_loop zero width line words len lines w i h = refl
stuck_loop (suc fuel) width line [] len lines w i h = absurd i
stuck_loop (suc fuel) width [] (v ∷ vs) len lines w i h =
    stuck_step width len v vs w i h (stuck_loop fuel width [] (v ∷ vs) 0 (lines ++ [] ∷ []) w i h)
      (λ j. stuck_loop fuel width (v ∷ []) vs (len + (length v + 1)) lines w j h)
stuck_loop (suc fuel) width (l ∷ ls) (v ∷ vs) len lines w i h =
    stuck_step width len v vs w i h
      (stuck_loop fuel width [] (v ∷ vs) 0 (lines ++ justify (l ∷ ls) ∷ []) w i h)
      (λ j. stuck_loop fuel width (l ∷ (ls ++ v ∷ [])) vs (len + (length v + 1)) lines w j h)

-- When every word fits into the width, twice as many rounds as there are words, and two more, are
-- enough. The lines that are appended hold the text: they give it back with a space between two, and
-- none is wider than the width.
pub justify_wrap-lines :
    (fuel : ℕ) (lines : List Bytes) (str : Bytes) (width delim : ℕ)
    → All (λ w. length w ≤ width) (pieces_of b' ' str)
    → 2 * length (pieces_of b' ' str) + 1 < fuel
    → (ls : List Bytes) × (justify_wrap fuel lines str width delim ≡ some (lines ++ ls))
      × (join b' ' ls ≡ str)
      × All (λ l. length l ≤ width) ls
unfolding justify_wrap
justify_wrap-lines fuel lines str width delim fit m =
    let (l, ls, e, j, a) =
      loop_wraps fuel width [] (pieces_of b' ' str) 0 lines
        (λ e. let (p, ps, q) = pieces_of-cons b' ' str in cc (q, e)) refl fit (omega arith) in
    (
      l ∷ ls,
      rw (split-eq [] str b' ', justify_wrap) e,
      sym (justify-join (l ∷ ls)) ∙ j ∙ justify-join _ ∙ join-pieces_of b' ' str,
      a,
    )

-- One word wider than the width, and no number of rounds is enough: the loop breaks the line before
-- that word for ever.
pub justify_wrap_diverges :
    (fuel : ℕ) (lines : List Bytes) (str : Bytes) (width delim : ℕ) (w : Bytes)
    → In w (pieces_of b' ' str)
    → width < length w
    → justify_wrap fuel lines str width delim ≡ none
unfolding justify_wrap
justify_wrap_diverges fuel lines str width delim w i h =
    rw (split-eq [] str b' ', justify_wrap)
      (stuck_loop fuel width [] (pieces_of b' ' str) 0 lines w i h)
