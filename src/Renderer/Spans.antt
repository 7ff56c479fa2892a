-- ===== src/Renderer/Spans.antt =====
-- A code span holds its text: no run of backticks in the text is as long as the delimiter.
use Prim.Native.Char.{Char, code}
use qaestro.Prelude.{
  ℕ, zero, suc, ◌+◌, ◌≤◌, String, true, false, ◌&&◌, ◌≡◌, ap, ◌∙◌, Bool-cases, inl, inr, arith, eqb,
  is_among, starts_with, occurs, repeat,
}
use text.Mathlib.TextLemmas.{nil-append, cons-append}
use qaestro.Renderer.Markdown.{max_of, backtick_loop, longest_backtick_run, delimiter_of}

loop_grows : (l c : ℕ) (s : String) → l ≤ backtick_loop l c s
unfolding backtick_loop
loop_grows l c String.[] = omega arith
loop_grows l c (String.◌∷◌ x s) = elim (Bool-cases (is_among x "`")) [
  | inl h ↦ rw h (ground (arith, loop_grows (max_of l (suc c)) (suc c) s))
  | inr h ↦ rw h (loop_grows l 0 s)
]

abbrev tick : Char
tick = "`"

repeat-cons : (n : ℕ) → repeat "`" (suc n) ≡ String.◌∷◌ tick (repeat "`" n)
unfolding repeat
repeat-cons n =
    cons-append tick "" (repeat "`" n) ∙ ap (String.◌∷◌ tick) (nil-append (repeat "`" n))

starts_length :
    (n l c : ℕ) (s : String)
    → starts_with (repeat "`" n) s ≡ true
    → c ≤ l
    → c + n ≤ backtick_loop l c s
unfolding backtick_loop starts_with is_among repeat
starts_length zero l c s h k = ground (arith, loop_grows l c s)
starts_length (suc n) l c String.[] h k = cc (rw (repeat-cons n) at h)
starts_length (suc n) l c (String.◌∷◌ x s) h k =
    let both : (eqb (code tick) (code x) && starts_with (repeat "`" n) s) ≡ true =
      rw (repeat-cons n) at h in
    let is_tick : is_among x "`" ≡ true = ground arith in
    let fits : suc c ≤ max_of l (suc c) = ground arith in
    let rest = starts_length n (max_of l (suc c)) (suc c) s (ground arith) fits in
    rw is_tick (omega (arith, rest))

occurs_length :
    (n l c : ℕ) (s : String) → occurs (repeat "`" n) s ≡ true → c ≤ l → n ≤ backtick_loop l c s
unfolding occurs backtick_loop
occurs_length n l c String.[] h k = ground (arith, starts_length n l c "" h k)
occurs_length n l c (String.◌∷◌ x s) h k =
    elim (Bool-cases (starts_with (repeat "`" n) (String.◌∷◌ x s))) [
      | inl starts ↦ omega (arith, starts_length n l c (String.◌∷◌ x s) starts k)
      | inr later ↦ elim (Bool-cases (is_among x "`")) [
        | inl is_tick ↦
            rw is_tick (occurs_length n (max_of l (suc c)) (suc c) s (rw later at h) (ground arith))
        | inr other ↦ rw other (occurs_length n l 0 s (rw later at h) (omega arith))
      ]
    ]

-- The delimiter of a code span does not occur in its text, so the span ends where the text ends.
delimiter_of-absent : (text : String) → occurs (delimiter_of text) text ≡ false
unfolding longest_backtick_run
delimiter_of-absent text = elim (Bool-cases (occurs (delimiter_of text) text)) [
  | inr h ↦ h
  | inl h ↦
      absurd
        (omega (arith, occurs_length (suc (longest_backtick_run text)) 0 0 text h (omega arith)))
]
