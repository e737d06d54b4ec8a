-- ===== src/Site/Clipboard/Prompts.antt =====
-- What the button copies, line by line.
use athens.Prelude.{
  ◌≡◌, refl, ap, ◌∙◌, ℕ, Bool, true, false, ◌&&◌, List, [], ◌∷◌, ◌++◌, ◌==◌, nat_eq, text_eq,
  text_beq, if◌then◌else◌, Text, text, arith, Bool-cases, inl, inr,
}
use athens.Site.Clipboard.{is_line_end, is_space, strip_prompts, copied_text}

abbrev pub IsLine : Text → Type 0
IsLine [] = Unit
IsLine (c ∷ s) = (is_line_end c ≡ false) × IsLine s

-- One line without its prompt.
abbrev pub strip_prompt : Text → Text
strip_prompt [] = []
strip_prompt (c ∷ []) = c ∷ []
strip_prompt (c ∷ d ∷ s) = if c == b'$' && is_space d then s else c ∷ d ∷ s

abbrev pub join_with_feeds : List Text → Text
join_with_feeds [] = []
join_with_feeds (line ∷ []) = line
join_with_feeds (line ∷ next ∷ lines) = line ++ 10 ∷ join_with_feeds (next ∷ lines)

abbrev pub strip_each : List Text → List Text
strip_each [] = []
strip_each (line ∷ lines) = strip_prompt line ∷ strip_each lines

-- Lines without a line terminator, none of them a dollar sign alone.
abbrev pub ArePlain : List Text → Type 0
ArePlain [] = Unit
ArePlain (line ∷ lines) = (IsLine line × (line == text "$" ≡ false)) × ArePlain lines

strip_prompts-inside :
    (c : ℕ) (s : Text) → strip_prompts false (c ∷ s) ≡ c ∷ strip_prompts (is_line_end c) s
unfolding strip_prompts
strip_prompts-inside c [] = refl
strip_prompts-inside c (d ∷ s) = refl

strip_prompts-end :
    (s : Text) (starts : Bool) → strip_prompts starts (10 ∷ s) ≡ 10 ∷ strip_prompts true s
unfolding strip_prompts
strip_prompts-end [] starts = refl
strip_prompts-end (d ∷ s) true = refl
strip_prompts-end (d ∷ s) false = refl

strip_prompts-line :
    (s rest : Text)
    → IsLine s
    → strip_prompts false (s ++ 10 ∷ rest) ≡ s ++ 10 ∷ strip_prompts true rest
strip_prompts-line [] rest h = strip_prompts-end rest false
strip_prompts-line (c ∷ s) rest (inside, h) =
    rw (strip_prompts-inside c (s ++ 10 ∷ rest), inside)
      (ap (λ t. c ∷ t) (strip_prompts-line s rest h))

strip_prompts-last : (s : Text) → IsLine s → strip_prompts false s ≡ s
unfolding strip_prompts
strip_prompts-last [] h = refl
strip_prompts-last (c ∷ s) (inside, h) =
    rw (strip_prompts-inside c s, inside) (ap (λ t. c ∷ t) (strip_prompts-last s h))

strip_prompts-first :
    (s rest : Text)
    → IsLine s
    → s == text "$" ≡ false
    → strip_prompts true (s ++ 10 ∷ rest) ≡ strip_prompt s ++ 10 ∷ strip_prompts true rest
unfolding strip_prompts text_beq
strip_prompts-first [] rest h k = strip_prompts-end rest true
strip_prompts-first (c ∷ []) rest (inside, h) k = ground (arith, strip_prompts-end rest false)
strip_prompts-first (c ∷ d ∷ s) rest (inside, (after, h)) k =
    elim (Bool-cases (c == b'$' && is_space d)) [
      | inl prompt ↦ rw (prompt, after) (strip_prompts-line s rest h)
      | inr other ↦
          rw (other, inside) (ap (λ t. c ∷ t) (strip_prompts-line (d ∷ s) rest (after, h)))
    ]

strip_prompts-only : (s : Text) → IsLine s → strip_prompts true s ≡ strip_prompt s
unfolding strip_prompts
strip_prompts-only [] h = refl
strip_prompts-only (c ∷ []) h = refl
strip_prompts-only (c ∷ d ∷ s) (inside, (after, h)) = elim (Bool-cases (c == b'$' && is_space d)) [
  | inl prompt ↦ rw (prompt, after) (strip_prompts-last s h)
  | inr other ↦ rw (other, inside) (ap (λ t. c ∷ t) (strip_prompts-last (d ∷ s) (after, h)))
]

-- For code of lines without a line terminator, none of them a dollar sign alone, that are joined by
-- line feeds: what is copied is the lines joined again, each one without the prompt, that is a dollar
-- sign and a white space at its start, if it has one.
copied_text-join_with_feeds :
    (lines : List Text)
    → ArePlain lines
    → copied_text (join_with_feeds lines) ≡ join_with_feeds (strip_each lines)
unfolding copied_text strip_prompts
copied_text-join_with_feeds [] h = refl
copied_text-join_with_feeds (line ∷ []) ((h, k), _) = strip_prompts-only line h
copied_text-join_with_feeds (line ∷ next ∷ lines) ((h, k), more) =
    strip_prompts-first line (join_with_feeds (next ∷ lines)) h k
    ∙ ap (λ t. strip_prompt line ++ 10 ∷ t) (copied_text-join_with_feeds (next ∷ lines) more)

abbrev pub with_prompts : List Text → List Text
with_prompts [] = []
with_prompts (command ∷ commands) = (b'$' ∷ b' ' ∷ command) ∷ with_prompts commands

abbrev pub AreLines : List Text → Type 0
AreLines [] = Unit
AreLines (line ∷ lines) = IsLine line × AreLines lines

ArePlain-with_prompts :
    (commands : List Text) → AreLines commands → ArePlain (with_prompts commands)
unfolding text_beq
ArePlain-with_prompts [] h = tt
ArePlain-with_prompts (command ∷ commands) (line, h) =
    (((refl, (refl, line)), refl), ArePlain-with_prompts commands h)

strip_each-with_prompts : (commands : List Text) → strip_each (with_prompts commands) ≡ commands
strip_each-with_prompts [] = refl
strip_each-with_prompts (command ∷ commands) =
    ap (λ more. command ∷ more) (strip_each-with_prompts commands)

-- Commands without a line terminator that are shown each behind the prompt "$ " on a line of its own:
-- the copied text is the commands, a line each.
copied_text-with_prompts :
    (commands : List Text)
    → AreLines commands
    → copied_text (join_with_feeds (with_prompts commands)) ≡ join_with_feeds commands
copied_text-with_prompts commands h =
    copied_text-join_with_feeds (with_prompts commands) (ArePlain-with_prompts commands h)
    ∙ ap join_with_feeds (strip_each-with_prompts commands)
