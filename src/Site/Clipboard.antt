-- ===== src/Site/Clipboard.antt =====
-- learn.js: the buttons that copy the code of a page: here what they copy, below them the buttons
-- and the labels that tell how it went.
pub mod Prompts
pub mod Buttons
use athens.Prelude.{
  ℕ, Bool, true, false, ◌||◌, ◌&&◌, [], ◌∷◌, ◌==◌, nat_eq, if◌then◌else◌, Text, text, leb,
}

-- `^` and the flag m: the line terminators of JavaScript, behind which a line starts.
abbrev pub is_line_end : ℕ → Bool
is_line_end c = c == 10 || (c == 13 || (c == 8232 || c == 8233))

-- `\s`: the white space of JavaScript.
abbrev pub is_space : ℕ → Bool
is_space c =
    (leb 9 c && leb c 13)
    || (c == 32
        || (c == 160
            || (c == 5760
                || ((leb 8192 c && leb c 8202)
                    || (c == 8232
                        || (c == 8233
                            || (c == 8239 || (c == 8287 || (c == 12288 || c == 65279)))))))))

-- `text.replace(/^\$\s/gm, '')`: the Boolean says whether a line starts here. The white space behind
-- the dollar sign can be the end of the line.
unfoldable pub strip_prompts : Bool → Text → Text
strip_prompts starts [] = []
strip_prompts starts (c ∷ []) = c ∷ []
strip_prompts starts (c ∷ d ∷ s) =
    let stripped = strip_prompts (is_line_end d) s in
    let kept = strip_prompts (is_line_end c) (d ∷ s) in
    if starts && (c == b'$' && is_space d) then stripped else c ∷ kept

-- The function `text` of the clipboard on the text of the code before the button.
unfoldable pub copied_text : Text → Text
unfolding strip_prompts
copied_text code = strip_prompts true code
