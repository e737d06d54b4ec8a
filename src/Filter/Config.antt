-- ===== src/Filter/Config.antt =====
-- `initFromConfig` and `NewFilter` of pkg/module/filter.go: the filter file as a list of lines. A
-- read past the end of a string panics in Go, which ends the program when it starts.
pub mod Panics
use athens.Prelude.{
  split, ℕ, ◌+◌, ◌≡◌, ◌≢◌, refl, Bool, true, false, ◌&&◌, ◌||◌, not, Option, none, some, List, [],
  ◌∷◌, ◌++◌, ◌==◌, nat_eq, text_eq, if◌then◌else◌, Text, text, is_empty, ltb, leb, length, arith,
  contains, text_beq_iff,
}
use mathlib.Core.List.{reverse}
use athens.Errors.{GoError, Result, ok, err, make_error, string_arg}
use athens.Paths.{count_byte}
use athens.Filter.{
  FilterRule, default, include, exclude, direct, RuleNode, new_rule, add_rule, get_path_segments,
}
use athens.Filter.Qualifiers.{trim_space, trim_right}

pub data Loaded (A : Type 0) : Type 0 where
  loaded : A → Loaded A
  refused : GoError → Loaded A
  panicked : Loaded A

-- `qual[i][len(qual[i])-1]`: `none` is the panic at an empty string.
unfoldable pub last_byte : Text → Option ℕ
last_byte [] = none
last_byte (c ∷ []) = some c
last_byte (c ∷ d ∷ s) = last_byte (d ∷ s)

-- One qualifier of a line: its stars are cut off at the end, and a dot is put behind a prefix of a
-- version. `none` is a panic.
unfoldable pub read_qualifier : Text → Option Text
unfolding last_byte trim_right count_byte
read_qualifier q =
    let cut = trim_right (λ c. c == b'*') q in
    elim (last_byte cut) [
      | none ↦ none
      | some c ↦
          some (if not (c == b'.') && ltb (count_byte b'.' cut) 2 then cut ++ text "." else cut)
    ]

unfoldable pub read_qualifiers : List Text → Option (List Text)
unfolding read_qualifier
read_qualifiers [] = some []
read_qualifiers (q ∷ qs) = elim (read_qualifier q) [
  | none ↦ none
  | some q' ↦ elim (read_qualifiers qs) [ none ↦ none | some qs' ↦ some (q' ∷ qs') ]
]

unfoldable pub read_sign : Text → Option FilterRule
read_sign sign =
    if sign == text "+"
    then some include
    else if sign == text "-"
    then some exclude
    else if sign == text "D"
    then some direct
    else none

-- The message of the error names the line; it is left out here.
abbrev pub bad_line : {A : Type 0} → Loaded A
bad_line = refused (
    make_error (text "module.initFromConfig")
      (string_arg (text "Invalid configuration found in filter file at the line") ∷ []))

add_qualified : RuleNode → FilterRule → Text → Option (List Text) → Loaded RuleNode
unfolding add_rule
add_qualified root rule path none = panicked
add_qualified root rule path (some qs) = loaded (add_rule (get_path_segments path) qs rule root)

-- A line with its fields, once its sign is known.
read_fields : RuleNode → FilterRule → List Text → Loaded RuleNode
unfolding add_qualified
read_fields root rule [] = loaded (add_rule [] [] rule root)
read_fields root rule (path ∷ []) = add_qualified root rule (trim_space path) (some [])
read_fields root rule (path ∷ quals ∷ []) =
    add_qualified root rule (trim_space path) (read_qualifiers (split (text ",") quals))
read_fields root rule (path ∷ quals ∷ more ∷ rest) = bad_line

read_split : RuleNode → List Text → Loaded RuleNode
unfolding read_fields
read_split root [] = bad_line
read_split root (sign ∷ fields) =
    if ltb 3 (length (sign ∷ fields)) then bad_line else elim (read_sign (trim_space sign)) [
      | none ↦ bad_line
      | some rule ↦ read_fields root rule fields
    ]

-- One round of the loop: empty lines and comments are passed over.
unfoldable pub read_line : RuleNode → Text → Loaded RuleNode
unfolding read_split
read_line root [] = loaded root
read_line root (c ∷ line) =
    if c == b'#' then loaded root else read_split root (split (text " ") (c ∷ line))

unfoldable pub read_lines : RuleNode → List Text → Loaded RuleNode
read_lines root [] = loaded root
read_lines root (line ∷ lines) = elim (read_line root line) [
  | loaded root' ↦ read_lines root' lines
  | refused e ↦ refused e
  | panicked ↦ panicked
]

-- `getConfigLines` trims each line; opening and reading the file is the argument.
trim_lines : List Text → List Text
unfolding trim_space
trim_lines [] = []
trim_lines (line ∷ lines) = trim_space line ∷ trim_lines lines

unfoldable pub init_from_config : Result (List Text) → Loaded RuleNode
unfolding read_lines trim_lines
init_from_config (err e) = refused e
init_from_config (ok lines) = read_lines (new_rule default) (trim_lines lines)

-- `NewFilter`: no filter where no file is configured.
unfoldable pub new_filter : Text → (Text → Result (List Text)) → Loaded (Option RuleNode)
unfolding init_from_config
new_filter path open_lines =
    if is_empty path then loaded none else elim (init_from_config (open_lines path)) [
      | loaded root ↦ loaded (some root)
      | refused e ↦ refused e
      | panicked ↦ panicked
    ]
