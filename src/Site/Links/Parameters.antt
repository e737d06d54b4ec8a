-- ===== src/Site/Links/Parameters.antt =====
-- The parameters of an address that is built from names and values.
use athens.Prelude.{
  ◌≡◌, refl, ap, ◌∙◌, ℕ, Bool, true, false, Option, none, some, List, [], ◌∷◌, ◌++◌, ◌==◌, nat_eq,
  text_eq, if◌then◌else◌, Text, text, insert, lookup, lookup-insert, split, contains,
  contains-append, arith, Bool-cases, inl, inr,
}
use athens.Site.Links.{Parameters, set_parameter, set_parameters, get_url_parameter, read_parameter}

-- A text without the separators of an address.
abbrev pub IsPlain : Text → Type 0
IsPlain s = (contains s b'?' ≡ false) × (contains s b'&' ≡ false) × (contains s b'=' ≡ false)

abbrev pub ArePlain : List (Text × Text) → Type 0
ArePlain [] = Unit
ArePlain ((name, value) ∷ rest) = (IsPlain name × IsPlain value) × ArePlain rest

split-plain : (sep : ℕ) (s : Text) → contains s sep ≡ false → split (sep ∷ []) s ≡ s ∷ []
unfolding split contains
split-plain sep [] h = refl
split-plain sep (c ∷ s) h = ground (arith, split-plain sep s)

split-append :
    (sep : ℕ) (s rest : Text)
    → contains s sep ≡ false
    → split (sep ∷ []) (s ++ sep ∷ rest) ≡ s ∷ split (sep ∷ []) rest
unfolding split contains
split-append sep [] rest h = ground arith
split-append sep (c ∷ s) rest h = ground (arith, split-append sep s rest)

abbrev pub entry : Text → Text → Text
entry name value = name ++ b'=' ∷ value

abbrev pub print_query : Text → Text → List (Text × Text) → Text
print_query name value [] = entry name value
print_query name value ((n, v) ∷ rest) = entry name value ++ b'&' ∷ print_query n v rest

abbrev entries : List (Text × Text) → List Text
entries [] = []
entries ((name, value) ∷ rest) = entry name value ∷ entries rest

contains-entry :
    (name value : Text)
    → IsPlain name
    → IsPlain value
    → (contains (entry name value) b'&' ≡ false) × (contains (entry name value) b'?' ≡ false)
unfolding contains
contains-entry name value (a, b, c) (d, e, f) = (
  contains-append name (b'=' ∷ value) b'&' ∙ rw (b, e) refl,
  contains-append name (b'=' ∷ value) b'?' ∙ rw (a, d) refl,
)

split-print_query :
    (name value : Text) (rest : List (Text × Text))
    → ArePlain ((name, value) ∷ rest)
    → split (text "&") (print_query name value rest) ≡ entries ((name, value) ∷ rest)
split-print_query name value [] ((p, q), h) =
    split-plain b'&' (entry name value) (contains-entry name value p q).0
split-print_query name value ((n, v) ∷ rest) ((p, q), h) =
    split-append b'&' (entry name value) (print_query n v rest) (contains-entry name value p q).0
    ∙ ap (λ more. entry name value ∷ more) (split-print_query n v rest h)

contains-& : (s : Text) → contains (b'&' ∷ s) b'?' ≡ contains s b'?'
unfolding contains
contains-& s = refl

contains-print_query :
    (name value : Text) (rest : List (Text × Text))
    → ArePlain ((name, value) ∷ rest)
    → contains (print_query name value rest) b'?' ≡ false
contains-print_query name value [] ((p, q), h) = (contains-entry name value p q).1
contains-print_query name value ((n, v) ∷ rest) ((p, q), h) =
    contains-append (entry name value) (b'&' ∷ print_query n v rest) b'?'
    ∙ rw ((contains-entry name value p q).1, contains-& (print_query n v rest))
        (contains-print_query n v rest h)

-- The last value that the parameters have for a name.
abbrev pub last_value : List (Text × Text) → Text → Option Text
last_value [] asked = none
last_value ((name, value) ∷ rest) asked = elim (last_value rest asked) [
  | some later ↦ some later
  | none ↦ if asked == name then some value else none
]

or_old : Option Text → Option Text → Option Text
or_old (some later) old = some later
or_old none old = old

set_parameter-entry :
    (obj : Parameters) (name value : Text)
    → IsPlain name
    → IsPlain value
    → set_parameter obj (split (text "=") (entry name value)) ≡ insert obj name (some value)
unfolding set_parameter
set_parameter-entry obj name value (a, b, c) (d, e, f) =
    rw (split-append b'=' name value c, split-plain b'=' value f)

read_parameter-insert :
    (obj : Parameters) (name value asked : Text)
    → read_parameter (insert obj name (some value)) asked
      ≡ (if asked == name then some value else read_parameter obj asked)
read_parameter-insert obj name value asked =
    rw (read_parameter, lookup-insert obj name (some value) asked)
      (elim (Bool-cases (asked == name)) [ inl same ↦ rw same | inr other ↦ rw other ])

or_old-if :
    (later : Option Text) (here : Bool) (value : Text) (old : Option Text)
    → or_old later (if here then some value else old)
      ≡ or_old
          (elim later as (λ _. Option Text) [
            | some w ↦ some w
            | none ↦ if here then some value else none
          ])
          old
unfolding or_old
or_old-if (some w) here value old = refl
or_old-if none true value old = refl
or_old-if none false value old = refl

read_parameter-set_parameters :
    (obj : Parameters) (ps : List (Text × Text)) (asked : Text)
    → ArePlain ps
    → read_parameter (set_parameters obj (entries ps)) asked
      ≡ or_old (last_value ps asked) (read_parameter obj asked)
unfolding set_parameters or_old
read_parameter-set_parameters obj [] asked h = refl
read_parameter-set_parameters obj ((name, value) ∷ ps) asked ((p, q), h) =
    rw (set_parameters, set_parameter-entry obj name value p q)
      (read_parameter-set_parameters (insert obj name (some value)) ps asked h
        ∙ rw (read_parameter-insert obj name value asked)
            (or_old-if (last_value ps asked) (asked == name) value (read_parameter obj asked)))

or_old-nothing :
    (later : Option Text) (asked : Text) → or_old later (read_parameter [] asked) ≡ later
unfolding or_old lookup
or_old-nothing none asked = refl
or_old-nothing (some w) asked = refl

-- An address with a front, "?", and the names and values joined by "=" and "&", where none of these
-- separators stands in the front, a name or a value: a read of the parameters gives the last value of
-- each name, and undefined for a name that is not there.
pub read_parameter-get_url_parameter :
    (front name value : Text) (rest : List (Text × Text)) (asked : Text)
    → IsPlain front
    → ArePlain ((name, value) ∷ rest)
    → read_parameter (get_url_parameter (front ++ b'?' ∷ print_query name value rest)) asked
      ≡ last_value ((name, value) ∷ rest) asked
unfolding get_url_parameter
read_parameter-get_url_parameter front name value rest asked (a, b, c) h =
    rw
      (
        split-append b'?' front (print_query name value rest) a,
        split-plain b'?' (print_query name value rest) (contains-print_query name value rest h),
        split-print_query name value rest h,
      )
      (read_parameter-set_parameters [] ((name, value) ∷ rest) asked h
        ∙ or_old-nothing (last_value ((name, value) ∷ rest) asked) asked)
