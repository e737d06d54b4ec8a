-- ===== src/Paths/Decode.antt =====
-- Decoding is the inverse of the safe encoding of cmd/go, which writes an upper case letter as '!'
-- and its lower case form.
use athens.Prelude.{
  ℕ, ◌+◌, ◌-◌, ◌<◌, ◌≡◌, refl, ◌≢◌, ◌↔◌, Bool, true, false, ◌&&◌, some, [], ◌∷◌, ◌++◌, leb, nat_eq,
  if◌then◌else◌, Text, All, arith, append-nil, append_assoc, Option-cases, Bool-cases, inl, inr,
  ◌∙◌,
}
use athens.Paths.{decode_byte, decode_from, decode_string}

-- The encoding of golang.org/x/mod/module, of which the decoder is the inverse.
unfoldable pub escape_byte : ℕ → Text
escape_byte c = if leb b'A' c && leb c b'Z' then b'!' ∷ (c + b'a' - b'A') ∷ [] else c ∷ []

unfoldable pub escape : Text → Text
unfolding escape_byte
escape [] = []
escape (c ∷ s) = escape_byte c ++ escape s

-- What a path may hold: ASCII, and no '!'.
abbrev pub IsPathByte : ℕ → Type 0
IsPathByte c = (c < 128) × (c ≢ b'!')

decode_byte_plain :
    (c : ℕ)
    → IsPathByte c
    → (leb b'A' c && leb c b'Z') ≡ false
    → decode_byte false c ≡ some (c ∷ [], false)
unfolding decode_byte
decode_byte_plain c p h = ground arith

decode_byte_lower :
    (c : ℕ)
    → (leb b'A' c && leb c b'Z') ≡ true
    → decode_byte true (c + b'a' - b'A') ≡ some (c ∷ [], false)
unfolding decode_byte
decode_byte_lower c h = ground arith

decode_byte_bang : decode_byte false b'!' ≡ some ([], true)
unfolding decode_byte
decode_byte_bang = refl

decode_from-step :
    (buf : Text) (bang : Bool) (r : ℕ) (s out : Text) {bang' : Bool}
    → decode_byte bang r ≡ some (out, bang')
    → decode_from buf bang (r ∷ s) ≡ decode_from (buf ++ out) bang' s
unfolding decode_from
decode_from-step buf true r s out e = rw (e, decode_from)
decode_from-step buf false r s out e = rw (e, decode_from)

decode_from-escape :
    (buf s : Text) → All IsPathByte s → decode_from buf false (escape s) ≡ some (buf ++ s)
unfolding escape
decode_from-escape buf [] h = unfold decode_from in rw append-nil
decode_from-escape buf (c ∷ s) (p, h) = elim (Bool-cases (leb b'A' c && leb c b'Z')) [
  | inl upper ↦
      rw (upper, escape_byte)
        (decode_from-step buf false b'!' ((c + b'a' - b'A') ∷ escape s) [] decode_byte_bang
          ∙ decode_from-step (buf ++ []) true (c + b'a' - b'A') (escape s) (c ∷ [])
              (decode_byte_lower c upper)
          ∙ decode_from-escape ((buf ++ []) ++ c ∷ []) s h
          ∙ simp (append-nil, append_assoc))
  | inr plain ↦
      rw (plain, escape_byte)
        (decode_from-step buf false c (escape s) (c ∷ []) (decode_byte_plain c p plain)
          ∙ decode_from-escape (buf ++ c ∷ []) s h
          ∙ simp append_assoc)
]

-- What is pending, with the rest of the encoding.
abbrev pending : Bool → Text → Text
pending true s = b'!' ∷ s
pending false s = s

decode_byte_sound :
    (bang bang' : Bool) (r : ℕ) (out s rest : Text)
    → decode_byte bang r ≡ some (out, bang')
    → All IsPathByte rest
    → pending bang' s ≡ escape rest
    → All IsPathByte (out ++ rest) × (pending bang (r ∷ s) ≡ escape (out ++ rest))
unfolding decode_byte escape
decode_byte_sound true bang' r out s rest d h e = ground arith
decode_byte_sound false bang' r out s rest d h e = ground arith

decode_from_sound :
    (buf : Text) (bang : Bool) (s path : Text)
    → decode_from buf bang s ≡ some path
    → (rest : Text) × (path ≡ buf ++ rest) × All IsPathByte rest × (pending bang s ≡ escape rest)
unfolding decode_from
decode_from_sound buf true [] path h = absurd (cc)
decode_from_sound buf false [] path h = ([], cc (append-nil buf), tt, unfold escape in refl)
decode_from_sound buf bang (r ∷ s) path h = elim (Option-cases (decode_byte bang r)) [
  | inl bad ↦ absurd (ground arith)
  | inr ((out, bang'), step) ↦
      let (rest, same, safe, encoded) =
        decode_from_sound (buf ++ out) bang' s path (rw (step, decode_from) at h) in
      let (safer, longer) = decode_byte_sound bang bang' r out s rest step safe encoded in
      (out ++ rest, same ∙ append_assoc buf out rest, safer, longer)
]

-- The decoder accepts exactly the safe encodings of paths of ASCII bytes without '!', and returns
-- the path that was encoded.
pub decode_string_iff :
    (encoding path : Text)
    → (decode_string encoding ≡ some path) ↔ (All IsPathByte path × (encoding ≡ escape path))
unfolding decode_string
decode_string_iff encoding path = (
  λ h.
      let (rest, same, safe, encoded) = decode_from_sound [] false encoding path h in
      rw same (safe, encoded),
  λ (safe, e). rw e (decode_from-escape [] path safe),
)

-- Decoding inverts the encoding, so two paths with one encoding are one path.
pub escape-injective :
    (p q : Text) → All IsPathByte p → All IsPathByte q → escape p ≡ escape q → p ≡ q
escape-injective p q hp hq e = cc (decode_from-escape [] p hp, decode_from-escape [] q hq)
