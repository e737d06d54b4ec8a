-- ===== src/Middleware/Tests.antt =====
-- The theorems on the middleware at concrete inputs.
use athens.Prelude.{◌≡◌, refl, ◌↔◌, ◌⊎◌, some, Text, [], ◌∷◌, text, lookup, text_beq}
use athens.Errors.{ok}
use athens.Paths.{Vars, get_module, get_version, decode_path, decode_string}
use athens.Filter.{include, default, RuleNode, new_rule, add_rule, rule}
use athens.Middleware.{next, Request, Hook, guards}
use athens.Middleware.Access.{guards_iff}

abbrev vars : Vars
vars = (text "module", text "g.c/!a") ∷ (text "version", text "v1") ∷ []

abbrev request : Request
request = record { vars = vars; path = text "/x"; credentials = some (text "u", text "p") }

abbrev rules : RuleNode
rules = add_rule (text "g.c" ∷ []) [] include (new_rule default)

abbrev hook : Hook
hook m v = ok (200, text "yes")

guards_iff_example :
    (guards (some (text "u", text "p")) (some (rules, text "https://up")) (some hook) request
      ≡ next)
    ↔ (((text "/x" ≡ text "/healthz")
          ⊎ (text "/x" ≡ text "/readyz")
          ⊎ (request.credentials ≡ some (text "u", text "p")))
        × (rule rules (text "g.c/A") (text "v1") ≡ include)
        × ((text "v1" ≡ []) ⊎ ((body : Text) × (hook (text "g.c/A") (text "v1") ≡ ok (200, body)))))
unfolding get_module lookup text_beq decode_path decode_string get_version
guards_iff_example =
    guards_iff (text "u") (text "p") rules (text "https://up") hook (text "g.c/A") request refl
