-- ===== src/Middleware.antt =====
-- pkg/middleware/filter.go and validation.go, and cmd/proxy/actions/basicauth.go and the wrapper of
-- sumdb.go: the handlers that stand in front of the proxy's own. A request is what they read of it;
-- the answer says whether the next handler gets it.
pub mod Access
mod Tests
use athens.Prelude.{
  ℕ, Bool, true, false, ◌&&◌, ◌||◌, not, Option, none, some, List, [], ◌∷◌, ◌++◌, ◌==◌, nat_eq,
  text_eq, if◌then◌else◌, Text, text, is_empty, strip_prefix,
}
use athens.Errors.{GoError, Result, ok, err, make_error, error_arg, string_arg, kind_arg}
use athens.Paths.{Vars, get_module, get_version, matches_pattern}
use athens.Filter.{FilterRule, default, include, exclude, direct, RuleNode, rule}

pub data Answer : Type 0 where
  next : Answer
  status : ℕ → Answer
  redirected : ℕ → Text → Answer

pub record Request : Type 0 where
  pub vars : Vars
  pub path : Text
  -- `r.BasicAuth()`, which the header decides.
  pub credentials : Option (Text × Text)

-- strings.TrimSuffix(s, "/")
unfoldable pub trim_slash : Text → Text
trim_slash [] = []
trim_slash (c ∷ []) = if c == b'/' then [] else c ∷ []
trim_slash (c ∷ d ∷ s) = c ∷ trim_slash (d ∷ s)

unfoldable pub redirect_to_upstream_url : Text → Text → Text
unfolding trim_slash
redirect_to_upstream_url upstream path = trim_slash upstream ++ path

-- `ver`, which is "" where the request has no version.
abbrev pub version_or_empty : Result Text → Text
version_or_empty (ok v) = v
version_or_empty (err e) = []

answer_rule : Text → Text → FilterRule → Answer
unfolding redirect_to_upstream_url
answer_rule upstream path exclude = status 403
answer_rule upstream path include = next
answer_rule upstream path direct = redirected 303 (redirect_to_upstream_url upstream path)
answer_rule upstream path default = next

unfoldable pub filter_middleware : RuleNode → Text → Request → Answer
unfolding answer_rule
filter_middleware root upstream r = elim (get_module r.vars) [
  | err e ↦ next
  | ok mod_path ↦
      answer_rule upstream r.path (rule root mod_path (version_or_empty (get_version r.vars)))
]

-- What the webhook answers to the module and version: its status code and body, or an error of the
-- client.
abbrev pub Hook : Type 0
Hook = Text → Text → Result (ℕ × Text)

pub record ValidationResponse : Type 0 where
  pub valid : Bool
  pub message : Text

unfoldable pub validate : Hook → Text → Text → Result ValidationResponse
validate hook mod_path ver = elim (hook mod_path ver) [
  | err e ↦ err (make_error (text "actions.validate") (error_arg e ∷ []))
  | ok (code, body) ↦
      if code == 200 || code == 403
      then ok (record { valid = code == 200; message = body })
      else err (
          make_error (text "actions.validate")
            (string_arg (text "Unexpected status code ") ∷ kind_arg code ∷ []))
]

unfoldable pub validation_middleware : Hook → Request → Answer
validation_middleware hook r = elim (get_module r.vars) [
  | err e ↦ next
  | ok mod_path ↦
      let version = version_or_empty (get_version r.vars) in
      if is_empty version then next else elim (validate hook mod_path version) [
        | err e ↦ status 500
        | ok response ↦ if response.valid then next else status 403
      ]
]

-- The expression ^/(health|ready)z$
unfoldable pub is_excluded_path : Text → Bool
is_excluded_path path = path == text "/healthz" || path == text "/readyz"

unfoldable pub check_auth : Request → Text → Text → Bool
check_auth r user pass = elim r.credentials [
  | none ↦ false
  | some (given_user, given_pass) ↦ if user == given_user then pass == given_pass else false
]

unfoldable pub basic_auth : Text → Text → Request → Answer
unfolding is_excluded_path
basic_auth user pass r =
    if not (is_excluded_path r.path) && not (check_auth r user pass) then status 401 else next

any_pattern : List Text → Text → Bool
any_pattern [] target = false
any_pattern (p ∷ ps) target = matches_pattern p target || any_pattern ps target

unfoldable pub no_sum_wrapper : List Text → Request → Answer
unfolding any_pattern
no_sum_wrapper patterns r = elim (strip_prefix (text "/lookup/") r.path) [
  | none ↦ next
  | some target ↦ if any_pattern patterns target then status 403 else next
]

-- The order in which app.go registers them: authentication, the filter, the validation.
unfoldable pub guards :
    Option (Text × Text) → Option (RuleNode × Text) → Option Hook → Request → Answer
guards auth filter hook r =
    let authorised : Answer = elim auth [
      | none ↦ next
      | some (user, pass) ↦ basic_auth user pass r
    ] in
    let filtered : Answer = elim filter [
      | none ↦ next
      | some (root, upstream) ↦ filter_middleware root upstream r
    ] in
    let validated : Answer = elim hook [ none ↦ next | some h ↦ validation_middleware h r ] in
    elim authorised [ next ↦ elim filtered [ next ↦ validated | other ↦ other ] | other ↦ other ]
