-- ===== src/Middleware/Access.antt =====
-- Which requests pass.
use athens.Prelude.{
  ℕ, ◌≡◌, ◌≢◌, refl, ◌↔◌, ◌⊎◌, inl, inr, true, false, Option, none, some, [], ◌∷◌, ◌==◌, nat_eq,
  text_eq, text_beq_iff, if◌then◌else◌, Text, text, is_empty, arith,
}
use athens.Errors.{Result, ok, err}
use athens.Paths.{get_module, get_version}
use athens.Filter.{
  FilterRule, default, include, exclude, direct, RuleNode, rule, rule_at, is_default,
}
use athens.Middleware.{
  Answer, next, status, redirected, Request, version_or_empty, answer_rule, filter_middleware, Hook,
  ValidationResponse, validate, validation_middleware, check_auth, basic_auth, guards,
}

credentials_of :
    (c : Option (Text × Text)) (user pass : Text)
    → ((elim c [
      | none ↦ false
      | some (given_user, given_pass) ↦ if user == given_user then pass == given_pass else false
    ])
        ≡ true)
      ↔ (c ≡ some (user, pass))
credentials_of none user pass = ((λ h. absurd (cc)), (λ h. absurd (cc)))
credentials_of (some (u, p)) user pass = ground (arith, text_beq_iff user u, text_beq_iff pass p)

check_auth_iff :
    (r : Request) (user pass : Text)
    → (check_auth r user pass ≡ true) ↔ (r.credentials ≡ some (user, pass))
unfolding check_auth
check_auth_iff r user pass = credentials_of r.credentials user pass

-- With authentication on, a request passes exactly if its path is a health check or it carries the
-- configured user and password.
basic_auth_iff :
    (user pass : Text) (r : Request)
    → (basic_auth user pass r ≡ next) ↔ (
        (r.path ≡ text "/healthz")
        ⊎ (r.path ≡ text "/readyz")
        ⊎ (r.credentials ≡ some (user, pass)))
unfolding basic_auth
basic_auth_iff user pass r = ground (
  arith,
  check_auth_iff r user pass,
  text_beq_iff r.path (text "/healthz"),
  text_beq_iff r.path (text "/readyz"),
)

rule-ne-default :
    (root : RuleNode) (path version : Text) → is_default (rule root path version) ≡ false
unfolding rule rule_at
rule-ne-default root path version = ground arith

passes :
    (found : FilterRule) (upstream path : Text)
    → is_default found ≡ false
    → (answer_rule upstream path found ≡ next) ↔ (found ≡ include)
unfolding answer_rule
passes default upstream path h = absurd (cc)
passes include upstream path h = ground arith
passes exclude upstream path h = ground arith
passes direct upstream path h = ground arith

-- The filter passes a request of a module exactly if the rule for the module and the version, ""
-- where the request has none, is to include it.
filter_middleware_iff :
    (root : RuleNode) (upstream mod_path : Text) (r : Request)
    → get_module r.vars ≡ ok mod_path
    → (filter_middleware root upstream r ≡ next)
      ↔ (rule root mod_path (version_or_empty (get_version r.vars)) ≡ include)
unfolding filter_middleware
filter_middleware_iff root upstream mod_path r h =
    rw (h, filter_middleware)
      (passes (rule root mod_path (version_or_empty (get_version r.vars))) upstream r.path
        (rule-ne-default root mod_path _))

-- What the middleware makes of the webhook's answer.
abbrev hook_answer : Result ValidationResponse → Answer
hook_answer (err e) = status 500
hook_answer (ok response) = if response.valid then next else status 403

hook_passes :
    (hook : Hook) (mod_path ver : Text) (answer : Result (ℕ × Text))
    → hook mod_path ver ≡ answer
    → (hook_answer (validate hook mod_path ver) ≡ next)
      ↔ ((body : Text) × (hook mod_path ver ≡ ok (200, body)))
unfolding validate
hook_passes hook mod_path ver (err e) h =
    rw (h, validate) ((λ q. absurd (cc)), (λ q. absurd (cc (q.1))))
hook_passes hook mod_path ver (ok (code, body)) h =
    rw (h, validate) ((λ q. (body, ground arith)), (λ q. ground (arith, q.1)))

filled : (ver : Text) → ver ≢ [] → is_empty ver ≡ false
filled [] h = absurd (h refl)
filled (c ∷ s) h = refl

both_pass :
    (a b c : Answer)
    → ((elim a [ next ↦ elim b [ next ↦ c | other ↦ other ] | other ↦ other ]) ≡ next)
      ↔ ((a ≡ next) × (b ≡ next) × (c ≡ next))
both_pass next next c = ground arith
both_pass next (status n) c = ground arith
both_pass next (redirected n u) c = ground arith
both_pass (status n) b c = ground arith
both_pass (redirected n u) b c = ground arith

Text-cases : (s : Text) → (s ≡ []) ⊎ (s ≢ [])
Text-cases [] = inl refl
Text-cases (c ∷ s) = inr (λ e. absurd (cc))

-- The validation of a request with a module: the request has no version, an empty one, or a version
-- for which the webhook answers with the status 200.
validation_passes :
    (hook : Hook) (mod_path : Text) (r : Request)
    → get_module r.vars ≡ ok mod_path
    → (validation_middleware hook r ≡ next) ↔ (
        (version_or_empty (get_version r.vars) ≡ [])
        ⊎ ((body : Text) × (hook mod_path (version_or_empty (get_version r.vars))
              ≡ ok (200, body))))
unfolding validation_middleware
validation_passes hook mod_path r h = elim (Text-cases (version_or_empty (get_version r.vars))) [
  | inl blank ↦ rw (h, validation_middleware) (rw blank ((λ _. inl refl), (λ _. refl)))
  | inr full ↦
      let (there, back) =
        hook_passes hook mod_path (version_or_empty (get_version r.vars)) _ refl in
      rw (h, validation_middleware)
        (rw (filled _ full) (
          (λ passed. inr (there passed)),
          (λ passing. elim passing [
            | inl blank ↦ absurd (full blank)
            | inr answered ↦ back answered
          ]),
        ))
]

-- With authentication, filter and validation configured, a request for a module reaches the proxy
-- exactly if its path is a health check or it carries the configured user and password, the rule for
-- the module and the version, "" where the request has none, is to include it, and the version is
-- empty or the webhook answers for it with the status 200.
pub guards_iff :
    (user pass : Text) (root : RuleNode) (upstream : Text) (hook : Hook) (mod_path : Text)
    (r : Request)
    → get_module r.vars ≡ ok mod_path
    → let ver = version_or_empty (get_version r.vars) in
      (guards (some (user, pass)) (some (root, upstream)) (some hook) r ≡ next) ↔ (
        ((r.path ≡ text "/healthz")
          ⊎ (r.path ≡ text "/readyz")
          ⊎ (r.credentials ≡ some (user, pass)))
        × (rule root mod_path ver ≡ include)
        × ((ver ≡ []) ⊎ ((body : Text) × (hook mod_path ver ≡ ok (200, body)))))
unfolding guards
guards_iff user pass root upstream hook mod_path r h =
    let (all, back) =
      both_pass (basic_auth user pass r) (filter_middleware root upstream r)
        (validation_middleware hook r) in
    let (auth, auth_back) = basic_auth_iff user pass r in
    let (filter, filter_back) = filter_middleware_iff root upstream mod_path r h in
    let (valid, valid_back) = validation_passes hook mod_path r h in
    (
      λ passed. let (a, b, c) = all passed in (auth a, filter b, valid c),
      λ (a, b, c). back (auth_back a, filter_back b, valid_back c),
    )
