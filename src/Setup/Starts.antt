-- ===== src/Setup/Starts.antt =====
-- On cmd/main.go and internal/proxy/proxy.go.
-- What the operator runs after its set-up.
use netmaker_k8s_ops.Base.{
  String, ◌==◌, ◌≡◌, refl, ap, Bool, true, false, inl, inr, Bool-cases, Option, none, some, List,
  [], ◌∷◌, Env, if◌then◌else◌, ◌||◌, lowers_to, sym, ◌∙◌, eq_iff,
}
use netmaker_k8s_ops.Proxy.Users.{HttpAnswer}
use netmaker_k8s_ops.Proxy.Config.{get_proxy_config}
use netmaker_k8s_ops.Proxy.Defaults.{mode_of}
use netmaker_k8s_ops.Proxy.Startup.{
  StatusBody, ProStatus, is_pro, failed, check_server_pro_status, check_proxy_mode, started_mode,
  start, expected_mode, started_mode_auth, started_mode_unchecked,
}
use netmaker_k8s_ops.Setup.{
  Flags, SetupStep, get_config, new_manager, netmaker_ops_controller, egress_controller,
  ingress_controller, healthz_check, readyz_check, setup_steps, Goroutine, api_server, k8s_proxy,
  manager, Main, exited, running, first_failure, goroutines, finish_setup, manager_options, main,
}

abbrev runs_proxy : List Goroutine → Bool
runs_proxy [] = false
runs_proxy (k8s_proxy ∷ gs) = true
runs_proxy (api_server ∷ gs) = runs_proxy gs
runs_proxy (manager ∷ gs) = runs_proxy gs

-- The mode that the proxy reads when it starts, if it is started.
abbrev pub proxy_mode_of : Main → Option String
proxy_mode_of (exited step) = none
proxy_mode_of (running options gs env) =
    if runs_proxy gs then some (get_proxy_config env).mode else none

-- The mode after a set-up in which this step failed, if any did.
abbrev pub unless_failed : Option SetupStep → Option String → Option String
unless_failed (some step) mode = none
unless_failed none mode = mode

goroutines-start :
    (env : Env)
    → (if runs_proxy (goroutines env) then some (get_proxy_config env).mode else none) ≡ start env
unfolding goroutines start
goroutines-start env = elim (Bool-cases (env "PROXY_MODE" == "")) [
  | inl unset ↦ rw unset refl
  | inr set ↦ rw set (ap (λ m. some m) (mode_of env))
]

finish_setup-mode :
    (failure : Option SetupStep) (env env' : Env) (flags : Flags)
    → proxy_mode_of (finish_setup failure (manager_options env flags) env')
      ≡ unless_failed failure (start env')
finish_setup-mode (some step) env env' flags = refl
finish_setup-mode none env env' flags = goroutines-start env'

or_false : (b : Bool) → (b || false) ≡ b
or_false true = refl
or_false false = refl

any_failed : (SetupStep → Bool) → List SetupStep → Bool
any_failed fails [] = false
any_failed fails (step ∷ steps) = fails step || any_failed fails steps

first_failure-mode :
    (fails : SetupStep → Bool) (steps : List SetupStep) (mode : Option String)
    → unless_failed (first_failure fails steps) mode
      ≡ (if any_failed fails steps then none else mode)
unfolding first_failure any_failed
first_failure-mode fails [] mode = refl
first_failure-mode fails (step ∷ steps) mode = elim (Bool-cases (fails step)) [
  | inl fails_here ↦ rw fails_here refl
  | inr fine ↦ rw fine (first_failure-mode fails steps mode)
]

-- The mode in which the proxy is to run: none if PROXY_MODE is not set; for "auth", as the server is
-- found to be; for any other value, noauth if it is "noauth" but for case, and auth if not.
abbrev pub mode_by : String → ProStatus → Option String
mode_by variable status =
    if variable == ""
    then none
    else if variable == "auth"
    then elim status [
      | is_pro pro ↦ if pro then some "auth" else some "noauth"
      | failed message ↦ none
    ]
    else some (if lowers_to variable "noauth" then "noauth" else "auth")

by_status :
    (decode : String → StatusBody) (ask : String → HttpAnswer) (status : ProStatus)
    → expected_mode decode ask status ≡ elim status [
      | is_pro pro ↦ if pro then some "auth" else some "noauth"
      | failed message ↦ none
    ]
by_status decode ask (is_pro true) = refl
by_status decode ask (is_pro false) = refl
by_status decode ask (failed message) = refl

module _ (decode : String → StatusBody) (ask : String → HttpAnswer) (env : Env) where
  started_mode_lem :
      started_mode decode ask env
      ≡ mode_by (env "PROXY_MODE") (check_server_pro_status decode ask env)
  unfolding started_mode check_proxy_mode start
  started_mode_lem = elim (Bool-cases (env "PROXY_MODE" == "")) [
    | inl unset ↦ rw (unset, unset) refl
    | inr set ↦ elim (Bool-cases (env "PROXY_MODE" == "auth")) [
      | inl auth ↦
          let is_auth : env "PROXY_MODE" ≡ "auth" = (eq_iff (env "PROXY_MODE") "auth").0 auth in
          started_mode_auth decode ask env is_auth
          ∙ (by_status decode ask (check_server_pro_status decode ask env)
              ∙ sym (rw (set, auth) refl))
      | inr other ↦
          started_mode_unchecked decode ask env (λ e. cc (ap (λ (s : String). s == "") e, set))
            (λ e. cc (ap (λ (s : String). s == "auth") e, other))
          ∙ sym (rw (set, other) refl)
    ]
  ]

-- Whatever the environment, the flags, the server and the steps of the set-up give: the proxy runs
-- exactly if none of the seven steps fails, PROXY_MODE is set, and the check of the server, where
-- PROXY_MODE is "auth", gives an answer; and it then reads the mode auth or noauth as `mode_by` lists.
pub main-started_mode :
    (decode : String → StatusBody) (ask : String → HttpAnswer) (fails : SetupStep → Bool)
    (env : Env) (flags : Flags)
    → proxy_mode_of (main decode ask fails env flags) ≡ (
        if fails get_config
          || (fails new_manager
              || (fails netmaker_ops_controller
                  || (fails egress_controller
                      || (fails ingress_controller
                          || (fails healthz_check || fails readyz_check)))))
        then none
        else mode_by (env "PROXY_MODE") (check_server_pro_status decode ask env))
unfolding main started_mode any_failed
main-started_mode decode ask fails env flags =
    finish_setup-mode (first_failure fails setup_steps) env (check_proxy_mode decode ask env) flags
    ∙ (first_failure-mode fails setup_steps (started_mode decode ask env)
        ∙ rw (or_false (fails readyz_check), started_mode_lem decode ask env) refl)
