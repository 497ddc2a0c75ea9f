-- ===== src/Egress/Secrets.antt =====
-- On internal/controller/egress_proxy_controller.go.
-- Which token a proxy pod gets.
use mathlib.Core.Option.{get_or, or_else}
use netmaker_k8s_ops.Base.{
  String, ◌≡◌, refl, Option, none, some, List, [], ◌∷◌, Env, setenv, arith, eq_iff, ◌∙◌,
}
use netmaker_k8s_ops.Kube.{Key, Service, Secret, EnvVar}
use netmaker_k8s_ops.Kube.Client.{Result, Client, ret, ◌>>=◌, returned, run, get_secret}
use netmaker_k8s_ops.Kube.Runs.{run-bind}
use netmaker_k8s_ops.Egress.{reconcile, ensure_proxy_pod, create_proxy_pod}
use netmaker_k8s_ops.Egress.Token.{
  token_in, literal, secret_ref, own_secret, operator_secret, get_secret_name_from_service,
  get_secret_key_from_service, or_operator_token, get_netclient_token, token_variable,
  build_netclient_env_vars, operator_namespace,
}
use netmaker_k8s_ops.Egress.Build.{proxy_pod, build_proxy_pod}

module _ (env : Env) (service : Service) (secrets : Key → Result Secret) where
  -- The token in the namespace of the service, and that in the operator's.
  abbrev pub own_token : Option String
  own_token = token_in (get_secret_key_from_service env service) (secrets (own_secret env service))

  abbrev pub operator_token : Option String
  operator_token =
      token_in (get_secret_key_from_service env service) (secrets (operator_secret env service))

  -- The variable TOKEN: a reference to the secret beside the service if that has a token, and
  -- else the operator's token as a value.
  abbrev pub variable_by : Option String → Option String → EnvVar
  variable_by (some _) operator =
      secret_ref "TOKEN" (get_secret_name_from_service env service)
        (get_secret_key_from_service env service)
  variable_by none operator = literal "TOKEN" (get_or operator "")

  abbrev pub expected_env_vars : List EnvVar
  expected_env_vars =
      literal "DAEMON" "on" ∷ literal "LOG_LEVEL" "info" ∷ variable_by own_token operator_token ∷ []

module _ (env : Env) (C : Client) (secrets : Key → Result Secret)
    (steady : (k : Key) (s : C.State) → (C.serve (get_secret k) s).0 ≡ secrets k)
    (service : Service) where
  or_operator_token-run :
      (found : Option String) (s : C.State)
      → (run C (or_operator_token env service found) s).0
        ≡ returned (get_or (or_else found (operator_token env service secrets)) "")
  unfolding or_operator_token or_else
  or_operator_token-run (some token) s = refl
  or_operator_token-run none s = rw steady

  -- While the secrets do not change, the token is the one in the namespace of the service; where
  -- that has none, the one in the operator's namespace; and "" where both lack it.
  pub get_netclient_token_lem :
      (s : C.State)
      → (run C (get_netclient_token env service) s).0
        ≡ returned (
            get_or
              (or_else (own_token env service secrets) (operator_token env service secrets))
              "")
  unfolding get_netclient_token
  get_netclient_token_lem s =
      rw (steady, run) (or_operator_token-run (own_token env service secrets) _)

  token_variable_lem :
      (own operator : Option String)
      → token_variable env service (get_or (or_else own operator) "") own
        ≡ variable_by env service secrets own operator
  unfolding token_variable or_else
  token_variable_lem (some own) operator = refl
  token_variable_lem none none = refl
  token_variable_lem none (some token) = ground (arith, eq_iff token "")

  -- The rest of `buildProxyPod`, once the token is known.
  env_vars-run :
      (name ip dns token : String) (s : C.State)
      → (run C
          (build_netclient_env_vars env service token >>= λ vars.
            ret (proxy_pod env service name ip dns vars))
          s).0
        ≡ returned (
            proxy_pod env service name ip dns (
              literal "DAEMON" "on"
              ∷ literal "LOG_LEVEL" "info"
              ∷ token_variable env service token (own_token env service secrets)
              ∷ []))
  unfolding build_netclient_env_vars
  env_vars-run name ip dns token s = rw (steady, run)

  -- While the secrets do not change, the pod that is built carries a reference to the secret in
  -- the namespace of the service if that holds the key, and else the operator's token as a value.
  pub build_proxy_pod_lem :
      (name ip dns : String) (s : C.State)
      → (run C (build_proxy_pod env service name ip dns) s).0
        ≡ returned (proxy_pod env service name ip dns (expected_env_vars env service secrets))
  unfolding build_proxy_pod
  build_proxy_pod_lem name ip dns s =
      rw (run-bind C (get_netclient_token env service) _ _ s (get_netclient_token_lem s))
        (env_vars-run name ip dns _ _ ∙ rw token_variable_lem)

-- The variable NETCLIENT_TOKEN has no effect on a reconciliation.
pub reconcile-setenv :
    (env : Env) (token : String) (k : Key)
    → reconcile (setenv "NETCLIENT_TOKEN" token env) k ≡ reconcile env k
unfolding reconcile ensure_proxy_pod create_proxy_pod build_proxy_pod proxy_pod get_netclient_token
    build_netclient_env_vars get_secret_name_from_service get_secret_key_from_service
    operator_namespace
reconcile-setenv env token k = refl
