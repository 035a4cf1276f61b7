-- ===== src/Config/Checks.antt =====
-- What a configuration that was loaded is good for.
use clienthub.Prelude.{
  ◌≡◌, ◌≢◌, subst, Bool-cases, inl, inr, String, false, Option, List, [], ◌∷◌, map, ◌==◌, ==_iff,
  string_eq, Result, ok, err, All, arith,
}
use clienthub.Proto.Message.{Bytes}
use clienthub.Config.{
  ClientConfig, ExposeService, ForwardRule, Error, load_client_config, check_client, load_yaml,
  client_defaults, expose_or_tcp, forward_or_tcp,
}

-- The client can connect, and every rule names a protocol.
pub record IsUsable (cfg : ClientConfig) : Type 0 where
  pub server_addr : cfg.server_addr ≢ ""
  pub client_name : cfg.client_name ≢ ""
  pub secret : cfg.secret ≢ ""
  pub exposes : All (λ e. e.protocol ≢ "") cfg.expose
  pub forwards : All (λ f. f.protocol ≢ "") cfg.forward

exposes-or_tcp : (es : List ExposeService) → All (λ e. e.protocol ≢ "") (map expose_or_tcp es)
exposes-or_tcp [] = tt
exposes-or_tcp (e ∷ es) =
    (λ h. ground (arith, ==_iff e.protocol "", ==_iff {T = String} "tcp" ""), exposes-or_tcp es)

forwards-or_tcp : (fs : List ForwardRule) → All (λ f. f.protocol ≢ "") (map forward_or_tcp fs)
forwards-or_tcp [] = tt
forwards-or_tcp (f ∷ fs) =
    (λ h. ground (arith, ==_iff f.protocol "", ==_iff {T = String} "tcp" ""), forwards-or_tcp fs)

ok-injective : {a b : ClientConfig} → ◌≡◌ {A = Result Error ClientConfig} (ok a) (ok b) → a ≡ b
ok-injective e = cc e

named : (t : String) → (t == "") ≡ false → t ≢ ""
named t e h = ground (arith, ==_iff t "")

check_client-IsUsable :
    (r : Result Error ClientConfig) {cfg : ClientConfig} → check_client r ≡ ok cfg → IsUsable cfg
unfolding check_client
check_client-IsUsable (err e) h = cc
check_client-IsUsable (ok raw) {cfg} h = elim (Bool-cases (raw.server_addr == "")) [
  | inl a ↦ cc (rw a at h)
  | inr a ↦ elim (Bool-cases (raw.client_name == "")) [
    | inl b ↦ cc (rw (a, b) at h)
    | inr b ↦ elim (Bool-cases (raw.secret == "")) [
      | inl c ↦ cc (rw (a, b, c) at h)
      | inr c ↦ subst IsUsable (ok-injective (rw (a, b, c) at h)) (record {
        server_addr = named raw.server_addr a;
        client_name = named raw.client_name b;
        secret = named raw.secret c;
        exposes = exposes-or_tcp raw.expose;
        forwards = forwards-or_tcp raw.forward;
      })
    ]
  ]
]

-- A client configuration that is loaded names the server, the client and the secret, and a protocol
-- for every rule.
pub load_client_config-IsUsable :
    (unmarshal : Bytes → ClientConfig → Option ClientConfig) (file : Option Bytes)
    {cfg : ClientConfig}
    → load_client_config unmarshal file ≡ ok cfg
    → IsUsable cfg
unfolding load_client_config
load_client_config-IsUsable unmarshal file h =
    check_client-IsUsable (load_yaml unmarshal file client_defaults) h
