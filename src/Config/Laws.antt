-- ===== src/Config/Laws.antt =====
-- What a validated configuration holds.
use home_assistant_chat_comp.Prelude.{
  ◌≤◌, ◌⊎◌, ◌≡◌, Bool, true, false, str_eq, ◌&&◌, ◌==◌, arith, if◌then◌else◌, Option-cases, inl,
  inr,
}
use home_assistant_chat_comp.Address.{parse_ipv4}
use home_assistant_chat_comp.Wire.{valid}
use home_assistant_chat_comp.Wire.Checks.{Checked-cases}
use mathlib.Core.Path.{subst}
use home_assistant_chat_comp.Config.{
  System, ListenerConfig, ServiceConfig, validated_service, check_file, validated_listener, has_tls,
}

-- What holds of a listener that may be opened.
pub record IsSafe (system : System) (allow_ephemeral : Bool) (c : ListenerConfig) : Type 0 where
  pub least : (if allow_ephemeral then 0 else 1) ≤ c.port
  pub most : c.port ≤ 65535
  pub encrypted :
      (has_tls c ≡ true) ⊎ ((system.is_loopback c.host ≡ true) ⊎ (c.allow_insecure_http ≡ true))

module _ (system : System) (allow_ephemeral : Bool) where
  pub validated_listener-IsSafe :
      (c d : ListenerConfig)
      → validated_listener system allow_ephemeral c ≡ valid d
      → IsSafe system allow_ephemeral d
  unfolding validated_listener check_file has_tls
  validated_listener-IsSafe c d h = elim (Option-cases (parse_ipv4 system.ip_address c.host)) [
    | inl gone ↦ absurd (ground arith)
    | inr (host, found) ↦ record {
      least = ground arith;
      most = ground arith;
      encrypted = ground arith;
    }
  ]

  -- A configuration that passes keeps its database path, which is not empty, and both of its listeners
  -- are safe: the port is at most 65,535, and at least 1 unless a free one may be chosen, and the
  -- listener speaks TLS, is on a loopback address, or plain HTTP was allowed by name. The two listeners
  -- share an address and a port only where the port is 0, a free one.
  pub validated_service-IsSafe :
      (c d : ServiceConfig)
      → validated_service system allow_ephemeral c ≡ valid d
      → IsSafe system allow_ephemeral d.client
        × IsSafe system allow_ephemeral d.federation
        × (d.database ≡ c.database)
        × (str_eq d.database "" ≡ false)
        × (((str_eq d.client.host d.federation.host && d.client.port == d.federation.port) ≡ false)
            ⊎ (d.client.port ≡ 0))
  unfolding validated_service
  validated_service-IsSafe c d h =
      elim (Checked-cases (validated_listener system allow_ephemeral c.client)) [
        | inr bad ↦ absurd (ground arith)
        | inl (a, ka) ↦
            elim (Checked-cases (validated_listener system allow_ephemeral c.federation)) [
              | inr bad ↦ absurd (ground arith)
              | inl (b, kb) ↦
                  let sa : a ≡ d.client = ground arith in
                  let sb : b ≡ d.federation = ground arith in
                  (
                    subst (IsSafe system allow_ephemeral) sa
                        (validated_listener-IsSafe c.client a ka),
                    subst (IsSafe system allow_ephemeral) sb
                        (validated_listener-IsSafe c.federation b kb),
                    ground arith,
                    ground arith,
                    ground arith,
                  )
            ]
      ]
