-- ===== src/Provider/Descriptor.antt =====
-- provider-spi/src/provider.rs: what a provider says of itself.
use sdkwork_sandbox.Base.{Bool, true, false, ◌&&◌, List, Text}
use sdkwork_sandbox.Provider.Capability.{RuntimeCapability, is_subset, collect}
use sdkwork_sandbox.Provider.Assurance.{IsolationAssurance, is_at_least}

pub record ProviderDescriptor : Type 0 where
  pub provider_id : Text
  pub provider_kind : Text
  pub capabilities : List RuntimeCapability
  pub isolation_assurance : IsolationAssurance

unfoldable pub descriptor_new :
    Text → Text → List RuntimeCapability → IsolationAssurance → ProviderDescriptor
unfolding collect
descriptor_new id kind cs assurance = record {
  provider_id = id;
  provider_kind = kind;
  capabilities = collect cs;
  isolation_assurance = assurance;
}

unfoldable pub satisfies_requirements :
    ProviderDescriptor → List RuntimeCapability → IsolationAssurance → Bool
unfolding is_subset
satisfies_requirements d required minimum =
    is_at_least d.isolation_assurance minimum && is_subset required d.capabilities

pub data ProviderHealthStatus : Type 0 where
  ready degraded unavailable : ProviderHealthStatus

abbrev pub is_ready : ProviderHealthStatus → Bool
is_ready ready = true
is_ready _ = false

pub record ProviderReadiness : Type 0 where
  pub provider_ready : Bool
  pub policy_enforced : Bool
  pub workspace_attached : Bool

unfoldable pub is_running_ready : ProviderReadiness → Bool
is_running_ready r = r.provider_ready && r.policy_enforced && r.workspace_attached
