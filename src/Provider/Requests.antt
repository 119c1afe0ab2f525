-- ===== src/Provider/Requests.antt =====
-- provider-spi/src/provider.rs: the requests of the calls, and a provider as the record of its calls.
use sdkwork_sandbox.Base.{ℕ, Option, List, Text}
use sdkwork_sandbox.Provider.Capability.{RuntimeCapability}
use sdkwork_sandbox.Provider.Assurance.{IsolationAssurance}
use sdkwork_sandbox.Provider.Error.{ProviderResult}
use sdkwork_sandbox.Provider.Descriptor.{
  ProviderDescriptor, ProviderHealthStatus, ProviderReadiness,
}

pub record AllocationRequest : Type 0 where
  pub tenant_id : Text
  pub workspace_id : Text
  pub session_id : Text
  pub sandbox_id : Text
  pub runtime_binding_id : Text
  pub fencing_token : ℕ
  pub required_capabilities : List RuntimeCapability
  pub minimum_assurance : IsolationAssurance

pub record StartRequest : Type 0 where
  pub tenant_id : Text
  pub workspace_id : Text
  pub session_id : Text
  pub sandbox_id : Text
  pub runtime_binding_id : Text
  pub fencing_token : ℕ
  pub allocation_reference : Text

pub record StopRequest : Type 0 where
  pub tenant_id : Text
  pub session_id : Text
  pub sandbox_id : Text
  pub runtime_binding_id : Text
  pub fencing_token : ℕ
  pub allocation_reference : Text

pub record DestroyRequest : Type 0 where
  pub tenant_id : Text
  pub session_id : Text
  pub sandbox_id : Text
  pub runtime_binding_id : Text
  pub fencing_token : ℕ
  pub allocation_reference : Option Text

-- The trait. A call moves the world `W`; `none` is a call that has not answered in time. An
-- allocation is its reference.
pub record Provider (W : Type 0) : Type 0 where
  pub descriptor : ProviderDescriptor
  pub health : W → W × Option (ProviderResult ProviderHealthStatus)
  pub allocate : AllocationRequest → W → W × Option (ProviderResult Text)
  pub start : StartRequest → W → W × Option (ProviderResult ProviderReadiness)
  pub stop : StopRequest → W → W × Option (ProviderResult (Unit {0}))
  pub destroy : DestroyRequest → W → W × Option (ProviderResult (Unit {0}))
