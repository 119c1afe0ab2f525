-- ===== src/Provider/Error.antt =====
-- provider-spi/src/error.rs: how a provider call fails.
use sdkwork_sandbox.Base.{Text, Result}

pub data ProviderOperation : Type 0 where
  health allocate start stop destroy : ProviderOperation

pub data ProviderErrorKind : Type 0 where
  unsupported unavailable rejected conflict timeout internal : ProviderErrorKind

pub record ProviderError : Type 0 where
  pub provider_id : Text
  pub provider_operation : ProviderOperation
  pub provider_error_kind : ProviderErrorKind

abbrev pub ProviderResult {ℓ} : Type ℓ → Type ℓ
ProviderResult A = Result ProviderError A
