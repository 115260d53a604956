-- ===== src/Provider/Contracts.antt =====
-- provider/_contracts.py: probes, selection steps and the provider base class, with the
-- exceptions of exceptions.py that providers raise.
use hostctl.Prelude.{ℕ, String, Bool, true, false, Option, none, List, if◌then◌else◌}

-- A Python exception: its type's name and `str()` of it.
pub record Fault : Type 0 where
  pub kind : String
  pub text : String

-- `OperationNotStartedError`
pub record NotStarted : Type 0 where
  pub reason : String
  pub cause : Option Fault

pub data Availability : Type 0 where
  available unavailable degraded : Availability

-- `ProviderProbe`; a frozenset of capabilities is a list that only `contains` reads.
pub record Probe : Type 0 where
  pub availability : Availability
  pub reason : String
  pub capabilities : List String
  pub system_hint : Option String

-- `ProviderProbe.usable`
unfoldable pub usable : Probe → Bool
usable p = elim p.availability [ unavailable ↦ false | _ ↦ true ]

-- `SelectionStep`
pub record Step : Type 0 where
  pub provider : String
  pub availability : Availability
  pub reason : String
  pub capabilities : List String
  pub chosen : Bool
  pub generation : ℕ
  pub pin : Bool

-- `_Provider`: `hooked` says whether a probe hook was given; what the hook answers is the
-- environment's business.
pub record Provider : Type 0 where
  pub name : String
  pub capabilities : List String
  pub hooked : Bool

-- What a call of a provider's probe hook gives: a probe, another value by its truth, or an
-- exception.
pub data HookResult : Type 0 where
  probed : Probe → HookResult
  truthy : Bool → HookResult
  raised : Fault → HookResult

pub data ProbeResult : Type 0 where
  returned : Probe → ProbeResult
  failed : Fault → ProbeResult

-- A probe with the class's defaults for what is not given.
unfoldable pub plain_probe : Availability → String → List String → Probe
plain_probe a reason caps = record {
  availability = a;
  reason = reason;
  capabilities = caps;
  system_hint = none;
}

-- `_Provider.probe`
unfoldable pub provider_probe : Provider → HookResult → ProbeResult
unfolding plain_probe
provider_probe p answer =
    if p.hooked
    then elim answer [
      | probed result ↦ returned result
      | truthy b ↦ returned (plain_probe (if b then available else unavailable) "" p.capabilities)
      | raised e ↦ failed e
    ]
    else returned (plain_probe available "" p.capabilities)
