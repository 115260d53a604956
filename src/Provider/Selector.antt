-- ===== src/Provider/Selector.antt =====
-- provider/_selector.py: `ProviderSelector`, as one thread uses it. A method takes the selector
-- and returns it with the result. Log lines are not modelled.
pub mod Select
pub mod Scan
pub mod Verdict
pub mod Termination
pub mod Choice
pub mod History
use hostctl.Prelude.{
  ℕ, zero, suc, ◌+◌, String, Bool, true, false, ◌&&◌, ◌||◌, not, Option, none, some, List, [], ◌∷◌,
  map, if◌then◌else◌, null, any, contains, filter_by,
}
use hostctl.Prelude.Dict.{Dict, get, put, pop}
use hostctl.Prelude.Sorting.{sorted}
use hostctl.Provider.Contracts.{
  Fault, NotStarted, Availability, available, unavailable, degraded, Probe, usable, Step, Provider,
  HookResult, ProbeResult, returned, failed, plain_probe, provider_probe,
}

-- What the selector reads of the world: the redaction of texts, and what a provider's probe hook
-- answers after the probes already sent.
pub record Env : Type 0 where
  pub redact : String → String
  pub hook : String → List (String × ℕ) → HookResult

-- `sent` lists the probes sent to providers, the latest first, each with its generation.
pub record Selector : Type 0 where
  pub providers : List Provider
  pub probe_cache : Dict Probe
  pub declined : Dict String
  pub causes : Dict Fault
  pub generation : ℕ
  pub trace : Dict Step
  pub sent : List (String × ℕ)

-- The arguments of `select`.
pub record Request : Type 0 where
  pub capability : Option String
  pub exclude : List String
  pub pin : Bool

pub data InitError : Type 0 where
  unnamed_provider duplicate_name : InitError

-- `len(set(names)) != len(names)`
unfoldable pub has_duplicate : List String → Bool
has_duplicate [] = false
has_duplicate (n ∷ ns) = contains ns n || has_duplicate ns

-- `__init__`; `name == ""` is what makes a string falsy.
pub data InitResult : Type 0 where
  built : Selector → InitResult
  refused : InitError → InitResult

unfoldable pub init : List Provider → InitResult
unfolding has_duplicate
init ps =
    if contains (map (λ p. p.name) ps) ""
    then refused unnamed_provider
    else if has_duplicate (map (λ p. p.name) ps)
    then refused duplicate_name
    else built (record {
      providers = ps;
      probe_cache = [];
      declined = [];
      causes = [];
      generation = 0;
      trace = [];
      sent = [];
    })

-- `generation`, `trace` are fields; `declines` redacts each reason.
unfoldable pub declines : Env → Selector → Dict String
declines env s = map (λ e. (e.0, env.redact e.1)) s.declined

-- `retry_declined`
unfoldable pub retry_declined : Selector → Selector
retry_declined s = record s { declined = []; causes = [] }

-- `decline`: with no `cause` an older one stays.
unfoldable pub decline : String → String → Option Fault → Selector → Selector
decline name reason cause s = record s {
  declined = put name reason s.declined;
  causes = elim cause [ none ↦ s.causes | some e ↦ put name e s.causes ];
}

-- `invalidate`
unfoldable pub invalidate : Selector → Selector
invalidate s = record s {
  probe_cache = [];
  declined = [];
  causes = [];
  generation = s.generation + 1;
  trace = [];
}

-- `try: provider.probe() except Exception`
unfoldable pub guarded_probe : ProbeResult → Probe
unfolding plain_probe
guarded_probe (returned r) = r
guarded_probe (failed e) = plain_probe unavailable e.kind []

unfoldable pub probe_undeclined : Env → Provider → Selector → Probe × Selector
unfolding guarded_probe provider_probe
probe_undeclined env p s = elim (get p.name s.probe_cache) [
  | some cached ↦ (cached, s)
  | none ↦
      let result = guarded_probe (provider_probe p (env.hook p.name s.sent)) in
      (
        result,
        record s {
          probe_cache = put p.name result s.probe_cache;
          sent = (p.name, s.generation) ∷ s.sent;
        },
      )
]

-- `probe`
unfoldable pub probe : Env → Provider → Selector → Probe × Selector
unfolding probe_undeclined plain_probe
probe env p s = elim (get p.name s.declined) [
  | some reason ↦ (plain_probe unavailable (env.redact reason) [], s)
  | none ↦ probe_undeclined env p s
]

-- `_effective`
unfoldable pub effective : Provider → Probe → List String
effective p result =
    if null result.capabilities
    then p.capabilities
    else if contains p.capabilities "path"
    then result.capabilities
    else filter_by (contains result.capabilities) p.capabilities

-- `effective_capabilities`
unfoldable pub effective_capabilities : Env → Provider → Selector → List String × Selector
effective_capabilities env p s = let (result, s') = probe env p s in (effective p result, s')

-- `capability is None or capability in capabilities`
unfoldable pub offers : Option String → List String → Bool
offers none caps = true
offers (some c) caps = contains caps c

-- The test by which `select` takes a provider.
unfoldable pub allows : Request → Provider → Probe → Bool
unfolding offers usable effective
allows q p result = usable result && offers q.capability (effective p result)

-- `_record`
unfoldable pub record_step : Step → Selector → Selector
record_step step s = record s { trace = put step.provider step s.trace }

-- The step of a provider that `select` finds declined.
unfoldable pub declined_step : Env → Request → Provider → String → Selector → Step
declined_step env q p reason s = record {
  provider = env.redact p.name;
  availability = unavailable;
  reason = env.redact reason;
  capabilities = [];
  chosen = false;
  generation = s.generation;
  pin = q.pin;
}

-- The step of a provider that `select` has probed.
unfoldable pub probed_step : Env → Request → Provider → Probe → Selector → Step
unfolding allows sorted
probed_step env q p result s = record {
  provider = env.redact p.name;
  availability = result.availability;
  reason = env.redact result.reason;
  capabilities = sorted result.capabilities;
  chosen = allows q p result;
  generation = s.generation;
  pin = q.pin;
}
