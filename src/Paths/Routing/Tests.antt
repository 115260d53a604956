-- ===== src/Paths/Routing/Tests.antt =====
-- Dispatches of a path with two providers, the first of which refuses.
use hostctl.Prelude.{
  ℕ, str_eq, ◌≡◌, refl, true, false, none, some, filter_by, List, [], ◌∷◌, All, if◌then◌else◌,
}
use hostctl.Prelude.Dict.{get, put}
use hostctl.Provider.Contracts.{Provider, truthy}
use hostctl.Provider.Selector.{Env, Selector, effective_capabilities}
use hostctl.Provider.Selector.Select.{select}
use hostctl.Paths.Routing.{Attempt, returned, declined, Tried, Routing, result}
use hostctl.Paths.Routing.Dispatch.{Sound}
use hostctl.Paths.Routing.Pinned.{
  Operation, perform, perform_all, perform-Sound, ServedBy, perform_all-ServedBy,
}

abbrev sftp : Provider
sftp = record { name = "sftp"; capabilities = "path" ∷ []; hooked = false }

abbrev agent : Provider
agent = record { name = "agent"; capabilities = "open_write" ∷ "open" ∷ []; hooked = false }

abbrev env : Env
env = record { redact = λ t. t; hook = λ name sent. truthy true }

abbrev fresh : Selector
fresh = record {
  providers = sftp ∷ agent ∷ [];
  probe_cache = [];
  declined = [];
  causes = [];
  generation = 0;
  trace = [];
  sent = [];
}

abbrev unbound : Routing
unbound = record { provider = none; pinned = false }

-- `sftp` cannot be reached
abbrev serving : Provider → List (Tried ℕ) → Attempt ℕ
serving p tried =
    if str_eq p.name "sftp"
    then declined (record { reason = "port refused"; cause = none })
    else returned 7

abbrev writing : Operation ℕ
writing = record { pin = true; retry = false; alternatives = "open_write" ∷ []; attempt = serving }

abbrev reading : Operation ℕ
reading = record { pin = false; retry = true; alternatives = "open_read" ∷ []; attempt = serving }

takes_agent : (perform env writing unbound fresh).outcome ≡ result 7 agent
unfolding perform select get put effective_capabilities filter_by
takes_agent = refl

pins_agent :
    (perform env writing unbound fresh).routing ≡ record { provider = some agent; pinned = true }
unfolding perform select get put effective_capabilities filter_by
pins_agent = refl

perform-Sound_example : Sound true false unbound (perform env writing unbound fresh)
perform-Sound_example = perform-Sound env writing unbound fresh

perform_all-ServedBy_example : All (ServedBy agent) (
    perform_all env
      (reading ∷ [])
      (perform env writing unbound fresh).routing
      (perform env writing unbound fresh).selector)
perform_all-ServedBy_example =
    perform_all-ServedBy env writing (reading ∷ []) unbound fresh 7 agent refl takes_agent
