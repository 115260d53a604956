-- ===== src/Provider/Tests.antt =====
-- Runs of the selector and of the failover loop, and the theorems about them at these runs.
use hostctl.Provider.Contracts.{Fault}
use hostctl.Provider.Connect.{
  Attached, connected, refused, failed, Connecting, established, connect_locked,
}
use hostctl.Provider.Connect.Outcome.{Tidy, connect_locked-Tidy}
use hostctl.Prelude.{
  ℕ, String, str_eq, ◌≡◌, ◌≢◌, refl, true, false, none, some, List, [], ◌∷◌, map, if◌then◌else◌,
  filter_by, null,
}
use hostctl.Prelude.Dict.{get, put, pop}
use hostctl.Provider.Contracts.{Provider, HookResult, raised as hook_raised, truthy}
use hostctl.Provider.Selector.{Env, Selector, Request, init, built}
use hostctl.Provider.Selector.Select.{out_of_fuel, select, selected, Selected}
use hostctl.Provider.Selector.Choice.{Contract, select-Contract}
use hostctl.Provider.Selector.Termination.{select_total}
use hostctl.Provider.Selector.History.{
  Call, select_call, probe_call, decline_call, retry_call, invalidate_call, IsRecorded, perform_all,
  perform_all-IsRecorded,
}
use hostctl.Provider.Failover.{Attempt, returned, declined, logged, Tried, run}
use hostctl.Provider.Failover.Safety.{run-SafeRun, SafeRun}
use hostctl.Provider.Failover.Progress.{run-Completed, CompletedRun}

abbrev ssh : Provider
ssh = record { name = "ssh"; capabilities = "run" ∷ []; hooked = true }

abbrev winrm : Provider
winrm = record { name = "winrm"; capabilities = "run" ∷ "powershell" ∷ []; hooked = false }

abbrev local : Provider
local = record { name = "local"; capabilities = "run" ∷ "path" ∷ []; hooked = true }

abbrev providers : List Provider
providers = ssh ∷ winrm ∷ local ∷ []

-- The probe of `ssh` fails the first time.
abbrev hook : String → List (String × ℕ) → HookResult
hook name [] =
    if str_eq name "ssh" then hook_raised (record { kind = "OSError"; text = "" }) else truthy true
hook name (e ∷ sent) = truthy true

abbrev env : Env
env = record { redact = λ t. t; hook = hook }

abbrev fresh : Selector
fresh = record {
  providers = providers;
  probe_cache = [];
  declined = [];
  causes = [];
  generation = 0;
  trace = [];
  sent = [];
}

-- `winrm` declined earlier, with a path wanted
abbrev worn : Selector
worn = record fresh { declined = ("winrm", "refused") ∷ [] }

abbrev any_provider : Request
any_provider = record { capability = none; exclude = []; pin = false }

abbrev shells_only : Request
shells_only = record { capability = some "powershell"; exclude = []; pin = false }

abbrev chosen : Selected → String
chosen (selected sel) = sel.provider.name
chosen _ = ""

-- the failed probe passes `ssh` over
takes_second : chosen (select 2 env any_provider fresh).0 ≡ "winrm"
unfolding select get put
takes_second = refl

-- `winrm` is readmitted when nothing else speaks PowerShell
readmits : chosen (select 2 env shells_only worn).0 ≡ "winrm"
unfolding select get put pop filter_by
readmits = refl

select-Contract_example :
    Contract shells_only providers
      (select 2 env shells_only worn).0
      (select 2 env shells_only worn).1
select-Contract_example = select-Contract env shells_only 0 worn

select_total_example :
    ((select 7 env shells_only worn).0 ≢ out_of_fuel)
    × (select 7 env shells_only worn ≡ select 2 env shells_only worn)
select_total_example = select_total env shells_only 5 worn

abbrev calls : List Call
calls =
    select_call any_provider
    ∷ decline_call "winrm" "refused" none
    ∷ select_call any_provider
    ∷ invalidate_call
    ∷ probe_call ssh
    ∷ select_call shells_only
    ∷ retry_call
    ∷ []

init-providers : init providers ≡ built fresh
unfolding init
init-providers = refl

perform_all-IsRecorded_example : IsRecorded (perform_all env calls fresh)
perform_all-IsRecorded_example = perform_all-IsRecorded env providers calls fresh init-providers

-- `winrm` refuses before anything is sent, `local` carries the command.
abbrev attempt : Provider → List (Tried ℕ) → Attempt ℕ
attempt p tried =
    if str_eq p.name "winrm"
    then declined (record { reason = "refused"; cause = none })
    else returned 7

names_tried : map (λ t. t.name) (run env attempt ("PATH" ∷ []) fresh).tried ≡ "winrm" ∷ "local" ∷ []
unfolding run select get put logged
names_tried = refl

run-SafeRun_example : SafeRun env attempt (run env attempt ("PATH" ∷ []) fresh)
run-SafeRun_example = run-SafeRun env attempt ("PATH" ∷ []) fresh

run-Completed_example : CompletedRun env attempt providers (run env attempt ("PATH" ∷ []) fresh)
run-Completed_example = run-Completed env attempt ("PATH" ∷ []) fresh

abbrev broken_pipe : Fault
broken_pipe = record { kind = "BrokenPipeError"; text = "broken pipe" }

-- `winrm` refuses, `local` is connected, and on the path selector `ssh` is not reached.
abbrev dial : Provider → List Connecting → Attached
dial p calls =
    if str_eq p.name "winrm"
    then refused (record { reason = "refused"; cause = none })
    else if null calls
    then connected
    else if str_eq p.name "local"
    then connected
    else failed broken_pipe

connect_locked-Tidy_example :
    Tidy (connect_locked env dial fresh fresh).outcome (connect_locked env dial fresh fresh).calls
connect_locked-Tidy_example = connect_locked-Tidy env dial fresh fresh

both_connected : (connect_locked env dial fresh fresh).outcome ≡ established (local ∷ local ∷ [])
unfolding connect_locked select get put
both_connected = refl
