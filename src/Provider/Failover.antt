-- ===== src/Provider/Failover.antt =====
-- system/_host.py: the loop of `run` that moves a command from provider to provider.
pub mod Steps
pub mod Safety
pub mod Progress
use hostctl.Prelude.{
  ℕ, zero, suc, ◌+◌, String, Option, none, some, List, [], ◌∷◌, ◌++◌, map, length, null,
  if◌then◌else◌, Bool, true, false, leb, ◌==◌, ◌&&◌, ◌||◌, all, codes,
}
use hostctl.Provider.Contracts.{Fault, NotStarted, Step, Provider}
use hostctl.Provider.Selector.{Env, Selector, Request, decline}
use hostctl.Provider.Selector.Select.{selected, not_started, out_of_fuel, select, served}

-- `ENVIRONMENT_NAME.fullmatch`: a letter or `_`, then letters, digits and `_`.
unfoldable pub is_name_start : ℕ → Bool
is_name_start c = (leb b'A' c && leb c b'Z') || (leb b'a' c && leb c b'z') || c == b'_'

unfoldable pub is_name_rest : ℕ → Bool
unfolding is_name_start
is_name_rest c = is_name_start c || (leb b'0' c && leb c b'9')

unfoldable pub is_environment_name : List ℕ → Bool
unfolding is_name_start is_name_rest
is_environment_name [] = false
is_environment_name (c ∷ cs) = is_name_start c && all is_name_rest cs

-- `validate_environment_names`: no exception is raised.
unfoldable pub valid_environment : List String → Bool
unfolding is_environment_name
valid_environment = all (λ key. is_environment_name (codes key))

-- What `_run_with_provider` gives: a result, a decline before dispatch, or another exception.
pub data Attempt {ℓ} (A : Type ℓ) : Type ℓ where
  returned : A → Attempt A
  declined : NotStarted → Attempt A
  raised : Fault → Attempt A

-- One pass of the loop: the provider's name and what its attempt gave.
pub record Tried {ℓ} (A : Type ℓ) : Type ℓ where
  pub name : String
  pub attempt : Attempt A

pub data Outcome {ℓ} (A : Type ℓ) : Type ℓ where
  result : A → Outcome A
  failure : Fault → Outcome A
  no_provider : NotStarted → Outcome A
  unsupported invalid_environment no_fuel : Outcome A

-- A finished call: its outcome, the attempts in order, the steps that the fallback hook was called
-- with, and the selector afterwards.
pub record Run {ℓ} (A : Type ℓ) : Type ℓ where
  pub outcome : Outcome A
  pub tried : List (Tried A)
  pub fallback : Option (List Step)
  pub selector : Selector

-- `select(exclude=excluded)`
unfoldable pub excluding : List String → Request
excluding names = record { capability = none; exclude = names; pin = false }

-- The exception itself, as the cause of its decline.
unfoldable pub as_fault : NotStarted → Fault
as_fault e = record { kind = "OperationNotStartedError"; text = e.reason }

-- The attempts with one more at the end.
unfoldable pub logged {ℓ} : {A : Type ℓ} → List (Tried A) → Provider → Attempt A → List (Tried A)
logged tried p given = tried ++ record { name = p.name; attempt = given } ∷ []

module _ {ℓ} {A : Type ℓ} (env : Env) (attempt : Provider → List (Tried A) → Attempt A) where
  -- `while True` over the selected providers, on fuel.
  unfoldable pub run_loop : ℕ → List String → List (Tried A) → Selector → Run A
  unfolding excluding as_fault decline served
  run_loop zero excluded tried s = record {
    outcome = no_fuel;
    tried = tried;
    fallback = none;
    selector = s;
  }
  run_loop (suc fuel) excluded tried s =
      let (choice, s1) = select 2 env (excluding excluded) s in
      elim choice [
        | out_of_fuel ↦ record { outcome = no_fuel; tried = tried; fallback = none; selector = s1 }
        | not_started e ↦ record {
          outcome = no_provider e;
          tried = tried;
          fallback = none;
          selector = s1;
        }
        | selected sel ↦
            let p = sel.provider in
            elim (attempt p tried) [
              | declined e ↦
                  run_loop fuel (excluded ++ p.name ∷ []) (logged tried p (declined e))
                    (decline p.name e.reason (some (as_fault e)) s1)
              | raised e ↦ record {
                outcome = failure e;
                tried = logged tried p (raised e);
                fallback = served env p s1;
                selector = s1;
              }
              | returned a ↦ record {
                outcome = result a;
                tried = logged tried p (returned a);
                fallback = served env p s1;
                selector = s1;
              }
            ]
      ]

  -- `run`, with the keys of `env`.
  unfoldable pub run : List String → Selector → Run A
  unfolding run_loop valid_environment
  run keys s =
      if null s.providers
      then record { outcome = unsupported; tried = []; fallback = none; selector = s }
      else if valid_environment keys
      then run_loop (length s.providers + 1) [] [] s
      else record { outcome = invalid_environment; tried = []; fallback = none; selector = s }
