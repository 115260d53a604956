-- ===== src/Host/Lifecycle.antt =====
-- system/_host.py: the connected providers of a host, its closed transports, and the session initializer.
-- Providers and transports are identities. Every method holds the lifecycle lock.
pub mod Close
pub mod Known
pub mod Leaks
pub mod Replace
pub mod Runs
mod Tests
use hostctl.Prelude.{
  ℕ, suc, ◌+◌, Bool, true, false, Option, none, some, List, [], ◌∷◌, ◌++◌, ◌&&◌, ◌||◌, not,
  if◌then◌else◌, map, member, discard,
}
use hostctl.Provider.Contracts.{Fault}

-- What the lifecycle reads and writes of `SystemHost`. `live` lists the transports that are open; it is
-- not in the code. `invalidations` counts the calls that invalidate both selectors.
pub record Host : Type 0 where
  pub executors : List ℕ
  pub paths : List ℕ
  pub connected_providers : List ℕ
  pub closed_targets : List ℕ
  pub connected : Bool
  pub initializer_generation : Bool
  pub initializing : Bool
  pub invalidations : ℕ
  pub live : List ℕ

-- A provider that the session initializer uses, and whether its `connect` raises.
pub record Use : Type 0 where
  pub provider : ℕ
  pub raises : Option Fault

-- A session initializer: the providers its commands use, in order, and what it raises in the end. It may
-- catch the exceptions of single commands.
pub record Initializer : Type 0 where
  pub uses : List Use
  pub raises : Option Fault

-- A method's end: the host, and the exception if there is one.
pub record Done : Type 0 where
  pub host : Host
  pub error : Option Fault

-- What follows a call, unless the call raised.
unfoldable pub unless_raised : Option Fault → Done → Done → Done
unless_raised none failed next = next
unless_raised (some e) failed next = failed

unfoldable pub reverse : List ℕ → List ℕ
reverse [] = []
reverse (x ∷ xs) = reverse xs ++ x ∷ []

-- Some of the transports close.
unfoldable pub without : List ℕ → List ℕ → List ℕ
without [] live = live
without (t ∷ ts) live = without ts (discard t live)

module _ (target : ℕ → ℕ) where
  -- `_note_provider_in_use`; the transport may open behind the operation.
  unfoldable pub note_provider_in_use : ℕ → Host → Host
  note_provider_in_use p h = record h {
    closed_targets = discard (target p) h.closed_targets;
    live = target p ∷ h.live;
  }

  -- A provider has connected: its transport is open and no longer on the closed ones.
  unfoldable pub attached : ℕ → Host → Host
  unfolding note_provider_in_use
  attached p h =
      let noted = note_provider_in_use p h in
      record noted { connected_providers = noted.connected_providers ++ p ∷ [] }

  -- `_ensure_provider_connected` up to the initializer, which runs only if there is no exception.
  unfoldable pub join_generation : Use → Host → Done
  unfolding attached
  join_generation u h =
      if member u.provider h.connected_providers
      then record { host = h; error = none }
      else elim u.raises [
        | some e ↦ record { host = h; error = some e }
        | none ↦ record { host = attached u.provider h; error = none }
      ]

  -- The commands of the initializer: `_initializing` keeps each of them from starting it again.
  unfoldable pub run_uses : List Use → Host → Host
  unfolding join_generation
  run_uses [] h = h
  run_uses (u ∷ us) h = run_uses us (join_generation u h).host

  -- The `except` of `_run_initializer_locked`: the providers close, whatever their `close` raises.
  unfoldable pub initializer_failed : List ℕ → Fault → Host → Done
  unfolding without reverse
  initializer_failed connected e h = record {
    host = record h {
      connected_providers = [];
      initializing = false;
      invalidations = suc h.invalidations;
      live = without (reverse (map target connected)) h.live;
    };
    error = some e;
  }

  unfoldable pub initializer_ended : List ℕ → Option Fault → Host → Done
  unfolding initializer_failed
  initializer_ended connected none h = record {
    host = record h { initializer_generation = true; initializing = false };
    error = none;
  }
  initializer_ended connected (some e) h = initializer_failed connected e h

  -- `_run_initializer_locked`
  unfoldable pub run_initializer : Option Initializer → List ℕ → Host → Done
  unfolding run_uses initializer_ended
  run_initializer none connected h = record { host = h; error = none }
  run_initializer (some i) connected h =
      if h.initializer_generation || h.initializing
      then record { host = h; error = none }
      else initializer_ended connected i.raises (run_uses i.uses (record h { initializing = true }))

  -- `_ensure_provider_connected`
  unfoldable pub ensure_provider_connected : Option Initializer → Use → Host → Done
  unfolding join_generation run_initializer unless_raised
  ensure_provider_connected i u h =
      let joined = join_generation u h in
      let initialized = run_initializer i (u.provider ∷ []) joined.host in
      unless_raised joined.error joined initialized

  unfoldable pub attach_all : List ℕ → Host → Host
  unfolding note_provider_in_use
  attach_all [] h = h
  attach_all (p ∷ ps) h = attach_all ps (note_provider_in_use p h)

  -- `connect`, where the loops over both selectors have connected `ps`.
  unfoldable pub connect : Option Initializer → List ℕ → Host → Done
  unfolding attach_all run_initializer unless_raised
  connect i ps h =
      let opened = attach_all ps h in
      let initialized = run_initializer i ps (record opened { connected_providers = ps }) in
      if h.connected
      then record { host = h; error = none }
      else unless_raised initialized.error initialized
          record { host = record initialized.host { connected = true }; error = none }

  -- `targets` of `_close_locked`: each transport once, by identity.
  unfoldable pub distinct_targets : List ℕ → List ℕ → List ℕ
  distinct_targets [] seen = []
  distinct_targets (p ∷ ps) seen =
      let again = distinct_targets ps seen in
      let first = target p ∷ distinct_targets ps (target p ∷ seen) in
      if member (target p) seen then again else first
