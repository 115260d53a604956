-- ===== src/Lib.antt =====
-- hostctl (src/hostctl): running commands and reading files on hosts over several transports.
--
-- A host is composed of providers (SSH, WinRM, a container engine, the local machine, ...). An
-- ordered selector probes them and picks the first that can serve an operation; a command that no
-- transport has started moves on to the next provider. A shell flavour renders the command as text
-- for the shell of the target.
--
-- Provider/Contracts: src/hostctl/provider/_contracts.py (`ProviderProbe`, `SelectionStep`,
--   `_Provider.probe`) and `OperationNotStartedError` of exceptions.py.
-- Provider/Selector: src/hostctl/provider/_selector.py. The record `Selector` holds the fields of
--   `ProviderSelector`, as one thread sees them: the trace is the calling thread's. Dictionaries are
--   association lists in insertion order. `select` and `readmit` (`_readmit_earlier_declines`) are in
--   Provider/Selector/Select. What a provider's probe hook answers, and the redaction of texts by
--   regular expressions (`redact`), are the two functions of the record `Env`: the theorems hold for
--   every such pair. The field `sent` logs the probes and is not in the code. `select` calls itself;
--   the model gives that call fuel for two passes, since a readmitted decline is gone in the second.
--   Locks and log lines are not modelled.
-- Provider/Failover: the loop of `SystemHost.run` in src/hostctl/system/_host.py. What
--   `_run_with_provider` does is the argument `attempt`, a function of the provider and of the
--   attempts before it. The loop has fuel for one pass more than there are providers, since a pass that
--   goes on excludes one more of them.
-- Provider/Connect: `SystemHost._connect_locked` of the same file, for a host that is not connected and
--   up to the session initializer. What a provider's `connect` does is the argument `hook`, a function
--   of the provider and of the calls before it; each of the two loops has fuel for one pass more than
--   there are providers, since a pass that goes on excludes one more of them.
-- Executor/Lease: `StreamLease` and `LeaseToken` of src/hostctl/executor.py. Token objects are indices
--   into a list of their `ended` marks; the calls of all threads form one sequence, as the guard
--   makes them.
-- Console/Stream: `_ReaderThreadStream` of src/hostctl/console/_stream.py. The pump's thread and the
--   readers share a condition variable, so a run is a sequence of steps, the relation `Reach` of
--   Console/Stream/Steps; how long a wait takes is left open.
-- Console/Frame: `_Frame` of src/hostctl/console/_posix.py. The loop of `feed` is a chain of functions,
--   one for each state that it goes on from, so it needs no fuel; a byte is a number, and an offset of the
--   buffer a position in a list. Console/Frame/Advance is the same parser without positions, and
--   Console/Frame/Collect the reading loop of `execute`, for a stream that is the list of its chunks. A
--   regular expression is a function that says what it matches. Python's limit on the digits of an `int` is
--   not modelled.
-- Console/Typed: `_typed_batches`, `_b64` and `_halves` of the same file; Console/Typed/Writes has the
--   pieces that `_type` writes. A number is printed with as much fuel as its value, and a text is cut into
--   slices with as much fuel as its length: each step takes a digit or a character at the least.
-- Console/Acknowledged: the loop of `_acknowledged`, over the chunks of the stream.
-- Console/Echo: the lines of Console/Typed, whose echo comes back on the same stream, against the markers
--   of Console/Frame. A token is what `uuid4().hex` gives: hexadecimal digits.
-- Container/Archive: `_ChunkReader.readinto`, `_safe_name` and `_posix_mode` of
--   src/hostctl/transports/container/_archive.py. Docker's iterator is the list of its chunks, which
--   does not fail.
-- Host/Timeout: src/hostctl/host/_timeout.py. A number is a sign and a size in some fixed unit, an
--   infinity or NaN. Host/Timeout/Config has the transports' defaults and the deadlines of `run()`,
--   Host/Timeout/Uri the query of a connection URI with `_seconds_text` of src/hostctl/uri/_parse.py, where
--   Python's `str`, `repr` and `float` of numbers are the functions of the record `Conversions`.
-- Host/Dispatch: `_run_with_provider` and `_render_dispatch` of src/hostctl/system/_host.py with
--   src/hostctl/shell/_invocation.py and `starts_direct_command` of src/hostctl/shell/_grammar.py, up to
--   the call of `execute`. The flavour's `script` is that of Shell/Script; its `command`, `invocation` and
--   `quote` are fields of the record `Shell`. The mask of displayed values is an argument.
-- Host/Lifecycle: `_ensure_provider_connected`, `_run_initializer_locked`, `_note_provider_in_use`,
--   `connect`, `close` and, in Host/Lifecycle/Replace, `replace_providers` of the same file. Providers and
--   transports are numbers, since the code goes by their identity. The field `live` lists the open
--   transports and is not in the code. The providers that `connect` connects are an argument here;
--   Provider/Connect says which they are. A session initializer is the list of the providers it uses; one
--   that closes the host or replaces its providers is not modelled, nor is an operation of a path from
--   before its providers were replaced, which goes to a provider that the host no longer has.
-- Paths/Routing: `_dispatch` and `_providers_in_order` of src/hostctl/paths/_mixin.py for a path that has
--   a selector. What `connect`, the building of the backend path and the callback do together is the
--   argument `attempt`, a function of the provider and of the attempts before it. The loop has fuel for
--   one pass more than there are providers, since each pass excludes one more of them.
-- Uri/Query, Uri/Redact, Uri/Credentials: `strict_uri_query`, the fallback of `redact_uri` for a URI that
--   does not parse, and `parse_credentials` of src/hostctl/uri/_parse.py. The pairs of a query are those
--   that `parse_qsl` gives; `str.casefold` is an argument.
-- Shell/Text, Shell/Quote: `_text` of src/hostctl/shell/_flavour.py and `quote` of
--   src/hostctl/shell/_posix.py and src/hostctl/shell/_fish.py.
-- Shell/Login: `login_join` of src/hostctl/shell/_vocabulary.py.
-- Shell/Script: `ShellFlavour` of src/hostctl/shell/_flavour.py. What a flavour overrides is a field of
--   the record `ShellFlavour`; a value is its text. Shell/Script/Joining is the loop of `join`, one
--   function for each of its branches, Shell/Script/Context is `script`, and Shell/Script/Flavours has
--   the flavours of src/hostctl/shell/_posix.py and src/hostctl/shell/_fish.py, with `command` and
--   `posix_cwd_operand`. An exception is the value `err` with its class.
-- Shell/Cmd/Command: the structured commands, scripts and command lines of src/hostctl/shell/_cmd.py.
--   `str.casefold` is an argument.
-- Shell/Cmd: the quoting of src/hostctl/shell/_cmd.py. Shell/Cmd/Caret says how cmd takes carets off a
--   line, Shell/Cmd/Crt how a child's C runtime reads an argument, Shell/Cmd/Operand how a builtin
--   reads one, Shell/Cmd/Expansion and Shell/Cmd/Batch how cmd and a program read an argument of a batch file,
--   and Shell/Cmd/Target puts them together; these are the rules that the module's comments rely on,
--   not code of the repository. What `str.isalnum` says beyond ASCII is the argument `unicode_alnum`.
-- Shell/Reader: how sh, zsh and fish take a line apart into words; these readers are not code of the
--   repository. They stand for the documented quoting rules of the shells and refuse every
--   construct other than plain words.
--
-- Not modelled: the transports themselves (network, subprocess, terminal), the command line, the
-- deploy bundles, the operations of paths on a host, PowerShell, and of the console profiles the deadlines,
-- failing streams and the login dialogue.
pub mod Prelude
pub mod Provider
pub mod Console
pub mod Container
pub mod Executor
pub mod Host
pub mod Paths
pub mod Shell
pub mod Uri
