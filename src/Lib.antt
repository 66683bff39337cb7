-- ===== src/Lib.antt =====
-- A verification library for open-transcribe-mcp, a server that sends audio to transcription services.
-- A request (src/open_transcribe/domain) is routed to an ordered list of models
-- (src/open_transcribe/routing), whose providers come from a registry (src/open_transcribe/providers)
-- under the settings and the policy of the installation (src/open_transcribe/settings.py and policy.py).
-- The audio is fetched from a URL that is checked against requests to private destinations
-- (src/open_transcribe/security/ssrf.py, src/open_transcribe/sources), and a finished transcript is
-- stored and read in chunks through signed cursors (src/open_transcribe/result_store).
--
-- Which file models which part:
--   Domain         domain/*.py: requests, descriptors, transcripts; an exception is a value of `Result`
--   Settings       settings.py: the settings, `validate_security` and `_validate_stores`
--   Policy         policy.py
--   Providers      providers/registry.py, pricing.py, what the adapters tell of their models, and in
--                  Retry the retry loop of providers/base.py, for three sends as in the source;
--                  Normalization is providers/normalization.py
--   Routing        routing/router.py: Candidate, Order and Route define, the others prove
--   ResultStore    result_store: Cursor, Chunks, Memory
--   Sources        security/ssrf.py in Ssrf; sources/resolver.py in Download, Fetch and Broker
--   Service        service.py: Attempts, Limits and Transcribe define, the others prove
--   Security       security/auth.py: the bearer middleware and the claim check
--   Desktop        desktop: Journal (journal.py), Tempaudio (the sweep of tempaudio.py), Schema (schema.py
--                  and the load of store.py), Credentials, CleanupTimer, Providers, Runtime, and
--                  Clients with a client's JSON file in JsonStore and the edits of its TOML text in
--                  TomlStore; Setup is setup.py, with its plan in Planning, its steps in Steps, the
--                  phases in Phases, `apply` in Apply, `disconnect` and `erase` in Lifecycle; its
--                  other files prove
--   Base           Python's dictionaries, JSON, comprehensions, texts and floats
--   Tests          concrete runs
--
-- A Python float of the program is finite and not negative; it is kept as a multiple of 2 ^ -1074, as
-- every double is one, and sums of times are exact. A text is a native text, or the list of its code
-- points where it is cut or compared. Loops over lists are structural. Fuel is used
-- three times: the client's loop in ResultStore.Chunks.Reading (one call more than the text has
-- characters is enough), the redirects in Sources.Fetch (one more than `max_redirects`, the range of the
-- source; the last redirect is refused before the fuel ends), and the three sends of Providers.Retry.
--
-- The desktop's setup changes one world: the configuration as it is loaded, the keyring, the journal's
-- file with how each save of it will end, the timer's units and the client's configuration. A phase goes
-- on, returns an outcome early, or raises; what the keyring refuses, whether the lock is free, how the
-- save of the configuration ends (done, refused with the old file in place, or failed after the new one
-- was put there) and the probe of the engine are arguments.
--
-- HMAC, base64, the printers and parsers of JSON and TOML, `urlsplit`, IDNA, the resolver, the clock,
-- systemctl, and each adapter's exchange with its service are arguments. Not modelled: the bounds that
-- pydantic checks field by field, the S3 store, the registration of the tools, logging, the adapters'
-- exchanges, and of the desktop application (src/open_transcribe/desktop) the window, the diagnostics, the
-- paths and their permissions, the plan of a client in TOML, the clients that are discovered or are
-- configured by a command, and an OSError while a unit or the configuration is removed.
pub mod Base
pub mod Domain
pub mod Settings
pub mod Policy
pub mod Providers
pub mod Routing
pub mod ResultStore
pub mod Sources
pub mod Security
pub mod Service
pub mod Desktop
pub mod Tests
