-- ===== src/Lib.antt =====
-- Praecepta, a framework for event-sourced applications with many tenants: a model of its domain
-- logic and of the services around it. The paths below are from the repository's root.
--
-- The parts, and where they are modelled:
-- - Prelude (with Int), Text, Dict: Python's integers, texts and dictionaries as the code uses them. A
--   text is a list of code points; a dictionary is an association list in the order of insertion.
-- - Errors: packages/foundation-domain, exceptions.py. A call that may raise gives a `Result`.
-- - ValueObjects: tenant_value_objects.py, agent_value_objects.py and user_value_objects.py of
--   packages/foundation-domain. The patterns are functions by recursion on the text; `$` also matches
--   before a final newline, as in Python.
-- - Tenant, Agent, User: the aggregates of packages/domain-tenancy (tenant.py) and of
--   packages/domain-identity (agent.py, user.py). A command gives the event that it triggers or an
--   exception; `mutate` is the body of the `@event` methods. The eventsourcing library runs that body
--   when the event is triggered and again when the aggregate is rebuilt; `run` and `replay` do this.
-- - Registry: oidc_sub_registry.py of packages/domain-identity and slug_registry.py of
--   packages/domain-tenancy, each SQL statement as a function of the table, with the primary key.
-- - Provisioning: user_provisioning.py of packages/domain-identity. `ensure_user_exists` is the whole
--   call, with what other processes do before each of its steps and which writes raise, before or after
--   they are committed, as arguments;
--   Interleaving is a step relation for any number of callers. The retry makes the five attempts of the
--   code, so its fuel is the code's own bound.
-- - Config: config_service.py, resource_limits.py and policy_binding.py of
--   packages/foundation-application, with config_repository.py of packages/domain-tenancy and
--   config_value_objects.py of packages/foundation-domain. The cache is an interface with laws: an entry
--   may vanish, but what is read back is the last value set since the key was deleted. Hybrid
--   is config_cache.py of packages/infra-eventsourcing, two such stores one behind the other, for one process.
-- - Auth: packages/infra-auth, middleware/api_key_auth.py, middleware/jwt_auth.py, dev_bypass.py, pkce.py and
--   api_key_generator.py; issue_api_key.py and rotate_api_key.py of packages/foundation-application;
--   agent_api_key_repository.py and projections/agent_api_key.py of packages/domain-identity.
-- - ReadModel: tenant_repository.py, projections/tenant_list.py and projections/tenant_config.py of
--   packages/domain-tenancy, and middleware/tenant_state.py of packages/infra-fastapi; UserProfile is
--   user_profile_repository.py and projections/user_profile.py of packages/domain-identity.
-- - Projections: projections/subscription_runner.py and projection_lifespan.py of
--   packages/infra-eventsourcing, with what the code does to the runners of the library as a trace.
-- - Web: error_handlers.py of packages/infra-fastapi, the sanitising of the context of an exception.
-- - CodeIntel: packages/infra-codeintel. Packing is assembly/packing.py: its binary search runs on fuel, the
--   number of chunks, which is more than the distance of its two ends. Structural is
--   index/structural_index.py over DiGraph, networkx as an interface with laws; the search for dependencies
--   has a round for each node as its fuel, and each node enters its queue once. Scores and Fusion are
--   assembly/ranking.py over an interface of floating-point numbers, Files is assembly/hydration.py, Assembly
--   is the query of assembly/context_assembler.py with the schemas, Extraction is
--   extraction/semantic_extractor.py over a syntax tree as data, and Pipeline is
--   watcher/incremental_pipeline.py with the writes of index/semantic_index.py, and Watcher is the handler of
--   watcher/file_watcher.py. Listed is test data.
--
-- How they interact: provisioning reserves in the registry, saves a user and confirms; the handlers of
-- API keys call the agent and save it, the projection is to copy its keys to the table, and the
-- middleware reads that table; the projections of the tenants write the tables that the gate and the
-- configuration service read; limits, flags and policies all read through the configuration service.
-- The pipeline writes what the extractor reads from the tree into the semantic index and the tags into the
-- structural index; a query ranks the names of both, gathers chunks, expands and hydrates them and packs.
--
-- Parameters, for what the repository leaves to a library: the bcrypt hash and check, the decoding of a
-- JWT, the parsing of a UUID, Python's `str` and `int` of a text, the regular expressions that redact
-- texts, the SHA-256 digest, the token encoder of tiktoken, and the identifiers, random texts and times
-- that the code draws; networkx's graph and PageRank, the table of LanceDB, the parser of tree-sitter,
-- the disk, fnmatch and pathlib's view of paths, which runners of projections can be entered, floating-
-- point arithmetic, and the order in which Python iterates over a set.
--
-- Not modelled: logging and tracing, the wiring of the web framework and of the worker, start-up and
-- connection code, the thread that watches the projections, the OIDC client and the key provider,
-- and of codeintel the parser, the observer of the disk, the storing of the index and the surfaces.
pub mod Prelude
pub mod Text
pub mod Dict
pub mod Errors
pub mod ValueObjects
pub mod Tenant
pub mod Agent
pub mod User
pub mod Registry
pub mod Provisioning
pub mod CodeIntel
pub mod Config
pub mod Auth
pub mod ReadModel
pub mod Web
pub mod Projections
