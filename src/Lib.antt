-- ===== src/Lib.antt =====
-- NovBot: a node daemon that runs configured probes and sandboxed skills, and a control center.
--
-- The development models the parts that decide something: what a sandboxed skill may reach,
-- which fetch tickets and sessions the center accepts, when a schedule is due, which tags and
-- selectors are well formed, what the retry spool gives back, and which skills a node installs
-- and keeps. A skill's grants (Runtime/Grant) are checked against resolved paths
-- (Runtime/FilePath), by patterns (Runtime/Glob), and the denylist (Runtime/Deny) has the last
-- word; the in-process skill `env_get` (Core/Skill) follows the same rule for sensitive names.
--
-- The files and the code they model:
--   Common, Text         Rust's lists, results and string operations, and their lemmas
--   Runtime/Glob         crates/novbot-skill-runtime/src/path.rs: reject_syntax, valid_path_glob,
--                        segments_match, segment_match
--   Runtime/FilePath     the same file: lexical_normalize, resolve, canonical_pattern, glob_matches
--   Runtime/Deny         crates/novbot-skill-runtime/src/deny.rs: Denylist
--   Runtime/Grant        crates/novbot-skill-runtime/src/grant.rs: GrantSet::parse, check
--   Center/Hub           crates/novbot-center/src/hub.rs: Hub, with histories of its operations
--   Core/Schedule        crates/novbot-core/src/schedule.rs: due_specs, cron_matches, utc_parts
--   Core/Tags            crates/novbot-core/src/tags.rs: validate_center_tag,
--                        classify_declared_tags, normalize_system_value
--   Core/Selector        the same file: parse_selector, its Parser, selector_matches
--   Core/Retry           crates/novbot-core/src/retry.rs: RetrySpool
--   Core/Skill           crates/novbot-core/src/skill.rs: invoke_skill, skill_from_params
--   Node/Package         crates/novbot-node/src/skills/package.rs: normalize_rel (Package), unpack
--                        (Archive), verify_file_hashes, parse_manifest, open_package (Opening)
--   Node/Skills          crates/novbot-node/src/skills/mod.rs: the types, backoff, trim_previous
--     World              the files under skills/ and the parameters; store_verified, verify_active
--     Proto              the policy and the desired set from the messages of the center
--     Install            fetch_package, ensure_cache, seal_store; Attempt has try_install and
--                        install_skill
--     Host               snapshot and should_pull; Boot has SkillHost::open, Reconcile has
--                        reconcile, History has sequences of reconciles and restarts, Run has
--                        run_hub up to the start of the runtime, as start_run; Guards and
--                        Admitted hold the conditions of such a start
-- A node asks for a desired set (Host/Reconcile); every skill of it is downloaded, opened as a
-- package (Node/Package), sealed in the store and made active (Install), and a restart takes
-- over what the store still proves (Host/Boot). Each Examples module holds tests and concrete
-- instances. Definitions keep the names of the Rust functions; a part of a function has a name
-- of its own and says which part it is.
--
-- State. A text is a list of numbers: bytes in the sandbox, code points elsewhere. A PathBuf is
-- the list of its components. The hub is a record of functions from keys, and its operations
-- return the new hub. The disk of a node is a record of maps from digests; an action on it takes
-- the world, the disk with the number of calls to the outside so far, and returns a result and
-- the new world. A host is the record behind its lock. A spool is the text of its file. Mutation
-- of a vector or a map is a new value.
--
-- Parameters. The file system (canonicalize, symlink_metadata, read_link) is the record Fs; the
-- operations of serde_json::Value are the record Json; encoding of reports is a pair of
-- functions; tar, toml, SHA-256, the compiler and the artifact source are the records Codecs and
-- Outside, whose answers may differ from call to call; the clock, the random ticket, the
-- environment and the platform are arguments. Of a running skill only its permit counts: the
-- number of permits in use is an argument of start_run.
--
-- Bounds. No definition needs fuel: loops are structural recursion. The loop of parse_selector
-- and that of value_set run on the number of requirements (16) and values (32) they may still
-- read, which are the limits of the code itself; the loop of install_skill runs on the attempts
-- that are left of its budget. u32 and u64 numbers are native numbers; parsing a number checks
-- the bound of its type, and the year of a date wraps at 32 bits. Days are taken up to the last
-- year that an i32 holds.
--
-- Not modelled: HTTP, gRPC and database code of crates/novbot-center, the session loop and
-- settings of crates/novbot-node, what run_hub answers after a run and the report messages of
-- its skills/mod.rs, the failures of its file operations other than those of seal_store and
-- write_state, its pack_skill and source.rs, the wasmtime glue in host.rs, observe.rs and
-- wasi_deny.rs, the command line tool, the SDK, the protocol and the console, which are I/O,
-- generated or not yet covered; in the modelled files, serde's reading of schedules, Display
-- texts and write_egress_result.
pub mod Common
pub mod Text
pub mod Runtime
pub mod Center
pub mod Core
pub mod Node
