-- ===== src/Lib.antt =====
-- A verification library for borromeanRings (src/meta_harness): the deterministic core that a Stop
-- hook, a gate run and the portfolio view rely on.
--
-- The program. A gate run (verify.sh) executes checks and persists one verdict: `verdict.py` keeps
-- the statuses of the checks, the risk band and a history with one JSON record on each line, and
-- `evidence.py` the per-check evidence and the intent inside it. `ledger.py` aggregates the
-- history. The Stop hook asks `change_detect.py` whether the gated inputs are those of the last
-- green run, and where a gate fails it counts the failure through `retry_state.py`, which answers
-- `retry`, `escalate` or `unrecorded`. Both keep their state outside the governed tree, where
-- `state_home.py` locates it. `closure.py` computes the distributions that the supply-chain checks
-- judge. `receipts.py` seals the receipt of each check and verifies a run's directory of them,
-- `lane.py` says which runs are narrowed, `hook_dedupe.py` keeps a hook that is registered twice
-- from running twice, and `generator.py` decides what the headless loop of generation and gate does
-- next. `trunk_policy.py` guards the branches: a hook asks it, before a shell command runs, whether
-- a git invocation in the command would write a protected branch, through aliases too
-- (`trunk_aliases.py`). `architecture.py` and `coupling.py` judge the import graph of a package.
-- `rewrite_contract.py` judges whether the reply in a session's transcript opened with its reading
-- of the prompt, and records it in the file that `verdict.py` tallies. `charter.py` validates the
-- written terms of a delegation, and `adopt.py` plans which checks a project adopts. `api_diff.py`
-- finds the breaking changes between two versions of an interface, and `executor.py` the
-- differences between two receipts of one check. `git_identity.py` judges the identity that the
-- configuration, the authors of commits and a command's own overrides state. `quotes.py` verifies
-- that each marked quotation of a document stands in the source that its marker names, and
-- `provenance.py` finds the runs of words that a changed text shares with a source and no phrase of
-- the allowlist covers.
--
-- The files.
--   Base            lists, tests, texts as code points, decimal numerals, shared lemmas
--   Json            decoded JSON values, what `json.loads` hands over
--   Gate/Status     verdict.py: failing statuses and the risk band
--   Gate/Evidence   evidence.py: Evidence, Intent, their records and the tolerant reading of them
--   Gate/Verdict    verdict.py: Verdict, to_dict, _parse
--   Gate/History    verdict.py: read_history and append_history over the text of the file
--   Ledger          ledger.py: summarize_history, the rows of main, the counts of summarize
--   StateHome       state_home.py: state_root, project_digest, project_state_dir, is_inside
--   Retry/Count     retry_state.py: parse_count, decide, _read_counter
--   Retry/Legacy    retry_state.py: the counter inside the tree that is merged and retired
--   Retry/Session   retry_state.py: session_filename, legacy_name
--   Retry/Hook      retry_state.py: read_attempts, record_attempt, record_failure, clear
--   Change/Inputs   change_detect.py: _iter_files, _gated_paths, compute_state_hash
--   Change/Record   change_detect.py: _state_path, read_last_green, record_green, should_skip_gate
--   Closure         closure.py: requirement strings, _children, installed_closure
--     /Declared     declared_requirements, _strings, project_closure
--   Gate/Label      verdict.py: status_label
--   Gate/Latest     verdict.py: write_last_verdict, read_last_verdict
--   Gate/Advisory   verdict.py: advisory_failures, hollow_outside
--   Gate/Tally      verdict.py: the tallies, _count_statuses, append_self_report_record
--   Generator       generator.py: next_action, read_generator, evidence_writes, verdict_mismatch
--   HookDedupe      hook_dedupe.py: claim and release of a marker
--   Lane            lane.py: the lane, its paths, their label and the arguments they become
--   Receipts        receipts.py: finalize_receipt, verify_receipt, resolve_log_path, verify_dir
--   Words           the methods of `str` that the sources use on words
--   Trunk/Command   trunk_policy.py: located_invocations, git_globals, git_subcommand
--   Trunk/Arguments trunk_policy.py: _long_push_flag, _short_push_flags, _push_words
--   Trunk/Push      trunk_policy.py: _destination, push_spec, _push_violation
--   Trunk/Rewrites  trunk_policy.py: _branch_violation, _switch_violation, _update_ref_violation
--   Trunk/Config    trunk_aliases.py: _config_pairs, inline_aliases
--   Trunk/Aliases   trunk_aliases.py: resolve_alias
--   Trunk/Planted   trunk_aliases.py: alias_write_violation, args_name_protected, alias_floor
--   Trunk/Guard     trunk_policy.py: _invocation_violation, branch_policy_violation
--   Architecture    architecture.py, coupling.py: the import graph
--     /Imports      _referenced_heads, _imported_siblings, build_import_graph
--     /Cycles       find_cycles
--     /Contracts    leaf_violations, private_violations, forbidden_violations, evaluate
--     /Coupling     fan_out, fan_in, worst_fan_out
--   Rewrite         rewrite_contract.py
--     /Assess       is_trivial, assess_reply
--     /Transcript   parse_entries, find_last_exchange
--     /Tail         read_tail
--     /Recorded     evaluate_transcript, record_from_payload
--   Charter         charter.py: validate
--     /Parse        parse_charter, load_charter
--   Adopt           adopt.py: plan_adoption, infer_package, coverage_seed
--     /Required     rewrite_required
--   ApiDiff         api_diff.py: public_api, breaking_changes
--   Executor        executor.py: receipt_differences
--   Identity        git_identity.py: required_identity, configured_violation, author_violations
--     /Command      git_invocations, _subcommand_of
--     /Overrides    _override_in_arg, _config_env_pairs, _overrides_in
--     /Guard        command_override_violation
--   Quotes          quotes.py: Marker, Quotation
--     /Match        normalise_lines, matches
--     /Extract      _Scan, extract
--     /Verify       _load, _judge, verify
--   Provenance      provenance.py
--     /Shingles     shingles, is_allowed, _normalized_allow
--     /Index        _source_index
--     /Compare      compare, overlaps
--   Examples        tests and the theorems at concrete inputs
--
-- A child that is not listed here and is named for what it proves (Bands, Persisted, Growth,
-- Streak, Inside, Printed, Names, Bound, Run, Outcomes, Effects, Digest, Skip, Reach, Fuel, Extras,
-- Watch, Decisions, Claims, Narrowing, Sealed, Intact, Totals, Outside, Kept, Glued, Depth, Exact,
-- Spellings, Expanded, Refusals, Layers, Gray, Closed, Ends, Worst, Judged, Last, Numbered,
-- Counted, Accepted, Settled, Compatible, Agreeing, Cuts, Declared, Stated, Occurs, Covers, Blocks,
-- Entries, Sound, Cached, Found, Unlisted, FirstLine, Bounded, Appended, Bounds, Recorded,
-- Arguments, Asked, Steps, Lines, Again, Landed, Readable) has the proofs about its parent.
--
-- How state is modelled. A file is its text, or a reason why it cannot be read; the state outside
-- the tree is a function from paths to files, and the operations pass it on. Writing and removing
-- succeed where the world says so. An exception is a value (`Except`): `unavailable` is
-- StateUnavailable, and `value_error` a ValueError, which `int` raises for a numeral of more than
-- 4300 digits and reading for text that is not UTF-8. A path is the list of its components. What
-- the governed agent can write (the counter of older versions inside the tree) is an arbitrary
-- value before each operation.
--
-- Fuel. The walk of Closure takes fuel, one for each entry that is taken off the list. Where the
-- distributions that can be met are finitely many names, each with at most `width` children, fuel
-- above `names * (width + 1) + seeds` is enough. The digits of a number `n` are written with fuel
-- `n + 1`, since each digit divides it by ten. The search for git invocations takes fuel for how
-- deep `sh -c` is nested, and a command has fewer levels than characters. The same holds of the
-- search that looks for stated identities. The search for import cycles is as deep as the graph has
-- modules at most. The eight aliases and the four shell aliases that are followed are the source's
-- own bounds. Everything else recurses on its input.
--
-- Parameters, for what is not code of this repository: the JSON codec (`json.dumps` and
-- `json.loads`, with what is relied on stated as a record of laws), `repr` of a decoded value,
-- SHA-256, `os.path.realpath`, `Path.exists` and `Path.resolve`, UTF-8 encoding, `str.lower`,
-- `str.upper`, `str.isidentifier`, `keyword.iskeyword`, `repr` of a float, the word characters of
-- `re`, `metadata.requires`, what `tomllib` reads, and the lexer of `shlex`, `fnmatch` and
-- `os.path.normpath` (a record of functions, `Shell`). The identity guard takes its lexer and the
-- two expressions that it asks where lexing fails (`Lexer`), quotations the groups of a marker and
-- the numbers of its digits (`Reader`), and both quotations and provenance the alphanumeric
-- characters. The resolver of a quotation's source is any function that passes on a state of its
-- own. What `ast` parses is given as nodes. The time of the hook dedupe is a number of ticks.
--
-- Not modelled: the shell scripts and checks, which run tools; command lines (`main`); the
-- temporary file and the directories that a write makes, and the closing of file descriptors; the
-- merge policies and the reports of the other modules of src/meta_harness, which judge
-- measurements, git's output and parsed sources and keep no state; expressions over Markdown, and
-- the masking of logs. The expressions of `rewrite_required` are anchored at lines, so its text is
-- modelled as lines. A record of the last green state whose text is not UTF-8 has no
-- representation. Numerals of more than 4300 digits raise a ValueError in the retry counter and in
-- the rewrite contract; in a history file, in a tally of records and in a quotation marker they are
-- left out, and so is the UnicodeEncodeError for the digest of a prompt that has a lone surrogate.
pub mod Base
pub mod Json
pub mod Gate
pub mod Ledger
pub mod StateHome
pub mod Retry
pub mod Change
pub mod Closure
pub mod Generator
pub mod HookDedupe
pub mod Lane
pub mod Receipts
pub mod Words
pub mod Trunk
pub mod Architecture
pub mod Rewrite
pub mod Charter
pub mod Adopt
pub mod ApiDiff
pub mod Executor
pub mod Identity
pub mod Quotes
pub mod Provenance
pub mod Examples
