-- ===== src/Lib.antt =====
-- A verification library for the agent runtime `morph`.
--
-- The runtime keeps a list of messages for a model, counts the tokens in it, makes it shorter where
-- it grows too long, lets the model keep plans of steps, checks by rules what goes in and out of a run,
-- reads the answers of model servers as streams of events, and serves a web interface to users with
-- passwords and tokens. The library models these parts, each in the module that is named for it:
--
--   Agent.Plan       src/agent/plan.c, plan.h: the registry of plans, a list of at most 8, each with a
--                    list of at most 32 steps. `create`, `update_step` and `update_step_by_id` are
--                    plan_create, plan_update_step and plan_update_step_by_id: they take the registry
--                    and give the one they leave, or an errno with none changed. `update_at` is the
--                    part of plan_update_step_ptr behind its search for the step.
--   Agent.Context    src/agent/context.c: messages and the count of their tokens.
--   Agent.Tokenizer  src/agent/tokenizer.c: tokenizer_estimate_tokens and classify_utf8.
--   Agent.KeyInfo    src/agent/compress.c: key_info_add and extract_key_info.
--   Agent.Compress   src/agent/compress.c: compress_sliding_window (`sliding_window`),
--                    compress_react_trace (`react_trace`), compress_detect_react_cycles and
--                    compress_summarize (`summarize`); and react_maybe_compress_context of
--                    src/agent/react.c (`maybe_compress`), which runs them on a context.
--   Agent.Patch      src/agent/patch.c: the hunks of a patch and the text that it comes in. Its modules
--                    are Patch.Headers and Patch.Parse, the lines of a patch and patch_parse; Patch.Seek,
--                    seek_sequence; Patch.Apply, compute_replacements, apply_replacements and
--                    patch_build_updated_content, on the contents of a file; Patch.Path,
--                    patch_path_valid; and Patch.Print, a printer of patches for the round trip, which
--                    the source does not have. qsort sorts by insertion.
--   Agent.Guardrail  src/agent/guardrail.c, guardrail.h: the rules. Guardrail.Rules is their table
--                    (`rule_register`, `rule_disable`) and guardrail_run_hook (`run_hook`);
--                    Guardrail.Outcomes and Guardrail.Links are the built-in rules on the tools of a run
--                    and on the links of an answer, each gr_ function without its prefix.
--   Agent.React      src/agent/react.c, react.h: how a run goes on and ends. `track_tool_failure`,
--                    `complete_max_iterations` and `finish` are the react_ functions of these names;
--                    React.Marker finds the marker of a final answer in a text, React.Final is
--                    react_handle_final_response with the rules on the answer and on the input, and
--                    React.Approval is hitl_needs_approval and hitl_add_auto_approved.
--   Http.Sse         src/http/sse.c: the parser of server-sent events; `feed` is sse_parser_feed,
--                    `process` is process_buffer, and `dispatch` is sse_dispatch.
--   Fastcgi.Router   src/sapi/fastcgi/router.c: the table of routes (`routes`), match_pattern, and
--                    router_dispatch. `Services` stands for store_setup_required and auth_check.
--   Fastcgi.Security src/sapi/fastcgi/security.c: Security.Sha256 (sha256_init, sha256_update and
--                    sha256_final; `Standard.standard` is the hash as FIPS 180-4 states it, with
--                    constants and a compression of its own), Security.Hmac
--                    (hmac_sha256, `pbkdf2_sha256`), Security.Hex, Security.Password (fcgi_password_hash,
--                    fcgi_password_verify), and Security.Basic, the header of a user and a password.
--   Fastcgi.Auth     src/sapi/fastcgi/auth.c: auth_check and the cache of tokens, of 256 chains. `Store`
--                    stands for the users of the store and the files of tokens; `Guarded.services` puts
--                    the check behind the router.
--   Util.Utf8        src/util/utf8.c: the decoding and the classes of code points.
--   Util.Id          src/util/id.c: random identifiers, which plans take.
--   Util.Base64      src/util/base64.c: base64_encode and base64_decode.
--   Util.StrMap      src/util/strmap.c: the hash map from strings. `find_slot` is strmap_find_slot,
--                    `set_value`, `get_value`, `contains`, `remove`, `clear` and `cleanup` are
--                    morph_strmap_set, morph_strmap_get and so on; `Valid.IsValid` is its invariant and
--                    `Slots.lookup` the association list that it stands for.
--   Util.Errno       the errno values and results of functions that give a value or one of them.
--   Common           lists, bytes, Boolean tests, integers and bit masks over the native numbers.
--   Tests            the functions and theorems on concrete inputs.
--
-- A compression calls the context for its counts of tokens, the context calls the estimate where a
-- message has no count of its own, and the estimate decodes its text by the code points. A plan takes
-- its id from the identifiers. The rules read the steps of a run and are run on its input, on the
-- results of its tools and on its answer, which ends the run or is asked for again. The check of
-- credentials calls the decoder of the header, and the store calls the check of passwords, which derives
-- its key by the code on the hash. The stream parser, the hash map and the router call none of these.
--
-- A text is a list of bytes without its closing NUL; a linked list or an array with a count is a list;
-- a pointer that may be NULL is an option. What comes from outside is an argument: the functions of
-- vendor/sheredom_utf8.h (`Utf8Library`), the summarizer, the encoder of a tokenizer, the callback of
-- the event parser, the random bytes, the regular expressions of re.h (`Matcher`), cJSON and the model
-- behind a rule (`Backends`), the files that a rule asks for (`Files`), and the time. Allocation
-- succeeds, and the counts stay below INT_MAX.
--
-- Where a loop is not structural it takes fuel. The estimate of tokens moves on by as many bytes as a
-- code point has; it takes one unit for each byte of the text, and each step takes at least one byte.
-- The parsers of a patch take one unit for each line and one more, and every step takes a line. The
-- match of a pattern takes one unit for each byte of the pattern and one more, and every step takes a
-- byte. The search of a hash map takes one unit for each slot, since a vacant slot ends it, and the
-- doubling of a capacity 64, since it starts at 16 and stops at 2^63. The derivation of a key takes one
-- unit for each byte of the key, and every round gives one or more. The scan of an answer takes one
-- unit for each byte and one more, and every link has bytes of its own. The search for a fresh id tries
-- 16 times, as the source does.
--
-- Not modelled: the calls of models and tools in a run, its events and its history, printing
-- (plan_get_formatted), files (also those that a patch is applied to), processes (also that of an
-- external rule), terminals, threads, SQLite, the network, and the vendored libraries.
pub mod Common
pub mod Util
pub mod Agent
pub mod Http
pub mod Fastcgi
mod Tests
