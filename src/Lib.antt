-- ===== src/Lib.antt =====
-- Gitflare is a code forge on Cloudflare: a main Worker with the API, the web pages and a git
-- smart-HTTP proxy, a CI Worker, and git storage in Artifacts. This library models the parts of it
-- that carry its own logic, translated from the TypeScript source.
--
-- Parts and files:
--
--   - Prelude: numbers, lists, texts (lists of UTF-16 code units, or of bytes), digits of
--     numbers.
--
--   - Auth/Rbac: src/server/auth/rbac.ts. A caller's grants and the permission on a repository.
--     Auth/Rbac/Grants states which rules grant what.
--
--   - Git/PktLine: src/server/git/pktline.ts. `decodePktLines` is a loop over the bytes that are
--     left, on as much fuel as there are bytes; each round takes at least four.
--
--   - Git/Refs: src/server/git/refs.ts. `parseRefAdvertisement` reads packets of Git/PktLine;
--     `resolveRefs` splits refs into branches and tags. `localeCompare` is the parameter
--     `locale_after`.
--
--   - Git/Objects: src/server/git/objects.ts. TextEncoder, the digest and the compression are
--     parameters. The header's loop divides the size by 128 in each round, so the size is fuel
--     enough. The size is read as a signed number of 32 bits, as `>>` does.
--
--   - Git/ReceivePack: src/server/git/receive-pack.ts. A push request is packets of Git/PktLine
--     and a packfile of Git/Objects; its report is packets again.
--
--   - Git/Http: src/server/git/http.ts. The handler takes the callbacks and `fetch` as
--     parameters and returns what it does: the response, the minted token, the request to the
--     remote, and whether `onPush` is called.
--
--   - Errors: src/server/errors.ts. `Thrown` is what a `catch` may receive.
--
--   - Auth/Access: src/server/auth/access.ts. `verifyAccessJwt` returns its result and what is
--     put into the cache; what the cache gives is an argument. Decoding, key import and the
--     signature check are parameters.
--
--   - Artifacts/Names: src/server/artifacts/names.ts. Validation, the flat storage name, and its
--     wiki.
--
--   - Ids: src/server/ids.ts. The random bytes are an argument.
--
--   - Ci/Plan: packages/ci-config/src/index.ts. The search of `topoSort` runs on a round of fuel
--     for each step and one more; nested visits are of names that no visit has begun, so that is
--     enough. A JavaScript map keyed by step names is a function into `Option`. `Built` says
--     which plans the builder's handles can make.
--
--   - Ci/Runner: ci/sandbox-runner.ts: runPlanInSandbox and resolvePlan, with Ci/Runner/Answers
--     (its types, waitForReady), Ci/Runner/Checkout (checkout, quote, redact) and
--     Ci/Runner/Steps (runStep). A container's answers are a parameter: the outcomes of the
--     polls that begin before the deadline, of commands and of step streams. Each step is
--     started at most once, so its stream is a function of the step. An exception that the
--     source does not catch is `none`, a rejected line of the sink among them. What the sink
--     gets is kept step by step; the lines of steps of one wave may interleave.
--     Ci/Runner/Outcome says what a run's results mean, Ci/Runner/Shell how a shell splits a
--     command into words.
--
--   - Ci/Emitted: ci/plan-emitter.ts, the reading of the plan that the runner's container
--     prints. JSON.parse is a parameter.
--
--   - Ci/LogStream: src/server/ci/log-stream.ts. The table is the list of its rows in the order
--     of insertion; its queries are functions on that list. Ci/LogStream/Rows is about the order
--     of the rows and what trimming leaves.
--
--   - Diff/Myers: src/server/diff/myers.ts. An index of -1 is a constructor without that index.
--     A frontier is a function from its indices. Diff/Myers/Script says what an edit script
--     between two files is. The loop over the distance runs for the sum of the lengths and one
--     more round, as in the source; the loops along a diagonal run for the number of old lines,
--     or the position they start at, and each round moves on one line.
--
--   - Diff/Hunks: src/server/diff/hunks.ts, over the edits of Diff/Myers. The edits of a range
--     are a slice of the script. Diff/Hunks/Ranges says which positions the ranges hold,
--     Diff/Hunks/Patch what the hunks mean for the two files.
--
-- Strings that the code compares or cuts are lists of code units; a literal is written `codes
-- "..."`.
--
-- Not modelled: the database queries and the services behind them, the web pages, generated
-- protobuf code, and calls of Cloudflare's APIs.
pub mod Artifacts
pub mod Auth
pub mod Ci
pub mod Diff
pub mod Errors
pub mod Git
pub mod Ids
pub mod Prelude
