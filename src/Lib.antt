-- ===== src/Lib.antt =====
-- memoturn: ingest, merge, mirror and guard the telemetry of language-model applications.
--
-- A batch of events is accepted by the API, kept as it came, and processed by the worker: each
-- event becomes a sparse patch of the fields that the client sent, the patches merge field by field
-- into rows of Postgres, and the analytical rows are mirrored from the merged state, after masking
-- and before sampling. Guardrails scan texts on request; code evaluators score outputs; datasets
-- are imported from CSV. The parts that are modelled, with the code of each:
--
--   MutableState  packages/server/src/mutablestate.ts (Upsert: upsertState, the atomic statement;
--                 Patches: extract*Patch and merge*States; StateColumns: the tables' columns),
--                 packages/core/src/events.ts and time.ts (Bodies),
--                 apps/worker/src/processors/ingest.ts (Ingest: the merges of a batch),
--                 packages/server/src/mirror.ts (Mirror: mirror*Row, and the seeds of pruned rows;
--                 Pruning: deleteInChunks, pruneMutableState and pruneProjectState of mutablestate.ts)
--   Pricing       packages/core/src/models.ts: clampTokens, computeCost, providerForModel
--   RegexSafety   packages/core/src/regexsafety.ts: maxStarHeight
--   Masking       packages/server/src/masking.ts: assertSafeUserPatterns, compileMaskers,
--                 applyMasking, setMaskingPolicy
--   Guardrails    packages/server/src/guardrails.ts: scanGuardrails, runEvaluatorGuards,
--                 runModelGuards, checkGuardrails (Policies, Scanning and Judges hold its parts)
--   Sampling      apps/worker/src/sampling.ts: sample, headKeep, applySampling
--   IngestPartition  apps/api/src/ingest-partition.ts: jsonDepth, partitionIngestBatch
--   Csv           packages/core/src/csv.ts, and csvToItems of
--                 packages/server/src/dataset-schema.ts (Items)
--   Expr          packages/core/src/expr.ts: tokenize (Tokens), the class Parser (Parser),
--                 compileExpression (Compile), evalNode, runExpression and the builtins
--   Limits        packages/server/src/ratelimit.ts and apps/api/src/middleware/ratelimit.ts
--                 (RateLimit: checkRateLimit, rateLimit), idempotency.ts (Idempotency),
--                 lock.ts (Lock: withLock as a step relation), over the commands of Redis (Redis)
--   Prompts       packages/server/src/prompt-composition.ts: composePrompt, validatePromptBody and
--                 fillPrompt (Messages)
--   ItemSchema    packages/server/src/dataset-schema.ts: validateSchemaShape, checkPart and
--                 validateItem
--   Alerts        packages/server/src/alerts.ts: the measurement of a rule (anomalyBreach,
--                 ruleValue), Sweep: evaluateAllAlerts and its messages, Budgets: evaluateBudgets
--   Concurrency   packages/server/src/concurrency.ts: mapConcurrent as a step relation
--   Net           packages/server/src/net.ts: isBlockedIp, expandIpv6 and embeddedIpv4 on the texts
--                 of addresses (Literals), assertPublicUrl and isPublicUrl
--   ScoreAnalytics  packages/server/src/score-analytics.ts: confusion, perLabelF1,
--                 listScoreNames, Figures: buildHistogram, correlation, cohensKappa,
--                 getScoreAgreement (Agreement)
--   Json, RegExpEngine, Prelude  values, the regex interface and names that the parts share
--
-- Masking takes the star height from RegexSafety, Guardrails redacts with Masking, Expr guards its
-- `matches` with both, and the mirror prices tokens with Pricing. The alerts send their messages
-- through the concurrency of mapConcurrent to channels that Net guards.
--
-- State is passed explicitly: a table is the list of its rows, and a transaction the fold of its
-- statements in order. Errors are values: an Option or a data type with the code's exceptions. The
-- runs of a locked job on several workers are a step relation, of which each call of the store,
-- each failure of it and each end of a key's lifetime is a step; so are the workers of
-- mapConcurrent, which go on in any order. What a tick of the alerts meets (the answers of the
-- channels, a database that fails to store) is a parameter of the tick. The code of others is a
-- parameter: Redis, with laws, the regular-expression engine, the URL parser, isIP and the name
-- lookup of Node, floating-point numbers (with the laws of their order where a theorem needs them),
-- JSON.parse and JSON.stringify, the wire contract's parser, the judges' settled answers, the
-- compiled tables of injection patterns, the table of model prices and the pages of rows that
-- Postgres chooses for a query with a limit (nothing writes between that query and the deletion).
--
-- Bounds and fuel: the walk of the star height takes one unit of fuel for each character and one
-- more, since each turn consumes a character and the last one sees the end. The stack of the JSON
-- depth takes one for each value and one more, since each turn takes a value off it for good. The
-- tokenizer takes one for each character and the parser six for each token and four more, since at
-- most six calls stand between two reads of tokens. The composition of prompts takes seven, since
-- the depth of the path stops it after six. The test of an address takes two rounds, since the
-- address that an IPv6 text embeds is an IPv4 text. A sweep takes one round more than the rows of
-- its table, since each round but the last deletes a row. The other loops are structural. The step
-- counter of an evaluation is the code's own budget of 20 000.
--
-- Texts are lists of characters or of code units, so a character above U+FFFF is one unit here and
-- two in the program. A date is a count of milliseconds from 1970 on, or invalid. Columns whose
-- header is `__proto__` are not represented. White space is that of the ASCII range, with the
-- no-break space and the byte order mark. The head rate of the sampling is a whole number.
--
-- A call of mapConcurrent that rejects and the edits of alert rules and budgets are left out. Not
-- modelled: the reading of a stored item schema, the deletion of the states of given traces, the
-- mapping of events to analytical rows (whose rows for traces and observations the mirror
-- replaces), the caches in Redis, database queries, HTTP routes, the SDKs and the user interface.
pub mod Prelude
pub mod RegexSafety
pub mod Json
pub mod RegExpEngine
pub mod Masking
pub mod Guardrails
pub mod Net
pub mod Pricing
pub mod Sampling
pub mod ScoreAnalytics
pub mod IngestPartition
pub mod Alerts
pub mod Concurrency
pub mod Csv
pub mod Expr
pub mod Limits
pub mod ItemSchema
pub mod Prompts
pub mod MutableState
