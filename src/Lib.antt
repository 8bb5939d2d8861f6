-- ===== src/Lib.antt =====
-- A model of the verification engines of OpenAuditModel, and proofs of what they promise.
--
-- An audit event is a JSON value. An event can be sealed: its `integrity` object declares a hash of
-- the event's canonical form without the hash and the signature. Events form chains by the hash of
-- the event before them, a checkpoint records the head of a chain, a Merkle tree proves that a digest
-- is among others, and a profile adds requirements to events that the core schema admits.
--
-- Files, and the code that they model (paths from the root of the repository):
--   Common             lists, texts, sorting, grouping and counting that the components share.
--   Json               the JavaScript values that the engines read, with records as ordered
--                      properties; Json/Pointer is conformance/src/profiles/resolve-pointer.ts, and
--                      `pointer_segment` the escaping in conformance/src/integrity/canonicalize.ts.
--   Integrity/Types, Findings
--                      conformance/src/integrity/types.ts: algorithms, findings, checks, results.
--   Integrity/Hex, Digest
--                      conformance/src/integrity/digest.ts: `isHexDigest` is `is_hex_digest`,
--                      `digestsEqual` `digests_equal`, `buildDigestInput` `build_digest_input`,
--                      `calculateDigest` `calculate_digest`, `sealEvent` `seal_event`.
--   Integrity/Canonicalize
--                      conformance/src/integrity/canonicalize.ts: `assertJsonValue`, `canonicalize`.
--   Integrity/Merkle   conformance/src/integrity/merkle.ts: `merkleRoot`, `auditPath`,
--                      `expectedSides`, `rootFromPath`.
--   Integrity/Signature
--                      conformance/src/integrity/signature.ts: `verifySignature` and the keys that it
--                      refuses; Signature/Document the signature that a document declares.
--   Integrity/Base64   the same file's test of a base64 value, and `Buffer.from` of such a value.
--   Integrity/Event    conformance/src/integrity/verify-event.ts: `verifyEventIntegrity`, one function
--                      for each stage between two of its returns.
--   Integrity/Chain    conformance/src/integrity/verify-chain.ts: the parts of `verifyOneChain`, which
--                      is in Chain/Verify; the intake and `verifyChains` are in Chain/Intake.
--   Integrity/Checkpoint
--                      conformance/src/integrity/verify-checkpoint.ts: what is read and indexed;
--                      `compareClaim` and `verifyCheckpoint` are in Checkpoint/Compare.
--   Integrity/Proof    conformance/src/integrity/verify-proof.ts: `verifyProof`.
--   Profiles           conformance/src/profiles: types.ts, select-rules.ts (Rules), evaluate-rule.ts
--                      (Evaluate), check-profile.ts (Check), coverage.ts (Coverage).
--   Versions           conformance/src/validator-interface.ts: the dispatch on the declared version.
--   Mcp/OutputSafety   mcp/src/output-safety.ts: the limits on events; Json/Stringify is the
--                      `JSON.stringify` that they measure with.
--   Mcp/Config         mcp/src/config.ts: `loadConfig` is `load_config`, a thrown error a value.
--   Mcp/HttpServer     mcp/src/http-server.ts and mcp/src/logging.ts: the guards and routes of
--                      `createHttpApplication` are `admit`, a request with its answer and its log lines
--                      `respond`.
--   Privacy/SizeAnalysis
--                      conformance/src/privacy/size-analysis.ts: `profileValue` is `profile_value`, its
--                      `walk` `measure`, and `exceededSignals` `exceeded_signals`.
--   Privacy            conformance/src/privacy: rules.ts and types.ts (Rules, Tally), safe-formats.ts
--                      (SafeFormats), token-patterns.ts and entropy.ts (TokenPatterns),
--                      url-analysis.ts (UrlAnalysis), field-names.ts (FieldNames), redact-key.ts
--                      (RedactKey), traverse.ts (Traverse: `visits` is its `walk`), lint-event.ts
--                      (LintEvent, and LintEvent/Report from what is collected to the result).
--   Privacy/SchemaIssues
--                      conformance/src/format-errors.ts: `toIssues` is `to_issues`, from the errors that
--                      Ajv gives, and `describe` its wording.
--   Sources            conformance/src/sources.ts: `readLines` is `read_lines` over the reads of a
--                      descriptor, and what it yields a value of `Lines`; Sources/Stream has
--                      `streamFile` and the loads.
--   Cli                conformance/src/cli.ts: the exit codes; `streamInput` is `stream_input` with what a
--                      command keeps as its state, and the commands are in Cli/Commands. Cli/Run is
--                      `run`, from what `parseArgs` gives.
--   Tests              concrete runs.
-- The other modules below these hold proofs.
--
-- Parameters. The hash functions are a record `Hash`: a digest of the algorithm's length, made of
-- bytes, for every input. The package `canonicalize`, `crypto.verify`, the compiled schemas (a
-- `Validator`), `localeCompare`, and what Privacy/Platform names (the URL parser, `toLowerCase`,
-- base64 with `JSON.parse`, the entropy in floating point), Sources/Stream (files, `JSON.parse`), Mcp
-- (`Number`, the decoder of a body, `JSON.parse`, the handler of the protocol) and `Machine` of Cli
-- (paths, `loadProfile`, the reading of a key) are functions of which nothing is assumed. What the
-- hash functions should resist is stated as a `Collision`: two different inputs with one digest, each
-- of them an input that the code hashes, where the statement names what hashes it.
--
-- Numbers. A number is what the code tells apart of it: -0, the other integers without a bound, and by
-- its text a fraction or a number that is not finite. So the rounding of integers above 2^53 is not
-- modelled. Sequences are natural numbers.
--
-- Fuel. `splitPoint` and the recursions over the tree take the number of leaves as fuel; Merkle/Split,
-- Merkle/Total, Merkle/Routes and Merkle/Ends show that it is enough. Everything else is structural
-- recursion.
--
-- Not modelled: the wording of messages and details, but for schema issues; functions, symbols and
-- objects with a prototype of their own as values; lone surrogates in texts; reading PEM keys;
-- profile loading; what the command line prints; the tools and resources of the MCP server; the
-- generated validators.
-- Where `verifyCheckpoint` or `verifyProof` throws, or reads a document that its schema excludes, the
-- model has `none`.
pub mod Common
pub mod Json
pub mod Integrity
pub mod Profiles
pub mod Versions
pub mod Mcp
pub mod Privacy
pub mod Sources
pub mod Cli
mod Tests
