-- ===== src/Lib.antt =====
-- The policy core of BartShare: deciding who may download what by running attribute-based rules in
-- an external engine. A user has attributes and rules in the `.bart` language; the backend prints
-- them as policies, finds which parties a decision needs, assembles their policies and contexts, asks
-- the evaluator service and reads its answer back. The frontend edits the same rules as text.
--
-- Which file models which part (paths from the repository's root, one child module per group of
-- lemmas beside each):
--   Attrs        app/backend/src/bart/types.ts: the values and attribute objects
--   Emitter      app/backend/src/bart/emitter.ts: emitAttrs, emitPolicy, emitRequest; its names,
--                numbers and keywords in Emitter/Grammar, stripComments in Emitter/Comments
--   Reserved     app/backend/src/bart/reserved.ts: validateAttrs, validatePartyPattern
--   Matcher      app/backend/src/bart/matcher.ts: bagsEqual, valuesEqual, matches
--   Closure      app/backend/src/bart/closure.ts: partyClosure
--   Coverage     app/backend/src/bart/coverage.ts: nearestGap
--   Context      app/backend/src/bart/context/index.ts: mergeContributions, buildContextTuple; the
--                three providers in Context/Providers; report.ts in Context/Report
--   Evaluator    app/backend/src/bart/evaluator.client.ts: call, rejection, mapEvaluatorError and the
--                endpoints
--   Assembly     app/backend/src/bart/assembly.ts: callBlaming, assemblePolicySystem,
--                evaluateAssembled
--   Access       app/backend/src/bart/access.service.ts: decideAccess, decideCustomAccess, toDecision
--   Shared       app/backend/src/bart/shared.service.ts: decideSharedWith
--   Rules        app/backend/src/bart/rules.validation.ts: validateUserRules
--   Workers      app/backend/src/utils/general.utils.ts: mapWithConcurrency, with a schedule that names
--                the worker that moves next
--   Frontend/Lexer   app/frontend/src/lib/bart/lex.ts: lex
--   Frontend/Format  app/frontend/src/lib/bart/types.ts and format.ts: validateAttrKey, emitAttrs
--   Frontend/Cover   app/frontend/src/lib/bart/match.ts: coveredBy
--   Frontend/Rule    app/frontend/src/lib/bart/rule.ts: groupNode, toTree, printTree
--   Frontend/Cursor  app/frontend/src/lib/bart/parse.ts: Cursor and the problems that are thrown
--   Frontend/Parser  the same file: parseAtom to parseOr
--   Frontend/Clauses the same file: the condition as text, parseTreeCore, isSyntaxReason
--   Frontend/Blocks  the same file: parseSyntax, toBlocks, parseRule, toPolicyRule
--   Frontend/Trace   app/frontend/src/lib/bart/trace.ts: parseTrace, traceVerdict, flattenTrace
--   Frontend/AttrList  app/frontend/src/lib/bart/attrs.ts: parseAttrList, resourceLabel, resourceTitle
--   Frontend/Causes  app/frontend/src/lib/bart/causes.ts: causeOf
--   Frontend/Frames   app/frontend/src/lib/bart/frames.ts: nest, terms
--   Frontend/Naming  app/frontend/src/lib/bart/naming.ts and roster.ts: resourceName, userName,
--                    partyStatus, rosterSummary
-- Prelude, Text and Number hold what the parts share: lists, outcomes that may throw, strings and
-- numbers of the source's language; Number/Reading is `Number(text)`. Tests holds runs on concrete inputs.
--
-- How the source is read. An async function is a function into Outcome, `ok` for what it returns and
-- `throw` for what it throws; the awaits of one function are in sequence. A string is the list of its
-- UTF-16 code units. A number is NaN, an infinity, or the shortest decimal that the language prints
-- for it. An object or Map is the list of its entries in order; `in` also sees the names that
-- every object inherits, `Object.entries` only its own.
--
-- Parameters. What the database answers is a parameter (Rows in Assembly, Queries in
-- Context/Providers, Displays in Context/Report, the candidates in Shared), as is the answer of the
-- evaluator service (`analyze`, `evaluate`, `validate`, a Fetched in Evaluator): the database is
-- third-party code, and the service in evaluator/ is a Java program behind HTTP. A theorem that relies
-- on one of them names the hypothesis.
--
-- Fuel. The `for (;;)` of partyClosure takes one round more than the seed and the index have
-- entries together, since each round but the last puts a new id among the analysed ones. The
-- tokenizer takes as many rounds as the source has characters, since each consumes at least one. A
-- loop of the parser takes one round more than there are tokens behind the cursor, and so deep its
-- exchanges may be nested, since each round and each level moves the cursor. The printing of a
-- whole number takes one step more than the number, which has no more digits than that. A pool of
-- workers has no fuel: it runs for as long as its schedule is.
--
-- Not modelled: HTTP routes and their schemas, the ORM's models and queries, password and session
-- code, the user interface, timeouts and the JSON text of requests (I/O); the evaluator itself,
-- a service in another language; the making of the diagram's steps and the
-- highlighting of the editor.
pub mod Prelude
pub mod Text
pub mod Number
pub mod Attrs
pub mod Emitter
pub mod Context
pub mod Reserved
pub mod Matcher
pub mod Closure
pub mod Coverage
pub mod Evaluator
pub mod Assembly
pub mod Access
pub mod Shared
pub mod Rules
pub mod Workers
pub mod Frontend
pub mod Tests
