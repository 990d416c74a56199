-- ===== src/Lib.antt =====
-- The packages of shared-ts-libs that decide something: what an OData filter means, how often a call is
-- retried or a service polled, who is authenticated, which job a waiting test receives, and which
-- events a stream holds. Packages that wire other libraries together are not modelled.
--
-- Base holds the shared names, lists, maps and texts; Number is the interface to JavaScript's
-- numbers. Every operation of that interface is a parameter, and the properties that need it assume
-- the laws of its order; Number/Small is an instance to evaluate examples on.
--
-- packages/app/odata-mapper/src. bindResolver.ts (`resolveBind`, `isBindReference`,
-- `extractBindTupleValues`) is Odata/Bind, and filterTransformer.ts is Odata/Transform (`isFieldReference`,
-- `getFieldPath`, `resolveValue`, the transform functions) and Odata/Tree (the node tests and the recursion
-- of `transformFilterNode`). filterExtractor.ts is Odata/Extract and Odata/Collect, one function each. The
-- parser (parser.ts) calls an OData grammar of another package, so the model starts at the untyped
-- tree that it returns, which is a value of Odata/Value, and the binds beside it. What the runtime makes
-- of a date or an object in text is the record `Host`. Odata/Query describes trees of the nodes
-- that types.ts names. The recursion is structural in the tree.
--
-- packages/app/backend-http-client/src/api-contract/retry.ts. Retry/Config has the configuration and the delays
-- (`resolveRetryConfig`, `parseRetryAfterHeader`, `computeRetryDelay`), Retry/Loop has `withRetry`. A run
-- is the result of the loop with its calls, body dumps and waits; the calls, the clock, the random numbers
-- and the rejections of waits are an environment by retry number. The fuel is the number of retries and one.
--
-- packages/app/api-contracts/src/new/contractResponse.ts. Contract has what a contract declares for each status
-- and the resolution of a body by status and content type, with `hasAnySuccessSseResponse` of
-- defineApiContract.ts. Lower case is that of ASCII letters. A table of responses is a function of its keys.
--
-- packages/app/backend-http-client/src/api-contract/sendByApiContract.ts. Send/Request has the headers, the
-- path (`buildRequestPath` of api-contracts/src/pathUtils.ts) and the signal of a request, Send/Response the
-- reading of a response, Send/Client the whole of `sendByApiContract` over `withRetry`, Send/Blob and
-- Send/Events the values that the caller reads on. The schemas, JSON.parse and what the client does with a
-- request in each attempt are parameters; a stream is the list of the events that another package finds in it.
--
-- packages/app/polling/src. Polling/Backoff has the configuration, its checks and `calculateDelay`;
-- Polling/Execute has `execute`, `checkAborted` and `waitBeforeRetry` of ExponentialBackoffStrategy.ts with the
-- rejections of utils/delay.ts. The loop is recursion on the attempts that are left. All hooks are present,
-- and they do not throw.
--
-- packages/app/auth/src. Auth/Jwt has `TokenDecoder` and `JwtBasedAuthenticator`, Auth/Chain has
-- `AuthenticatorChain` and the handler of createAuthenticationPreHandler.ts. The token library and the
-- subclass's own check are parameters; logging is left out.
--
-- packages/app/background-jobs-common/src/background-job-processor/spy. JobSpy has BackgroundJobProcessorSpy.ts: its
-- map of results, its list of waits and the promises that it has resolved.
--
-- packages/app/frontend-http-client/src/utils/sseUtils.ts. Sse has the line parser and the loop over the decoded
-- chunks. The decoding of bytes and the abort signal are left out: a stream is the list of chunks that
-- are read before its end.
--
-- packages/app/api-common/src/paginationUtils.ts. Pagination has `createPaginatedResponse` and `getPaginatedEntries`. The
-- calls are a function of their parameters, so that a call repeated gets the same page; the loop has fuel for
-- its calls, since a server may never say that its pages are over. The encoding of cursors
-- (cursorCodec.ts: JSON and base64 of the runtime) is a parameter.
--
-- packages/app/background-jobs-common/src/background-job-processor/managers and utils.ts. Queues/Options has the
-- options of a job (`prepareJobOptions`, `resolveJobOptions`, `isJobRemovedOnComplete`), Queues/Registry has
-- QueueRegistry.ts with `registerActiveQueueIds`, and Queues/Manager and Queues/Calls have QueueManager.ts. BullMQ
-- and Redis are the record `Backend`, whose calls may be rejected; the deep merge of options, the schemas and
-- the generated ids are parameters. A key of a job's options may be there with the value undefined. An operation runs to its end before the next one starts: what runs
-- while it awaits is left out, and so is the counting of jobs. Queues/Flows and Queues/Producer have
-- FlowManager.ts: the building of a tree of jobs, the producer, and the walk that records the returned tree;
-- `getFlow`, which only reads, is left out.
--
-- packages/app/background-jobs-common/src/background-job-processor/processors. Processor/Failures has the tests of
-- errors/utils.ts; Processor/Process has `processInternal` of AbstractBackgroundJobProcessorNew.ts with `jobStart`,
-- `jobAttemptError` and `jobEnd` of its monitor; Processor/Hooks has `internalOnSuccess`, `internalOnFailed`,
-- `internalOnHook` and `purgeJobData`, over the spy of JobSpy; Processor/Lifecycle has `start`, `internalStart`
-- and `dispose` with the set of active queue ids. What the job's own code, the barrier and BullMQ
-- answer is given, and what a run calls is a list of events. The old AbstractBackgroundJobProcessor.ts, the
-- request context, the listeners and the promises that they run are left out; an error of the reporter is, too.
--
-- packages/app/background-jobs-common/src/periodic-jobs. Periodic/Config has the options, the constructor and
-- `register` of AbstractPeriodicJob.ts, Periodic/Process has `process` with its lock, over the record `Locks` for
-- the package redis-semaphore: what it answers, and its state. The theorems on two consumers assume that its
-- locks are lawful (`IsLawful`). A lock that expires between two executions is not a step of the model. The error
-- reporter and the transactions are present, and do not throw; the refreshing of locks is left out.
--
-- packages/app/prisma-utils/src. Transaction has `prismaTransaction` with its retries, delays and growing
-- timeouts, and the tests on errors that it uses. What the database does in a try is a function of the number
-- of the try and of its timeout. The loop is recursion on the retries that are left.
--
-- packages/app/drizzle-utils/src/markMigrationsApplied.ts. Baseline/Sql has the dialects, the quoting and the statements,
-- Baseline/Mark has `markMigrationsApplied` and what it calls, over the record `Database` of Baseline/Database, which
-- executes statements and may reject any of them. The theorems assume of a database only how the names
-- in the tracking table change (`IsLawful`). Reading the folder of migrations (names, hashes and times) is left out:
-- the entries and the detected dialect are given.
--
-- packages/app/drizzle-utils/src/diffSchemaSnapshots.ts. Snapshot/Keys has the values of snapshots and their sorted keys,
-- Snapshot/Diff the comparison. Objects of two snapshots are distinct objects, and keys are sorted by code units.
--
-- packages/app/aws-config/src/message-queue-toolkit. Routing/Regex has the runtime's patterns with their test and what
-- it means that one fits; Routing/Names has utils.ts with its two patterns, and Routing/Config the constructor
-- and the lookups of MessageQueueToolkitSnsOptionsResolver.ts over `groupByUnique` of universal-ts-utils.
-- What the runtime removes from a name for a project, which it reads as a pattern, is a parameter.
--
-- Not modelled: the packages that only configure or call other libraries, and the messages of errors.
pub mod Auth
pub mod Base
pub mod Baseline
pub mod Contract
pub mod JobSpy
pub mod Number
pub mod Odata
pub mod Pagination
pub mod Periodic
pub mod Polling
pub mod Processor
pub mod Queues
pub mod Retry
pub mod Routing
pub mod Send
pub mod Snapshot
pub mod Sse
pub mod Transaction
