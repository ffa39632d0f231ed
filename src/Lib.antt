-- ===== src/Lib.antt =====
-- OnSheet backend: a NestJS server for shared spreadsheets (src/, prisma/schema.prisma).
--
-- The server keeps users, workbooks, sheets, cells, permissions, snapshots, comments and a log of
-- operations in PostgreSQL, through the Prisma client, and who is in a sheet's room in Redis. HTTP
-- controllers and the Socket.IO gateway call the same services. A write of a cell goes through the
-- sheet's and the workbook's access checks, then through a versioned upsert, and is logged; the
-- gateway gathers the writes of a sheet for 50 ms, keeps one for each cell, and upserts these. An
-- agent with tools of its own reads and writes the same tables.
--
-- Files, and the code that they model:
--   Base       Boolean tests, lists and keys on the native numbers, decimal numbers, the Map of
--              JavaScript (Base/Dict) and its methods on strings (Base/Text).
--   Http       the exceptions that a call throws (`Result`), and actions on a state (`Action`).
--   Prisma     prisma/schema.prisma: the rows of the tables (Schema), a table as a parameter with
--              the laws that Prisma documents (Table, with what follows from them in Table/Laws and
--              Table/Keeping), the one raw statement (Insert), the client
--              with its unique constraints (Client), the referential actions (Cascade), and tables
--              in memory that meet the laws (Memory, Example).
--   Users      src/modules/users/users.service.ts, with bcrypt as a parameter.
--   Auth       src/modules/auth: auth.service.ts, the strategies, and the cookies of
--              src/config/cookie.config.ts, with @nestjs/jwt as a parameter.
--              Sessions and Registering prove which tokens and passwords are good.
--   Workbooks  src/modules/workbooks/workbooks.service.ts: Access the checks and what they guard,
--              Service the other operations, Roles what the checks decide.
--   Permissions  src/modules/permissions/permissions.service.ts.
--   Sheets     src/modules/sheets/sheets.service.ts: Service the operations, Snapshots what taking
--              and restoring a snapshot does.
--   OperationLog  src/modules/collab/operation-log.service.ts.
--   Cells      src/modules/cells/cells.service.ts: Service single cells and comments, Bulk the
--              batches of `bulkUpsert`, Versions and Clearing what writes and clears do,
--              Contents what a cell holds after a write, Racing two writes at once, Elsewhere
--              what an operation on one sheet leaves alone.
--   Collab     src/modules/collab: Presence is collab.service.ts, with Redis as a parameter; Batch
--              is `enqueueWrite` and `flushBatch` of collab.gateway.ts, and Batch/Saving what a
--              flush stores; Cookies and Gateway are
--              its handshake and its handlers.
--   Ai         src/modules/ai: the root and Reading have the tools, Tools binds them with their
--              schemas, Graph is the agent's graph with its edges and its recursion limit, Messages
--              and Prompts what the models are told, Letters the names of cells, Numeric which texts
--              are numbers, Context the stored conversation, Service the methods of the service and
--              the controller. Runs, Keeping, Acting, Caller, Statistics, Writing, Calls and Clearing
--              prove what these do.
--   Api        the HTTP interface: Controllers the controllers of src/modules, Validation the DTOs,
--              Answers the filter and the interceptor of src/common, the root the guards, the routes
--              and `serve`, the answer to one request. Guarding, Ownership, Editing,
--              Confidential, Outsiders and Saving prove what requests may do. Agent is the routes of
--              src/modules/ai with `serve_agent`, since they have a state of their own.
--   App        the server as src/app.module.ts puts it together: `step` takes one input, a request, a
--              message of a socket or a timer that fires, on the tables with the gateway's maps, and
--              `run` a sequence of them. Senders says who inputs come from; Outsiders proves what
--              users who may not edit a workbook do to it.
--   Settings   src/config/redis.config.ts and the allowed origins of src/main.ts, with the parsing of
--              URLs as a parameter. The rate limits are in Api/Limits.
--   Tests      concrete runs on a small database, and instances of the packages.
--
-- An operation has the name of its method in snake case. State is passed explicitly: an operation
-- is a function from the tables to its result and the tables after it, or from the tables alone
-- where it only reads. A call into the code awaits its own database calls one by one, and others run
-- between; here a call is one step, and the interleavings that are modelled are the sequences of
-- requests, messages and timers (App, Collab/Batch/Timers). Cells/Racing alone has `upsert` as two
-- steps, its read and its write, and runs two calls at once. The tool calls of one message, which
-- LangGraph's `ToolNode` starts together, run in their order. The log entries that no call awaits are written within the call.
--
-- Bounds and fuel: rows, columns, versions and times are natural numbers. The DTOs have no upper
-- bound; the columns have 32 bits, and that Prisma refuses a number beyond them is left out, as is
-- `null` in an optional field of a DTO, which `@IsOptional` lets through. The 32-bit hash of `pickColor` has its wrapping written out. The loop of `bulkUpsert` runs
-- on the number of cells as fuel, of which each batch takes at least one; the loop of `colToLetter`
-- on one more than the column, which each turn makes smaller; printing a number in decimal likewise.
-- That the fuel is enough is part of the theorems about them.
--
-- The agent's graph runs on the recursion limit of 15 nodes, as the code passes it; that this is six
-- rounds of tools, and what happens after, is a theorem.
--
-- Not modelled: the wiring and the other settings of NestJS, which route a URL names, the queue's
-- processors, which do nothing yet, the connections to Redis, and logging. Packages are
-- parameters: the Prisma client, bcrypt, @nestjs/jwt, class-validator, @nestjs/throttler, LangGraph,
-- Redis, Socket.IO's rooms, the language models and the texts that LangChain makes of the tools'
-- results. Columns that no operation reads, such as `updatedAt`, are left out of the rows.
pub mod Base
pub mod Http
pub mod Prisma
pub mod Users
pub mod Auth
pub mod Workbooks
pub mod Permissions
pub mod Sheets
pub mod OperationLog
pub mod Cells
pub mod Collab
pub mod Ai
pub mod Api
pub mod App
pub mod Settings
pub mod Tests
