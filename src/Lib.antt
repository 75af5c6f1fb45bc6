-- ===== src/Lib.antt =====
-- The services of a social network, written in Go: what is stated here is about the code of the
-- repository at the paths named below.
--
-- - Prelude and its children: the shared types, the Boolean tests, byte texts, the results
--   with their do blocks, decimal numbers, and the properties of a state that a handler
--   keeps. A handler is an Action: it takes the state to a result, which is a value or an
--   error, and to the next state.
-- - Exception: exception/error_code.go. The declared codes stand in Exception/Codes, the
--   table of texts in Exception/Table, MapError, MapAppError and SendAppError in Exception.
-- - Services: the interfaces of what the code calls and does not implement. Redis is a record
--   of the commands that go-redis sends, with their documented behaviour while the server is
--   up; a command may fail otherwise. Database and Relation are tables behind gorm.
--   RedisTable, Database.table and Relation.list_relation are the concrete instances of the
--   examples.
-- - Auth: auth-service. Keys are the Redis keys, Env the data and the services around the
--   handlers, Accounts is repository/account_repository.go, Tokens is service/token.go with
--   the tokens of service/login.go and grpc/server.go, Login is service/login.go, Notices is
--   ParseAuthError of service/login.go, which nothing calls, Mailing is checkEmailRateLimit
--   of service/auth_service.go, Register is service/register.go, Reset is service/password.go
--   and TwoFactor is service/two_factor.go. The other modules of Auth are about these.
-- - Social: user-service. Env has the rows of model/sql_model.go and the profile of
--   model/model.go, Repository is repository/sql_user_repository.go, Service is
--   service/friend.go, Calls are sequences of its handlers. Each table is a Relation of its
--   own, so the state is a World of four tables and the cache. The limits that the runtime
--   configuration gives are a field of the environment.
-- - Post: post-service. Report is service/report.go with the events of
--   internal/moderation/moderation.go, Reviews are sequences of reports. A Go map is a list
--   of rows with one row for each key; white space and letters are those of ASCII. Feed is
--   service/newsfeed_scorer.go with the ranking, the pages and the ads of service/post.go;
--   the integers of a score are 64-bit and wrap around. Entities has the rows of
--   model/sql_model.go and the state of the service, Rows and CommentRows are
--   repository/sql_post_repository.go, Posts is service/post.go with the validation of
--   service/post_service.go, Comments is service/comment.go; Likes and Access are about
--   these. Sql is the interface of a table that is changed row by row.
-- - Moderation: NormalizeCategories of internal/moderation/moderation.go, and the queue of
--   admin-service: Items has the data of model/moderation.go, Repository is
--   repository/moderation_repository.go, Queue and Actions are service/moderation.go, Calls
--   are sequences of its calls with the abstract view of the statuses. Upserts is the
--   interface of a table with conflict clauses.
-- - Gateway: api-gateway. Gateway itself is middleware/auth_middleware.go over an abstract
--   auth client, Session composes it with grpc/server.go of auth-service, and RateLimit is
--   middleware/rate_limit.go. Windows is the interface of the sorted sets and of the texts
--   with an expiry that the rate limit keeps in Redis, with times in milliseconds.
-- - RuntimeConfig: internal/runtimeconfig/provider.go, with the answer of Redis as an
--   argument. Fresh is about the age of what it serves. Versions is admin-
--   service/repository/runtime_config_repository.go; its Changes and Stale are about the
--   versions. A transaction that fails leaves the state as it was.
-- - Chat: chat-service. Presence is RegisterClient, UnregisterClient and the counters of who
--   is online, Keys is service/e2e_service.go, Calls has the data (Entities) and the handlers
--   (Service) of the calls of service/chat_service.go and, in Signals, the part of
--   HandleIncomingMessages for the signals of calls; the other modules are about these.
--   Counters, Sets and Collections are the interfaces of Redis and MongoDB that they use.
--   Events that goroutines send are made at once.
--
-- A function of the model has the name of the function of the source in snake case. The state
-- of auth-service is a World: the Redis store, the database and the mails and calls that left
-- the service. Times are whole seconds and an argument of the handlers that read the clock;
-- what a handler draws at random is an argument too. bcrypt, totp, jwt and uuid are fields of
-- Env, with the documented facts that are used: a password compares with its own hash, and
-- uuid.Parse reads back what String prints. An error is an AppException or a text, as in the
-- source.
--
-- The loops of the code go over lists or count down a number and are structural recursion, so
-- no fuel is needed; the sequences of calls are lists. The repository names its own handlers
-- after what they do to the tables, since the service has the same names: delete_friendship is
-- Unfriend, insert_block is Block, delete_block is Unblock, insert_request is
-- SendFriendRequest, insert_friendship is AcceptFriendRequest and delete_request is
-- DeleteFriendRequest.
--
-- Not modelled: logging and profiling around the calls, timeouts and contexts but as failures
-- of a command, the HTTP layer of gin, the generated protobuf code, SMTP and Kafka, and the
-- services that PROJECT.json lists as such.
pub mod Prelude
pub mod Exception
pub mod Services
pub mod Auth
pub mod Chat
pub mod Social
pub mod Post
pub mod Moderation
pub mod Gateway
pub mod RuntimeConfig
