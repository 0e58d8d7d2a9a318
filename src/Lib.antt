-- ===== src/Lib.antt =====
-- LAVS core: a service that versions the components of products and cuts releases of them.
--
-- Parts and files (paths from the repository's root):
-- * Domain models app/domain: BumpLevel and BumpPropagation are bump_propagation.py (`effective` is
--   the closure with its memo and visiting set as the record Walk), ChangeClassifier is
--   change_classifier.py, DependencyGraph is dependency_graph.py, ProductVersion is
--   product_version.py. Text holds the string functions of Python that these use, on lists of code
--   points.
-- * Events models app/events: a queue is an object that the bus and its consumer share, so the state
--   of the bus has a heap of queues and the registry holds handles.
-- * Sse models app/sse: the frames of a live stream (`dumps` is the JSON of the data, a parameter) and
--   its generator, a loop over a queue of Events, as steps between those of the other users of the
--   bus.
-- * Security models app/security: SlidingWindowLimiter with the clock's reading as an argument,
--   RateLimitSettings over the environment (Environ, a dictionary), and RateLimitMiddleware, whose
--   `call` says whether the application is called or the 429 is sent.
-- * Database holds the tables of app/database/duckdb/ddl.sql as lists of rows in the order of
--   insertion, and the statements as functions on them. An action returns a result or an error and
--   the world after it; the connection is in autocommit mode, so that what was written before an
--   error stays written.
-- * Queries models app/queries: Versions (versions/ and the listing of components/), Dependencies
--   (component_dependencies/), Bumps (the derivation of cut_release_query.py), Releases (releases/
--   and the route of app/routers/releases.py that cuts), Products (products/ and creating a
--   component), ReleasesRead (releases_read/), Timeline (timeline/). A cut reads the active versions and the edges and
--   derives its bump with Domain; the writes of versions, edges and releases publish to the bus of Events.
-- * Auth models app/auth/users, app/auth/session and the verification tokens of app/auth/signup.
--   Settings is auth_settings.py with the API key of app/security; Principals is the registry, the
--   resolver and the two providers, with their wiring in app/main.py, where a provider is its method
--   `authenticate` and the request carries what the process holds when it is handled; Signup is
--   signup_service.py with the validation of its body and the mailer of app/mail; Routes is
--   app/routers/auth.py. Invariant runs the routes in any order, and Lifecycle follows one person
--   from the sign-up to a request of the session.
-- * Database.Migration models app/database/migration: one boot turns the flat table into the
--   relational rows, which Queries.Products and Queries.Versions insert.
-- * Connections models app/connections/param_style.py: a statement in the style of its driver.
-- * Requests models app/models/requests/create_version_model.py: the pattern of a version and its parts.
-- * Tests applies the theorems at concrete inputs.
--
-- Bounds and fuel: `search_loop` runs on fuel, the number of edges plus 2, since a node's successors
-- are pushed once. `effective` runs on fuel, the number of nodes plus 1, since a node is visited once
-- along a path. Both are proved to return. Numbers are natural: versions, ticks of clocks and sizes;
-- Python's integers have no bound.
--
-- Not modelled: drivers, transactions and other backends, HTTP, the text of JSON and of messages, the
-- random sources, the hashes of tokens and argon2 (parameters), and the parts that PROJECT.json lists
-- so; the errors of a number past a 32-bit INTEGER column (major, minor, patch) and of a lifetime past
-- the range of timedelta and datetime; the lower case of letters outside ASCII. Rows that an ORDER BY
-- leaves tied are taken in the reverse order of insertion.
mod Prelude
pub mod Text
pub mod Environ
pub mod Domain
pub mod Events
pub mod Security
pub mod Database
pub mod Queries
pub mod Auth
pub mod Sse
pub mod Connections
pub mod Requests
mod Tests
