-- ===== src/Lib.antt =====
-- toomanyhours-api: the core of a Go REST API for lists of video games.
--
-- The program is a gin server in cmd/api over a Postgres database. internal/validate has the rules
-- for what users send, internal/ratelimit counts failed logins, internal/refresh decides whether
-- a refresh token is still good, internal/models has the rows, internal/repository/dbrepo the
-- queries, internal/igdb asks IGDB for games, internal/images redraws uploaded photos, and the
-- handlers of cmd/api put these together behind the routes of cmd/api/routes.go. This library models
-- these parts and proves what makes them correct.
--
-- Files, and the code that each models:
--   Prelude/Int: signed integers, and the 64-bit ones of Go.
--   Text, Text/Trim, Text/Case: the strings of Go as sequences of runes, and what the code uses of
--     the packages strings, unicode and utf8. Text/Bytes: encoding/base64 and encoding/hex.
--   Validate, with Rating, Account and Entry: internal/validate/user.go and listentry.go. Username,
--     Email, Password, Bio, Category, ResultingCategory, RatingAllowed, Rating and Review become
--     username, email, and so on.
--   Dict: a Go map with text keys. Dict/Laws has its laws.
--   Ratelimit: internal/ratelimit/limiter.go. Window, Invariant, Spec and Verdict have the proofs.
--   Refresh, Refresh/Decide: internal/refresh/decide.go.
--   Models, Models/Catalog: internal/models, and the types of internal/igdb/types.go.
--   Igdb, Igdb/Literal: internal/igdb/query.go. Igdb/Kind: kind.go. Igdb/Throttle: throttle.go, with
--     Slots. Igdb/Wire, Igdb/Client, Igdb/Games: client.go, with Traffic, Recovery and Rules. getToken,
--     post, do and games become get_token, post, request (with perform and retry) and games; Search,
--     GetByIDs and GetDLCs become search_games, get_by_ids and get_dlcs.
--   Images, Images/Shapes, Images/Crop: internal/images/avatar.go and internal/validate/image.go.
--   World: the tables, the limiters and the outside. World/Exec is the monad of code that may fail
--     over them, World/Keeps and World/Yields are its rules for invariants and for results,
--     World/Runs those for single runs, World/Content the properties of some tables only.
--   Repo/RefreshTokens, Repo/Users, Repo/UserGames, Repo/Catalog, Repo/Avatars: the files
--     refresh_tokens.go, postgres_dbrepol.go, user_games.go, catalog.go and avatars.go of
--     internal/repository/dbrepo.
--   Api: what the handlers share. Api/Auth: the claims of cmd/api/auth.go, and session.go.
--     Api/Session: RefreshToken and Logout of cmd/api/handlers.go, with the proofs in Steps, Rows,
--     Over, Logout, Issue, Rotation and Race. Api/Accounts: Register and Authenticate, with Login and Stored.
--     Api/Games: cmd/api/user_games_handlers.go, with Rules, Isolation, Stored, Gate and Answers.
--     Api/Import and Api/Catalog: cmd/api/igdb_handlers.go. Api/Me: the signed-in user's account, the
--     rest of handlers.go and avatar_handlers.go, with Rules, Stored, Photos and Isolation. Api/Profiles:
--     profile_handlers.go and GetProfileAvatar, with Shown and Photos. Api/Usernames: username_handlers.go, with
--     Free. Api/Access: GetTokenFromHeaderAndVerify and AuthRequired, with Bearer and Kinds.
--     Api/Routes: routes.go, with Guard, and Users, Reads, Untouched, Writers and Sound for what
--     every route keeps, Isolation for whose rows a request may change.
--   Backfill: cmd/backfill/main.go, with Safe for what it leaves alone; Repo/Catalog/Ids: the ids
--     under an import.
--   Tests: concrete inputs.
--
-- How the code is represented:
--   A string is a list of runes, so bytes that are not UTF-8 are not represented. Times and
--   durations are numbers of nanoseconds since Go's zero time, and a comparison that subtracts is
--   written with the subtraction moved to the other side. A float64 is a binary fraction with a
--   sign, which every finite value is. Ids are natural numbers: a negative id names no row and is
--   not represented.
--   A table is a list of rows, and a query is a function on the tables, one statement a step. The
--   outside is a record of streams: the n-th effect has its own clock reading, its own random
--   identifier, and its own answer to whether the database fails. So a theorem over all outsides
--   covers every failure and every clock. An outage stands for each error that the callers do not
--   tell apart, a violated foreign key among them. A failed statement changes nothing, and a failed
--   transaction is undone.
--   A handler is one step over the world, from a decoded payload to a response, which stands for
--   status, body and what becomes of the refresh cookie. Requests follow one another, but for
--   Api/Session/Race, which puts a logout between the decision of a refresh and its writes. A context
--   that is done is a failure of the next effect. The client of IGDB records the requests it builds.
--   Libraries are parameters: bcrypt, the signing and parsing of tokens, the address parser, the
--   profanity filter, LOWER of the database, Unicode's case table past ASCII, the answers of the
--   network and their decoding from JSON, and the decoders, the scaling and the encoder of images. A
--   theorem that needs something of them names it: that the case table is stable (IsCaseTable), that
--   LOWER leaves good usernames alone (IsFolded), that nothing fails (IsUp).
--   Every loop is structural recursion on a list, so there is no fuel.
--
-- Not modelled: the attributes of the cookies, the cross-origin headers and gin's own routing,
-- the settings and start-up in cmd/api/main.go, and opening the connection in internal/database.
-- Logging is left out everywhere.
mod Prelude
pub mod Text
pub mod Validate
pub mod Dict
pub mod Ratelimit
pub mod Refresh
pub mod Models
pub mod Igdb
pub mod Images
pub mod World
pub mod Repo
pub mod Api
pub mod Backfill
mod Tests
