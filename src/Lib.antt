-- ===== src/Lib.antt =====
-- gofr-sec (app): the security service that registers users, keeps groups and memberships, mints
-- and revokes runtime tokens, and answers authorization requests.
--
-- Parts, and the files that model them:
--   Domain/Models, Domain/Errors: app/domain/models.py and app/domain/errors.py, a record for each
--     dataclass and a constructor for each exception that the code raises or lets pass;
--   Domain/Rules: app/domain/rules.py, with the compiled pattern of group names as a test;
--   Repositories/Interfaces: the protocols of app/repositories/interfaces.py, over the state `S` of
--     a store: a method is a function from a state to a result and a state (`Call`);
--   Repositories/View, Repositories/Lawful: the contract of the stores. A state is read as four
--     maps (`View`), and `IsLawful` says what each method does to them. The services are proved
--     against this contract, for any stores that keep it;
--   Repositories/InMemory: app/repositories/in_memory.py, four dictionaries (Repositories/Dict);
--   Repositories/VaultPaths: app/repositories/vault_paths.py, the keys of records in Vault;
--   Repositories/Json: the documents that Vault keeps, with what Python reads of a `dict`;
--   Repositories/Vault: app/repositories/vault_users.py, vault_groups.py and vault_tokens.py.
--     Documents has the `_serialize` and `_deserialize` functions, Users, Memberships, Groups and
--     Tokens the methods over a client (`VaultClient`), Represents says which secrets represent
--     which four maps, Put and PutToken what one write does to them, Laws what each method does,
--     and Lawful is the contract of the stores;
--   Exec: what a service method runs in. A `World` is the state of the stores, the audit log of
--     app/repositories/audit.py, and how often the clock and `uuid4` were asked. `Exec S A` takes a
--     world to a result and a world; an exception keeps what was written before it. `audited` is
--     the block `try: ... except Exception: append(failure); raise` with `append(success)` behind
--     it, which every audited method of the services has;
--   Services/AdminGroups: `AdminGroupService` (app/services/admin_group_service.py);
--   Services/Tokens: `AdminTokenService` and `UserTokenService` (app/services/token_service.py);
--   Services/Signing: the signers of the same file, with `_b64url_uint` in Services/Signing/Base64;
--     Services/Signing/Published reads off a secret what is published;
--   Services/Runtime: `RuntimeAuthorizationService` (app/services/runtime_service.py);
--   Services/Registration: `UserRegistrationService` (app/services/user_registration_service.py);
--   Services/Bootstrap: `BootstrapService` (app/services/bootstrap_service.py);
--   Services/Lifecycle: what the runtime service answers for a token after the token service
--     minted or revoked it;
--   Api: the routes of app/api/routes behind the dependencies of app/api/dependencies.py, with the
--     schemas of app/api/schemas that they read and answer. A route is a function of the bearer
--     credentials and the payload to a `Reply`: a body, an `HTTPException` with its status code, or
--     an exception that nothing catches. `serve` is the table of routes, Api/History a sequence of
--     requests behind the bootstrap;
--   Settings: app/settings.py over a function for the environment; Settings/Csv is `_split_csv`,
--     Settings/Texts has `str.upper` and `int`, Settings/Cache what the module keeps;
--   Startup: app/bootstrap.py, the choice of the stores (`Storage`) and the state of the
--     application with the outcome of the bootstrap; Startup/Governed puts the start, the stores,
--     the signer and the routes together;
--   Examples, Services/Tokens/Examples: concrete runs over the stores in memory and over a Vault in
--     memory (Examples/MemoryVault), which keeps what `IsVault` asks.
-- A method `m` of a service is the function `m`; the part of it inside its `try` is `m_body` or a
-- name of its own. Correlation ids and `now` are arguments as in the code.
--
-- Representation: `str` is the list of its code points (Prelude/Text). A `datetime` is the number
-- of microseconds since the first instant that a `datetime` can hold; adding a `timedelta` beyond
-- the year 9999 raises `OverflowError`. An `int` that may be negative is an integer; no number has
-- a width. Every loop of the code runs over a list and is structural recursion. Only the bytes of a
-- number (`bytes_below`) are read with fuel: the number itself, which each step divides by 256.
--
-- Parameters (`Platform`): the readings of the clock, the values of `uuid4().hex`, SHA-256, and
-- what `str.lower` does outside ASCII. The token services take any signer (`TokenSigner`); the
-- theorems on minting assume that signing changes no store and that a fresh id may name a token
-- (`IsSigner`). `VerifiedIdentity` is the record of gofr_common, as far as the services read it; what its
-- verifier answers to a bearer token is a parameter of each request (`verify`). The client of
-- Vault (`VaultClient`) and the texts of times (`Formats`) are parameters of the stores over Vault.
-- Their contract assumes that a secret is read under the key under which it was written last and
-- that a listing names what stands directly below a key (`IsVault`), and that the text of a time
-- reads back (`IsIso`). It asks for subjects that are one segment of a key, and for tokens whose
-- ids are one segment other than `profile`, `groups` and `definition`, as the hex digits of
-- `uuid4` are. A group is listed where its name is one segment, as normalized names are. `datetime.now` in a document that lacks a time is the client's clock.
--
-- Further parameters: what PyJWT and cryptography do with keys and claims (`Crypto`), `Settings` of
-- gofr_common (`CoreSettings`), `AccessTokenVerifier.from_settings`, and Unicode's tables outside
-- ASCII (`Unicode`).
--
-- Not modelled: the logger behind the audit log, the texts of error messages, the command line,
-- FastAPI's parsing of requests, and the health routes, which answer constants. Values of a
-- document whose display name, mail address or granting subject is neither a text nor `null`, which
-- the stores never write, are read as missing; the code would pass them on. A Vault that fails
-- raises, and is outside of the stores' contract. `int(t.timestamp())` is computed without the
-- rounding of floats, which can be seen from the year 2514 on.
pub mod Prelude
pub mod Domain
pub mod Repositories
pub mod Exec
pub mod Services
pub mod Settings
pub mod Startup
pub mod Api
pub mod Examples
