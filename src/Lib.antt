-- ===== src/Lib.antt =====
-- cert-me: a private certificate authority with a dashboard. This library models its domain layer, the
-- Go package internal/domain, which holds every rule on authorities, certificates, renewal,
-- revocation, key delivery, accounts and the dashboard's own TLS, and the services around it that log
-- in and out, reset a password, set the installation up, replay a request, record revocations, publish
-- CRLs, hand downloads out and recover deliveries after a crash, with the limit on login attempts, the
-- retry of a lost version race and the limit on cryptographic work at once. The domain layer is pure: a
-- method takes an object by value with facts that a service gathered, and returns a changed copy or an
-- error. The services (internal/app/service) load objects from a store, call these methods and write the copies
-- back under a version check; cryptography, parsing and storage are adapters.
--
-- How the parts interact. Every part uses the values (`Values`) and the errors (`Errors`). An issuance
-- plan (`Certificate.Issuance`) asks the issuer (`Authority`), whose answer depends on its window. A
-- renewal (`Series.Plan`) derives its window from the series policy through calendar arithmetic
-- (`Calendar`) and compares it with the issuer's. The revocation ledger (`Revocation`) feeds the CRL
-- state (`Revocation.Crl`) by generations; a CA's closure facts, which its archive and key destruction
-- want, rest on the published CRL. A delivery (`Delivery`) hands a private key out, through links
-- (`Delivery.Grant`). The epoch of an account (`Identity`) ties sessions (`Identity.Session`) and
-- reset links (`Identity.ResetToken`) to it. `Transition` follows the replacement of a CA, and `Tls` and
-- `Tls.Change` the replacement of the dashboard's certificate.
--
-- Which file models which part:
--   Prelude, Prelude/*        shared names, tests on numbers, Go strings and int64, runs of steps
--   Errors                    internal/domain/errors.go
--   Values, Values/*          internal/domain/values.go
--   Authority, Authority/*    internal/domain/authority.go
--   Certificate, Certificate/*  internal/domain/certificate.go
--   Series, Series/*, Calendar, Calendar/*  internal/domain/series.go
--   Delivery, Delivery/*      internal/domain/delivery.go
--   Identity, Identity/*      internal/domain/identity.go
--   Revocation, Revocation/*  internal/domain/revocation.go
--   Transition, Transition/*  internal/domain/transition.go
--   Tls, Tls/*                internal/domain/tls.go
--   App                       internal/app/contract/errors.go, internal/app/port/errors.go, and
--                             storeError of internal/app/service/revocations.go
--   App/Throttle, App/Throttle/*  internal/app/service/preauth.go, over the counters of
--                             internal/app/port/accounts.go; App/Throttle/Memory is their
--                             test store, internal/app/porttest/accounts.go
--   App/Retry                 internal/app/service/retry.go
--   CryptoWork, CryptoWork/*  internal/cryptowork/gate.go
--   Store                     transactions, Write and Read of internal/app/porttest/state.go, and the ways
--                             in which a service treats an error of a store
--   Store/Table               Go's maps
--   Store/Frame               calls that raise no quantity of a state
--   Store/Accounts, Store/Pki  internal/app/port: accounts.go, audit.go, installation.go, requests.go,
--                             and of pki.go, crl.go, revocations.go, jobs.go and delivery.go what the
--                             services below call
--   Store/Memory, Store/Memory/*  internal/app/porttest: accounts.go, audit.go, installation.go, requests.go
--   Service                   internal/app/contract/meta.go (Service/Callers: its callers), appendAccountAudit
--   Service/Auth              internal/app/service/auth.go
--   Service/Requests          internal/app/service/request.go
--   Service/Setup             internal/app/service/setup.go
--   Service/Identity, Service/Identity/*  internal/app/service/identity.go: Login, Tokens (Authenticate,
--                             Logout, IssueCSRF) and Resets
--   Service/Revoking, Service/Revoking/*  applyRevocations of internal/app/service/revocations.go
--   Service/Crl, Service/Crl/*  internal/app/service/crl.go
--   Service/Chain             internal/app/service/chain.go
--   Service/Distribution, Service/Distribution/*  internal/app/service/distribution.go, deliver_postprocess.go
--   Service/Recovery, Service/Recovery/*  internal/app/service/recovery.go, and leafManagementAuthority of scope.go
--   Examples, Examples/*      the theorems at concrete inputs
--
-- How the code is read. A struct is a record with the same fields; its facts record, which has them
-- too, is the same record, and an accessor is a projection. A constructor `NewX(facts)` is `new_x`,
-- a check that returns its argument. A method that returns `(T, error)` is a function into `Result T`,
-- where an error is a sentinel (`wrapped`) or a policy error with its code and public fields; the
-- texts for people are left out. A string type with constants is a data type with those constants and
-- `unlisted` for any other text. Names follow the source's, with the type in front where two types have
-- the same method (`Consume` of a delivery is `receive`, of a link `consume_grant`, of a reset link
-- `consume_token`). A `string` and a `[]byte` are lists of bytes. `int64` and `int` are integers whose sums
-- wrap at 64 bits (`add64`, `sub64`). A `big.Int` that a hexadecimal text writes is a natural number.
--
-- The services' code. A call inside of a transaction is a function on the state of the store that gives
-- a value and the next state, or an error (`Tx`), and its statements are in the source's order in a do
-- block. `write` publishes the state only if the callback succeeds. A repository is a record of such
-- calls, over any type of states; theorems on what is stored are over the store in memory or over every
-- store. What the clock, the hasher, the codec of tokens, the generator of ids and the signer gave is
-- an argument of the run (`LoginCalls` and the like); where a service makes two transactions, the state of the
-- second one is an argument of its own, since others may commit in between. Commands are those that
-- their `Validate` accepts.
--
-- The services' code. `App.Throttle` takes the two methods on counters as an interface with laws
-- (`RateLimits`), so that a SQL store and the test store both fit; the clock's answer is an argument. A
-- closure that `RunWithRetry` runs is a function on a state. The gate's channel is a count, with the calls
-- of all goroutines as one sequence of steps; the case that a `select` takes is an argument, and a slot that
-- is taken and handed back within one call is not seen by others.
--
-- Bounds and fuel. `decimal_digits` takes 20 digits, more than an `int64` has. `hex_digits`, which prints a number, takes as fuel a count of digits that the number
-- cannot exceed; `trim_space` takes the length of its text. The widths of the source are constants:
-- 36 bytes for an identifier, 40 hexadecimal digits for a serial or CRL number, 253 and 63 bytes for a
-- DNS name and a label. `chain_from` takes the 16 rounds of the source. `recover_transfers` takes the number of batches as fuel and gives `none` if that
-- is not enough.
--
-- Parameters. SHA-256 as a hexadecimal text (`sha256_hex`, in `Values.Keys`), `netip.ParseAddr`
-- (`parse_addr`) and the test for an absolute URI of `url.Parse` (`is_absolute_uri`, both in
-- `Certificate`) are arguments of the definitions that call them.
--
-- Not modelled: the services on issuance, authorities, imports, transitions, TLS, maintenance, settings
-- and queries; the SQL stores and schema migration; the cryptographic engine and formats, which call Go's
-- libraries; configuration, the command line and secret input, which are I/O. Of the services that
-- are modelled: the JSON codec of settings and stored results, a commit that fails after its callback, a
-- context that is canceled within a call, secrets' buffers and their closing. Within the domain
-- layer, texts of errors and `String` methods, and conversions to and from `time.Time` besides the
-- calendar arithmetic.
pub mod Prelude
pub mod Errors
pub mod Values
pub mod Authority
pub mod Delivery
pub mod Revocation
pub mod Transition
pub mod Tls
pub mod Identity
pub mod Calendar
pub mod Series
pub mod Certificate
pub mod App
pub mod CryptoWork
pub mod Examples
pub mod Store
pub mod Service
