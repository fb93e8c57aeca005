-- ===== src/Lib.antt =====
-- The core of effect-auth: what a session is worth, how it is stored, resolved, stepped up and
-- revoked, how single-use tokens and short codes are claimed, and what stands between a verified
-- credential and a session.
--
-- The parts, the files that model them and the code:
--   Assurance      src/domain/Assurance.ts: the evidence log, deriveAal, amrOf, policyToJson.
--   Sql            src/sql/Mutations.ts: a table is the list of its rows, a statement one atomic step;
--                  the three dialects differ in what consumeOne takes. MySQL's transactions and the
--                  retries after a deadlock are such steps here.
--   Runtime        the world of a request: the readings of the clock, the answers of the random
--                  sources, the tables, the published events and which calls of a store fail. An
--                  operation is a function from a world to a result and a world (Auth), also where it
--                  fails; persist of src/sql/stores/internal.ts may fail at any call and has then
--                  changed nothing.
--   Sessions       src/domain/Sessions.ts; Sessions/Service.antt is its make, and Sessions/Store.antt
--                  is src/sql/stores/Sessions.ts with the unique keys of src/sql/Migrations.ts.
--   Verifications  src/domain/Verifications.ts; Verifications/Store.antt is
--                  src/sql/stores/Verifications.ts. Verifications/Races.antt lets the statements of
--                  overlapping requests interleave in any order.
--   Challenges     src/domain/Challenges.ts over the operations of Verifications.
--   SignIn         src/domain/SignIn.ts over the mint of Sessions, with the hooks of
--                  src/domain/Hooks.ts.
--   RateLimiter    src/internal/rateLimiterStore.ts: fixed windows, token buckets and the sweep. Calls
--                  and sweeps come as one sequence with the moment of each; RateLimiter/Counting.antt
--                  counts what they let through.
--   Totp           src/crypto/Totp.ts over bytes: the counter, the truncation, the comparison and the
--                  window. Steps are integers, since a window may reach below zero.
--   TwoFactor      src/two-factor: Store.antt and Devices.antt are Store.ts with the unique keys of
--                  Migrations.ts, Codes.antt is RecoveryCodes.ts, and Service.antt, Enrolment.antt,
--                  Challenge.antt and Trust.antt are parts of TwoFactor.ts. Enrolments are kept under
--                  their primary key, the user; the budget of attempts is any operation on worlds.
--                  Decider.antt is the part of the sign-in pipeline that raises a challenge. To replace
--                  recovery codes is a read and then a delete by the ids read: where requests
--                  interleave, the ids may be those of any earlier moment (replace_held).
--   Users          src/sql/stores/Users.ts and src/sql/stores/Transaction.ts: a transaction that fails
--                  puts the tables back and leaves the clock, the sources and what was published.
--   Accounts       src/domain/Accounts.ts over src/sql/stores/Accounts.ts, without a provider's tokens.
--   Passwords      src/domain/Passwords.ts, signIn and signUp in Passwords/Entry.antt. The hasher is a
--                  parameter; a message to a user is an entry of the world, and its delivery decides
--                  nothing.
--   E164           src/phone/E164.ts.
--   Prelude        shared names, Boolean tests, lists, and texts as lists of UTF-16 code units.
--
-- A function keeps its name in snake case: deriveAal is derive_aal, createUnchecked is
-- Sessions.Service.create, verifyCode is verify_code. Moments and durations are natural numbers of
-- milliseconds. The clock is any function of the number of the reading, so that no theorem relies on
-- its running forward unless it says so; the random sources are any functions too, and a theorem that
-- needs a fresh secret has that as a hypothesis. What the code takes from its libraries is a parameter:
-- the digest of a token, base64url, the JSON codecs, the MAC, the deployment's hooks and deciders.
-- Every loop is structural but one: groups_from, which cuts a recovery code into groups, runs on fuel,
-- as much as the code has characters, and that is enough since each group takes four of them. The
-- intervals of the rate limiter are positive numbers of whole milliseconds.
--
-- Not modelled: the HTTP layer, the client, OAuth, passkeys and the other plugins; of the users the
-- change of an address and the deletion, and the columns that a deployment adds; of an account the
-- tokens of a provider; the encodings of rows; the adaptive phase of the rate limiter, which keeps
-- fractions of milliseconds; of the two-factor plugin the otpauth URI, the base32 text of a key, the
-- sweep of trusted devices on events, and the messages it sends. Of a user only the id, the address and
-- whether it is verified are kept, which is all that the modelled operations read. toLowerCase beyond
-- ASCII is a parameter.
pub mod Prelude
pub mod Assurance
pub mod Sql
pub mod Runtime
pub mod Sessions
pub mod Verifications
pub mod Challenges
pub mod E164
pub mod SignIn
pub mod RateLimiter
pub mod Totp
pub mod TwoFactor
pub mod Users
pub mod Accounts
pub mod Passwords
