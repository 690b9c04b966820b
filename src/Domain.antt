-- ===== src/Domain.antt =====
-- backend/internal/domain: identifiers, tokens, state machines and their structural validation.
-- Identifiers, key ids and country codes are strings that the code only compares, also with "";
-- they are numbers here, with `no_id` for "". Byte slices and texts are lists of bytes. A time is
-- the number of nanoseconds since the zero `time.Time`; a duration is a signed number of them.
pub mod Status
pub mod Reconciliation
pub mod Tokens
pub mod Validate
pub mod Laws
