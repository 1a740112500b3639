-- ===== src/Auth.antt =====
-- src/http_api/auth.rs (tokens, credentials, and the handlers of /auth), the check that
-- src/http_api/mod.rs lays over its main router, and the routers that it adds after that, with the
-- sessions of src/http_api/handlers/qbit_compat.rs. A text is the list of its UTF-8 bytes. A token is
-- a number, since tokens are only compared; the random ones are arguments, and so is what the clock
-- says, in nanoseconds. The file system is an argument: whether a file could be saved.
pub mod Tokens
pub mod Secrets
pub mod Gate
pub mod Sessions
pub mod History
pub mod Admission
pub mod Race
pub mod Qbit
pub mod Routes
