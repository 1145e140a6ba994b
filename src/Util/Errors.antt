-- ===== src/Util/Errors.antt =====
-- `error` of src/util.rs: an error of any type as an error of the type `E` that is wanted. The
-- casts that the source makes at run time are the constructors here.
use acme_dns_rust.Base.{String}
use acme_dns_rust.Base.Outcome.{Outcome, ok, err, panic, Error, ErrorKind}

-- What an `anyhow::Error` wraps.
pub data Anyhow (E : Type 0) : Type 0 where
  wraps_target : E → Anyhow E
  wraps_io : ErrorKind → String → Anyhow E
  wraps_other : String → Anyhow E

-- The type of the error that `error` is given.
pub data Input (E : Type 0) : Type 0 where
  target : E → Input E
  io_error : ErrorKind → String → Input E
  anyhow : Anyhow E → Input E
  boxed : String → Input E

module _ {E : Type 0} (from_io : ErrorKind → String → E) where
  unfoldable pub error : Input E → E
  error (target e) = e
  error (io_error kind text) = from_io kind text
  error (anyhow (wraps_target e)) = e
  error (anyhow (wraps_io kind text)) = from_io kind text
  error (anyhow (wraps_other text)) = from_io ErrorKind.other text
  error (boxed text) = from_io ErrorKind.other text

-- How the errors of this program are wrapped by `?` in a function that returns an
-- `anyhow::Error`, seen from an `E` that is none of them.
unfoldable pub as_anyhow : {E : Type 0} → Error → Input E
as_anyhow (Error.io kind text) = anyhow (wraps_io kind text)
as_anyhow (Error.sqlx text) = anyhow (wraps_other text)
as_anyhow (Error.message text) = anyhow (wraps_other text)

-- `map_err(error)` into an error type that holds an `io::Error`, shown by that.
abbrev pub map_err : {A : Type 0} → (Error → Input Error) → Outcome A → Outcome A
map_err wrap (ok a) = ok a
map_err wrap (err e) = err (error Error.io (wrap e))
map_err wrap panic = panic

-- An error of the database is boxed as it is.
abbrev pub text_of : Error → String
text_of (Error.io kind text) = text
text_of (Error.sqlx text) = text
text_of (Error.message text) = text

abbrev pub as_boxed : Error → Input Error
as_boxed e = boxed (text_of e)
