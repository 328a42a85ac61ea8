-- ===== src/App/Error.antt =====
-- app/error.go: errors that say whether the client should go on.
use mender.Prelude.{Bool, true, false, Error}

pub record MenderError : Type 0 where
  pub cause : Error
  pub is_fatal : Bool

abbrev pub new_fatal_error : Error → MenderError
new_fatal_error e = record { cause = e; is_fatal = true }

abbrev pub new_transient_error : Error → MenderError
new_transient_error e = record { cause = e; is_fatal = false }
