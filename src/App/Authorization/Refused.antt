-- ===== src/App/Authorization/Refused.antt =====
-- A check for an update that the server refuses because the client is not authorized.
use mender.Prelude.{Error}
