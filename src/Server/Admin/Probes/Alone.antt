-- ===== src/Server/Admin/Probes/Alone.antt =====
-- The two parts of a probe against the function that they are the parts of.
use clienthub.Server.State.{Server}
