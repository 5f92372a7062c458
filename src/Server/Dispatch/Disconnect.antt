-- ===== src/Server/Dispatch/Disconnect.antt =====
-- What is left of a client that goes: `handle_disconnect`.
use btrm.Server.Session.{Session}
