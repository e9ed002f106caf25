-- ===== src/Requests/Opening.antt =====
-- `get_db_session` of src/fx_deal_manager/core/database.py: each request has a session of its own.
use fx_deal_manager.Prelude.{[]}
use fx_deal_manager.Store.{Database, Session}

-- A session opens on what is committed.
abbrev pub open_session : Database → Session
open_session db = record { stored = db; current = db; effects = [] }
