-- ===== src/Sv/Application/Samples.antt =====
-- What model/sv-publisher-app.cc sends from its start on.
use grid_goose_sv.Iec61850.Timestamp.{Timestamp}
