-- ===== src/Loops/Reading.antt =====
-- internal/worker.go: the buffers of `readLoop`.
use fabrica_net.Session.{Session}
