-- ===== src/Syslog/Run.antt =====
-- What the ring and the file of lib/syslog/syslog.c hold after any run.

use misc_c.Syslog.{Syslog}
