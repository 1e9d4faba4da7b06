-- ===== src/Files/Refs/Close.antt =====
-- `fd_close` of kernel/file.c and kernel/proc/proc.c in the runs of the open files.
use risc.Files.{Files}
