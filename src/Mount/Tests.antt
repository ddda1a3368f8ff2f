-- ===== src/Mount/Tests.antt =====
-- fs/fs.c: `fs_init` on an empty disk.
