-- ===== src/Errno/Tests.antt =====
-- Error numbers at concrete inputs.
