-- ===== src/SysexStore/Status.antt =====
-- What a client sees of the commands that the remote control obeys.
