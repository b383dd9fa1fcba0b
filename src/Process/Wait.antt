-- ===== src/Process/Wait.antt =====
-- How an exit code gets from sys__exit to sys_waitpid.
