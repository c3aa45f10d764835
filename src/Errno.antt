-- ===== src/Errno.antt =====
-- The negative error numbers that the source returns, and 0.
pub data Errno : Type 0 where
  einval enomem eperm enospc eoverflow enoent : Errno

-- `done` is the return value 0, `fail e` is `-e`.
pub data Status : Type 0 where
  done : Status
  fail : Errno → Status
