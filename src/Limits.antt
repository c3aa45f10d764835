-- ===== src/Limits.antt =====
-- Sizes of plugins/smap/src/user/manage/manage.h.
use ubturbo.Prelude.{ℕ}

abbrev pub local_numa_num : ℕ
local_numa_num = 8

abbrev pub remote_numa_num : ℕ
remote_numa_num = 18

abbrev pub max_nodes : ℕ
max_nodes = 26

abbrev pub max_pair_target_count : ℕ
max_pair_target_count = 43200

abbrev pub max_4k_processes_cnt : ℕ
max_4k_processes_cnt = 300
