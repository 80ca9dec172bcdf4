-- ===== src/Detect/Tests.antt =====
-- 640 KB of base memory and 63 MB of extended memory.
use fos_v.Base.{ℕ, ◌==◌, if◌then◌else◌, ◌≤◌, ◌≡◌}
use fos_v.Detect.{detect_memory, detect_memory_lem}

abbrev clock : ℕ → ℕ
clock r = if r == 0x15 then 128 else if r == 0x16 then 2 else if r == 0x18 then 252 else 0

detect_memory_lem_example :
    ((detect_memory clock).number_of_frames ≡ 16384)
    × (detect_memory clock).number_of_frames ≤ 16639
detect_memory_lem_example = detect_memory_lem clock
