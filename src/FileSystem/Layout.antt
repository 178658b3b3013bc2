-- ===== src/FileSystem/Layout.antt =====
-- What kFormat lays out on a device, and what kMount reads back.
use deodeok_os.Base.{ℕ, ◌+◌, ◌*◌, ◌/◌, ◌^◌, ◌≡◌, ◌<◌, ◌≤◌, arith}
use deodeok_os.Memory.{Memory, load_bytes, store_bytes}
use deodeok_os.FileSystem.State.{filesystem_signature}
use deodeok_os.FileSystem.Format.{
  format_cluster_count, format_link_sector_count, format_mbr, signature_offset, reserved_offset,
  link_count_offset, total_count_offset,
}

-- The MBR, the link table and the clusters that kFormat counts fit on the device; the table has a
-- link for each cluster; and at most 9 sectors, and one more for each 2^20 of the device, stay unused.
pub format_layout :
    (total : ℕ)
    → 0 < total
    → total < 2 ^ 32
    → let links = format_link_sector_count total in
      let clusters = format_cluster_count total in
      (1 + links + clusters * 8 ≤ total)
      × (clusters ≤ links * 128)
      × (total ≤ 1 + links + clusters * 8 + 9 + total / 2 ^ 20)
unfolding format_cluster_count format_link_sector_count
format_layout total pos small = omega arith

pub mbr-fields :
    (links clusters : ℕ) (m : Memory)
    → links < 2 ^ 32
    → clusters < 2 ^ 32
    → let m' = format_mbr links clusters m in
      (load_bytes 4 m' signature_offset ≡ filesystem_signature)
      × (load_bytes 4 m' reserved_offset ≡ 0)
      × (load_bytes 4 m' link_count_offset ≡ links)
      × (load_bytes 4 m' total_count_offset ≡ clusters)
unfolding format_mbr load_bytes store_bytes
mbr-fields links clusters m hl hc = ground arith
