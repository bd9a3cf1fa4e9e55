-- ===== src/Fat/Examples/Formats.antt =====
-- The small disk: the formats: paths, directory entries and the table on disk.
use ze_os_filesystem.Base.{◌<◌, ◌≡◌, refl, ◌↔◌, arith, [], ◌∷◌, map, get_elem?, fault}
use ze_os_filesystem.Fat.Path.{name_length, extract_filename}
use ze_os_filesystem.Fat.Path.Components.{join, pad, extract_filename-join}
use ze_os_filesystem.Fat.Entry.{first_cluster, get_directory_entry, set_directory_entry}
use ze_os_filesystem.Fat.Entry.Roundtrip.{first_cluster-set_iff}
use ze_os_filesystem.Fat.Table.{copy_fat_to_disk}
use ze_os_filesystem.Fat.Table.Copy.{copy_fat_to_disk_overflow}
use ze_os_filesystem.Fat.Search.{unset_entry}
use ze_os_filesystem.Fat.Examples.{hello, new_name, root_sector, small_fs, far_entry, empty_sector}

extract_filename-join_example :
    extract_filename (join (hello ∷ new_name ∷ [])) 2
    ≡ get_elem? (map (pad name_length) (hello ∷ new_name ∷ [])) 1
extract_filename-join_example = extract_filename-join (hello ∷ new_name ∷ []) 1 (refl, (refl, tt))

first_cluster-set_iff_example :
    (first_cluster
        (get_directory_entry (set_directory_entry root_sector far_entry 32) unset_entry 32)
      ≡ 200)
    ↔ (200 < 128)
first_cluster-set_iff_example =
    first_cluster-set_iff root_sector far_entry unset_entry 32 200 refl refl (omega arith) refl refl

copy_fat_to_disk_overflow_example : copy_fat_to_disk empty_sector 200 small_fs ≡ fault
copy_fat_to_disk_overflow_example =
    copy_fat_to_disk_overflow empty_sector 200 small_fs (omega arith) (omega arith)
