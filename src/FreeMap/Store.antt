-- ===== src/FreeMap/Store.antt =====
-- What bitmap_write leaves in the file of the map.
use os_pint_os_project.Bitmap.{Bitmap}
use os_pint_os_project.Inode.{Inode}
