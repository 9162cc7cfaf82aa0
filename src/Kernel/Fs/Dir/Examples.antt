-- ===== src/Kernel/Fs/Dir/Examples.antt =====
-- A new directory, in which a name is looked up and linked.
use os_proj.Base.{refl, arith, [], ◌∷◌}
use os_proj.Kernel.Fs.Bitmap.Examples.{small_sb, small_disk}
use os_proj.Kernel.Fs.Bmap.Examples.{new_inode, new_inode-File}
use os_proj.Kernel.Fs.Io.Examples.{all_mapped, all_mapped-CopyLaws, letters, new_inode-Dense, home}
use os_proj.Kernel.Fs.Itable.{Itable}
use os_proj.Kernel.Fs.Itable.Single.{Single}
use os_proj.Kernel.Fs.Dir.{dirlink}
use os_proj.Kernel.Fs.Dir.Entries.{IsDir}
use os_proj.Kernel.Fs.Dir.Link.{LinkEnds, dirlookup-dirlink}

new_inode-IsDir : IsDir new_inode small_disk
new_inode-IsDir = record { dense = new_inode-Dense; whole = refl }

abbrev empty_table : Itable
empty_table = λ i. record { dev = 0; ref = 0; node = new_inode }

empty_table-Single : Single empty_table
empty_table-Single i j li lj ui uj q q' = absurd (ui refl)

dirlookup-dirlink_example :
    LinkEnds all_mapped-CopyLaws small_sb 1 new_inode small_disk new_inode-File home new_inode-IsDir
      refl
      (97 ∷ [])
      ((λ e. omega arith), tt)
      5
      (omega arith)
      (omega arith)
      empty_table
      empty_table-Single
      (dirlink all_mapped small_sb 1 new_inode (97 ∷ []) 5 letters small_disk empty_table)
dirlookup-dirlink_example =
    dirlookup-dirlink all_mapped-CopyLaws small_sb 1 new_inode small_disk new_inode-File home
      new_inode-IsDir refl (97 ∷ []) ((λ e. omega arith), tt) 5 (omega arith) (omega arith)
      empty_table empty_table-Single letters
