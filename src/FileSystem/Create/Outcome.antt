-- ===== src/FileSystem/Create/Outcome.antt =====
-- `createfile` on its branches: when it makes a data file, and when it makes a directory.
use hdu_os_experiment.Common.{
  ℕ, ◌/◌, ◌≤◌, ◌<◌, ◌≡◌, ◌≢◌, refl, arith, false, true, Bool, List, some, ne→==, eq→==,
}
use hdu_os_experiment.Memory.{Mem}
use hdu_os_experiment.Memory.Token.{split_name, name_ext, name_only}
use hdu_os_experiment.FileSystem.Fcb
use hdu_os_experiment.FileSystem.Fcb.{judge_dir}
use hdu_os_experiment.FileSystem.Fcb.Init.{IsName}
use hdu_os_experiment.FileSystem.Fat.{
  get_block_ptr, get_next_vhd_block, end_mark, next_num, free_mark,
}
use hdu_os_experiment.FileSystem.Fat.Next.{get_next_vhd_block_lem}
use hdu_os_experiment.FileSystem.Dir.{get_next_fcb, not_found, dir_exname}
use hdu_os_experiment.FileSystem.Dir.Used.{get_next_fcb-FirstUnused}
use hdu_os_experiment.FileSystem.Dir.Lookup.{first_wanted, Cleared, Counts, name_taken-is_found}
use hdu_os_experiment.FileSystem.Oft.{Fs, set_oft}
use hdu_os_experiment.FileSystem.Create.{rewound, create_at, create_named, create_parts, createfile}
use hdu_os_experiment.FileSystem.Create.File.{
  current, here, InDirectory, NewFile, create_at-NewFile,
}
use hdu_os_experiment.FileSystem.Create.Folder.{NewFolder, create_at-NewFolder}

pub current-rewound :
    (s : Fs)
    → current (rewound s) ≡ record (current s) { fdt = record (current s).fdt { file_ptr = 0 } }
unfolding set_oft
current-rewound s = rw (eq→== s.curr_oft_index s.curr_oft_index refl)

pub rewound-InDirectory : (s : Fs) → InDirectory s → InDirectory (rewound s)
rewound-InDirectory s dir = record {
  is_dir = rw (current-rewound s) dir.is_dir;
  block_low = rw (current-rewound s) dir.block_low;
  block_high = rw (current-rewound s) dir.block_high;
  length = rw (current-rewound s) dir.length;
  parent_low = rw (current-rewound s) dir.parent_low;
  parent_entry = rw (current-rewound s) dir.parent_entry;
}

pub block-lt : (m : Mem) → get_next_vhd_block m ≢ end_mark → get_next_vhd_block m < 1024
block-lt m h = ground (arith, (get_next_vhd_block_lem m).free_or_end)

pub block-ge : (m : Mem) → get_next_vhd_block m ≢ end_mark → 5 ≤ get_next_vhd_block m
block-ge m h = ground (arith, (get_next_vhd_block_lem m).free_or_end)

-- It is not a block that is taken.
pub block-other :
    (m : Mem) (j : ℕ)
    → get_next_vhd_block m ≢ end_mark
    → next_num m j ≢ free_mark
    → get_next_vhd_block m ≢ j
block-other m j h taken e = ground (arith, (get_next_vhd_block_lem m).free_or_end)

pub slot-bounds : (m : Mem) (p i : ℕ) → get_next_fcb m p ≡ some i → (2 ≤ i) × (i < 32)
slot-bounds m p i e = let first = rw e at (get_next_fcb-FirstUnused m p) in (first.0, first.1)

-- `createfile` by name, when the name is not taken and there are a free entry and a free block.
named-run :
    (s : Fs) (fname ename : List ℕ) (isdir : Bool) (i : ℕ)
    → Counts s.vd (get_block_ptr (here s)) (Fcb.len (current s).fcb 0 / 32)
    → Cleared s.vd (get_block_ptr (here s)) fname ename isdir 30 2
    → first_wanted s.vd (get_block_ptr (here s)) fname ename isdir 30 2 ≡ not_found
    → get_next_fcb s.vd (get_block_ptr (here s)) ≡ some i
    → get_next_vhd_block s.vd ≢ end_mark
    → create_named s fname ename isdir
      ≡ (0, create_at (rewound s) i (get_next_vhd_block s.vd) fname ename isdir)
unfolding create_named
named-run s fname ename isdir i counts cleared fresh slot room =
    rw
      (
        name_taken-is_found s.vd (get_block_ptr (here s)) _ fname ename isdir counts cleared,
        fresh,
        slot,
        ne→== _ _ room,
      )
      refl

-- In a directory that counts its entries and has the name in no unused one, with a free entry and
-- a free block, `createfile` of a name with an extension, both of which fit and which no data file
-- there has, returns 0. The first free entry is then an empty data file of that name on the first
-- free block, both tables say that this block is the last of its chain, and nothing else has
-- changed but the recorded lengths of the directory.
pub createfile-NewFile :
    (s : Fs) (filename fname ename : List ℕ) (i : ℕ)
    → InDirectory s
    → Counts s.vd (get_block_ptr (here s)) (Fcb.len (current s).fcb 0 / 32)
    → Cleared s.vd (get_block_ptr (here s)) fname ename false 30 2
    → split_name filename ≡ name_ext fname ename
    → IsName fname ename
    → first_wanted s.vd (get_block_ptr (here s)) fname ename false 30 2 ≡ not_found
    → get_next_fcb s.vd (get_block_ptr (here s)) ≡ some i
    → get_next_vhd_block s.vd ≢ end_mark
    → (s' : Fs) × (createfile s filename false ≡ some (0, s'))
      × NewFile (rewound s) s' fname ename i (get_next_vhd_block s.vd)
unfolding createfile create_parts
createfile-NewFile s filename fname ename i dir counts cleared parts names fresh slot room = (
  create_at (rewound s) i (get_next_vhd_block s.vd) fname ename false,
  rw (dir.is_dir, parts, named-run s fname ename false i counts cleared fresh slot room) refl,
  create_at-NewFile (rewound s) fname ename i (get_next_vhd_block s.vd) (rewound-InDirectory s dir)
      names (slot-bounds _ _ i slot).0 (slot-bounds _ _ i slot).1 (block-lt s.vd room),
)

-- In a directory that counts its entries and has the name in no unused one, with a free entry and
-- a free block, and if neither its own block nor that of its parent is free, `createfile` of a
-- directory whose name fits and is not taken returns 0. The first free entry is then a directory
-- of that name on the first free block, where "." is itself, ".." the current directory, and no
-- other entry is in use. Both tables say that the block is the last of its chain, and nothing else
-- has changed but the recorded lengths of the current directory.
pub createfile-NewFolder :
    (s : Fs) (filename fname : List ℕ) (i : ℕ)
    → InDirectory s
    → next_num s.vd (here s) ≢ free_mark
    → next_num s.vd (current s).fdt.pdf_block_no ≢ free_mark
    → Counts s.vd (get_block_ptr (here s)) (Fcb.len (current s).fcb 0 / 32)
    → Cleared s.vd (get_block_ptr (here s)) fname dir_exname true 30 2
    → split_name filename ≡ name_only fname
    → IsName fname dir_exname
    → first_wanted s.vd (get_block_ptr (here s)) fname dir_exname true 30 2 ≡ not_found
    → get_next_fcb s.vd (get_block_ptr (here s)) ≡ some i
    → get_next_vhd_block s.vd ≢ end_mark
    → (s' : Fs) × (createfile s filename true ≡ some (0, s'))
      × NewFolder (rewound s) s' fname i (get_next_vhd_block s.vd)
unfolding createfile create_parts
createfile-NewFolder s filename fname i dir taken taken' counts cleared parts names fresh slot
      room =
    (
      create_at (rewound s) i (get_next_vhd_block s.vd) fname dir_exname true,
      rw (dir.is_dir, parts, named-run s fname dir_exname true i counts cleared fresh slot room)
          refl,
      create_at-NewFolder (rewound s) fname i (get_next_vhd_block s.vd) (rewound-InDirectory s dir)
          names (slot-bounds _ _ i slot).0 (slot-bounds _ _ i slot).1 (block-ge s.vd room)
          (block-lt s.vd room) (rw (current-rewound s) (block-other s.vd (here s) room taken))
          (rw (current-rewound s) (block-other s.vd (current s).fdt.pdf_block_no room taken')),
    )
