-- ===== src/BlockDriver.antt =====
-- The block device of exam3/exam3-2/blk_dev.c: four megabytes of memory, and the function that serves
-- the requests of its queue.
pub mod Bounds
pub mod RoundTrip
pub mod Served
pub mod Setup
mod Examples
use hdu_os_experiment.Common.{
  ℕ, zero, suc, ◌+◌, ◌*◌, ◌%◌, Bool, true, false, Option, none, some, List, [], ◌∷◌, ltb,
  if◌then◌else◌,
}
use hdu_os_experiment.Memory.{Mem, memcpy}

-- `TOTAL_SIZE`.
abbrev pub total_size : ℕ
total_size = 4194304

-- The values of an `unsigned long`.
abbrev pub word : ℕ
word = 18446744073709551616

-- A `struct bio`: its first sector, its direction, and the mapped pages of its segments.
pub record Bio : Type 0 where
  pub bi_sector : ℕ
  pub is_write : Bool
  pub segments : List Mem

-- A `struct request`: whether it is of the type `REQ_TYPE_FS`, and its bios.
pub record Request : Type 0 where
  pub is_fs : Bool
  pub bios : List Bio

-- What became of a list of work: whether all of it was in range, the memory, and the work as it is
-- then.
pub record Work (A : Type 0) : Type 0 where
  pub in_range : Bool
  pub disk : Mem
  pub out : A

-- The copy of one segment: the memory and the page.
unfoldable pub transfer : Bool → Mem → ℕ → ℕ → Mem → Mem × Mem
transfer true disk offset size buffer = (memcpy disk offset buffer 0 size, buffer)
transfer false disk offset size buffer = (disk, memcpy buffer 0 disk offset size)

-- `bio_for_each_segment` of the segments that are left, at the offset `pos`.
unfoldable pub do_segments : ℕ → Bool → Mem → ℕ → List Mem → Work (List Mem)
do_segments size is_write disk pos [] = record { in_range = true; disk = disk; out = [] }
do_segments size is_write disk pos (buffer ∷ rest) =
    let moved = transfer is_write disk pos size buffer in
    let after = do_segments size is_write moved.0 ((pos + size) % word) rest in
    if ltb total_size ((pos + size) % word)
    then record { in_range = false; disk = disk; out = buffer ∷ rest }
    else record { in_range = after.in_range; disk = after.disk; out = moved.1 ∷ after.out }

-- One bio; `cur_bytes` is the kernel's `bio_cur_bytes`.
unfoldable pub do_bio : (Bio → ℕ) → Mem → Bio → Work Bio
do_bio cur_bytes disk bio =
    let w =
      do_segments (cur_bytes bio) bio.is_write disk (bio.bi_sector * 512 % word) bio.segments in
    record { in_range = w.in_range; disk = w.disk; out = record bio { segments = w.out } }

-- `__rq_for_each_bio` of the bios that are left.
unfoldable pub do_bios : (Bio → ℕ) → Mem → List Bio → Work (List Bio)
do_bios cur_bytes disk [] = record { in_range = true; disk = disk; out = [] }
do_bios cur_bytes disk (bio ∷ rest) =
    let w = do_bio cur_bytes disk bio in
    let after = do_bios cur_bytes w.disk rest in
    if w.in_range
    then record { in_range = after.in_range; disk = after.disk; out = w.out ∷ after.out }
    else record { in_range = false; disk = w.disk; out = w.out ∷ rest }

-- How `__blk_end_request_all` ended a request: with `-EIO`, or with 0 and the bios as they are then.
pub data Reply : Type 0 where
  io_error : Reply
  ended : List Bio → Reply

-- What `do_my_blk_request` leaves: the memory, the replies in their order, and the requests that were
-- fetched or queued and have no reply.
pub record Queue : Type 0 where
  pub disk : Mem
  pub replies : List Reply
  pub left : List Request

-- `do_my_blk_request` of a queue. A segment out of range makes it return, with the request at hand
-- not ended.
unfoldable pub do_my_blk_request : (Bio → ℕ) → Mem → List Request → Queue
do_my_blk_request cur_bytes disk [] = record { disk = disk; replies = []; left = [] }
do_my_blk_request cur_bytes disk (request ∷ rest) =
    let w = do_bios cur_bytes disk request.bios in
    let skipped = do_my_blk_request cur_bytes disk rest in
    let after = do_my_blk_request cur_bytes w.disk rest in
    if request.is_fs
    then if w.in_range
      then record after { replies = ended w.out ∷ after.replies }
      else record { disk = w.disk; replies = []; left = record request { bios = w.out } ∷ rest }
    else record skipped { replies = io_error ∷ skipped.replies }

-- What the module holds of the kernel's.
pub record Held : Type 0 where
  pub buffer : Bool
  pub major : Bool
  pub gendisk : Bool
  pub queue : Bool
  pub added : Bool

-- The labels of `ramvhd_init`, from the last on.
abbrev freemem : Held → Bool × Held
freemem h = (false, record h { buffer = false })

abbrev unreg : Held → Bool × Held
unreg h = freemem (record h { major = false })

abbrev releasedisk : Held → Bool × Held
releasedisk h = unreg (record h { gendisk = false })

-- `ramvhd_init`, by which of its four requests the kernel refuses: whether it returns 0, and what is
-- held then.
unfoldable pub ramvhd_init : Bool → Bool → Bool → Bool → Held → Bool × Held
ramvhd_init no_memory no_major no_disk no_queue h =
    let h1 = record h { buffer = true } in
    let h2 = record h1 { major = true } in
    let h3 = record h2 { gendisk = true } in
    let h4 = record h3 { queue = true } in
    if no_memory
    then (false, h)
    else if no_major
    then freemem h1
    else if no_disk
    then unreg h2
    else if no_queue
    then releasedisk h3
    else (true, record h4 { added = true })

-- `ramvhd_exit`.
unfoldable pub ramvhd_exit : Held → Held
ramvhd_exit h =
    let h1 = record h { added = false } in
    let h2 = record h1 { gendisk = false } in
    let h3 = record h2 { major = false } in
    let h4 = record h3 { queue = false } in record h4 { buffer = false }
