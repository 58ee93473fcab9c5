-- ===== src/Download/Assembly.antt =====
-- internal/download/chunked.go: `assembleChunks`. The files of one local path are its own, its
-- temporary and its parts. What the system refuses is given.
use inference_budget_control.Prelude.{
  ℕ, ◌+◌, ◌-◌, List, [], ◌∷◌, ◌++◌, Bool, true, false, Option, some, none, if◌then◌else◌,
}
use inference_budget_control.Prelude.Int.{pos_part}
use inference_budget_control.Download.{ChunkRange}
use inference_budget_control.Prelude.Bytes.{take, drop}

-- `refused_copy` is the number of bytes that reach the temporary file before the copy of a part fails.
pub record Refusals : Type 0 where
  pub refused_create : Bool
  pub refused_open : ℕ → Bool
  pub refused_copy : ℕ → Option ℕ
  pub refused_sync : Bool
  pub refused_close : Bool
  pub refused_rename : Bool

pub data AssemblyError : Type 0 where
  create_temp : AssemblyError
  open_part : ℕ → AssemblyError
  copy_part_failed : ℕ → AssemblyError
  fsync_assembly : AssemblyError
  close_assembly : AssemblyError
  rename_failed : AssemblyError

pub record Files (B : Type 0) : Type 0 where
  pub whole : Option (List B)
  pub temp : Option (List B)
  pub parts : ℕ → Option (List B)

-- The bytes of a chunk.
abbrev pub slice : {B : Type 0} → List B → ChunkRange → List B
slice bytes c = take (pos_part c.stop + 1 - pos_part c.start) (drop (pos_part c.start) bytes)

-- What the copy of one part leaves of the output and of the error.
unfoldable pub copy_bytes :
    {B : Type 0} → ℕ → Option ℕ → List B → List B → List B × Option AssemblyError
copy_bytes i none out bytes = (out ++ bytes, none)
copy_bytes i (some n) out bytes = (out ++ take n bytes, some (copy_part_failed i))

unfoldable pub open_and_copy :
    {B : Type 0} → ℕ → Bool → Option (List B) → Option ℕ → List B → List B × Option AssemblyError
unfolding copy_bytes
open_and_copy i true part failure out = (out, some (open_part i))
open_and_copy i false none failure out = (out, some (open_part i))
open_and_copy i false (some bytes) failure out = copy_bytes i failure out bytes

-- The loop goes on, or returns the error.
abbrev pub stop_at_error :
    {B : Type 0}
    → List B × Option AssemblyError
    → List B × Option AssemblyError
    → List B × Option AssemblyError
stop_at_error (out, none) rest = rest
stop_at_error (out, some e) rest = (out, some e)

unfoldable pub copy_parts :
    {B : Type 0}
    → Refusals
    → (ℕ → Option (List B))
    → List B
    → List ChunkRange
    → List B × Option AssemblyError
unfolding open_and_copy
copy_parts r parts out [] = (out, none)
copy_parts r parts out (c ∷ cs) =
    let one =
      open_and_copy c.index (r.refused_open c.index) (parts c.index) (r.refused_copy c.index) out in
    stop_at_error one (copy_parts r parts one.0 cs)

-- f.Sync, f.Close and os.Rename.
unfoldable pub publish : {B : Type 0} → Refusals → Files B → List B → Files B × Option AssemblyError
publish r files out =
    let written : Files _ = record { whole = files.whole; temp = some out; parts = files.parts } in
    if r.refused_sync
    then (written, some fsync_assembly)
    else if r.refused_close
    then (written, some close_assembly)
    else if r.refused_rename
    then (written, some rename_failed)
    else (record { whole = some out; temp = none; parts = files.parts }, none)

unfoldable pub after_copy :
    {B : Type 0}
    → Refusals
    → Files B
    → List B × Option AssemblyError
    → Files B × Option AssemblyError
unfolding publish
after_copy r files (out, none) = publish r files out
after_copy r files (out, some e) =
    (record { whole = files.whole; temp = some out; parts = files.parts }, some e)

unfoldable pub assemble_chunks :
    {B : Type 0} → Refusals → Files B → List ChunkRange → Files B × Option AssemblyError
unfolding after_copy copy_parts
assemble_chunks r files chunks =
    if r.refused_create
    then (files, some create_temp)
    else after_copy r files (copy_parts r files.parts [] chunks)
