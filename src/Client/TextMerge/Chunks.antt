-- ===== src/Client/TextMerge/Chunks.antt =====
-- A three-way merge laid out as chunks: what each chunk holds in the base, on either side, and in the
-- merge. A chunk is kept by both sides, changed by one of them, or changed by both in the same way.
use synch.Common.{ℕ, ◌+◌, String, List, [], ◌∷◌, ◌++◌, length}
use synch.Client.TextMerge.{Replacement}

pub data Chunk : Type 0 where
  kept : List String → Chunk
  only_local : List String → List String → Chunk
  only_remote : List String → List String → Chunk
  agreed : List String → List String → Chunk

unfoldable pub base_chunk : Chunk → List String
base_chunk (kept ls) = ls
base_chunk (only_local old new) = old
base_chunk (only_remote old new) = old
base_chunk (agreed old new) = old

unfoldable pub local_chunk : Chunk → List String
local_chunk (kept ls) = ls
local_chunk (only_local old new) = new
local_chunk (only_remote old new) = old
local_chunk (agreed old new) = new

unfoldable pub remote_chunk : Chunk → List String
remote_chunk (kept ls) = ls
remote_chunk (only_local old new) = old
remote_chunk (only_remote old new) = new
remote_chunk (agreed old new) = new

-- The merge has the new lines of each change.
unfoldable pub merged_chunk : Chunk → List String
merged_chunk (kept ls) = ls
merged_chunk (only_local old new) = new
merged_chunk (only_remote old new) = new
merged_chunk (agreed old new) = new

unfoldable pub spell : (Chunk → List String) → List Chunk → List String
spell side [] = []
spell side (c ∷ cs) = side c ++ spell side cs

-- The changes of one side, with the lines of the base that they stand for.
unfoldable pub local_changes : ℕ → List Chunk → List Replacement
local_changes i [] = []
local_changes i (kept ls ∷ cs) = local_changes (i + length ls) cs
local_changes i (only_local old new ∷ cs) =
    record { start = i; end = i + length old; lines = new } ∷ local_changes (i + length old) cs
local_changes i (only_remote old new ∷ cs) = local_changes (i + length old) cs
local_changes i (agreed old new ∷ cs) =
    record { start = i; end = i + length old; lines = new } ∷ local_changes (i + length old) cs

unfoldable pub remote_changes : ℕ → List Chunk → List Replacement
remote_changes i [] = []
remote_changes i (kept ls ∷ cs) = remote_changes (i + length ls) cs
remote_changes i (only_local old new ∷ cs) = remote_changes (i + length old) cs
remote_changes i (only_remote old new ∷ cs) =
    record { start = i; end = i + length old; lines = new } ∷ remote_changes (i + length old) cs
remote_changes i (agreed old new ∷ cs) =
    record { start = i; end = i + length old; lines = new } ∷ remote_changes (i + length old) cs
