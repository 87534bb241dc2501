-- ===== src/Client/TextMerge/Merges.antt =====
-- The merge from some line of the base on, laid out as chunks, and how a change comes before it.
use mathlib.Core.List.{append_assoc}
use synch.Common.{ℕ, ◌+◌, ◌≡◌, refl, ap, ◌∙◌, String, List, ◌∷◌, ◌++◌, arith, length}
use synch.Client.TextMerge.{Replacement}
use synch.Client.TextMerge.Chunks.{
  Chunk, kept, only_local, only_remote, agreed, base_chunk, local_chunk, remote_chunk, merged_chunk,
  spell, local_changes, remote_changes,
}

-- The merge from line `i` of the base on, behind the lines `output`, as chunks.
pub record Merges (i : ℕ) (base local remote : List String) (ls rs : List Replacement)
    (output merged : List String) : Type 0 where
  pub chunks : List Chunk
  pub merged_side : merged ≡ output ++ spell merged_chunk chunks
  pub base_side : spell base_chunk chunks ≡ base
  pub local_side : spell local_chunk chunks ≡ local
  pub remote_side : spell remote_chunk chunks ≡ remote
  pub local_listed : local_changes i chunks ≡ ls
  pub remote_listed : remote_changes i chunks ≡ rs

module _ (i : ℕ) (r : Replacement) (same_lines old : List String)
    (starts : r.start ≡ i + length same_lines) (ends : r.end ≡ r.start + length old) where
  listed :
      ◌≡◌ {A = Replacement}
        (record {
          start = i + length same_lines;
          end = i + length same_lines + length old;
          lines = r.lines;
        })
        r
  listed = ground arith

  next_line : i + length same_lines + length old ≡ r.end
  next_line = omega arith

  module _ {base local remote output merged : List String} {ls rs : List Replacement} where
    pub Merges-local :
        Merges r.end base local remote ls rs (output ++ (same_lines ++ r.lines)) merged
        → Merges i
            (same_lines ++ (old ++ base))
            (same_lines ++ (r.lines ++ local))
            (same_lines ++ (old ++ remote))
            (r ∷ ls)
            rs
            output
            merged
    unfolding spell local_changes remote_changes base_chunk local_chunk remote_chunk merged_chunk
    Merges-local g = record {
      chunks = kept same_lines ∷ only_local old r.lines ∷ g.chunks;
      merged_side = g.merged_side ∙ simp append_assoc;
      base_side = ap (λ l. same_lines ++ (old ++ l)) g.base_side;
      local_side = ap (λ l. same_lines ++ (r.lines ++ l)) g.local_side;
      remote_side = ap (λ l. same_lines ++ (old ++ l)) g.remote_side;
      local_listed = rw (listed, next_line, g.local_listed) refl;
      remote_listed = rw next_line g.remote_listed;
    }

    pub Merges-remote :
        Merges r.end base local remote ls rs (output ++ (same_lines ++ r.lines)) merged
        → Merges i
            (same_lines ++ (old ++ base))
            (same_lines ++ (old ++ local))
            (same_lines ++ (r.lines ++ remote))
            ls
            (r ∷ rs)
            output
            merged
    unfolding spell local_changes remote_changes base_chunk local_chunk remote_chunk merged_chunk
    Merges-remote g = record {
      chunks = kept same_lines ∷ only_remote old r.lines ∷ g.chunks;
      merged_side = g.merged_side ∙ simp append_assoc;
      base_side = ap (λ l. same_lines ++ (old ++ l)) g.base_side;
      local_side = ap (λ l. same_lines ++ (old ++ l)) g.local_side;
      remote_side = ap (λ l. same_lines ++ (r.lines ++ l)) g.remote_side;
      local_listed = rw next_line g.local_listed;
      remote_listed = rw (listed, next_line, g.remote_listed) refl;
    }

    pub Merges-agreed :
        Merges r.end base local remote ls rs (output ++ (same_lines ++ r.lines)) merged
        → Merges i
            (same_lines ++ (old ++ base))
            (same_lines ++ (r.lines ++ local))
            (same_lines ++ (r.lines ++ remote))
            (r ∷ ls)
            (r ∷ rs)
            output
            merged
    unfolding spell local_changes remote_changes base_chunk local_chunk remote_chunk merged_chunk
    Merges-agreed g = record {
      chunks = kept same_lines ∷ agreed old r.lines ∷ g.chunks;
      merged_side = g.merged_side ∙ simp append_assoc;
      base_side = ap (λ l. same_lines ++ (old ++ l)) g.base_side;
      local_side = ap (λ l. same_lines ++ (r.lines ++ l)) g.local_side;
      remote_side = ap (λ l. same_lines ++ (r.lines ++ l)) g.remote_side;
      local_listed = rw (listed, next_line, g.local_listed) refl;
      remote_listed = rw (listed, next_line, g.remote_listed) refl;
    }
