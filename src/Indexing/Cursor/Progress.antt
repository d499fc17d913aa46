-- ===== src/Indexing/Cursor/Progress.antt =====
-- Which ranges a tick processes, and where it leaves the checkpoint.
use chiliztv_com.Base.{
  ℕ, ◌+◌, ◌≤◌, ◌<◌, true, some, ◌≡◌, refl, List, [], ◌∷◌, ◌++◌, All, ◌⊎◌, inl, inr, ap, arith,
}
use chiliztv_com.Indexing.Cursor.{
  back, Settings, Answers, Cursor, Outcome, returned, safe_head, from_block, chunk_end, run_chunk,
  advance_cursor_once, advance_from, walk,
}
use chiliztv_com.Indexing.Cursor.Loop.{run_chunk_lem, walk_rule, Kept, chunk_end_bounds}

-- A range within the backlog, of the allowed size.
abbrev Fits : Settings → ℕ → ℕ → ℕ × ℕ → Type 0
Fits settings start safe (first, last) =
    (start ≤ first) × (first ≤ last) × (last ≤ safe) × (last < first + settings.max_blocks)

-- The ranges that the cursor has more than another one all fit.
abbrev pub Grew : Settings → ℕ → ℕ → Cursor → Cursor → Type 0
Grew settings start safe before after =
    (new : List (ℕ × ℕ)) × (after.processed ≡ new ++ before.processed)
    × All (Fits settings start safe) new

module _ (settings : Settings) (answers : Answers) (safe start : ℕ) (before : Cursor) where
  abbrev Inv : ℕ → Cursor → Type 0
  Inv from c =
      (start ≤ from)
      × Grew settings start safe before c
      × (((from ≡ start) × (c.last_block ≡ before.last_block))
          ⊎ ((from ≡ c.last_block + 1) × (c.last_block ≤ safe) × (start ≤ safe)))

  -- A tick that returns is at the safe head, or had nothing to do.
  abbrev Ends : Outcome × Cursor → Type 0
  Ends (o, c) =
      Grew settings start safe before c
      × (o ≡ returned
          → ((start ≤ safe) × (c.last_block ≡ safe))
            ⊎ ((safe < start) × (c.last_block ≡ before.last_block)))

  grow :
      (from to : ℕ) (c : Cursor)
      → Fits settings start safe (from, to)
      → Grew settings start safe before c
      → (new : List (ℕ × ℕ)) × ((from, to) ∷ c.processed ≡ new ++ before.processed)
        × All (Fits settings start safe) new
  grow from to c fits (new, e, all_fit) =
      ((from, to) ∷ new, ap (λ l. (from, to) ∷ l) e, (fits, all_fit))

  chunk-Inv :
      0 < settings.max_blocks
      → (from : ℕ) (c : Cursor) → from ≤ safe
      → Inv from c
      → Kept settings answers safe Inv Ends
          (chunk_end settings safe from)
          (run_chunk settings answers from (chunk_end settings safe from) c)
  chunk-Inv positive from c within (s, g, at) =
      let to = chunk_end settings safe from in
      let (top, ends) = chunk_end_bounds settings answers safe from within in
      let (first, size) = ends positive in
      let grown = grow from to c (s, first, top, size) g in
      run_chunk_lem settings answers from to c (Kept settings answers safe Inv Ends to)
        (omega arith, grown, inr (refl, top, omega arith)) (grown, (λ e. cc)) (g, (λ e. cc))

  leave : (from : ℕ) (c : Cursor) → safe < from → Inv from c → Ends (returned, c)
  leave from c h (s, g, inl (e, same)) = (g, (λ _. inr (omega arith, same)))
  leave from c h (s, g, inr (e, top, begun)) = (g, (λ _. inl (begun, omega arith)))

  walk-Ends :
      0 < settings.max_blocks
      → (fuel : ℕ) (r : Outcome × Cursor) → walk settings answers safe fuel start before ≡ some r
      → Ends r
  walk-Ends positive fuel r e =
      walk_rule settings answers safe Inv Ends (chunk-Inv positive) leave fuel start before r
        (omega arith, ([], refl, tt), inl (refl, refl)) e

-- The safe head is the depth of a reorganisation below the head, and block 0 on a shorter chain.
abbrev pub IsBelowHead : Settings → ℕ → Type 0
IsBelowHead settings head =
    (safe_head settings head + settings.reorg_depth ≡ head)
    ⊎ ((head ≤ settings.reorg_depth) × (safe_head settings head ≡ 0))

safe_head-IsBelowHead : (settings : Settings) (head : ℕ) → IsBelowHead settings head
unfolding safe_head back
safe_head-IsBelowHead settings head = ground arith

-- A tick that reads the head and the checkpoint processes ranges from its start to the safe head only,
-- none of them empty or larger than the limit, and the safe head is the depth of a reorganisation below
-- the head, or block 0 where the head is no higher than that depth; and if the tick ends without an
-- error, the checkpoint is at the safe head, or the start was beyond it and the checkpoint is as before.
pub advance_cursor_once_lem :
    (settings : Settings) (answers : Answers) (before after : Cursor) (o : Outcome) (head : ℕ)
    → 0 < settings.max_blocks
    → answers.head ≡ some head
    → answers.reads ≡ true
    → advance_cursor_once settings answers before ≡ some (o, after)
    → Grew settings
        (from_block settings before.last_block (safe_head settings head))
        (safe_head settings head)
        before
        after
      × (o ≡ returned
          → ((from_block settings before.last_block (safe_head settings head)
                ≤ safe_head settings head)
              × (after.last_block ≡ safe_head settings head))
            ⊎ ((safe_head settings head
                  < from_block settings before.last_block (safe_head settings head))
                × (after.last_block ≡ before.last_block)))
      × IsBelowHead settings head
unfolding advance_cursor_once advance_from
advance_cursor_once_lem settings answers before after o head positive h k e =
    let (grew, ends) =
      walk-Ends settings answers (safe_head settings head)
        (from_block settings before.last_block (safe_head settings head)) before positive
        (safe_head settings head + 2) (o, after) (simp (h, k) at e) in
    (grew, ends, safe_head-IsBelowHead settings head)
