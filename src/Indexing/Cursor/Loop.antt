-- ===== src/Indexing/Cursor/Loop.antt =====
-- The loop over the chunks of a backlog: an invariant rule, and when the loop ends.
use chiliztv_com.Base.{
  false, Bool, none, refl, true, ℕ, zero, suc, ◌+◌, ◌≤◌, ◌<◌, Option, some, ◌≡◌, inl, inr, leb,
  Bool-cases, ◌∷◌, leb→le, arith,
}
use chiliztv_com.Indexing.Cursor.{
  from_block, safe_head, advance_from, advance_cursor_once, Settings, Answers, Cursor, Outcome,
  returned, failed, chunk_end, run_chunk, after_chunk, walk,
}

-- What a chunk leaves, its three ways: processed and written, processed only, or neither.
pub run_chunk_lem :
    (settings : Settings) (answers : Answers) (from to : ℕ) (cursor : Cursor)
    (P : Outcome × Cursor → Type 0)
    → P (returned, record { last_block = to; processed = (from, to) ∷ cursor.processed })
    → P (failed, record cursor { processed = (from, to) ∷ cursor.processed })
    → P (failed, cursor)
    → P (run_chunk settings answers from to cursor)
unfolding run_chunk
run_chunk_lem settings answers from to cursor P written unwritten unprocessed =
    elim (Bool-cases (answers.processes from to)) [
      | inr e ↦ rw e unprocessed
      | inl e ↦ elim (Bool-cases (answers.writes to)) [
        | inl w ↦ rw (e, w) written
        | inr w ↦ rw (e, w) unwritten
      ]
    ]

module _ (settings : Settings) (answers : Answers) (safe : ℕ) where
  -- A loop invariant over the next block and the cursor, and what it gives at each way out.
  module _ (P : ℕ → Cursor → Type 0) (Q : Outcome × Cursor → Type 0) where
    abbrev pub Kept : ℕ → Outcome × Cursor → Type 0
    Kept to (returned, cursor) = P (to + 1) cursor
    Kept to (failed, cursor) = Q (failed, cursor)

    after_chunk_rule :
        (to : ℕ) (next : Cursor → Option (Outcome × Cursor))
        → ((c : Cursor) (r : Outcome × Cursor) → P (to + 1) c → next c ≡ some r → Q r)
        → (left : Outcome × Cursor) → Kept to left
        → (r : Outcome × Cursor) → after_chunk settings next left ≡ some r
        → Q r
    after_chunk_rule to next ih (returned, cursor) k r e = ih cursor r k e
    after_chunk_rule to next ih (failed, cursor) k r e =
        let same : (failed, cursor) ≡ r = ground arith in rw (← same) k

    pub walk_rule :
        ((from : ℕ) (c : Cursor)
          → from ≤ safe
          → P from c
          → Kept
              (chunk_end settings safe from)
              (run_chunk settings answers from (chunk_end settings safe from) c))
        → ((from : ℕ) (c : Cursor) → safe < from → P from c → Q (returned, c))
        → (fuel from : ℕ) (c : Cursor) (r : Outcome × Cursor) → P from c
        → walk settings answers safe fuel from c ≡ some r
        → Q r
    unfolding walk
    walk_rule keep leave zero from c r p e = ground arith
    walk_rule keep leave (suc fuel) from c r p e = elim (Bool-cases (leb from safe)) [
      | inl t ↦
          after_chunk_rule (chunk_end settings safe from) _
            (walk_rule keep leave fuel (chunk_end settings safe from + 1)) _
            (keep from c (leb→le from safe t) p) r (rw t at e)
      | inr t ↦
          let same : (returned, c) ≡ r = ground arith in rw (← same) (leave from c (ground arith) p)
    ]

  -- The end of a chunk lies within the backlog and the size, and not before the start.
  pub chunk_end_bounds :
      (from : ℕ)
      → from ≤ safe
      → (chunk_end settings safe from ≤ safe)
        × (0 < settings.max_blocks
            → (from ≤ chunk_end settings safe from)
              × (chunk_end settings safe from < from + settings.max_blocks))
  unfolding chunk_end
  chunk_end_bounds from h = (ground arith, λ p. ground arith)

  after_chunk_total :
      (next : Cursor → Option (Outcome × Cursor))
      → ((c : Cursor) → (r : Outcome × Cursor) × (next c ≡ some r))
      → (left : Outcome × Cursor)
      → (r : Outcome × Cursor) × (after_chunk settings next left ≡ some r)
  after_chunk_total next total (returned, cursor) = total cursor
  after_chunk_total next total (failed, cursor) = ((failed, cursor), refl)

  walk_total :
      0 < settings.max_blocks
      → (fuel from : ℕ) (c : Cursor) → safe + 1 < fuel + from
      → 0 < fuel
      → (r : Outcome × Cursor) × (walk settings answers safe fuel from c ≡ some r)
  unfolding walk
  walk_total positive zero from c h z = absurd (omega arith)
  walk_total positive (suc fuel) from c h z = elim (Bool-cases (leb from safe)) [
    | inl t ↦
        let within = leb→le from safe t in
        let (_, ends) = chunk_end_bounds from within in
        let (later, _) = ends positive in
        rw t (
          after_chunk_total _
            (λ c'.
              walk_total positive fuel (chunk_end settings safe from + 1) c' (omega arith)
                (omega arith))
            _)
    | inr t ↦ rw t ((returned, c), refl)
  ]

  -- With chunks of no size a backlog is walked for ever.
  walk_for_ever :
      settings.max_blocks ≡ 0
      → ((from to : ℕ) → answers.processes from to ≡ true)
      → ((to : ℕ) → answers.writes to ≡ true)
      → (fuel from : ℕ) (c : Cursor) → 0 < from
      → from ≤ safe
      → walk settings answers safe fuel from c ≡ none
  unfolding walk chunk_end run_chunk
  walk_for_ever size process write zero from c p h = refl
  walk_for_ever size process write (suc fuel) from c p h =
      let same : chunk_end settings safe from + 1 ≡ from = ground arith in
      let t : leb from safe ≡ true = ground arith in
      rw
        (t, process from (chunk_end settings safe from), write (chunk_end settings safe from), same)
        (walk_for_ever size process write fuel from _ p h)

-- A tick always ends if the chunks have a size, and never does, whatever the fuel, if they have none,
-- there is a backlog from block 1 on and nothing is refused.
pub walk_ends :
    (settings : Settings) (answers : Answers) (safe : ℕ)
    → (0 < settings.max_blocks
        → (from : ℕ) (c : Cursor)
        → (r : Outcome × Cursor) × (walk settings answers safe (safe + 2) from c ≡ some r))
      × (settings.max_blocks ≡ 0
          → ((from to : ℕ) → answers.processes from to ≡ true)
          → ((to : ℕ) → answers.writes to ≡ true)
          → (fuel from : ℕ) (c : Cursor) → 0 < from
          → from ≤ safe
          → walk settings answers safe fuel from c ≡ none)
walk_ends settings answers safe = (
  (λ positive from c.
      walk_total settings answers safe positive (safe + 2) from c (omega arith) (omega arith)),
  walk_for_ever settings answers safe,
)

advance_from_total :
    (settings : Settings) (answers : Answers) (head : Option ℕ) (reads : Bool) (c : Cursor)
    → 0 < settings.max_blocks
    → (r : Outcome × Cursor) × (advance_from settings answers head reads c ≡ some r)
unfolding advance_from
advance_from_total settings answers none reads c positive = ((failed, c), refl)
advance_from_total settings answers (some head) false c positive = ((failed, c), refl)
advance_from_total settings answers (some head) true c positive =
    (walk_ends settings answers (safe_head settings head)).0 positive
      (from_block settings c.last_block (safe_head settings head)) c

pub advance_total :
    (settings : Settings) (answers : Answers) (c : Cursor)
    → 0 < settings.max_blocks
    → (r : Outcome × Cursor) × (advance_cursor_once settings answers c ≡ some r)
unfolding advance_cursor_once
advance_total settings answers c positive =
    advance_from_total settings answers answers.head answers.reads c positive
