-- ===== src/Indexing/Cursor/Coverage.antt =====
-- No block is passed over, whatever fails and whatever head the chain reports.
use chiliztv_com.Base.{
  true, none, [], false, ◌+◌, All, some, ◌≡◌, Bool, Option, ℕ, ◌≤◌, ◌<◌, refl, inl, inr, ltb,
  Bool-cases, List, ◌∷◌, arith, Among,
}
use chiliztv_com.Indexing.Cursor.{
  safe_head, advance_cursor_once, walk, advance_from, run_ticks, run_batch, from_block, Settings,
  Answers, Cursor, Outcome, chunk_end, run_chunk,
}
use chiliztv_com.Indexing.Cursor.Loop.{
  walk_rule, advance_total, run_chunk_lem, Kept, chunk_end_bounds,
}

-- A range that was processed holds the block.
abbrev Covered : ℕ → List (ℕ × ℕ) → Type 0
Covered b processed = (first last : ℕ) × Among (first, last) processed × (first ≤ b) × (b ≤ last)

-- Every block from the origin to the checkpoint was processed.
abbrev pub IsCovered : ℕ → Cursor → Type 0
IsCovered origin c =
    (0 < c.last_block) × ((b : ℕ) → origin ≤ b → b ≤ c.last_block → Covered b c.processed)

Covered-cons : (b : ℕ) (chunk : ℕ × ℕ) (l : List (ℕ × ℕ)) → Covered b l → Covered b (chunk ∷ l)
Covered-cons b chunk l (first, last, m, h, k) = (first, last, inr m, h, k)

module _ (settings : Settings) (answers : Answers) (safe origin : ℕ) where
  -- The blocks before the next one are covered too.
  abbrev Inv : ℕ → Cursor → Type 0
  Inv from c =
      (0 < from) × IsCovered origin c × ((b : ℕ) → origin ≤ b → b < from → Covered b c.processed)

  abbrev Ends : Outcome × Cursor → Type 0
  Ends (o, c) = IsCovered origin c

  reached :
      (from to : ℕ) (c : Cursor)
      → Inv from c
      → (b : ℕ) → origin ≤ b
      → b ≤ to
      → Covered b ((from, to) ∷ c.processed)
  reached from to c (p, old, before) b h k = elim (Bool-cases (ltb b from)) [
    | inl e ↦ Covered-cons b (from, to) c.processed (before b h (ground arith))
    | inr e ↦ (from, to, inl refl, ground arith, k)
  ]

  chunk-Inv :
      0 < settings.max_blocks
      → (from : ℕ) (c : Cursor) → from ≤ safe
      → Inv from c
      → Kept settings answers safe Inv Ends
          (chunk_end settings safe from)
          (run_chunk settings answers from (chunk_end settings safe from) c)
  chunk-Inv positive from c within (p, (q, old), before) =
      let to = chunk_end settings safe from in
      let (start, _) = (chunk_end_bounds settings answers safe from within).1 positive in
      run_chunk_lem settings answers from to c (Kept settings answers safe Inv Ends to)
        (
          omega arith,
          (omega arith, reached from to c (p, (q, old), before)),
          (λ b h k. reached from to c (p, (q, old), before) b h (omega arith)),
        )
        (q, (λ b h k. Covered-cons b (from, to) c.processed (old b h k))) (q, old)

  walk-IsCovered :
      0 < settings.max_blocks
      → (fuel from : ℕ) (c : Cursor) (r : Outcome × Cursor) → Inv from c
      → walk settings answers safe fuel from c ≡ some r
      → Ends r
  walk-IsCovered positive =
      walk_rule settings answers safe Inv Ends (chunk-Inv positive)
        (λ from c h (_, covered, _). covered)

-- The head lies further on than the depth and the overlap.
abbrev IsDeep : Settings → Option ℕ → Type 0
IsDeep settings none = Unit {0}
IsDeep settings (some head) = settings.reorg_depth + settings.tail_overlap < head

module _ (settings : Settings) (answers : Answers) (origin : ℕ) where
  from_block_bounds :
      (stored head : ℕ)
      → 0 < stored
      → IsDeep settings (some head)
      → (0 < from_block settings stored (safe_head settings head))
        × (from_block settings stored (safe_head settings head) ≤ stored + 1)
  unfolding from_block safe_head
  from_block_bounds stored head p d = (ground arith, ground arith)

  advance_from-IsCovered :
      0 < settings.max_blocks
      → (head : Option ℕ) (reads : Bool) (c : Cursor) (r : Outcome × Cursor) → IsDeep settings head
      → IsCovered origin c
      → advance_from settings answers head reads c ≡ some r
      → IsCovered origin r.1
  unfolding advance_from
  advance_from-IsCovered positive none reads c (o, after) d covered e =
      let same : c ≡ after = ground arith in rw (← same) covered
  advance_from-IsCovered positive (some head) false c (o, after) d covered e =
      let same : c ≡ after = ground arith in rw (← same) covered
  advance_from-IsCovered positive (some head) true c r d (p, old) e =
      let (start, near) = from_block_bounds c.last_block head p d in
      walk-IsCovered settings answers (safe_head settings head) origin positive
        (safe_head settings head + 2) (from_block settings c.last_block (safe_head settings head)) c
        r (start, (p, old), (λ b h k. old b h (omega arith))) e

module _ (settings : Settings) (origin : ℕ) (positive : 0 < settings.max_blocks) where
  run_batch-IsCovered :
      (acquired : Bool) (answers : Answers) (c : Cursor)
      → IsDeep settings answers.head
      → IsCovered origin c
      → (after : Cursor) × (run_batch settings acquired answers c ≡ some after)
        × IsCovered origin after
  unfolding run_batch advance_cursor_once
  run_batch-IsCovered false answers c d covered = (c, refl, covered)
  run_batch-IsCovered true answers c d covered =
      let (r, e) = advance_total settings answers c positive in
      (
        r.1,
        rw e refl,
        advance_from-IsCovered settings answers origin positive answers.head answers.reads c r d
            covered e,
      )

-- Whatever ticks follow one another, with any of them left out for the lock, and whatever reads, ranges
-- and writes fail in them, all of them end, and every block from the origin to the checkpoint was
-- processed, if that held before. The chunks have a size, and each head that is read lies further on
-- than the depth and the overlap; the heads may go back.
pub run_ticks-IsCovered :
    (settings : Settings) (origin : ℕ)
    → 0 < settings.max_blocks
    → (ticks : List (Bool × Answers)) (c : Cursor)
    → All (λ (tick : Bool × Answers). IsDeep settings tick.1.head) ticks
    → IsCovered origin c
    → (after : Cursor) × (run_ticks settings ticks c ≡ some after) × IsCovered origin after
unfolding run_ticks
run_ticks-IsCovered settings origin positive [] c deep covered = (c, refl, covered)
run_ticks-IsCovered settings origin positive ((acquired, answers) ∷ ticks) c (d, deep) covered =
    let (next, e, k) = run_batch-IsCovered settings origin positive acquired answers c d covered in
    let (after, f, done) = run_ticks-IsCovered settings origin positive ticks next deep k in
    (after, rw (e, run_ticks) f, done)
