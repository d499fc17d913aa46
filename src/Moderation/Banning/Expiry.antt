-- ===== src/Moderation/Banning/Expiry.antt =====
-- LiftExpiredBansUseCase: hygiene, and nothing else.
use chiliztv_com.Moderation.Bans.Enforcement.{mark_expired_hygiene}
use chiliztv_com.Moderation.Bans.OneActive.{IsTable}
use chiliztv_com.Base.{
  sym, ◌==◌, refl, ◌∙◌, Text, ◌∷◌, ap, ℕ, ◌≤◌, Bool, true, false, List, [], ◌≡◌, inl, inr, arith,
  Among, Among-filter, Among-update_where, map-Among, filter, filter_nothing, take_all, length, has,
  has_iff, Bool-cases, if◌then◌else◌, ◌&&◌, count,
}
use chiliztv_com.Moderation.Bans.{
  find_active_ban, Ban, is_active, due, expire, find_to_expire, mark_expired,
}
use chiliztv_com.Moderation.World.{World, Services}
use chiliztv_com.Moderation.Banning.{lift_expired, batch_size, ids_of}

-- An expired row that is still in status active.
abbrev pub is_stale : ℕ → Ban → Bool
is_stale now row = is_active row.status && due now row.expires_at

stale_listed :
    (now : ℕ) (rows : List Ban) (row : Ban)
    → count (is_stale now) rows ≤ batch_size
    → Among row rows
    → is_stale now row ≡ true
    → has (ids_of (find_to_expire now batch_size rows)) row.id ≡ true
unfolding find_to_expire
stale_listed now rows row few m h = rw (take_all batch_size (filter (is_stale now) rows) few) (
    (has_iff (ids_of (filter (is_stale now) rows)) row.id).1 (
      map-Among (λ (b : Ban). b.id) (filter (is_stale now) rows) row
        ((Among-filter (is_stale now) rows row).1 (m, h))))

none_stale :
    (now : ℕ) (rows : List Ban)
    → count (is_stale now) rows ≤ batch_size
    → filter (is_stale now) (mark_expired (ids_of (find_to_expire now batch_size rows)) now rows)
      ≡ []
unfolding mark_expired
none_stale now rows few = filter_nothing (is_stale now) _ (λ b m.
    let (row, n, at) =
      Among-update_where
        (λ row. has (ids_of (find_to_expire now batch_size rows)) row.id && is_active row.status)
        (expire now) rows b m in
    rw at (gone row n))
  where
    gone :
        (row : Ban)
        → Among row rows
        → is_stale now (
            if has (ids_of (find_to_expire now batch_size rows)) row.id && is_active row.status
            then expire now row
            else row)
          ≡ false
    gone row n = elim (Bool-cases (is_stale now row)) [
      | inl e ↦ ground (arith, stale_listed now rows row few n e)
      | inr e ↦ ground arith
    ]

mark_nothing : (now : ℕ) (rows : List Ban) → mark_expired [] now rows ≡ rows
unfolding mark_expired
mark_nothing now [] = refl
mark_nothing now (row ∷ rows) = ap (λ rest. row ∷ rest) (mark_nothing now rows)

is_nothing : (rows : List Ban) → length rows ≡ 0 → rows ≡ []
is_nothing [] e = refl
is_nothing (row ∷ rows) e = absurd (omega arith)

-- The table after the job, which returns early where nothing is stale.
pub rows_after :
    (services : Services) (now : ℕ) (world : World)
    → (lift_expired services now world).1.bans
      ≡ mark_expired (ids_of (find_to_expire now batch_size world.bans)) now world.bans
unfolding lift_expired
rows_after services now world =
    elim (Bool-cases (length (find_to_expire now batch_size world.bans) == 0)) [
      | inl e ↦
          let empty = is_nothing (find_to_expire now batch_size world.bans) (ground arith) in
          rw (e, empty) (sym (mark_nothing now world.bans))
      | inr e ↦ rw e refl
    ]

-- The job binds and frees nobody: from its moment on, each wallet is found banned, and by the same
-- row, exactly as if the job had not run, whether or not the cache deletes the keys.
pub lift_expired_hygiene :
    (services : Services) (now later : ℕ) (wallet : Text) (world : World)
    → IsTable world.bans
    → now ≤ later
    → find_active_ban wallet later (lift_expired services now world).1.bans
      ≡ find_active_ban wallet later world.bans
lift_expired_hygiene services now later wallet world t le =
    ap (find_active_ban wallet later) (rows_after services now world)
    ∙ mark_expired_hygiene now batch_size later wallet world.bans t le

-- After a run that finds no more stale rows than its batch takes, none is left.
pub lift_expired_complete :
    (services : Services) (now : ℕ) (world : World)
    → count (is_stale now) world.bans ≤ batch_size
    → filter (is_stale now) (lift_expired services now world).1.bans ≡ []
lift_expired_complete services now world few =
    ap (filter (is_stale now)) (rows_after services now world) ∙ none_stale now world.bans few
