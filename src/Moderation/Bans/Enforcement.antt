-- ===== src/Moderation/Bans/Enforcement.antt =====
-- Whom a ban binds: a question of time and of the rows, never of the job that flips expired rows.
use chiliztv_com.Base.{
  filter_single, Among-take, ◌&&◌, Among-map, has_iff, filter-update_where, ap, Among-All, map, has,
  sym, ◌≤◌, ◌∙◌, ℕ, true, Option, some, List, [], ◌∷◌, ◌≡◌, ◌↔◌, inl, inr, arith, Text, text_eq_iff,
  to_lower_case, Among, Among-filter, filter, ok,
}
use chiliztv_com.Moderation.Bans.{
  is_active, expire, due, find_to_expire, mark_expired, Ban, is_active_at, binds, find_active_ban,
}
use chiliztv_com.Moderation.Rows.{single_ok, single_iff, maybe_single}
use chiliztv_com.Moderation.Bans.OneActive.{Compatible, IsTable}

binds_iff :
    (wallet : Text) (now : ℕ) (b : Ban)
    → (binds wallet now b ≡ true) ↔ ((b.wallet_address ≡ wallet) × (is_active_at now b ≡ true))
unfolding is_active_at
binds_iff wallet now b = ground (arith, text_eq_iff b.wallet_address wallet)

binding_clash :
    (wallet : Text) (now : ℕ) (a b : Ban)
    → binds wallet now a ≡ true
    → binds wallet now b ≡ true
    → ¬ Compatible a b
binding_clash wallet now a b h k (ids, wallets) =
    ground (arith, text_eq_iff a.wallet_address wallet, text_eq_iff b.wallet_address wallet)

-- In a table that keeps the invariant the lookup of a wallet's ban always answers, and it finds a row
-- exactly when that row carries the wallet in lower case and is active at that moment.
pub find_active_ban_iff :
    (wallet : Text) (now : ℕ) (rows : List Ban) (b : Ban)
    → IsTable rows
    → ((o : Option Ban) × (find_active_ban wallet now rows ≡ ok o))
      × ((find_active_ban wallet now rows ≡ ok (some b)) ↔ (
          Among b rows × (b.wallet_address ≡ to_lower_case wallet) × (is_active_at now b ≡ true)))
unfolding find_active_ban
find_active_ban_iff wallet now rows b t =
    let p = binds (to_lower_case wallet) now in
    let one = filter_single Compatible p rows (binding_clash (to_lower_case wallet) now) t in
    let found = single_iff (filter p rows) b one in
    let kept = Among-filter p rows b in
    let bound = binds_iff (to_lower_case wallet) now b in
    (
      single_ok (filter p rows) one,
      (
        (λ e. let (m, h) = kept.0 (found.0 e) in (m, (bound.0 h).0, (bound.0 h).1)),
        (λ (m, w, a). found.1 (kept.1 (m, bound.1 (w, a)))),
      ),
    )

same_row :
    (rows : List Ban) (a b : Ban) → IsTable rows → Among a rows → Among b rows → a.id ≡ b.id → a ≡ b
same_row [] a b t m n e = absurd m
same_row (row ∷ rows) a b (k, t) (inl x) (inl y) e = x ∙ sym y
same_row (row ∷ rows) a b (k, t) (inl x) (inr n) e =
    absurd ((Among-All (Compatible row) rows b k n).0 (sym (ap (λ (c : Ban). c.id) x) ∙ e))
same_row (row ∷ rows) a b (k, t) (inr m) (inl y) e =
    absurd ((Among-All (Compatible row) rows a k m).0 (sym (ap (λ (c : Ban). c.id) y) ∙ sym e))
same_row (row ∷ rows) a b (k, t) (inr m) (inr n) e = same_row rows a b t m n e

-- A row whose id is among those to expire is itself due.
listed_due :
    (now limit : ℕ) (rows : List Ban) (row : Ban)
    → IsTable rows
    → Among row rows
    → has (map (λ (b : Ban). b.id) (find_to_expire now limit rows)) row.id ≡ true
    → due now row.expires_at ≡ true
unfolding find_to_expire
listed_due now limit rows row t m h =
    let ids = (has_iff (map (λ (b : Ban). b.id) (find_to_expire now limit rows)) row.id).0 h in
    let (b, listed, at) =
      Among-map (λ (b : Ban). b.id) (find_to_expire now limit rows) row.id ids in
    let (n, d) =
      (Among-filter (λ (c : Ban). is_active c.status && due now c.expires_at) rows b).0
        (Among-take limit _ b listed) in
    rw (same_row rows row b t m n at) (ground arith)

-- The job changes no row that binds anyone from its own moment on: whichever rows it flips, every
-- wallet is banned or not exactly as if it had not run, and by the same row.
pub mark_expired_hygiene :
    (now limit later : ℕ) (wallet : Text) (rows : List Ban)
    → IsTable rows
    → now ≤ later
    → find_active_ban wallet later
        (mark_expired (map (λ (b : Ban). b.id) (find_to_expire now limit rows)) now rows)
      ≡ find_active_ban wallet later rows
unfolding find_active_ban mark_expired
mark_expired_hygiene now limit later wallet rows t le = ap maybe_single (
    filter-update_where (binds (to_lower_case wallet) later) _ (expire now) rows
      (λ row m h. (ground (arith, listed_due now limit rows row t m (ground arith)), ground arith)))
